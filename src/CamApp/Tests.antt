-- ===== src/CamApp/Tests.antt =====
-- The command line and the start at concrete inputs.
use twincam.Base.{
  ◌+◌, ◌≤◌, ◌≡◌, ◌⊎◌, true, false, some, List, [], ◌∷◌, ℤ, pos, negsuc, is_nonzero, leb,
  if◌then◌else◌, String,
}
use twincam.CameraSession.State.{Build}
use twincam.CamApp.CommandLine.{MainOptions, Opt, PidFile, process_args}
use twincam.CamApp.CommandLine.Effect.{any, leaves, described, process_args_lem}
use twincam.CamApp.Startup.{Host, init_app}
use twincam.CamApp.Startup.Polling.{init_app_lem}

abbrev defaults : MainOptions
defaults = record {
  camera = negsuc 0;
  drm = false;
  print_available_cameras = false;
  print_func = false;
  to_syslog = false;
  uptime = false;
  verbose = false;
  sdl = false;
  pf = "YUYV";
  filename = "";
}

abbrev build : Build
build = record { have_sdl = false; have_drm = true }

abbrev atoi : String → ℤ
atoi text = pos 1

abbrev pid : PidFile
pid = record { writable = true; read = some (pos 321) }

abbrev command_line : List Opt
command_line =
    Opt.camera "1"
    ∷ Opt.drm
    ∷ Opt.filename "a.raw"
    ∷ Opt.verbose
    ∷ Opt.filename "b.raw"
    ∷ Opt.daemon
    ∷ []

process_args_lem_example :
    let out = process_args build atoi pid command_line defaults in
    ((any (leaves build) command_line ≡ false)
      × (out.0 ≡ 0)
      × (out.1 ≡ described atoi command_line defaults))
    ⊎ ((any (leaves build) command_line ≡ true) × (out.0 ≡ 1))
process_args_lem_example = process_args_lem build atoi pid command_line defaults

-- A host on which everything is there after 50 sleeps but no camera ever appears.
abbrev host : Host
host = record {
  sysfs_exists = λ t. leb 50 t;
  video_exists = λ t. leb 50 t;
  media_exists = λ t. leb 50 t;
  udev_media = λ t. leb 50 t;
  udev_video4linux = λ t. leb 50 t;
  cameras = λ t. 0;
  start = pos 0;
}

init_app_lem_example :
    let (ret, time) = init_app true host 0 in
    (((ret ≡ pos 0) × (is_nonzero host.start ≡ false))
      ⊎ ((ret ≡ host.start) × (is_nonzero host.start ≡ true)))
    × (0 ≤ time)
    × (time ≤ 0 + (if true then 2400 else 1600))
init_app_lem_example = init_app_lem true host 0
