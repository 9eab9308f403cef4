-- ===== src/CamApp/Main/Tests.antt =====
-- Names of cameras, the way into a new root, and a run of the program that captures.
use twincam.Base.{
  neg, ◌≢◌, ◌≡◌, refl, ◌⊎◌, ℕ, true, false, suc, none, some, List, [], ◌∷◌, ℤ, pos, negsuc,
  is_nonzero, leb, ◌==◌, if◌then◌else◌, String,
}
use twincam.Camera.{PixelFormat, StreamConfiguration, FrameBuffer}
use twincam.CameraSession.State.{Build, CameraApi, FrameSink, ConfigStatus}
use twincam.CameraSession.Selection.{init, try_camera}
use twincam.CameraSession.Capture.{Session, start, stop}
use twincam.CamApp.CommandLine.{MainOptions, Opt, PidFile, process_args}
use twincam.CamApp.CommandLine.Effect.{any, leaves, described}
use twincam.CamApp.Startup.{Host, poll, init_app, run}
use twincam.CamApp.Main.{
  Location, location_name, model_name, camera_name, RootCall, chroot_this, started, stopped, Ended,
  camera_after, exec, main, cleanup, started_by,
}
use twincam.CamApp.Main.Exit.{HasRun, main_lem}

external_camera :
    camera_name (record { location = some Location.external; model = some "C920"; id = "usb" })
    ≡ "'C920' (usb)"
unfolding camera_name location_name model_name
external_camera = refl

unnamed_camera :
    camera_name (record { location = some Location.external; model = none; id = "usb" })
    ≡ "External camera (usb)"
unfolding camera_name location_name model_name
unnamed_camera = refl

no_chroot :
    chroot_this (record { chdir_sysroot = pos 0; chroot = negsuc 0; chdir_root = pos 0 })
    ≡ RootCall.chdir_sysroot ∷ RootCall.chroot_here ∷ []
unfolding chroot_this
no_chroot = refl

abbrev one_stream : List StreamConfiguration
one_stream =
    record {
      pixel_format = PixelFormat.yuyv;
      size = record { width = 640; height = 480 };
      stride = 1280;
      stream = 1;
    }
    ∷ []

abbrev buffer : ℕ → FrameBuffer
buffer a = record {
  address = a;
  planes = [];
  metadata = record { sequence = 0; timestamp = 0; planes = [] };
}

-- Camera 0 is taken, camera 1 is free; its stream has two buffers.
abbrev api : CameraApi
api = record {
  acquire = λ c. if c == 0 then negsuc 15 else pos 0;
  generate_configuration = λ c. some one_stream;
  validate = λ cfg. (ConfigStatus.adjusted, cfg);
  configure = λ cfg. pos 0;
  allocate = λ stream. pos 2;
  buffers = λ stream. buffer 100 ∷ buffer 101 ∷ [];
  create_request = λ i. true;
  add_buffer = λ i stream buffer. pos 0;
  start = pos 0;
  queue_request = λ i. pos 0;
}

-- A sink that counts the buffers that it maps.
abbrev sink : FrameSink ℕ
sink = record {
  configure = λ cfg k. some (pos 0, k);
  map_buffer = λ b k. some (suc k);
  start = λ k. some (pos 0, k);
  stop = λ k. some (pos 0, k);
  process_request = λ r k. some (true, k);
}

abbrev ran : Session ℕ → Session ℕ
ran s = s

abbrev pixel_format : String → PixelFormat
pixel_format text = PixelFormat.yuyv

abbrev build : Build
build = record { have_sdl = false; have_drm = true }

abbrev atoi : String → ℤ
atoi text = pos 1

abbrev pid : PidFile
pid = record { writable = true; read = some (pos 321) }

abbrev host : Host
host = record {
  sysfs_exists = λ t. leb 2 t;
  video_exists = λ t. leb 2 t;
  media_exists = λ t. leb 2 t;
  udev_media = λ t. leb 2 t;
  udev_video4linux = λ t. leb 2 t;
  cameras = λ t. if leb 3 t then 2 else 0;
  start = pos 0;
}

abbrev defaults : MainOptions
defaults = record {
  camera = negsuc 0;
  drm = false;
  print_available_cameras = false;
  print_func = false;
  to_syslog = false;
  uptime = false;
  verbose = false;
  sdl = false;
  pf = "YUYV";
  filename = "";
}

abbrev command_line : List Opt
command_line = Opt.camera "1" ∷ Opt.drm ∷ []

abbrev idle : Session ℕ
idle = record {
  stream_names = [];
  queue_count = 7;
  capture_count = 7;
  last = 0;
  sink = 0;
  requests = [];
  queued = [];
  running = false;
}

abbrev options : MainOptions
options = record defaults { camera = pos 1; drm = true }

-- The session has captured, and has been stopped.
abbrev end : Ended ℕ
end = record {
  status = 0;
  manager = started ∷ stopped ∷ [];
  session = some (record idle {
    stream_names = (1, "cam0-stream0") ∷ [];
    queue_count = 2;
    capture_count = 0;
    sink = 2;
  });
  camera = camera_after api sink ran pixel_format options 2;
}

main_run :
    main api sink ran pixel_format build atoi pid false host command_line defaults 0 idle ≡ some end
unfolding main exec cleanup started_by process_args init_app poll run init try_camera start stop
main_run = refl

main_lem_example :
    ((any (leaves build) command_line ≡ true)
      × (end.status ≡ 0)
      × (end.manager ≡ [])
      × (end.session ≡ none))
    ⊎ ((any (leaves build) command_line ≡ false)
        × (((is_nonzero host.start ≡ true)
              × (host.start ≡ neg 4 → end.status ≡ 0)
              × (host.start ≢ neg 4 → end.status ≡ 1)
              × (end.manager ≡ [])
              × (end.session ≡ none))
            ⊎ ((is_nonzero host.start ≡ false)
                × HasRun api sink ran pixel_format
                    (described atoi command_line defaults)
                    (host.cameras (init_app false host 0).1)
                    0
                    idle
                    end)))
main_lem_example =
    main_lem api sink ran pixel_format build atoi pid false host command_line defaults 0 idle end
      refl refl main_run
