-- ===== src/CamApp/CommandLine/Effect.antt =====
-- What the command line comes to (src/twincam.cpp, processArgs).
use twincam.Base.{
  ◌≡◌, refl, ◌⊎◌, inl, inr, Bool, true, false, not, ◌||◌, Option, none, some, List, [], ◌∷◌, ℤ,
  String, arith, Bool-cases,
}
use twincam.CameraSession.State.{Build}
use twincam.CamApp.CommandLine.{MainOptions, Opt, PidFile, process_args}

abbrev pub any : (Opt → Bool) → List Opt → Bool
any test [] = false
any test (d ∷ ds) = test d || any test ds

-- The last argument that an option gives, or the default.
abbrev last_arg {ℓ} : {A : Type ℓ} → (Opt → Option A) → List Opt → A → A
last_arg f [] a = a
last_arg f (d ∷ ds) a = last_arg f ds (elim (f d) [ none ↦ a | some b ↦ b ])

-- The options that make the program return at once.
abbrev pub leaves : Build → Opt → Bool
leaves b Opt.kill = true
leaves b Opt.new_root_dir = true
leaves b Opt.help = true
leaves b Opt.drm = not b.have_drm
leaves b Opt.sdl = not b.have_sdl
leaves b _ = false

abbrev camera_arg : (String → ℤ) → Opt → Option ℤ
camera_arg atoi (Opt.camera text) = some (atoi text)
camera_arg atoi _ = none

abbrev filename_arg : Opt → Option String
filename_arg (Opt.filename text) = some text
filename_arg _ = none

abbrev pf_arg : Opt → Option String
pf_arg (Opt.pixel_format text) = some text
pf_arg _ = none

abbrev is_drm : Opt → Bool
is_drm Opt.drm = true
is_drm _ = false

abbrev is_sdl : Opt → Bool
is_sdl Opt.sdl = true
is_sdl _ = false

abbrev is_list_cameras : Opt → Bool
is_list_cameras Opt.list_cameras = true
is_list_cameras _ = false

abbrev is_function : Opt → Bool
is_function Opt.function = true
is_function _ = false

abbrev is_syslog : Opt → Bool
is_syslog Opt.syslog = true
is_syslog _ = false

abbrev is_uptime : Opt → Bool
is_uptime Opt.uptime = true
is_uptime _ = false

abbrev is_verbose : Opt → Bool
is_verbose Opt.verbose = true
is_verbose _ = false

-- Flags are set by any of their options, arguments by the last one.
abbrev pub described : (String → ℤ) → List Opt → MainOptions → MainOptions
described atoi ds o = record {
  camera = last_arg (camera_arg atoi) ds o.camera;
  drm = any is_drm ds || o.drm;
  print_available_cameras = any is_list_cameras ds || o.print_available_cameras;
  print_func = any is_function ds || o.print_func;
  to_syslog = any is_syslog ds || o.to_syslog;
  uptime = any is_uptime ds || o.uptime;
  verbose = any is_verbose ds || o.verbose;
  sdl = any is_sdl ds || o.sdl;
  pf = last_arg pf_arg ds o.pf;
  filename = last_arg filename_arg ds o.filename;
}

-- Without an option that makes the program leave (kill, new root directory, help or one that is not
-- known, and DRM or SDL in a build without it), `processArgs` returns 0, and the flags are set
-- that any option sets, and each argument is the last that was given. With one it returns 1.
pub process_args_lem :
    (b : Build) (atoi : String → ℤ) (pid : PidFile) (ds : List Opt) (o : MainOptions)
    → let out = process_args b atoi pid ds o in
      ((any (leaves b) ds ≡ false) × (out.0 ≡ 0) × (out.1 ≡ described atoi ds o))
      ⊎ ((any (leaves b) ds ≡ true) × (out.0 ≡ 1))
unfolding process_args
process_args_lem b atoi pid [] o = inl (refl, refl, ground arith)
process_args_lem b atoi pid (Opt.camera text ∷ ds) o =
    ground (arith, process_args_lem b atoi pid ds (record o { camera = atoi text }))
process_args_lem b atoi pid (Opt.filename text ∷ ds) o =
    ground (arith, process_args_lem b atoi pid ds (record o { filename = text }))
process_args_lem b atoi pid (Opt.pixel_format text ∷ ds) o =
    ground (arith, process_args_lem b atoi pid ds (record o { pf = text }))
process_args_lem b atoi pid (Opt.daemon ∷ ds) o = ground (arith, process_args_lem b atoi pid ds o)
process_args_lem b atoi pid (Opt.list_cameras ∷ ds) o =
    ground (arith, process_args_lem b atoi pid ds (record o { print_available_cameras = true }))
process_args_lem b atoi pid (Opt.function ∷ ds) o =
    ground (arith, process_args_lem b atoi pid ds (record o { print_func = true }))
process_args_lem b atoi pid (Opt.syslog ∷ ds) o =
    ground (arith, process_args_lem b atoi pid ds (record o { to_syslog = true }))
process_args_lem b atoi pid (Opt.uptime ∷ ds) o =
    ground (arith, process_args_lem b atoi pid ds (record o { uptime = true }))
process_args_lem b atoi pid (Opt.verbose ∷ ds) o =
    ground (arith, process_args_lem b atoi pid ds (record o { verbose = true }))
process_args_lem b atoi pid (Opt.drm ∷ ds) o = elim (Bool-cases b.have_drm) [
  | inl has ↦ ground (arith, process_args_lem b atoi pid ds (record o { drm = true }))
  | inr lacks ↦ inr (ground arith, ground arith)
]
process_args_lem b atoi pid (Opt.sdl ∷ ds) o = elim (Bool-cases b.have_sdl) [
  | inl has ↦ ground (arith, process_args_lem b atoi pid ds (record o { sdl = true }))
  | inr lacks ↦ inr (ground arith, ground arith)
]
process_args_lem b atoi pid (Opt.kill ∷ ds) o = inr (refl, refl)
process_args_lem b atoi pid (Opt.new_root_dir ∷ ds) o = inr (refl, refl)
process_args_lem b atoi pid (Opt.help ∷ ds) o = inr (refl, refl)
