-- ===== src/CamApp/CommandLine.antt =====
-- `processArgs` (src/twincam.cpp) and `options` (src/twincam.h). `getopt_long` is a parameter: what it
-- gives, up to its end, is a list.
pub mod Effect
use twincam.Base.{
  ℕ, Bool, true, false, Option, none, some, List, [], ◌∷◌, ◌++◌, ℤ, String, if◌then◌else◌,
}
use twincam.CameraSession.State.{Build}

-- `options`
pub record MainOptions : Type 0 where
  pub camera : ℤ
  pub drm : Bool
  pub print_available_cameras : Bool
  pub print_func : Bool
  pub to_syslog : Bool
  pub uptime : Bool
  pub verbose : Bool
  pub sdl : Bool
  pub pf : String
  pub filename : String

-- An option with its argument; `help` is also any option that is not known.
pub data Opt : Type 0 where
  camera filename pixel_format : String → Opt
  daemon drm function help kill list_cameras new_root_dir sdl syslog uptime verbose : Opt

-- What an option does besides: the pid file is written, or a signal goes to the number that was read
-- from it, which is none where it could not be read (the buffer is not initialised then).
pub data SideEffect : Type 0 where
  write_pid : SideEffect
  sigterm sigusr1 : Option ℤ → SideEffect

-- The pid file: whether it can be opened for writing, and the number that is read from it.
pub record PidFile : Type 0 where
  pub writable : Bool
  pub read : Option ℤ

-- What a turn of the loop does: it goes on, or the function returns 1.
pub data Turn : Type 0 where
  goes_on : MainOptions → List SideEffect → Turn
  returns : List SideEffect → Turn

module _ (b : Build) (atoi : String → ℤ) (pid : PidFile) where
  -- The `switch` of `processArgs`. The cases for DRM and SDL are there in a build that has them.
  pub handle : Opt → MainOptions → Turn
  handle (Opt.camera text) o = goes_on (record o { camera = atoi text }) []
  handle Opt.daemon o = goes_on o (if pid.writable then SideEffect.write_pid ∷ [] else [])
  handle Opt.drm o = if b.have_drm then goes_on (record o { drm = true }) [] else returns []
  handle (Opt.filename text) o = goes_on (record o { filename = text }) []
  handle Opt.function o = goes_on (record o { print_func = true }) []
  handle Opt.kill o = returns (SideEffect.sigterm pid.read ∷ [])
  handle Opt.list_cameras o = goes_on (record o { print_available_cameras = true }) []
  handle Opt.new_root_dir o = returns (SideEffect.sigusr1 pid.read ∷ [])
  handle (Opt.pixel_format text) o = goes_on (record o { pf = text }) []
  handle Opt.sdl o = if b.have_sdl then goes_on (record o { sdl = true }) [] else returns []
  handle Opt.syslog o = goes_on (record o { to_syslog = true }) []
  handle Opt.uptime o = goes_on (record o { uptime = true }) []
  handle Opt.verbose o = goes_on (record o { verbose = true }) []
  handle Opt.help o = returns []

  -- `processArgs`: the return code, the options and the effects in order.
  unfoldable pub process_args : List Opt → MainOptions → ℕ × MainOptions × List SideEffect
  unfolding handle
  process_args [] o = (0, o, [])
  process_args (d ∷ ds) o = elim (handle d o) [
    | returns effects ↦ (1, o, effects)
    | goes_on o' effects ↦
        let (code, o'', more) = process_args ds o' in (code, o'', effects ++ more)
  ]
