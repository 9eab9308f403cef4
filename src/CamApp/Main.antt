-- ===== src/CamApp/Main.antt =====
-- `main`, `CamApp::exec`, the signal handlers and `cameraName` (src/twincam.cpp).
pub mod Exit
mod Tests
use twincam.Base.{
  ◌>>=◌, ℕ, zero, suc, Bool, true, false, not, Option, none, some, List, [], ◌∷◌, ◌++◌, ℤ, pos,
  negsuc, neg, is_nonzero, String, str_append, if◌then◌else◌, ◌==◌,
}
use twincam.Camera.{PixelFormat}
use twincam.CameraSession.State.{CameraApi, FrameSink, Options, Selected, Build}
use twincam.CameraSession.Selection.{init, new_session, destroy}
use twincam.CameraSession.Capture.{Session}
use twincam.EventLoop.{EventLoop, exit}
use twincam.CamApp.CommandLine.{MainOptions, Opt, PidFile, process_args}
use twincam.CamApp.Startup.{Host, init_app, run, exit_status}

-- `properties::Location` of a camera; `elsewhere` is any other number.
pub data Location : Type 0 where
  front back external elsewhere : Location

-- What `cameraName` reads of a camera.
pub record CameraTexts : Type 0 where
  pub location : Option Location
  pub model : Option String
  pub id : String

-- `addModel` and the name by the location, before the model is looked at.
pub location_name : Option Location → Bool × String
location_name none = (true, "")
location_name (some front) = (false, "Internal front camera ")
location_name (some back) = (false, "Internal back camera ")
location_name (some external) = (true, "External camera ")
location_name (some elsewhere) = (true, "")

-- The model takes the place of the name so far.
pub model_name : Option String → String → String
model_name none name = name
model_name (some model) name = str_append "'" (str_append model "' ")

-- `cameraName`
pub camera_name : CameraTexts → String
camera_name c =
    let (add_model, by_location) = location_name c.location in
    let name = if add_model then model_name c.model by_location else by_location in
    str_append name (str_append "(" (str_append c.id ")"))

-- `signalHandler` and `printExit`, which differ in what they print: the loop is left by `CamApp::quit`, and
-- whether the log is closed.
pub signal_handler : {C : Type 0} → MainOptions → EventLoop C → EventLoop C × Bool
signal_handler o l = (exit (pos 0) l, o.to_syslog)

-- The calls of `chrootThis`.
pub data RootCall : Type 0 where
  chdir_sysroot chroot_here chdir_root set_locale : RootCall

-- What the first three of them return.
pub record RootApi : Type 0 where
  pub chdir_sysroot : ℤ
  pub chroot : ℤ
  pub chdir_root : ℤ

-- `chrootThis`: the calls that it makes, in order.
pub chroot_this : RootApi → List RootCall
chroot_this api =
    RootCall.chdir_sysroot
    ∷ (if is_nonzero api.chdir_sysroot
        then []
        else RootCall.chroot_here
          ∷ (if is_nonzero api.chroot
              then []
              else RootCall.chdir_root
                ∷ (if is_nonzero api.chdir_root then [] else RootCall.set_locale ∷ [])))

-- What happens to the camera manager.
pub data ManagerCall : Type 0 where
  started stopped : ManagerCall

-- `CamApp::cleanup`, after what has happened so far.
pub cleanup : List ManagerCall → List ManagerCall
cleanup calls = calls ++ stopped ∷ []

-- What `CamApp::init` has done, by its result: nothing where it could not start the camera manager.
pub started_by : ℤ → List ManagerCall
started_by ret = if is_nonzero ret then [] else started ∷ []

-- How `main` ends: the exit status, what it did to the camera manager, and of the session of `run`, if there
-- was one, the session if it got to its start and the camera after the destructor.
pub record Ended (S : Type 0) : Type 0 where
  pub status : ℕ
  pub manager : List ManagerCall
  pub session : Option (Session S)
  pub camera : Option Selected

-- The exit status after an error of `CamApp::init`; -4 is -EINTR.
pub init_status : ℤ → ℕ
init_status (pos n) = 1
init_status (negsuc n) = if n == 3 then 0 else 1

module _ {S : Type 0} (api : CameraApi) (sink : FrameSink S) (ran : Session S → Session S)
    (pixel_format : String → PixelFormat) where
  -- What a session reads of the options.
  abbrev pub session_options : MainOptions → Options
  session_options o = record {
    camera = o.camera;
    drm = o.drm;
    sdl = o.sdl;
    pf = pixel_format o.pf;
    filename = o.filename;
  }

  -- The camera of the session of `run` after its destructor.
  pub camera_after : MainOptions → ℕ → Option Selected
  camera_after o n =
      if o.print_available_cameras
      then none
      else if n == 0
      then none
      else some (destroy (init api (session_options o) n new_session).1)

  -- `CamApp::exec` after some calls, and the end of `main`.
  pub exec : List ManagerCall → MainOptions → ℕ → S → Session S → Option (Ended S)
  exec calls o n k idle = do
    (ret, session) ← run api sink ran o.print_available_cameras (session_options o) n k idle
    some (record {
      status = exit_status ret;
      manager = cleanup calls;
      session = session;
      camera = camera_after o n;
    })

  -- An end of `main` before `exec`, after some calls.
  abbrev pub leave : ℕ → List ManagerCall → Option (Ended S)
  leave status calls =
      some (record { status = status; manager = calls; session = none; camera = none })

  -- `main`, with the state of the new sink and the new session that `run` makes.
  pub main :
      Build
      → (String → ℤ)
      → PidFile
      → Bool
      → Host
      → List Opt
      → MainOptions
      → S
      → Session S
      → Option (Ended S)
  main b atoi pid have_libudev host ds opts k idle =
      let (code, o, effects) = process_args b atoi pid ds opts in
      let (ret, time) = init_app have_libudev host 0 in
      if not (code == 0)
      then leave 0 []
      else if is_nonzero ret
      then leave (init_status ret) (started_by ret)
      else exec (started_by ret) o (host.cameras time) k idle
