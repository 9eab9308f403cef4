-- ===== src/CamApp/Startup.antt =====
-- `CamApp::init` and `CamApp::run` (src/twincam.cpp). Time is counted in sleeps of 10 ms.
pub mod Polling
pub mod Sessions
pub mod Promptness
use twincam.Base.{
  ◌>>=◌, ℕ, zero, suc, Bool, true, false, not, Option, none, some, List, [], ◌∷◌, ℤ, pos,
  is_nonzero, is_some, if◌then◌else◌, ◌==◌,
}
use twincam.Camera.{StreamConfiguration}
use twincam.CameraSession.State.{CameraApi, FrameSink, Options, Selected}
use twincam.CameraSession.Selection.{init, new_session}
use twincam.CameraSession.Capture.{Session, start, stop}

-- What the system shows at a time: whether sysfs has media devices, whether /dev has an entry with a
-- prefix, whether `wait_for_udev` returns 0 for a subsystem, and the number of cameras of libcamera;
-- and what the camera manager's `start` returns.
pub record Host : Type 0 where
  pub sysfs_exists : ℕ → Bool
  pub video_exists : ℕ → Bool
  pub media_exists : ℕ → Bool
  pub udev_media : ℕ → Bool
  pub udev_video4linux : ℕ → Bool
  pub cameras : ℕ → ℕ
  pub start : ℤ

-- A loop of `n` turns at most that looks and then sleeps, from a time on: whether it has found what it
-- looks for, and the time then.
unfoldable pub poll : (ℕ → Bool) → ℕ → ℕ → Bool × ℕ
poll look zero now = (false, now)
poll look (suc n) now = let rest = poll look n (suc now) in if look now then (true, now) else rest

-- `end`
abbrev pub turns : ℕ
turns = 400

-- The waits of `init` before the camera manager is started; those for udev are there in a build with
-- libudev. Not to find something is only printed.
pub wait_for_devices : Bool → Host → ℕ → ℕ
wait_for_devices have_libudev h now =
    let sysfs = (poll h.sysfs_exists turns now).1 in
    let video = (poll h.video_exists turns sysfs).1 in
    let media = (poll h.media_exists turns video).1 in
    let udev = (poll h.udev_media turns media).1 in
    if have_libudev then (poll h.udev_video4linux turns udev).1 else media

-- `cameras().empty()`
abbrev pub has_cameras : Host → ℕ → Bool
has_cameras h t = not (h.cameras t == 0)

-- `CamApp::init`: the return code and the time.
unfoldable pub init_app : Bool → Host → ℕ → ℤ × ℕ
unfolding wait_for_devices
init_app have_libudev h now =
    let started = wait_for_devices have_libudev h now in
    if is_nonzero h.start
    then (h.start, started)
    else (pos 0, (poll (has_cameras h) turns started).1)

-- The configuration of a session that has been initialised.
abbrev config_of : Selected → List StreamConfiguration
config_of s = elim s.config [ none ↦ [] | some config ↦ config ]

module _ {S : Type 0} (api : CameraApi) (sink : FrameSink S) (ran : Session S → Session S) where
  -- `loop_.exec()`, in which the callbacks change the session by `ran`, and `session.stop()`.
  pub capture : Session S → Option (ℤ × Option (Session S))
  unfolding stop
  capture s = do s' ← stop api sink (ran s); some (pos 0, some s')

  pub start_session : S → Session S → ℤ × Selected → Option (ℤ × Option (Session S))
  unfolding start capture
  start_session k idle (ret, selected) = if is_nonzero ret then some (ret, none) else (do
    (ret', s) ← start api sink (config_of selected) k idle
    if is_nonzero ret' then some (ret', some s) else capture s)

  -- `CamApp::run`, with `n` cameras, the state `k` of a new sink and a new session: the return code and
  -- the session, if one has been started.
  unfoldable pub run : Bool → Options → ℕ → S → Session S → Option (ℤ × Option (Session S))
  unfolding init start_session
  run print_available_cameras opts n k idle =
      if print_available_cameras
      then some (pos 0, none)
      else if n == 0
      then some (pos 0, none)
      else start_session k idle (init api opts n new_session)

-- The exit status of `main`, after `processArgs` and `init` have returned 0, by the result of `exec`.
abbrev pub exit_status : ℤ → ℕ
exit_status ret = if is_nonzero ret then 1 else 0
