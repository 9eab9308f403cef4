-- ===== src/CameraSession/State.antt =====
-- The state of `CameraSession` (src/camera_session.h), the options that it reads, and the interface of
-- a sink (src/frame_sink.h).
use twincam.Base.{ℕ, Bool, Option, List, ℤ, String}
use twincam.Camera.{PixelFormat, StreamConfiguration, FrameBuffer, Request}

-- The fields of `opts` (src/twincam.h) that the session reads. A negative number is no camera.
pub record Options : Type 0 where
  pub camera : ℤ
  pub drm : Bool
  pub sdl : Bool
  pub pf : PixelFormat
  pub filename : String

-- HAVE_SDL and HAVE_DRM
pub record Build : Type 0 where
  pub have_sdl : Bool
  pub have_drm : Bool

-- `CameraConfiguration::Status`
pub data ConfigStatus : Type 0 where
  valid adjusted invalid : ConfigStatus

-- The results of libcamera's calls. Cameras are numbered by their place in `cameras()`; requests by the
-- order in which they are made.
pub record CameraApi : Type 0 where
  pub acquire : ℕ → ℤ
  pub generate_configuration : ℕ → Option (List StreamConfiguration)
  pub validate : List StreamConfiguration → ConfigStatus × List StreamConfiguration
  pub configure : List StreamConfiguration → ℤ
  pub allocate : ℕ → ℤ
  pub buffers : ℕ → List FrameBuffer
  pub create_request : ℕ → Bool
  pub add_buffer : ℕ → ℕ → FrameBuffer → ℤ
  pub start : ℤ
  pub queue_request : ℕ → ℤ

-- `FrameSink`: a sink with the state `S`. Where an operation can run into undefined behaviour or a
-- failed assertion, none stands for that.
pub record FrameSink (S : Type 0) : Type 0 where
  pub configure : List StreamConfiguration → S → Option (ℤ × S)
  pub map_buffer : FrameBuffer → S → Option S
  pub start : S → Option (ℤ × S)
  pub stop : S → Option (ℤ × S)
  pub process_request : Request → S → Option (Bool × S)

-- The camera and its configuration. `held` and `stray` are libcamera's side: the camera that
-- has been acquired and not released, and the releases of cameras that were not acquired.
pub record Selected : Type 0 where
  pub camera : Option ℕ
  pub config : Option (List StreamConfiguration)
  pub held : Option ℕ
  pub stray : List ℕ
