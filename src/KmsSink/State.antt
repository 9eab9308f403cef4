-- ===== src/KmsSink/State.antt =====
-- The state of `KMSSink` (src/kms_sink.h). Operations that can run into undefined behaviour or a
-- failed assertion return an `Option`, and `none` stands for that.
use twincam.Base.{ℕ, Option, List}
use twincam.Camera.{PixelFormat, Size, Request}
use twincam.Drm.Types.{Device, Mode}
use twincam.Drm.AtomicRequest.{AtomicRequest}

-- `KMSSink::Request`. `address` tells the `AtomicRequest` objects apart.
pub record SinkRequest : Type 0 where
  pub drm_request : AtomicRequest
  pub address : ℕ
  pub cam_request : Request

-- `connector`, `crtc` and `plane` point into the device's lists; `buffers` goes from the address of a
-- camera buffer to the id of its framebuffer. `next_address` is the address of the next request.
pub record KmsSink : Type 0 where
  pub dev : Device
  pub connector : Option ℕ
  pub crtc : Option ℕ
  pub plane : Option ℕ
  pub mode : Option Mode
  pub format : PixelFormat
  pub size : Size
  pub stride : ℕ
  pub x : ℕ
  pub y : ℕ
  pub buffers : List (ℕ × ℕ)
  pub pending : Option SinkRequest
  pub queued : Option SinkRequest
  pub active : Option SinkRequest
  pub next_address : ℕ
