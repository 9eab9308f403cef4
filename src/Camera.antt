-- ===== src/Camera.antt =====
-- What the program uses of libcamera's data: formats, sizes, buffers and requests. libcamera is not
-- part of the repository; only the fields and constants that the code reads stand here.
use twincam.Base.{ℕ, List, ◌∷◌}

-- `libcamera::PixelFormat`, by the constants of `libcamera::formats` that the code names. `invalid` is
-- the format that the default constructor makes.
pub data PixelFormat : Type 0 where
  invalid nv24 nv42 yuv420 yvu420 yuv422 : PixelFormat
  abgr8888 argb8888 bgra8888 rgba8888 xbgr8888 xrgb8888 bgrx8888 rgbx8888 : PixelFormat
  mjpeg nv12 yuyv : PixelFormat
  other : ℕ → PixelFormat

pub record Size : Type 0 where
  pub width : ℕ
  pub height : ℕ

-- `stream` is the address of the `Stream` that the configuration has been given.
pub record StreamConfiguration : Type 0 where
  pub pixel_format : PixelFormat
  pub size : Size
  pub stride : ℕ
  pub stream : ℕ

-- `FrameBuffer::Plane`
pub record FramePlane : Type 0 where
  pub fd : ℕ
  pub offset : ℕ
  pub length : ℕ

-- `FrameMetadata`; `planes` are the `bytesused`.
pub record FrameMetadata : Type 0 where
  pub sequence : ℕ
  pub timestamp : ℕ
  pub planes : List ℕ

-- `libcamera::FrameBuffer`, with its address.
pub record FrameBuffer : Type 0 where
  pub address : ℕ
  pub planes : List FramePlane
  pub metadata : FrameMetadata

-- `Request::Status`
pub data RequestStatus : Type 0 where
  pending complete cancelled : RequestStatus

-- `Request`, with its address. The buffer map goes from streams to buffers and is not empty:
-- libcamera queues no request without a buffer.
pub record Request : Type 0 where
  pub address : ℕ
  pub status : RequestStatus
  pub first : ℕ × FrameBuffer
  pub others : List (ℕ × FrameBuffer)

-- `request->buffers()`, in the order of the map.
abbrev pub buffers : Request → List (ℕ × FrameBuffer)
buffers r = r.first ∷ r.others
