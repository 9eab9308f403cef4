-- ===== src/KmsSink/Setup.antt =====
-- The construction of the sink and its buffers (src/kms_sink.cpp).
pub mod Connectors
pub mod Buffers
use mathlib.Core.List.{tail}
use twincam.Base.{
  ◌>>=◌, ℕ, suc, ◌*◌, ◌/◌, ◌%◌, ◌^◌, Bool, true, false, not, Option, none, some, List, [], ◌∷◌, ℤ,
  is_neg, is_some, ltb, ◌==◌, if◌then◌else◌, set, String, str_eq,
}
use twincam.Camera.{PixelFormat, FramePlane, FrameBuffer}
use twincam.Drm.Types.{Device, Connector, Status}
use twincam.Drm.FrameBuffer.{PrimeApi, Created, created, null, undefined, create_frame_buffer}
use twincam.KmsSink.State.{KmsSink}

-- The end of the loop's body in `findRequestedConnector`, where no name is asked for.
visit_status : Status → ℕ → Option ℕ → Option ℕ × Bool
visit_status Status.connected i chosen = (some i, true)
visit_status Status.unknown i chosen = (if is_some chosen then chosen else some i, false)
visit_status Status.disconnected i chosen = (chosen, false)

-- One connector of that loop: what `connector_` is after it, and whether the function has returned.
visit : String → ℕ → Connector → Option ℕ → Option ℕ × Bool
unfolding visit_status
visit name i c chosen =
    if not (str_eq name "")
    then (if not (str_eq c.name name) then (chosen, false) else (some i, true))
    else visit_status c.status i chosen

-- `findRequestedConnector` over the connectors from position `i` on.
pub find_requested_connector : String → ℕ → List Connector → Option ℕ → Option ℕ
unfolding visit
find_requested_connector name i [] chosen = chosen
find_requested_connector name i (c ∷ cs) chosen =
    let (chosen', done) = visit name i c chosen in
    let rest = find_requested_connector name (suc i) cs chosen' in if done then chosen' else rest

-- `KMSSink::KMSSink`, with the return code and the device of `dev_.init()`. The size, the stride and
-- the position are not initialised.
new_sink : ℤ → Device → String → KmsSink
unfolding find_requested_connector
new_sink ret dev name = record {
  dev = dev;
  connector = if is_neg ret then none else find_requested_connector name 0 dev.connectors none;
  crtc = none;
  plane = none;
  mode = none;
  format = PixelFormat.invalid;
  size = record { width = 0; height = 0 };
  stride = 0;
  x = 0;
  y = 0;
  buffers = [];
  pending = none;
  queued = none;
  active = none;
  next_address = 0;
}

abbrev uv_stride_multiplier : PixelFormat → ℕ
uv_stride_multiplier PixelFormat.nv24 = 4
uv_stride_multiplier PixelFormat.nv42 = 4
uv_stride_multiplier PixelFormat.yuv420 = 1
uv_stride_multiplier PixelFormat.yvu420 = 1
uv_stride_multiplier PixelFormat.yuv422 = 1
uv_stride_multiplier _ = 2

-- `strides[i] = …` for the planes behind the first; the array has four places.
fill_strides : List FramePlane → ℕ → ℕ → List ℕ → Option (List ℕ)
fill_strides [] i v strides = some strides
fill_strides (p ∷ ps) i v strides =
    let rest = fill_strides ps (suc i) v (set strides i v) in if ltb i 4 then rest else none

-- `std::map::emplace`: a key that is there keeps its value.
pub emplace : ℕ → ℕ → List (ℕ × ℕ) → List (ℕ × ℕ)
emplace k v [] = (k, v) ∷ []
emplace k v ((j, w) ∷ m) = if k == j then (j, w) ∷ m else (j, w) ∷ emplace k v m

-- `buffers_.find(buffer)`
unfoldable pub find_buffer : ℕ → List (ℕ × ℕ) → Option ℕ
find_buffer k [] = none
find_buffer k ((j, w) ∷ m) = if k == j then some w else find_buffer k m

keep_buffer : ℕ → Created → KmsSink → Option KmsSink
unfolding emplace
keep_buffer buffer undefined s = none
keep_buffer buffer (null closed) s = some s
keep_buffer buffer (created fb) s = some (record s { buffers = emplace buffer fb.id s.buffers })

-- The strides that `mapBuffer` makes, where the planes fit the array.
pub strides_of : PixelFormat → ℕ → List FramePlane → Option (List ℕ)
unfolding fill_strides
strides_of format stride planes =
    fill_strides (tail planes) 1 (stride * uv_stride_multiplier format % 2 ^ 32 / 2)
      (stride ∷ 0 ∷ 0 ∷ 0 ∷ [])

-- `mapBuffer`; `fourcc` gives the code of a format.
pub map_buffer : PrimeApi → (PixelFormat → ℕ) → FrameBuffer → KmsSink → Option KmsSink
unfolding strides_of keep_buffer create_frame_buffer
map_buffer api fourcc buffer s = do
  strides ← strides_of s.format s.stride buffer.planes
  keep_buffer buffer.address
      (create_frame_buffer api buffer.planes (fourcc s.format) s.size strides) s
