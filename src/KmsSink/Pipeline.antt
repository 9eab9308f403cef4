-- ===== src/KmsSink/Pipeline.antt =====
-- The choice of the display pipeline and of the mode (src/kms_sink.cpp).
pub mod Selection
pub mod Geometry
use twincam.Base.{
  ◌>>=◌, ℕ, ◌+◌, ◌-◌, ◌/◌, ◌%◌, ◌^◌, Bool, true, false, Option, none, some, List, [], ◌∷◌, ℤ, pos,
  neg, is_neg, is_nonzero, einval, epipe, if◌then◌else◌, get_elem?,
}
use twincam.Camera.{PixelFormat, StreamConfiguration}
use twincam.Drm.Types.{Device, Connector, Encoder, Crtc, Plane, PlaneType, Mode}
use twincam.Drm.Objects.{supports_format}
use twincam.KmsSink.State.{KmsSink}

-- The X variant of a format with an alpha channel, and else the invalid format.
abbrev pub x_format : PixelFormat → PixelFormat
x_format PixelFormat.abgr8888 = PixelFormat.xbgr8888
x_format PixelFormat.argb8888 = PixelFormat.xrgb8888
x_format PixelFormat.bgra8888 = PixelFormat.bgrx8888
x_format PixelFormat.rgba8888 = PixelFormat.rgbx8888
x_format _ = PixelFormat.invalid

abbrev or_else {ℓ} : {A : Type ℓ} → Option A → Option A → Option A
or_else none b = b
or_else (some a) b = some a

-- The first answer that a loop finds before it returns.
pub first_some {ℓ κ} : {A : Type ℓ} {B : Type κ} → (A → Option B) → List A → Option B
first_some f [] = none
first_some f (a ∷ as') = or_else (f a) (first_some f as')

abbrev is_primary_type : Option PlaneType → Bool
is_primary_type (some PlaneType.primary) = true
is_primary_type _ = false

-- What `selectPipeline` sets.
pub record Choice : Type 0 where
  pub crtc : ℕ
  pub plane : ℕ
  pub format : PixelFormat

pub choose_format : (PixelFormat → ℕ) → PixelFormat → Plane → Option PixelFormat
choose_format fourcc format p =
    if is_primary_type p.type
    then if supports_format p (fourcc format)
      then some format
      else if supports_format p (fourcc (x_format format))
      then some (x_format format)
      else none
    else none

module _ (fourcc : PixelFormat → ℕ) (d : Device) (format : PixelFormat) where
  -- One plane of the innermost loop, and the three loops.
  pub try_plane : ℕ → ℕ → Option Choice
  unfolding choose_format
  try_plane crtc plane = do
    p ← get_elem? d.planes plane
    f ← choose_format fourcc format p
    some (record { crtc = crtc; plane = plane; format = f })

  pub try_crtc : ℕ → Option Choice
  unfolding try_plane first_some
  try_crtc crtc = do c ← get_elem? d.crtcs crtc; first_some (try_plane crtc) c.planes

  pub try_encoder : ℕ → Option Choice
  unfolding try_crtc first_some
  try_encoder encoder = do e ← get_elem? d.encoders encoder; first_some try_crtc e.possible_crtcs

  pub choose : Connector → Option Choice
  unfolding try_encoder first_some
  choose c = first_some try_encoder c.encoders

apply : Option Choice → KmsSink → ℤ × KmsSink
apply none s = (neg epipe, s)
apply (some c) s = (pos 0, record s { crtc = some c.crtc; plane = some c.plane; format = c.format })

-- `selectPipeline`, at the connector of the sink.
pub select_pipeline : (PixelFormat → ℕ) → PixelFormat → Connector → KmsSink → ℤ × KmsSink
unfolding choose apply
select_pipeline fourcc format c s = apply (choose fourcc s.dev format c) s

pub configure_pipeline : (PixelFormat → ℕ) → PixelFormat → Connector → KmsSink → ℤ × KmsSink
unfolding select_pipeline
configure_pipeline fourcc format c s =
    let (ret, s') = select_pipeline fourcc format c s in
    if is_nonzero ret then (ret, s') else (pos 0, s')

-- `(display - size) / 2` of unsigned 32-bit numbers.
abbrev pub centre : ℕ → ℕ → ℕ
centre display size = (display + 2 ^ 32 - size) % 2 ^ 32 / 2

set_mode : Mode → StreamConfiguration → KmsSink → KmsSink
set_mode m cfg s = record s {
  mode = some m;
  size = cfg.size;
  x = centre m.hdisplay cfg.size.width;
  y = centre m.vdisplay cfg.size.height;
  stride = cfg.stride;
}

use_first_mode : List Mode → StreamConfiguration → KmsSink → Option (ℤ × KmsSink)
unfolding set_mode
use_first_mode [] cfg s = none
use_first_mode (m ∷ ms) cfg s = some (pos 0, set_mode m cfg s)

abbrev reset : KmsSink → KmsSink
reset s = record s { crtc = none; plane = none; mode = none }

configure_connector :
    (PixelFormat → ℕ) → StreamConfiguration → Connector → KmsSink → Option (ℤ × KmsSink)
unfolding configure_pipeline use_first_mode
configure_connector fourcc cfg c s =
    let (ret, s') = configure_pipeline fourcc cfg.pixel_format c (reset s) in
    if is_neg ret then some (ret, s') else use_first_mode c.modes cfg s'

-- `configure`, with `config.at(0)`. Without a connector it returns -EINVAL.
unfoldable pub configure : (PixelFormat → ℕ) → StreamConfiguration → KmsSink → Option (ℤ × KmsSink)
unfolding configure_connector
configure fourcc cfg s = elim s.connector [
  | none ↦ some (neg einval, s)
  | some i ↦ do c ← get_elem? s.dev.connectors i; configure_connector fourcc cfg c s
]
