-- ===== src/KmsSink/Pipeline/Geometry.antt =====
-- Where `configure` puts the picture on the display (src/kms_sink.cpp).
use twincam.Base.{
  ℕ, ◌+◌, ◌^◌, ◌≤◌, ◌<◌, ◌≡◌, ◌⊎◌, inl, inr, false, some, List, [], ◌∷◌, ℤ, is_neg, arith,
  get_elem?, Option-cases, Bool-cases, leb, leb→le,
}
use twincam.Camera.{PixelFormat, StreamConfiguration}
use twincam.Drm.Types.{Connector, Mode}
use twincam.KmsSink.State.{KmsSink}
use twincam.KmsSink.Pipeline.{
  centre, configure, configure_connector, use_first_mode, configure_pipeline, reset,
}

-- The picture stands in the middle: what is left of the display on both sides differs by one at most.
abbrev pub IsCentred : ℕ → ℕ → ℕ → Type 0
IsCentred x size display = (x + size + x ≤ display) × (display ≤ x + size + x + 1)

-- A picture that fits stands in the middle; one that is larger is put at 2^30 or beyond.
abbrev pub IsPlaced : ℕ → ℕ → ℕ → Type 0
IsPlaced x size display =
    ((size ≤ display) × IsCentred x size display) ⊎ ((display < size) × (2 ^ 30 ≤ x))

centre-IsPlaced :
    (display size : ℕ)
    → display < 2 ^ 16
    → size ≤ 2 ^ 31
    → IsPlaced (centre display size) size display
centre-IsPlaced display size small bound = elim (Bool-cases (leb size display)) [
  | inl fits ↦ let le = leb→le size display fits in inl (le, omega arith)
  | inr large ↦ let lt : display < size = ground arith in inr (lt, omega arith)
]

at_centre :
    (x display size : ℕ)
    → x ≡ centre display size
    → display < 2 ^ 16
    → size ≤ 2 ^ 31
    → IsPlaced x size display
at_centre x display size e small bound = rw e (centre-IsPlaced display size small bound)

use_first_mode-mode :
    (ms : List Mode) (cfg : StreamConfiguration) (s : KmsSink) (ret : ℤ) (s' : KmsSink)
    → use_first_mode ms cfg s ≡ some (ret, s')
    → (m : Mode) × (s'.mode ≡ some m)
      × (s'.size ≡ cfg.size)
      × (s'.x ≡ centre m.hdisplay cfg.size.width)
      × (s'.y ≡ centre m.vdisplay cfg.size.height)
unfolding use_first_mode
use_first_mode-mode [] cfg s ret s' e = absurd (cc)
use_first_mode-mode (m ∷ ms) cfg s ret s' e =
    (m, ground arith, ground arith, ground arith, ground arith)

configure_connector-mode :
    (fourcc : PixelFormat → ℕ) (cfg : StreamConfiguration) (c : Connector) (s : KmsSink) (ret : ℤ)
    (s' : KmsSink)
    → configure_connector fourcc cfg c s ≡ some (ret, s')
    → is_neg ret ≡ false
    → (m : Mode) × (s'.mode ≡ some m)
      × (s'.size ≡ cfg.size)
      × (s'.x ≡ centre m.hdisplay cfg.size.width)
      × (s'.y ≡ centre m.vdisplay cfg.size.height)
unfolding configure_connector
configure_connector-mode fourcc cfg c s ret s' e ok =
    elim (Bool-cases (is_neg (configure_pipeline fourcc cfg.pixel_format c (reset s)).0)) [
      | inl bad ↦ absurd (ground arith)
      | inr good ↦
          use_first_mode-mode c.modes cfg (configure_pipeline fourcc cfg.pixel_format c (reset s)).1
            ret s' (ground arith)
    ]

-- A configuration that succeeds has chosen a mode, takes over the size of the picture and stands the picture by
-- the mode. In each direction a picture that is no larger than the display stands in its middle, and a larger one
-- is put at 2^30 or beyond, off the display; this where the mode has less than 2^16 pixels, as the kernel
-- describes them, and for pictures of at most 2^31.
pub configure-IsPlaced :
    (fourcc : PixelFormat → ℕ) (cfg : StreamConfiguration) (s : KmsSink) (ret : ℤ) (s' : KmsSink)
    → configure fourcc cfg s ≡ some (ret, s')
    → is_neg ret ≡ false
    → cfg.size.width ≤ 2 ^ 31
    → cfg.size.height ≤ 2 ^ 31
    → (m : Mode) × (s'.mode ≡ some m)
      × (s'.size ≡ cfg.size)
      × (m.hdisplay < 2 ^ 16 → IsPlaced s'.x cfg.size.width m.hdisplay)
      × (m.vdisplay < 2 ^ 16 → IsPlaced s'.y cfg.size.height m.vdisplay)
unfolding configure
configure-IsPlaced fourcc cfg s ret s' e ok w t = elim (Option-cases s.connector) [
  | inl missing ↦ absurd (ground arith)
  | inr (i, here) ↦ elim (Option-cases (get_elem? s.dev.connectors i)) [
    | inl dangling ↦ absurd (ground arith)
    | inr (c, at) ↦
        let (m, hm, hs, hx, hy) =
          configure_connector-mode fourcc cfg c s ret s' (ground arith) ok in
        (
          m,
          hm,
          hs,
          λ h. at_centre s'.x m.hdisplay cfg.size.width hx h w,
          λ v. at_centre s'.y m.vdisplay cfg.size.height hy v t,
        )
  ]
]
