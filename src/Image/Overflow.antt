-- ===== src/Image/Overflow.antt =====
-- The check of a plane against its buffer, where the plane's end does not fit 32 bits (src/image.cpp).
use twincam.Base.{ℕ, ◌+◌, ◌^◌, ◌≤◌, ◌<◌, ◌≡◌, some, [], ◌∷◌, arith}
use twincam.Base.Maps.{map_find, map_insert}
use twincam.Camera.{FramePlane}
use twincam.Image.{MapMode, protection, MmapApi, plane_end, image, from_frame_buffer}

-- A plane whose end is 2^32 or more passes the check if its offset and the wrapped end are inside the
-- file: the image has a mapping as long as the wrapped end, and a span that goes beyond it.
pub wrapped_plane_escapes :
    (api : MmapApi) (p : FramePlane) (mode : MapMode) (a : ℕ)
    → p.offset < 2 ^ 32
    → p.length < 2 ^ 32
    → 2 ^ 32 ≤ p.offset + p.length
    → p.offset ≤ api.lseek_end p.fd
    → plane_end p ≤ api.lseek_end p.fd
    → api.mmap p.fd (protection mode) (plane_end p) ≡ some a
    → (from_frame_buffer api (p ∷ []) mode
        ≡ image (record {
          maps = record { address = a; size = plane_end p } ∷ [];
          planes = record { address = a + p.offset; size = p.length } ∷ [];
        }))
      × (plane_end p < p.offset + p.length)
unfolding from_frame_buffer map_find map_insert
wrapped_plane_escapes api p mode a ho hl wraps o e m = (ground arith, omega arith)
