-- ===== src/Drm/FrameBuffer/Arrays.antt =====
-- The arrays of four handles and offsets in `createFrameBuffer` (src/drm.cpp).
use twincam.Base.{ℕ, suc, ◌+◌, ◌≤◌, ◌≢◌, refl, inl, inr, List, [], ◌∷◌, arith, lt→ltb, set, length}
use twincam.Camera.{FramePlane, Size}
use twincam.Drm.Types.{Answer-cases}
use twincam.Drm.FrameBuffer.{
  PrimeApi, Import, imported, import_failed, overflow, undefined, handle_of, import_planes, add_fb,
  zeros, create_frame_buffer,
}

import_planes-overflow :
    (api : PrimeApi) (ps : List FramePlane) (i : ℕ) (m : List (ℕ × ℕ)) (handles offsets : List ℕ)
    (m' : List (ℕ × ℕ))
    → i + length ps ≤ 4
    → import_planes api ps i m handles offsets ≢ overflow m'
unfolding import_planes
import_planes-overflow api [] i m handles offsets m' h e = ground arith
import_planes-overflow api (p ∷ ps) i m handles offsets m' h e =
    elim (Answer-cases (handle_of api p.fd m)) [
      | inl (n, bad) ↦ ground arith
      | inr ((handle, m1), good) ↦
          let small = lt→ltb i 4 (omega arith) in
          import_planes-overflow api ps (suc i) m1 (set handles i handle) (set offsets i p.offset)
            m' (omega arith) (ground arith)
    ]

add_fb-undefined :
    (api : PrimeApi) (fourcc : ℕ) (size : Size) (strides : List ℕ) (r : Import)
    → ((m : List (ℕ × ℕ)) → r ≢ overflow m)
    → add_fb api fourcc size strides r ≢ undefined
unfolding add_fb
add_fb-undefined api fourcc size strides (overflow m) safe e = safe m refl
add_fb-undefined api fourcc size strides (import_failed m n) safe e = ground arith
add_fb-undefined api fourcc size strides (imported m handles offsets) safe e =
    elim (Answer-cases (api.add_fb2 size fourcc handles strides offsets)) [
      | inl (n, bad) ↦ ground arith
      | inr (id, good) ↦ ground arith
    ]

-- A buffer with at most four planes is written inside the arrays.
pub create_frame_buffer-undefined :
    (api : PrimeApi) (planes : List FramePlane) (fourcc : ℕ) (size : Size) (strides : List ℕ)
    → length planes ≤ 4
    → create_frame_buffer api planes fourcc size strides ≢ undefined
unfolding create_frame_buffer
create_frame_buffer-undefined api planes fourcc size strides h e =
    add_fb-undefined api fourcc size strides (import_planes api planes 0 [] zeros zeros)
      (λ m. import_planes-overflow api planes 0 [] zeros zeros m (omega arith)) e
