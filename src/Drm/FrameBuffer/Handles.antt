-- ===== src/Drm/FrameBuffer/Handles.antt =====
-- The handles and offsets that `createFrameBuffer` hands to libdrm (src/drm.cpp).
use twincam.Base.{
  ℕ, suc, ◌<◌, ◌≡◌, refl, some, List, [], ◌∷◌, ltb, set, get_elem?, length, arith, Bool-cases,
  Option-cases, ltb→lt, inl, inr, get_elem?-set_self, get_elem?-set_lt, length-set, ◌∙◌,
}
use twincam.Camera.{FramePlane, Size}
use twincam.Drm.Types.{Answer-cases, got}
use twincam.Base.Maps.{map_find, map_find-map_insert}
use twincam.Drm.FrameBuffer.{
  PrimeApi, Import, imported, import_failed, overflow, FrameBuffer, created, create_frame_buffer,
  add_fb, zeros, handle_of, import_planes,
}

-- Every entry of the map is what libdrm gives for the descriptor.
abbrev Agrees : PrimeApi → List (ℕ × ℕ) → Type 0
Agrees api m = (fd h : ℕ) → map_find fd m ≡ some h → api.fd_to_handle fd ≡ got h

handle_of-Agrees :
    (api : PrimeApi) (fd : ℕ) (m : List (ℕ × ℕ)) (h : ℕ) (m' : List (ℕ × ℕ))
    → Agrees api m
    → handle_of api fd m ≡ got (h, m')
    → (api.fd_to_handle fd ≡ got h) × Agrees api m'
unfolding handle_of
handle_of-Agrees api fd m h m' v e = elim (Option-cases (map_find fd m)) [
  | inl new ↦ elim (Answer-cases (api.fd_to_handle fd)) [
    | inl (n, bad) ↦ absurd (ground arith)
    | inr (k, good) ↦
        (ground arith, λ fd' h' f. ground (arith, map_find-map_insert fd fd' k m, v fd' h'))
  ]
  | inr (k, old) ↦ (ground (arith, v fd k old), ground arith)
]

-- Plane by plane, from position `i` on: the handle is the descriptor's, the offset the plane's.
abbrev pub Filled : PrimeApi → List FramePlane → ℕ → List ℕ → List ℕ → Type 0
Filled api [] i handles offsets = Unit
Filled api (p ∷ ps) i handles offsets =
    ((h : ℕ) × (api.fd_to_handle p.fd ≡ got h) × (get_elem? handles i ≡ some h))
    × (get_elem? offsets i ≡ some p.offset)
    × Filled api ps (suc i) handles offsets

import_planes-Filled :
    (api : PrimeApi) (ps : List FramePlane) (i : ℕ) (m : List (ℕ × ℕ)) (hs os : List ℕ)
    (m' : List (ℕ × ℕ)) (hs' os' : List ℕ)
    → Agrees api m
    → length hs ≡ 4
    → length os ≡ 4
    → import_planes api ps i m hs os ≡ imported m' hs' os'
    → Filled api ps i hs' os'
      × ((j : ℕ) → j < i → (get_elem? hs' j ≡ get_elem? hs j) × (get_elem? os' j ≡ get_elem? os j))
unfolding import_planes
import_planes-Filled api [] i m hs os m' hs' os' v lh lo e = (tt, λ j h. ground arith)
import_planes-Filled api (p ∷ ps) i m hs os m' hs' os' v lh lo e =
    elim (Answer-cases (handle_of api p.fd m)) [
      | inl (n, bad) ↦ absurd (ground arith)
      | inr ((h, n), good) ↦ elim (Bool-cases (ltb i 4)) [
        | inl small ↦
            let (fits, v') = handle_of-Agrees api p.fd m h n v good in
            let (filled, before) =
              import_planes-Filled api ps (suc i) n (set hs i h) (set os i p.offset) m' hs' os' v'
                (length-set hs i h ∙ lh) (length-set os i p.offset ∙ lo) (ground arith) in
            let at = before i (omega arith) in
            (
              (
                (h, fits, at.0 ∙ get_elem?-set_self hs i h (ground (arith, ltb→lt i 4))),
                at.1 ∙ get_elem?-set_self os i p.offset (ground (arith, ltb→lt i 4)),
                filled,
              ),
              λ j lt. (
                (before j (omega arith)).0 ∙ get_elem?-set_lt hs i j h lt,
                (before j (omega arith)).1 ∙ get_elem?-set_lt os i j p.offset lt,
              ),
            )
        | inr large ↦ absurd (ground arith)
      ]
    ]

add_fb-created :
    (api : PrimeApi) (fourcc : ℕ) (size : Size) (strides : List ℕ) (r : Import) (fb : FrameBuffer)
    → add_fb api fourcc size strides r ≡ created fb
    → (m : List (ℕ × ℕ)) × (hs : List ℕ) × (os : List ℕ) × (r ≡ imported m hs os)
      × (api.add_fb2 size fourcc hs strides os ≡ got fb.id)
unfolding add_fb
add_fb-created api fourcc size strides (import_failed m n) fb e = absurd (cc)
add_fb-created api fourcc size strides (overflow m) fb e = absurd (cc)
add_fb-created api fourcc size strides (imported m hs os) fb e =
    elim (Answer-cases (api.add_fb2 size fourcc hs strides os)) [
      | inl (n, bad) ↦ absurd (ground arith)
      | inr (id, good) ↦ (m, hs, os, refl, ground arith)
    ]

-- A framebuffer that is created has the id that libdrm gave for the format, the size and the
-- strides of the call, together with handles and offsets in which each plane of the buffer stands,
-- in order, with the handle of its descriptor and with its offset. (At most four planes fit.)
pub create_frame_buffer-Filled :
    (api : PrimeApi) (planes : List FramePlane) (fourcc : ℕ) (size : Size) (strides : List ℕ)
    (fb : FrameBuffer)
    → create_frame_buffer api planes fourcc size strides ≡ created fb
    → (handles : List ℕ) × (offsets : List ℕ) × (api.add_fb2 size fourcc handles strides offsets
        ≡ got fb.id)
      × Filled api planes 0 handles offsets
unfolding create_frame_buffer map_find
create_frame_buffer-Filled api planes fourcc size strides fb e =
    let (m, hs, os, done, id) =
      add_fb-created api fourcc size strides (import_planes api planes 0 [] zeros zeros) fb e in
    (
      hs,
      os,
      id,
      (import_planes-Filled api planes 0 [] zeros zeros m hs os (λ fd h f. ground arith) refl refl
          done).0,
    )
