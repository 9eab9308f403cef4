-- ===== src/Image/Bounds.antt =====
-- `fromFrameBuffer` as a whole: where the planes of an image lie (src/image.cpp).
use twincam.Base.{
  ℕ, ◌+◌, ◌^◌, ◌≤◌, ◌<◌, ◌≡◌, refl, inl, inr, ◌∙◌, List, [], ◌∷◌, ◌++◌, append_assoc, append-nil,
  arith, All, In, Option-cases,
}
use twincam.Base.Maps.{map_find}
use twincam.Camera.{FramePlane}
use twincam.Image.{
  MapMode, Protection, protection, MmapApi, Span, Image, Buffers, measure, map_plane, image,
  map_planes, from_frame_buffer,
}
use twincam.Image.Measure.{AllMeasured, Covered, measure-Covered}
use twincam.Image.Mapping.{region, AllMapped, SameLengths, map_plane-Round, In-append}

-- The span of a plane: at its offset in a mapping of its descriptor, with its length, and its end no
-- further than that of the mapping, which is no longer than the file.
abbrev pub IsInside : MmapApi → List Span → FramePlane → Span → Type 0
IsInside api maps p s =
    (a : ℕ) × (n : ℕ) × In (region a n) maps
    × (s.address ≡ a + p.offset)
    × (s.size ≡ p.length)
    × (p.offset + p.length ≤ n)
    × (n ≤ api.lseek_end p.fd)

-- Plane by plane.
abbrev pub AllInside : MmapApi → List Span → List FramePlane → List Span → Type 0
AllInside api maps [] [] = Unit
AllInside api maps (p ∷ ps) (s ∷ ss) = IsInside api maps p s × AllInside api maps ps ss
AllInside api maps _ _ = ⊥

-- The end of a plane fits 32 bits.
abbrev pub EndFits : FramePlane → Type 0
EndFits p = p.offset + p.length < 2 ^ 32

Covered-SameLengths :
    (m m' : Buffers) (ps : List FramePlane)
    → SameLengths m m'
    → All (Covered m) ps
    → All (Covered m') ps
Covered-SameLengths m m' [] s c = tt
Covered-SameLengths m m' (p ∷ ps) s ((info, at, fits), cs) =
    let (info', at', same) = s p.fd info at in
    ((info', at', omega arith), Covered-SameLengths m m' ps s cs)

-- What the rest of the second loop adds to an image.
abbrev Added : MmapApi → List FramePlane → Image → Image → Type 0
Added api ps im out =
    (new : List Span) × (more : List Span) × (out.planes ≡ im.planes ++ new)
    × (out.maps ≡ im.maps ++ more)
    × AllInside api out.maps ps new

module _ (api : MmapApi) (prot : Protection) where
  map_planes-Added :
      (ps : List FramePlane) (m : Buffers) (im out : Image)
      → All EndFits ps
      → AllMapped api im.maps m
      → All (Covered m) ps
      → map_planes api prot ps m im ≡ image out
      → Added api ps im out
  unfolding map_planes
  map_planes-Added [] m im out fit v c e =
      ([], [], ground (arith, append-nil im.planes), ground (arith, append-nil im.maps), tt)
  map_planes-Added (p ∷ ps) m im out fit v c e =
      elim (Option-cases (map_plane api prot p m im.maps)) [
        | inl bad ↦ absurd (ground arith)
        | inr (r, good) ↦
            let info = c.0.0 in
            let round = map_plane-Round api prot p m im.maps info v c.0.1 r good in
            let s = region (r.address + p.offset) p.length in
            let (new, more, hp, hm, inside) =
              map_planes-Added ps r.buffers (record { maps = r.maps; planes = im.planes ++ s ∷ [] })
                out fit.1 round.all (Covered-SameLengths m r.buffers ps round.same c.1)
                (ground arith) in
            let known = round.all p.fd in
            (
              s ∷ new,
              round.more.0 ++ more,
              hp ∙ append_assoc im.planes (s ∷ []) new,
              hm ∙ (rw round.more.1 (append_assoc im.maps round.more.0 more)),
              (
                (
                  r.address,
                  info.map_length,
                  rw hm (In-append (region r.address info.map_length) r.maps more round.at),
                  refl,
                  refl,
                  omega (arith, fit.0, c.0.2),
                  (v p.fd info c.0.1).inside,
                ),
                inside,
              ),
            )
      ]

none_Measured : (api : MmapApi) → AllMeasured api []
unfolding map_find
none_Measured api fd info at = absurd (ground arith)

start_Mapped : (api : MmapApi) (m : Buffers) → AllMeasured api m → AllMapped api [] m
start_Mapped api m v fd info at =
    let known = v fd info at in record { inside = known.inside; mapped = inl known.unmapped }

-- If the end of every plane fits 32 bits, the image of a buffer has, in order, a span for each of its
-- planes, which stands at the plane's offset in one of the image's mappings and has its length, and
-- it ends inside this mapping, which is no longer than the file of the plane's descriptor.
pub from_frame_buffer-AllInside :
    (api : MmapApi) (planes : List FramePlane) (mode : MapMode) (im : Image)
    → All EndFits planes
    → from_frame_buffer api planes mode ≡ image im
    → AllInside api im.maps planes im.planes
unfolding from_frame_buffer
from_frame_buffer-AllInside api planes mode im fit e = elim (Option-cases (measure api planes [])) [
  | inl bad ↦ absurd (ground arith)
  | inr (m, good) ↦
      let (v, g, covered) = measure-Covered api planes [] m (none_Measured api) good in
      let (new, more, hp, hm, inside) =
        map_planes-Added api (protection mode) planes m (record { maps = []; planes = [] }) im fit
          (start_Mapped api m v) covered (ground arith) in
      rw hp inside
]
