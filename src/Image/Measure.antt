-- ===== src/Image/Measure.antt =====
-- The first loop of `fromFrameBuffer`: how much of each descriptor is to be mapped (src/image.cpp).
use Prim.Native.Nat.{max}
use mathlib.Core.Path.{subst}
use twincam.Base.{
  ℕ, ◌≤◌, ◌≡◌, refl, inl, inr, ◌∙◌, ◌||◌, none, some, List, [], ◌∷◌, arith, ap, sym, ◌==◌, ltb,
  if◌then◌else◌, All, Option-cases, Bool-cases,
}
use twincam.Base.Maps.{map_insert, map_find, map_find-map_insert}
use twincam.Camera.{FramePlane}
use twincam.Image.{MmapApi, MappedBufferInfo, Buffers, plane_end, info_of, measure_plane, measure}

-- An entry of the map after the first loop.
pub record Measured (api : MmapApi) (fd : ℕ) (info : MappedBufferInfo) : Type 0 where
  pub unmapped : info.address ≡ none
  pub whole : info.dmabuf_length ≡ api.lseek_end fd
  pub inside : info.map_length ≤ api.lseek_end fd

abbrev pub AllMeasured : MmapApi → Buffers → Type 0
AllMeasured api m =
    (fd : ℕ) (info : MappedBufferInfo) → map_find fd m ≡ some info → Measured api fd info

-- A later map has the earlier entries, with lengths that are no smaller.
abbrev pub Grows : Buffers → Buffers → Type 0
Grows m m' =
    (fd : ℕ) (info : MappedBufferInfo)
    → map_find fd m ≡ some info
    → (info' : MappedBufferInfo) × (map_find fd m' ≡ some info')
      × (info.map_length ≤ info'.map_length)

-- A plane is covered: its end is no further than the length to be mapped.
abbrev pub Covered : Buffers → FramePlane → Type 0
Covered m p =
    (info : MappedBufferInfo) × (map_find p.fd m ≡ some info) × (plane_end p ≤ info.map_length)

info_of-Measured :
    (api : MmapApi) (fd : ℕ) (m : Buffers)
    → AllMeasured api m
    → Measured api fd (info_of api fd (map_find fd m))
unfolding info_of
info_of-Measured api fd m v = elim (Option-cases (map_find fd m)) [
  | inl new ↦ rw new (record { unmapped = refl; whole = refl; inside = omega arith })
  | inr (info, old) ↦ rw old (v fd info old)
]

module _ (api : MmapApi) (p : FramePlane) (m m' : Buffers) (v : AllMeasured api m)
    (e : measure_plane api p m ≡ some m') where
  measured_entry :
      (info : MappedBufferInfo) × (m'
        ≡ map_insert p.fd (record info { map_length = max info.map_length (plane_end p) }) m)
      × (info ≡ info_of api p.fd (map_find p.fd m))
      × (plane_end p ≤ api.lseek_end p.fd)
  unfolding measure_plane
  measured_entry =
      let info = info_of api p.fd (map_find p.fd m) in
      let known : Measured api p.fd info = info_of-Measured api p.fd m v in
      elim (Bool-cases (ltb info.dmabuf_length p.offset || ltb info.dmabuf_length (plane_end p))) [
        | inl out ↦ absurd (ground arith)
        | inr fits ↦ (info, ground arith, refl, ground arith)
      ]

  measured_info : MappedBufferInfo
  measured_info = record measured_entry.0 {
    map_length = max measured_entry.0.map_length (plane_end p);
  }

  find_measured :
      (fd : ℕ) → map_find fd m' ≡ (if fd == p.fd then some measured_info else map_find fd m)
  unfolding measured_info
  find_measured fd = ap (map_find fd) measured_entry.1 ∙ map_find-map_insert p.fd fd measured_info m

  measured_info-Measured : Measured api p.fd measured_info
  unfolding measured_info
  measured_info-Measured =
      let (info, made, known, fits) = measured_entry in
      let old : Measured api p.fd info = rw known (info_of-Measured api p.fd m v) in
      record { unmapped = old.unmapped; whole = old.whole; inside = ground (arith, old.inside) }

  measure_plane-AllMeasured : AllMeasured api m'
  measure_plane-AllMeasured fd info at = elim (Bool-cases (fd == p.fd)) [
    | inl same ↦
        let here : info ≡ measured_info = ground (arith, find_measured fd) in
        let fd_same : fd ≡ p.fd = ground arith in rw (here, fd_same) measured_info-Measured
    | inr other ↦ v fd info (ground (arith, find_measured fd))
  ]

  measured_info-le :
      (info : MappedBufferInfo)
      → map_find p.fd m ≡ some info
      → info.map_length ≤ measured_info.map_length
  unfolding measured_info info_of
  measured_info-le info at =
      let (entry, made, known, fits) = measured_entry in
      let same : entry ≡ info = known ∙ rw at in ground arith

  measure_plane-Grows : Grows m m'
  measure_plane-Grows fd info at = elim (Bool-cases (fd == p.fd)) [
    | inl same ↦
        let fd_same : fd ≡ p.fd = ground arith in
        (
          measured_info,
          ground (arith, find_measured fd),
          measured_info-le info (ap (λ k. map_find k m) (sym fd_same) ∙ at),
        )
    | inr other ↦ (info, ground (arith, find_measured fd), omega arith)
  ]

  measure_plane-Covered : Covered m' p
  unfolding measured_info
  measure_plane-Covered = (measured_info, find_measured p.fd ∙ ground arith, ground arith)

Covered-Grows : (m m' : Buffers) (p : FramePlane) → Grows m m' → Covered m p → Covered m' p
Covered-Grows m m' p g (info, at, fits) =
    let (info', at', le) = g p.fd info at in (info', at', omega arith)

Grows-trans : (m m' m'' : Buffers) → Grows m m' → Grows m' m'' → Grows m m''
Grows-trans m m' m'' g g' fd info at =
    let (info', at', le) = g fd info at in
    let (info'', at'', le') = g' fd info' at' in (info'', at'', omega arith)

-- After the first loop all entries are measured, and all planes covered.
pub measure-Covered :
    (api : MmapApi) (ps : List FramePlane) (m m' : Buffers)
    → AllMeasured api m
    → measure api ps m ≡ some m'
    → AllMeasured api m' × Grows m m' × All (Covered m') ps
unfolding measure
measure-Covered api [] m m' v e =
    let same : m ≡ m' = ground arith in
    (
      subst (AllMeasured api) same v,
      λ fd info at. (info, ap (map_find fd) (sym same) ∙ at, omega arith),
      tt,
    )
measure-Covered api (p ∷ ps) m m' v e = elim (Option-cases (measure_plane api p m)) [
  | inl out ↦ absurd (ground arith)
  | inr (k, fits) ↦
      let (v', g, cs) =
        measure-Covered api ps k m' (measure_plane-AllMeasured api p m k v fits) (ground arith) in
      (
        v',
        Grows-trans m k m' (measure_plane-Grows api p m k v fits) g,
        (Covered-Grows k m' p g (measure_plane-Covered api p m k v fits), cs),
      )
]
