-- ===== src/Image/Mapping.antt =====
-- The second loop of `fromFrameBuffer`: the mappings and the spans of the planes (src/image.cpp).
use twincam.Base.{
  ℕ, ◌≤◌, ◌≡◌, refl, ◌⊎◌, inl, inr, ap, sym, none, some, List, [], ◌∷◌, ◌++◌, append-nil, arith,
  ◌==◌, if◌then◌else◌, In, Option-cases, Bool-cases,
}
use twincam.Base.Maps.{map_insert, map_find, map_find-map_insert}
use twincam.Camera.{FramePlane}
use twincam.Image.{Protection, MmapApi, Span, MappedBufferInfo, Buffers, Mapped, map_plane}

pub In-append : {A : Type 0} (a : A) (xs ys : List A) → In a xs → In a (xs ++ ys)
In-append a [] ys m = absurd m
In-append a (x ∷ xs) ys (inl e) = inl e
In-append a (x ∷ xs) ys (inr m) = inr (In-append a xs ys m)

In-append_last : {A : Type 0} (a : A) (xs : List A) → In a (xs ++ a ∷ [])
In-append_last a [] = inl refl
In-append_last a (x ∷ xs) = inr (In-append_last a xs)

abbrev pub region : ℕ → ℕ → Span
region a n = record { address = a; size = n }

-- An entry of the map in the second loop: not mapped yet, or mapped with its whole length.
pub record MappedAt (api : MmapApi) (maps : List Span) (fd : ℕ) (info : MappedBufferInfo)
    : Type 0 where
  pub inside : info.map_length ≤ api.lseek_end fd
  pub mapped :
      (info.address ≡ none)
      ⊎ ((a : ℕ) × (info.address ≡ some a) × In (region a info.map_length) maps)

abbrev pub AllMapped : MmapApi → List Span → Buffers → Type 0
AllMapped api maps m =
    (fd : ℕ) (info : MappedBufferInfo) → map_find fd m ≡ some info → MappedAt api maps fd info

MappedAt-append :
    (api : MmapApi) (maps more : List Span) (fd : ℕ) (info : MappedBufferInfo)
    → MappedAt api maps fd info
    → MappedAt api (maps ++ more) fd info
MappedAt-append api maps more fd info v = record {
  inside = v.inside;
  mapped = elim v.mapped [
    | inl n ↦ inl n
    | inr (a, e, m) ↦ inr (a, e, In-append (region a info.map_length) maps more m)
  ];
}

-- The lengths do not change any more.
abbrev pub SameLengths : Buffers → Buffers → Type 0
SameLengths m m' =
    (fd : ℕ) (info : MappedBufferInfo)
    → map_find fd m ≡ some info
    → (info' : MappedBufferInfo) × (map_find fd m' ≡ some info')
      × (info'.map_length ≡ info.map_length)

-- What one round gives for a plane with the entry `info`.
pub record Round (api : MmapApi) (maps : List Span) (m : Buffers) (info : MappedBufferInfo)
    (r : Mapped) : Type 0 where
  pub all : AllMapped api r.maps r.buffers
  pub same : SameLengths m r.buffers
  pub at : In (region r.address info.map_length) r.maps
  pub more : (new : List Span) × (r.maps ≡ maps ++ new)

module _ (api : MmapApi) (prot : Protection) (p : FramePlane) (m : Buffers) (maps : List Span)
    (info : MappedBufferInfo) (v : AllMapped api maps m) (found : map_find p.fd m ≡ some info) where
  abbrev mapped_now : ℕ → Mapped
  mapped_now a = record {
    address = a;
    buffers = map_insert p.fd (record info { address = some a }) m;
    maps = maps ++ region a info.map_length ∷ [];
  }

  find_mapped :
      (a fd : ℕ)
      → map_find fd (mapped_now a).buffers
        ≡ (if fd == p.fd then some (record info { address = some a }) else map_find fd m)
  find_mapped a fd = map_find-map_insert p.fd fd (record info { address = some a }) m

  new-MappedAt : (a : ℕ) → MappedAt api (mapped_now a).maps p.fd (record info { address = some a })
  new-MappedAt a = record {
    inside = (v p.fd info found).inside;
    mapped = inr (a, refl, In-append_last (region a info.map_length) maps);
  }

  new-AllMapped : (a : ℕ) → AllMapped api (mapped_now a).maps (mapped_now a).buffers
  new-AllMapped a fd info' at = elim (Bool-cases (fd == p.fd)) [
    | inl same ↦
        let here : info' ≡ record info { address = some a } = ground (arith, find_mapped a fd) in
        let fd_same : fd ≡ p.fd = ground arith in rw (here, fd_same) (new-MappedAt a)
    | inr other ↦
        MappedAt-append api maps (region a info.map_length ∷ []) fd info'
          (v fd info' (ground (arith, find_mapped a fd)))
  ]

  new-SameLengths : (a : ℕ) → SameLengths m (mapped_now a).buffers
  new-SameLengths a fd info' at = elim (Bool-cases (fd == p.fd)) [
    | inl same ↦
        let fd_same : fd ≡ p.fd = ground arith in
        let here : info' ≡ info = ground (arith, ap (λ k. map_find k m) fd_same) in
        (record info { address = some a }, ground (arith, find_mapped a fd), ground arith)
    | inr other ↦ (info', ground (arith, find_mapped a fd), refl)
  ]

  new-Round : (a : ℕ) → Round api maps m info (mapped_now a)
  new-Round a = record {
    all = new-AllMapped a;
    same = new-SameLengths a;
    at = In-append_last (region a info.map_length) maps;
    more = (region a info.map_length ∷ [], refl);
  }

  old-In : (a : ℕ) → info.address ≡ some a → In (region a info.map_length) maps
  old-In a e = elim (v p.fd info found).mapped [
    | inl n ↦ absurd (ground arith)
    | inr (b, f, m') ↦ let same : b ≡ a = ground arith in rw (← same) m'
  ]

  old-Round :
      (a : ℕ)
      → info.address ≡ some a
      → Round api maps m info (record { address = a; buffers = m; maps = maps })
  old-Round a e = record {
    all = v;
    same = λ fd i at. (i, at, refl);
    at = old-In a e;
    more = ([], sym (append-nil maps));
  }

  pub map_plane-Round :
      (r : Mapped) → map_plane api prot p m maps ≡ some r → Round api maps m info r
  unfolding map_plane
  map_plane-Round r e = elim (Option-cases info.address) [
    | inl new ↦ elim (Option-cases (api.mmap p.fd prot info.map_length)) [
      | inl bad ↦ absurd (ground arith)
      | inr (a, good) ↦ let same : mapped_now a ≡ r = ground arith in rw (← same) (new-Round a)
    ]
    | inr (a, old) ↦
        let same : record { address = a; buffers = m; maps = maps } ≡ r = ground arith in
        rw (← same) (old-Round a old)
  ]
