-- ===== src/KmsSink/Pipeline/Selection.antt =====
-- What `selectPipeline` finds, and when it finds nothing (src/kms_sink.cpp).
use twincam.Base.{
  ℕ, ◌≡◌, ◌≢◌, refl, ◌⊎◌, inl, inr, true, false, Option, none, some, List, [], ◌∷◌, arith, In,
  get_elem?, Option-cases, Bool-cases, pos, neg, epipe,
}
use twincam.Camera.{PixelFormat}
use twincam.Drm.Types.{Device, Connector, Encoder, Crtc, Plane, PlaneType}
use twincam.Drm.Objects.{supports_format}
use twincam.KmsSink.State.{KmsSink}
use twincam.KmsSink.Pipeline.{
  x_format, first_some, Choice, choose_format, is_primary_type, try_plane, try_crtc, try_encoder,
  choose, select_pipeline,
}

module _ {A B : Type 0} (f : A → Option B) where
  first_some-eq-some :
      (xs : List A) (b : B) → first_some f xs ≡ some b → (a : A) × In a xs × (f a ≡ some b)
  unfolding first_some
  first_some-eq-some [] b e = absurd (cc)
  first_some-eq-some (x ∷ xs) b e = elim (Option-cases (f x)) [
    | inl none_here ↦ let (a, m, h) = first_some-eq-some xs b (ground arith) in (a, inr m, h)
    | inr (c, here) ↦ (x, inl refl, ground arith)
  ]

  first_some-eq-none : (xs : List A) → first_some f xs ≡ none → (a : A) → In a xs → f a ≡ none
  unfolding first_some
  first_some-eq-none [] e a m = absurd m
  first_some-eq-none (x ∷ xs) e a m = elim (Option-cases (f x)) [
    | inl none_here ↦ elim m [
      | inl same ↦ rw same none_here
      | inr later ↦ first_some-eq-none xs (ground arith) a later
    ]
    | inr (c, here) ↦ absurd (ground arith)
  ]

-- The format that a plane is used with: the one asked for if the plane has it, or else its X variant.
abbrev pub Fits : (PixelFormat → ℕ) → PixelFormat → Plane → PixelFormat → Type 0
Fits fourcc format p chosen =
    ((chosen ≡ format) × (supports_format p (fourcc format) ≡ true))
    ⊎ ((chosen ≡ x_format format)
        × (supports_format p (fourcc format) ≡ false)
        × (supports_format p (fourcc (x_format format)) ≡ true))

-- A way through the device: from the connector over one of its encoders to a CRTC that the encoder can
-- drive, and to a primary plane of this CRTC which has a format that fits.
pub record IsPipeline (fourcc : PixelFormat → ℕ) (d : Device) (format : PixelFormat) (c : Connector)
    (choice : Choice) : Type 0 where
  pub encoder_pos : ℕ
  pub encoder : Encoder
  pub crtc : Crtc
  pub plane : Plane
  pub encoder_in : In encoder_pos c.encoders
  pub encoder_at : get_elem? d.encoders encoder_pos ≡ some encoder
  pub crtc_in : In choice.crtc encoder.possible_crtcs
  pub crtc_at : get_elem? d.crtcs choice.crtc ≡ some crtc
  pub plane_in : In choice.plane crtc.planes
  pub plane_at : get_elem? d.planes choice.plane ≡ some plane
  pub is_primary : plane.type ≡ some PlaneType.primary
  pub fits : Fits fourcc format plane choice.format

is_primary-eq : (t : Option PlaneType) → is_primary_type t ≡ true → t ≡ some PlaneType.primary
is_primary-eq t h = ground arith

choose_format-Fits :
    (fourcc : PixelFormat → ℕ) (format : PixelFormat) (p : Plane) (f : PixelFormat)
    → choose_format fourcc format p ≡ some f
    → (p.type ≡ some PlaneType.primary) × Fits fourcc format p f
unfolding choose_format
choose_format-Fits fourcc format p f e = elim (Bool-cases (is_primary_type p.type)) [
  | inr other ↦ absurd (ground arith)
  | inl first ↦ elim (Bool-cases (supports_format p (fourcc format))) [
    | inl has ↦ (is_primary-eq p.type first, inl (ground arith, has))
    | inr lacks ↦ elim (Bool-cases (supports_format p (fourcc (x_format format)))) [
      | inl has ↦ (is_primary-eq p.type first, inr (ground arith, lacks, has))
      | inr neither ↦ absurd (ground arith)
    ]
  ]
]

module _ (fourcc : PixelFormat → ℕ) (d : Device) (format : PixelFormat) where
  try_plane-eq-some :
      (i j : ℕ) (ch : Choice)
      → try_plane fourcc d format i j ≡ some ch
      → (p : Plane) × (get_elem? d.planes j ≡ some p)
        × (choose_format fourcc format p ≡ some ch.format)
        × (ch.crtc ≡ i)
        × (ch.plane ≡ j)
  unfolding try_plane
  try_plane-eq-some i j ch e = elim (Option-cases (get_elem? d.planes j)) [
    | inl missing ↦ absurd (ground arith)
    | inr (p, at) ↦ elim (Option-cases (choose_format fourcc format p)) [
      | inl bad ↦ absurd (ground arith)
      | inr (f, good) ↦ (p, at, ground arith, ground arith, ground arith)
    ]
  ]

  try_crtc-eq-some :
      (i : ℕ) (ch : Choice)
      → try_crtc fourcc d format i ≡ some ch
      → (c : Crtc) × (get_elem? d.crtcs i ≡ some c)
        × (j : ℕ) × In j c.planes
        × (try_plane fourcc d format i j ≡ some ch)
  unfolding try_crtc
  try_crtc-eq-some i ch e = elim (Option-cases (get_elem? d.crtcs i)) [
    | inl missing ↦ absurd (ground arith)
    | inr (c, at) ↦
        let (j, m, h) =
          first_some-eq-some (try_plane fourcc d format i) c.planes ch (ground arith) in
        (c, at, j, m, h)
  ]

  try_encoder-eq-some :
      (k : ℕ) (ch : Choice)
      → try_encoder fourcc d format k ≡ some ch
      → (e : Encoder) × (get_elem? d.encoders k ≡ some e)
        × (i : ℕ) × In i e.possible_crtcs
        × (try_crtc fourcc d format i ≡ some ch)
  unfolding try_encoder
  try_encoder-eq-some k ch e = elim (Option-cases (get_elem? d.encoders k)) [
    | inl missing ↦ absurd (ground arith)
    | inr (c, at) ↦
        let (j, m, h) =
          first_some-eq-some (try_crtc fourcc d format) c.possible_crtcs ch (ground arith) in
        (c, at, j, m, h)
  ]

  -- The pipeline that is chosen leads from the connector to a primary plane with the format.
  choose-IsPipeline :
      (c : Connector) (ch : Choice)
      → choose fourcc d format c ≡ some ch
      → IsPipeline fourcc d format c ch
  unfolding choose
  choose-IsPipeline c ch e =
      let (k, km, kh) = first_some-eq-some (try_encoder fourcc d format) c.encoders ch e in
      let (enc, enc_at, i, im, ih) = try_encoder-eq-some k ch kh in
      let (crtc, crtc_at, j, jm, jh) = try_crtc-eq-some i ch ih in
      let (p, p_at, fits, ci, pj) = try_plane-eq-some i j ch jh in
      let (primary, f) = choose_format-Fits fourcc format p ch.format fits in
      record {
        encoder_pos = k;
        encoder = enc;
        crtc = crtc;
        plane = p;
        encoder_in = km;
        encoder_at = enc_at;
        crtc_in = rw ci im;
        crtc_at = rw ci crtc_at;
        plane_in = rw pj jm;
        plane_at = rw pj p_at;
        is_primary = primary;
        fits = f;
      }

  Fits-choose_format :
      (p : Plane) (f : PixelFormat)
      → p.type ≡ some PlaneType.primary
      → Fits fourcc format p f
      → choose_format fourcc format p ≢ none
  unfolding choose_format
  Fits-choose_format p f e (inl (same, has)) = ground arith
  Fits-choose_format p f e (inr (same, lacks, has)) = ground arith

  -- Where the search finds nothing there is no such way.
  choose_complete :
      (c : Connector) (ch : Choice)
      → choose fourcc d format c ≡ none
      → ¬ IsPipeline fourcc d format c ch
  unfolding choose try_encoder try_crtc try_plane
  choose_complete c ch e w =
      let no_encoder =
        first_some-eq-none (try_encoder fourcc d format) c.encoders e w.encoder_pos w.encoder_in in
      let no_crtc =
        first_some-eq-none (try_crtc fourcc d format) w.encoder.possible_crtcs
          (ground (arith, no_encoder, w.encoder_at)) ch.crtc w.crtc_in in
      let no_plane =
        first_some-eq-none (try_plane fourcc d format ch.crtc) w.crtc.planes
          (ground (arith, no_crtc, w.crtc_at)) ch.plane w.plane_in in
      ground (arith, no_plane, w.plane_at, Fits-choose_format w.plane ch.format w.is_primary w.fits)

-- `selectPipeline` finds a display pipeline exactly if there is one. Either it returns 0, and the CRTC,
-- the plane and the format that it sets lead from the connector over one of its encoders to a primary
-- plane with the format asked for, or, where the plane lacks that one, with its X variant; or it
-- returns -EPIPE and leaves the sink alone, and no such pipeline exists.
pub select_pipeline_lem :
    (fourcc : PixelFormat → ℕ) (format : PixelFormat) (c : Connector) (s : KmsSink)
    → let out = select_pipeline fourcc format c s in
      ((ch : Choice) × IsPipeline fourcc s.dev format c ch
        × (out
            ≡ (pos 0, record s { crtc = some ch.crtc; plane = some ch.plane; format = ch.format })))
      ⊎ (((ch : Choice) → ¬ IsPipeline fourcc s.dev format c ch) × (out ≡ (neg epipe, s)))
unfolding select_pipeline
select_pipeline_lem fourcc format c s = elim (Option-cases (choose fourcc s.dev format c)) [
  | inl nothing ↦ inr (λ ch. choose_complete fourcc s.dev format c ch nothing, ground arith)
  | inr (ch, found) ↦ inl (ch, choose-IsPipeline fourcc s.dev format c ch found, ground arith)
]
