-- ===== src/CameraSession/Capture/Requests.antt =====
-- The requests that a capture makes (src/camera_session.cpp).
use Prim.Native.Nat.{min}
use twincam.Base.{
  ℕ, zero, suc, ◌≡◌, refl, ◌∙◌, inl, inr, true, false, some, List, [], ◌∷◌, ◌++◌, append_assoc,
  append-nil, ℤ, pos, negsuc, ◌⊎◌, ap, is_neg, is_nonzero, arith, get_elem?, length, Bool-cases,
  Option-cases,
}
use twincam.Camera.{StreamConfiguration, FrameBuffer}
use twincam.CameraSession.State.{CameraApi, FrameSink}
use twincam.CameraSession.Capture.{
  Made, Making, made, failed, undefined, Session, allocate_all, add_buffers, make_requests,
}

-- The number of buffers of the stream with the fewest, or the bound.
abbrev pub fewest : CameraApi → List StreamConfiguration → ℕ → ℕ
fewest api [] n = n
fewest api (cfg ∷ cfgs) n = fewest api cfgs (min n (length (api.buffers cfg.stream)))

-- A request with the number `i`: for every stream, in order, the stream's buffer number `i`.
abbrev pub IsMade : CameraApi → ℕ → List StreamConfiguration → Made → Type 0
IsMade api i [] r = r ≡ []
IsMade api i (cfg ∷ cfgs) r =
    (b : FrameBuffer) × (rest : Made) × (get_elem? (api.buffers cfg.stream) i ≡ some b)
    × (r ≡ (cfg.stream, b) ∷ rest)
    × IsMade api i cfgs rest

abbrev pub AllMade : CameraApi → ℕ → List StreamConfiguration → List Made → Type 0
AllMade api i config [] = Unit
AllMade api i config (r ∷ rs) = IsMade api i config r × AllMade api (suc i) config rs

pub allocate_all-fewest :
    (api : CameraApi) (config : List StreamConfiguration) (n m : ℕ)
    → allocate_all api config n ≡ some m
    → m ≡ fewest api config n
unfolding allocate_all
allocate_all-fewest api [] n m e = ground arith
allocate_all-fewest api (cfg ∷ cfgs) n m e = elim (Bool-cases (is_neg (api.allocate cfg.stream))) [
  | inl bad ↦ absurd (ground arith)
  | inr good ↦
      allocate_all-fewest api cfgs (min n (length (api.buffers cfg.stream))) m (ground arith)
]

pub neg_nonzero : (ret : ℤ) → is_neg ret ≡ true → is_nonzero ret ≡ true
neg_nonzero (pos n) e = absurd (cc)
neg_nonzero (negsuc n) e = refl

pub not_nonzero : (ret : ℤ) → is_nonzero ret ≡ false → ret ≡ pos 0
not_nonzero (pos zero) e = refl
not_nonzero (pos (suc n)) e = absurd (cc)
not_nonzero (negsuc n) e = absurd (cc)

Making-cases :
    {S : Type 0} (m : Making S)
    → (m ≡ undefined)
      ⊎ ((ret : ℤ) × (k : S) × (m ≡ failed ret k))
      ⊎ ((k : S) × (r : Made) × (m ≡ made k r))
Making-cases undefined = inl refl
Making-cases (failed ret k) = inr (inl (ret, k, refl))
Making-cases (made k r) = inr (inr (k, r, refl))

module _ {S : Type 0} (api : CameraApi) (sink : FrameSink S) where
  add_buffers-IsMade :
      (i : ℕ) (cfgs : List StreamConfiguration) (k : S) (r : Made) (k' : S) (r' : Made)
      → add_buffers api sink i cfgs k r ≡ made k' r'
      → (new : Made) × (r' ≡ r ++ new) × IsMade api i cfgs new
  unfolding add_buffers
  add_buffers-IsMade i [] k r k' r' e = ([], ground (arith, append-nil r), refl)
  add_buffers-IsMade i (cfg ∷ cfgs) k r k' r' e =
      elim (Option-cases (get_elem? (api.buffers cfg.stream) i)) [
        | inl missing ↦ absurd (ground arith)
        | inr (b, here) ↦ elim (Bool-cases (is_neg (api.add_buffer i cfg.stream b))) [
          | inl bad ↦ absurd (ground arith)
          | inr good ↦ elim (Option-cases (sink.map_buffer b k)) [
            | inl crash ↦ absurd (ground arith)
            | inr (k1, mapped) ↦
                let (new, same, v) =
                  add_buffers-IsMade i cfgs k1 (r ++ (cfg.stream, b) ∷ []) k' r' (ground arith) in
                ((cfg.stream, b) ∷ new, same ∙ rw append_assoc, (b, new, here, refl, v))
          ]
        ]
      ]

  add_buffers-failed :
      (i : ℕ) (cfgs : List StreamConfiguration) (k : S) (r : Made) (ret : ℤ) (k' : S)
      → add_buffers api sink i cfgs k r ≡ failed ret k'
      → is_nonzero ret ≡ true
  unfolding add_buffers
  add_buffers-failed i [] k r ret k' e = absurd (ground arith)
  add_buffers-failed i (cfg ∷ cfgs) k r ret k' e =
      elim (Option-cases (get_elem? (api.buffers cfg.stream) i)) [
        | inl missing ↦ absurd (ground arith)
        | inr (b, here) ↦ elim (Bool-cases (is_neg (api.add_buffer i cfg.stream b))) [
          | inl bad ↦ ground (arith, neg_nonzero (api.add_buffer i cfg.stream b))
          | inr good ↦ elim (Option-cases (sink.map_buffer b k)) [
            | inl crash ↦ absurd (ground arith)
            | inr (k1, mapped) ↦
                add_buffers-failed i cfgs k1 (r ++ (cfg.stream, b) ∷ []) ret k' (ground arith)
          ]
        ]
      ]

  -- What the loop adds to a session.
  pub record Grown (config : List StreamConfiguration) (n i : ℕ) (s s' : Session S) : Type 0 where
    pub new : List Made
    pub requests : s'.requests ≡ s.requests ++ new
    pub count : length new ≡ n
    pub made_all : AllMade api i config new
    pub queued : s'.queued ≡ s.queued

  pub make_requests-Grown :
      (config : List StreamConfiguration) (n i : ℕ) (s s' : Session S)
      → make_requests api sink config n i s ≡ some (pos 0, s')
      → Grown config n i s s'
  unfolding make_requests
  make_requests-Grown config zero i s s' e = record {
    new = [];
    requests = ground (arith, append-nil s.requests);
    count = refl;
    made_all = tt;
    queued = ground arith;
  }
  make_requests-Grown config (suc n) i s s' e = elim (Bool-cases (api.create_request i)) [
    | inr bad ↦ absurd (ground arith)
    | inl good ↦ elim (Making-cases (add_buffers api sink i config s.sink [])) [
      | inl crash ↦ absurd (ground arith)
      | inr (inl (ret, k, bad)) ↦
          absurd (ground (arith, add_buffers-failed i config s.sink [] ret k bad))
      | inr (inr (k, r, here)) ↦
          let (new, same, v) = add_buffers-IsMade i config s.sink [] k r here in
          let s1 = record s { sink = k; requests = s.requests ++ r ∷ [] } in
          let g = make_requests-Grown config n (suc i) s1 s' (ground arith) in
          record {
            new = r ∷ g.new;
            requests = g.requests ∙ rw append_assoc;
            count = ap suc g.count;
            made_all = (rw same v, g.made_all);
            queued = g.queued;
          }
    ]
  ]
