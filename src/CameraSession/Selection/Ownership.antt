-- ===== src/CameraSession/Selection/Ownership.antt =====
-- Which camera a session holds after `init`, and what its destructor releases (src/camera_session.cpp).
use twincam.Base.{
  ℕ, zero, suc, ◌≡◌, refl, ◌⊎◌, inl, inr, true, false, Option, none, some, List, [], ◌∷◌, ℤ, pos,
  negsuc, is_nonzero, is_some, ap, ◌<◌, arith, Bool-cases, ltb,
}
use twincam.Camera.{PixelFormat, StreamConfiguration}
use twincam.CameraSession.State.{Options, ConfigStatus, CameraApi, Selected}
use twincam.CameraSession.Selection.{
  use_configuration, try_camera, try_cameras, try_one, init, init_with, new_session, destroy,
  release, give_up, validate_one, set_format, note_acquire,
}

-- Success: the session has a camera that it holds, with a configuration.
pub record Holding (s : Selected) : Type 0 where
  pub camera : ℕ
  pub chosen : s.camera ≡ some camera
  pub held : s.held ≡ some camera
  pub configured : is_some s.config ≡ true
  pub clean : s.stray ≡ []

-- Failure: no camera is held.
pub record Empty (s : Selected) : Type 0 where
  pub held : s.held ≡ none
  pub clean : s.stray ≡ []

abbrev pub Tried : ℤ × Selected → Type 0
Tried (ret, s) = ((ret ≡ pos 0) × Holding s) ⊎ ((is_nonzero ret ≡ true) × Empty s)

module _ (api : CameraApi) (c : ℕ) (s : Selected) (e : s.camera ≡ some c) (h : s.held ≡ some c)
    (k : s.stray ≡ []) where
  give_up-Empty : (code : ℤ) → Empty (give_up c code s).1
  unfolding give_up release
  give_up-Empty code = record { held = ground arith; clean = ground arith }

  validate_one-Tried :
      (cfg : ConfigStatus × List StreamConfiguration) → Tried (validate_one api c cfg s)
  unfolding validate_one
  validate_one-Tried (ConfigStatus.invalid, cfg) = inr (refl, give_up-Empty (pos 4))
  validate_one-Tried (ConfigStatus.valid, cfg) =
      inl (refl, record { camera = c; chosen = e; held = h; configured = refl; clean = k })
  validate_one-Tried (ConfigStatus.adjusted, cfg) =
      inl (refl, record { camera = c; chosen = e; held = h; configured = refl; clean = k })

  use_configuration-Tried :
      (pf : PixelFormat) (cfg : Option (List StreamConfiguration))
      → Tried (use_configuration api pf c cfg s)
  unfolding use_configuration
  use_configuration-Tried pf (some (cfg ∷ [])) =
      validate_one-Tried (api.validate (set_format pf cfg ∷ []))
  use_configuration-Tried pf none = inr (refl, give_up-Empty (pos 3))
  use_configuration-Tried pf (some []) = inr (refl, give_up-Empty (pos 3))
  use_configuration-Tried pf (some (x ∷ y ∷ r)) = inr (refl, give_up-Empty (pos 3))

try_camera-Tried :
    (api : CameraApi) (opts : Options) (c : ℕ) (s : Selected)
    → Empty s
    → Tried (try_camera api opts c s)
unfolding try_camera
try_camera-Tried api opts c s v = elim (Bool-cases (is_nonzero (api.acquire c))) [
  | inl bad ↦ rw (bad, note_acquire) (inr (refl, record { held = v.held; clean = v.clean }))
  | inr good ↦
      rw (good, note_acquire)
        (use_configuration-Tried api c (record s { camera = some c; held = some c }) refl refl
          v.clean opts.pf (api.generate_configuration c))
]

try_cameras-Tried :
    (api : CameraApi) (opts : Options) (n i : ℕ) (s : Selected)
    → Empty s
    → Tried (try_cameras api opts n i s)
unfolding try_cameras
try_cameras-Tried api opts zero i s v = inr (refl, v)
try_cameras-Tried api opts (suc n) i s v = elim (try_camera-Tried api opts i s v) [
  | inl (done, holding) ↦
      let zero_ret : is_nonzero (try_camera api opts i s).0 ≡ false = ap is_nonzero done in
      rw zero_ret (inl (refl, holding))
  | inr (failed, empty) ↦ rw failed (try_cameras-Tried api opts n (suc i) _ empty)
]

try_one-Tried :
    (api : CameraApi) (opts : Options) (n c : ℕ) (s : Selected)
    → Empty s
    → Tried (try_one api opts n c s)
unfolding try_one
try_one-Tried api opts n c s v = elim (Bool-cases (ltb c n)) [
  | inr large ↦ rw large (inr (refl, v))
  | inl small ↦ elim (try_camera-Tried api opts c s v) [
    | inl (done, holding) ↦
        let zero_ret : is_nonzero (try_camera api opts c s).0 ≡ false = ap is_nonzero done in
        rw (small, zero_ret) (inl (refl, holding))
    | inr (failed, empty) ↦ rw (small, failed) (inr (refl, empty))
  ]
]

init_with-Tried :
    (api : CameraApi) (opts : Options) (n : ℕ) (k : ℤ) → Tried (init_with api opts n new_session k)
unfolding init_with
init_with-Tried api opts n (negsuc k) =
    try_cameras-Tried api opts n 0 new_session (record { held = refl; clean = refl })
init_with-Tried api opts n (pos c) =
    try_one-Tried api opts n c new_session (record { held = refl; clean = refl })

-- Whatever libcamera answers, `init` either returns 0, and the session holds the camera that it has
-- chosen, with a configuration; or it returns another number and holds no camera. In both cases
-- it has released no camera that it did not hold.
pub init-Tried : (api : CameraApi) (opts : Options) (n : ℕ) → Tried (init api opts n new_session)
unfolding init
init-Tried api opts n = init_with-Tried api opts n opts.camera

-- After a successful `init` the destructor releases the camera, and every release was of a camera
-- that was held.
pub destroy-init :
    (api : CameraApi) (opts : Options) (n : ℕ)
    → (init api opts n new_session).0 ≡ pos 0
    → let s = destroy (init api opts n new_session).1 in (s.held ≡ none) × (s.stray ≡ [])
unfolding destroy release
destroy-init api opts n e = elim (init-Tried api opts n) [
  | inl (done, v) ↦ (ground (arith, v.chosen, v.held), ground (arith, v.chosen, v.held, v.clean))
  | inr (failed, v) ↦ absurd (ground arith)
]

-- The session asks for one camera, which exists and which libcamera does not let it acquire: `init`
-- fails, and the destructor then releases this camera, which the session does not hold.
pub failed_acquire_released :
    (api : CameraApi) (opts : Options) (n c : ℕ)
    → opts.camera ≡ pos c
    → c < n
    → is_nonzero (api.acquire c) ≡ true
    → let out = init api opts n new_session in
      (out.0 ≡ pos 1) × (out.1.held ≡ none) × ((destroy out.1).stray ≡ c ∷ [])
unfolding init destroy release try_one try_camera
failed_acquire_released api opts n c e small bad = (ground arith, ground arith, ground arith)

-- However `init` went, no camera is held after the destructor.
pub destroy_holds_none :
    (api : CameraApi) (opts : Options) (n : ℕ)
    → (destroy (init api opts n new_session).1).held ≡ none
unfolding destroy release
destroy_holds_none api opts n = elim (init-Tried api opts n) [
  | inl (done, v) ↦ ground (arith, v.chosen, v.held)
  | inr (failed, v) ↦ ground (arith, v.held)
]
