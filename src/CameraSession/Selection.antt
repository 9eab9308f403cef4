-- ===== src/CameraSession/Selection.antt =====
-- The choice of the camera: `init`, `validateConfig` and the destructor (src/camera_session.cpp).
pub mod Ownership
use twincam.Base.{
  ℕ, zero, suc, ◌+◌, ◌≡◌, Bool, true, false, not, Option, none, some, List, [], ◌∷◌, ℤ, pos, negsuc,
  is_nonzero, ltb, ◌==◌, if◌then◌else◌,
}
use twincam.Camera.{PixelFormat, StreamConfiguration}
use twincam.CameraSession.State.{Options, ConfigStatus, CameraApi, Selected}

-- `camera_->acquire()`, for the camera `c`.
pub note_acquire : ℤ → ℕ → Selected → Selected
note_acquire ret c s = if is_nonzero ret then s else record s { held = some c }

abbrev holds : Option ℕ → ℕ → Bool
holds none c = false
holds (some h) c = h == c

-- `camera_->release()`
pub release : ℕ → Selected → Selected
release c s = if holds s.held c then record s { held = none } else record s { stray = c ∷ s.stray }

-- The release and `camera_ = nullptr` on an error path.
give_up : ℕ → ℤ → Selected → ℤ × Selected
unfolding release
give_up c code s = (code, record (release c s) { camera = none })

-- `cfg->at(0).pixelFormat = …`
abbrev set_format : PixelFormat → StreamConfiguration → StreamConfiguration
set_format pf cfg = record cfg { pixel_format = pf }

validate_one : CameraApi → ℕ → ConfigStatus × List StreamConfiguration → Selected → ℤ × Selected
unfolding give_up
validate_one api c (ConfigStatus.invalid, cfg) s = give_up c (pos 4) s
validate_one api c (ConfigStatus.valid, cfg) s = (pos 0, record s { config = some cfg })
validate_one api c (ConfigStatus.adjusted, cfg) s = (pos 0, record s { config = some cfg })

-- The configuration has to have one stream.
use_configuration :
    CameraApi → PixelFormat → ℕ → Option (List StreamConfiguration) → Selected → ℤ × Selected
unfolding give_up validate_one
use_configuration api pf c (some (cfg ∷ [])) s =
    validate_one api c (api.validate (set_format pf cfg ∷ [])) s
use_configuration api pf c _ s = give_up c (pos 3) s

-- `validateConfig`, of the camera that the session has.
validate_config : CameraApi → Options → Selected → ℤ × Selected
unfolding use_configuration note_acquire
validate_config api opts s = elim s.camera [
  | none ↦ (pos 1, s)
  | some c ↦
      let ret = api.acquire c in
      let s' = note_acquire ret c s in
      if is_nonzero ret
      then (pos 2, s')
      else use_configuration api opts.pf c (api.generate_configuration c) s'
]

-- One camera of `init`.
unfoldable pub try_camera : CameraApi → Options → ℕ → Selected → ℤ × Selected
unfolding validate_config
try_camera api opts c s = validate_config api opts (record s { camera = some c })

-- The loop of `init` over the cameras from `i` on, `n` of them.
pub try_cameras : CameraApi → Options → ℕ → ℕ → Selected → ℤ × Selected
try_cameras api opts zero i s = (pos 1, s)
try_cameras api opts (suc n) i s =
    let (ret, s') = try_camera api opts i s in
    let rest = try_cameras api opts n (suc i) s' in if is_nonzero ret then rest else (pos 0, s')

try_one : CameraApi → Options → ℕ → ℕ → Selected → ℤ × Selected
try_one api opts n c s =
    if ltb c n
    then (let (ret, s') = try_camera api opts c s in
        if is_nonzero ret then (pos 1, s') else (pos 0, s'))
    else (pos 1, s)

init_with : CameraApi → Options → ℕ → Selected → ℤ → ℤ × Selected
unfolding try_cameras try_one
init_with api opts n s (negsuc k) = try_cameras api opts n 0 s
init_with api opts n s (pos c) = try_one api opts n c s

-- `init`, where the camera manager has `n` cameras.
unfoldable pub init : CameraApi → Options → ℕ → Selected → ℤ × Selected
unfolding init_with
init api opts n s = init_with api opts n s opts.camera

-- `CameraSession::CameraSession`
abbrev pub new_session : Selected
new_session = record { camera = none; config = none; held = none; stray = [] }

-- `CameraSession::~CameraSession`
pub destroy : Selected → Selected
unfolding release
destroy s = elim s.camera [ none ↦ s | some c ↦ release c s ]
