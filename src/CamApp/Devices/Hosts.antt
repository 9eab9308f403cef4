-- ===== src/CamApp/Devices/Hosts.antt =====
-- `CamApp::init` with the searches that it calls, on a file system and a udev that change (src/twincam.cpp).
use twincam.Base.{
  ℕ, ◌+◌, ◌≤◌, ◌<◌, ◌≡◌, refl, inl, inr, Bool, true, false, not, Option, some, List, [], ◌∷◌, ◌++◌,
  In, ℤ, pos, is_nonzero, String, arith, ap, length,
}
use twincam.CamApp.Startup.{Host, init_app}
use twincam.CamApp.Startup.Promptness.{Shows, init_app-by}
use twincam.CamApp.Devices.{sysfs_dirs, any_opens, sysfs_exists, dev_exists, UdevApi, wait_for_udev}
use twincam.CamApp.Devices.Search.{dev_exists_lem}

-- `video`
abbrev pub video : List ℕ
video = 118 ∷ 105 ∷ 100 ∷ 101 ∷ 111 ∷ []

-- `media`
abbrev pub media : List ℕ
media = 109 ∷ 101 ∷ 100 ∷ 105 ∷ 97 ∷ []

-- What there is at a time: the directories that can be opened, the names in /dev, what udev answers, and the
-- number of cameras of libcamera; and what the camera manager's `start` returns.
pub record Files : Type 0 where
  pub opendir : ℕ → String → Bool
  pub dev : ℕ → Option (List (List ℕ))
  pub udev : ℕ → UdevApi
  pub cameras : ℕ → ℕ
  pub start : ℤ

-- The tests of the loops of `init`.
pub host_of : Files → Host
host_of f = record {
  sysfs_exists = λ t. sysfs_exists (f.opendir t);
  video_exists = λ t. dev_exists video (f.dev t);
  media_exists = λ t. dev_exists media (f.dev t);
  udev_media = λ t. not (is_nonzero (wait_for_udev (f.udev t) "media").0);
  udev_video4linux = λ t. not (is_nonzero (wait_for_udev (f.udev t) "video4linux").0);
  cameras = f.cameras;
  start = f.start;
}

-- An entry of /dev whose name starts with a text.
abbrev pub HasNode : List ℕ → Option (List (List ℕ)) → Type 0
HasNode fn dev =
    (names : List (List ℕ)) × (rest : List ℕ) × (dev ≡ some names) × In (fn ++ rest) names

-- From a time on the devices of a camera are there.
pub record IsReady (f : Files) (ready : ℕ) : Type 0 where
  pub sysfs : (t : ℕ) → ready ≤ t → (d : String) × In d sysfs_dirs × (f.opendir t d ≡ true)
  pub video : (t : ℕ) → ready ≤ t → HasNode video (f.dev t)
  pub media : (t : ℕ) → ready ≤ t → HasNode media (f.dev t)
  pub udev_media : (t : ℕ) → ready ≤ t → (wait_for_udev (f.udev t) "media").0 ≡ pos 0
  pub udev_video4linux : (t : ℕ) → ready ≤ t → (wait_for_udev (f.udev t) "video4linux").0 ≡ pos 0
  pub cameras : (t : ℕ) → ready ≤ t → 0 < f.cameras t

any_opens-In :
    (opendir : String → Bool) (d : String) (ds : List String)
    → In d ds
    → opendir d ≡ true
    → any_opens opendir ds ≡ true
unfolding any_opens
any_opens-In opendir d [] there opens = absurd there
any_opens-In opendir d (x ∷ ds) (inl here) opens = ground (arith, here, opens)
any_opens-In opendir d (x ∷ ds) (inr there) opens =
    let rest = any_opens-In opendir d ds there opens in ground (arith, rest)

dev_exists-HasNode :
    (fn : List ℕ) (dev : Option (List (List ℕ)))
    → length fn ≡ 5
    → HasNode fn dev
    → dev_exists fn dev ≡ true
dev_exists-HasNode fn dev five (names, rest, e, there) =
    rw e ((dev_exists_lem fn names five).2 (fn ++ rest) rest there refl)

host_of-Shows : (f : Files) (ready : ℕ) → IsReady f ready → Shows (host_of f) ready
unfolding host_of sysfs_exists
host_of-Shows f ready r = record {
  sysfs = λ t late.
      let (d, there, opens) = r.sysfs t late in any_opens-In (f.opendir t) d sysfs_dirs there opens;
  video = λ t late. dev_exists-HasNode video (f.dev t) refl (r.video t late);
  media = λ t late. dev_exists-HasNode media (f.dev t) refl (r.media t late);
  udev_media = λ t late. ap (λ z. not (is_nonzero z)) (r.udev_media t late);
  udev_video4linux = λ t late. ap (λ z. not (is_nonzero z)) (r.udev_video4linux t late);
  cameras = λ t late. ground (arith, r.cameras t late);
}

-- Suppose that from some time on a media directory of sysfs can be opened, /dev has entries whose names start
-- with `video` and `media`, `wait_for_udev` returns 0 for both subsystems and libcamera has a camera, and that
-- the camera manager starts. Then `init` returns 0, and not after the later of this time and that at which it
-- began; and if this time comes less than four seconds after it began, then there is a camera when it returns.
pub init_app-IsReady :
    (have_libudev : Bool) (f : Files) (now ready b : ℕ)
    → IsReady f ready
    → is_nonzero f.start ≡ false
    → now ≤ b
    → ready ≤ b
    → let (ret, time) = init_app have_libudev (host_of f) now in
      (ret ≡ pos 0) × (time ≤ b) × (ready < now + 400 → 0 < f.cameras time)
unfolding host_of
init_app-IsReady have_libudev f now ready b r good early late =
    let (ret, by, finds) =
      init_app-by have_libudev (host_of f) now ready b (host_of-Shows f ready r) good early late in
    (ret, by, λ soon. ground (arith, finds soon))
