-- ===== src/CamApp/Startup/Promptness.antt =====
-- `CamApp::init` waits no longer than it has to (src/twincam.cpp).
use twincam.Base.{
  ℕ, suc, ◌+◌, ◌≤◌, ◌<◌, ◌≡◌, refl, inl, inr, Bool, true, false, pos, is_nonzero, arith,
  compare_cases,
}
use twincam.CamApp.Startup.{Host, poll, turns, wait_for_devices, has_cameras, init_app}
use twincam.CamApp.Startup.Polling.{poll_lem, wait_bounds}

-- A look that succeeds from a time on.
abbrev pub Lasts : (ℕ → Bool) → ℕ → Type 0
Lasts look ready = (t : ℕ) → ready ≤ t → look t ≡ true

-- From a time on the host shows all that the program waits for.
pub record Shows (h : Host) (ready : ℕ) : Type 0 where
  pub sysfs : Lasts h.sysfs_exists ready
  pub video : Lasts h.video_exists ready
  pub media : Lasts h.media_exists ready
  pub udev_media : Lasts h.udev_media ready
  pub udev_video4linux : Lasts h.udev_video4linux ready
  pub cameras : Lasts (has_cameras h) ready

module _ (ready b : ℕ) (late : ready ≤ b) where
  poll-by : (look : ℕ → Bool) (n now : ℕ) → Lasts look ready → now ≤ b → (poll look n now).1 ≤ b
  poll-by look n now lasts h =
      let (low, high, before, ends) = poll_lem look n now in
      elim (compare_cases b (poll look n now).1) [
        | inl early ↦
            let seen = lasts b late in
            let not_yet = before b h early in absurd (ground (arith, seen, not_yet))
        | inr other ↦ ground (arith, other)
      ]

  -- The looks that come first, with udev or without.
  devices-by :
      (have_libudev : Bool) (h : Host) (now : ℕ)
      → Shows h ready
      → now ≤ b
      → wait_for_devices have_libudev h now ≤ b
  unfolding wait_for_devices
  devices-by have_libudev h now shows early =
      let by1 = poll-by h.sysfs_exists turns now shows.sysfs early in
      let by2 = poll-by h.video_exists turns _ shows.video by1 in
      let by3 = poll-by h.media_exists turns _ shows.media by2 in
      let by4 = poll-by h.udev_media turns _ shows.udev_media by3 in
      let by5 = poll-by h.udev_video4linux turns _ shows.udev_video4linux by4 in
      elim have_libudev as (λ u. wait_for_devices u h now ≤ b) [ true ↦ by5 | false ↦ by3 ]

-- A poll that has turns left when the look succeeds finds it.
poll-finds :
    (look : ℕ → Bool) (n now ready : ℕ)
    → Lasts look ready
    → ready < now + suc n
    → look (poll look (suc n) now).1 ≡ true
poll-finds look n now ready lasts soon =
    let (low, high, before, ends) = poll_lem look (suc n) now in
    elim ends [ inl (found, in_time, seen) ↦ seen | inr (nothing, all) ↦ lasts _ (omega arith) ]

-- If from a time on the host shows all, and the camera manager starts, then `init` returns 0, and it waits no longer
-- than to that time. If that time comes in less than four seconds, then there is a camera when it returns.
pub init_app-by :
    (have_libudev : Bool) (h : Host) (now ready b : ℕ)
    → Shows h ready
    → is_nonzero h.start ≡ false
    → now ≤ b
    → ready ≤ b
    → let (ret, time) = init_app have_libudev h now in
      (ret ≡ pos 0) × (time ≤ b) × (ready < now + 400 → has_cameras h time ≡ true)
unfolding init_app
init_app-by have_libudev h now ready b shows good early late =
    let started = wait_for_devices have_libudev h now in
    let by = devices-by ready b late have_libudev h now shows early in
    let (low, high) = wait_bounds have_libudev h now in
    rw good (
      refl,
      poll-by ready b late (has_cameras h) turns started shows.cameras by,
      λ soon. poll-finds (has_cameras h) 399 started ready shows.cameras (omega (arith, soon, low)),
    )
