-- ===== src/CamApp/Startup/Polling.antt =====
-- How long `CamApp::init` waits (src/twincam.cpp).
use twincam.Base.{
  ℕ, zero, suc, ◌+◌, ◌≤◌, ◌<◌, ◌≡◌, refl, ◌⊎◌, inl, inr, Bool, true, false, pos, is_nonzero, arith,
  Bool-cases, compare_cases, sym, if◌then◌else◌,
}
use twincam.CamApp.Startup.{Host, poll, turns, wait_for_devices, has_cameras, init_app}

-- Nothing is seen from a time on, before another.
abbrev pub NothingBetween : (ℕ → Bool) → ℕ → ℕ → Type 0
NothingBetween look from to = (t : ℕ) → from ≤ t → t < to → look t ≡ false

-- A poll ends at the first time at which the look succeeds, or after all its turns if it does not succeed
-- in any of them.
pub poll_lem :
    (look : ℕ → Bool) (n now : ℕ)
    → let (found, time) = poll look n now in
      (now ≤ time)
      × (time ≤ now + n)
      × NothingBetween look now time
      × (((found ≡ true) × (time < now + n) × (look time ≡ true))
          ⊎ ((found ≡ false) × (time ≡ now + n)))
unfolding poll
poll_lem look zero now =
    (omega arith, omega arith, λ t a b. absurd (omega arith), inr (refl, omega arith))
poll_lem look (suc n) now = elim (Bool-cases (look now)) [
  | inl seen ↦
      rw seen
        (omega arith, omega arith, λ t a b. absurd (omega arith), inl (refl, omega arith, seen))
  | inr not_yet ↦
      let (low, high, before, ends) = poll_lem look n (suc now) in
      rw not_yet (
        omega arith,
        omega arith,
        λ t a b. elim (compare_cases now t) [
          | inl later ↦ before t (omega arith) b
          | inr (inl same) ↦ rw (sym same) not_yet
          | inr (inr earlier) ↦ absurd (omega arith)
        ],
        elim ends [
          | inl (found, in_time, seen) ↦ inl (found, omega arith, seen)
          | inr (nothing, all) ↦ inr (nothing, omega arith)
        ],
      )
]

pub wait_bounds :
    (have_libudev : Bool) (h : Host) (now : ℕ)
    → let time = wait_for_devices have_libudev h now in
      (now ≤ time) × (time ≤ now + (if have_libudev then 2000 else 1200))
unfolding wait_for_devices
wait_bounds false h now =
    let t1 = (poll h.sysfs_exists turns now).1 in
    let t2 = (poll h.video_exists turns t1).1 in
    let (low1, high1, before1, ends1) = poll_lem h.sysfs_exists turns now in
    let (low2, high2, before2, ends2) = poll_lem h.video_exists turns t1 in
    let (low3, high3, before3, ends3) = poll_lem h.media_exists turns t2 in
    (omega arith, omega arith)
wait_bounds true h now =
    let t1 = (poll h.sysfs_exists turns now).1 in
    let t2 = (poll h.video_exists turns t1).1 in
    let t3 = (poll h.media_exists turns t2).1 in
    let t4 = (poll h.udev_media turns t3).1 in
    let (low1, high1, before1, ends1) = poll_lem h.sysfs_exists turns now in
    let (low2, high2, before2, ends2) = poll_lem h.video_exists turns t1 in
    let (low3, high3, before3, ends3) = poll_lem h.media_exists turns t2 in
    let (low4, high4, before4, ends4) = poll_lem h.udev_media turns t3 in
    let (low5, high5, before5, ends5) = poll_lem h.udev_video4linux turns t4 in
    (omega arith, omega arith)

add_turns :
    (have_libudev : Bool)
    → (if have_libudev then 2000 else 1200) + 400 ≡ (if have_libudev then 2400 else 1600)
add_turns true = omega arith
add_turns false = omega arith

-- `init` returns what the camera manager's `start` returned, and it waits at most 16 seconds, or 24 with
-- libudev, whatever it finds.
pub init_app_lem :
    (have_libudev : Bool) (h : Host) (now : ℕ)
    → let (ret, time) = init_app have_libudev h now in
      (((ret ≡ pos 0) × (is_nonzero h.start ≡ false))
        ⊎ ((ret ≡ h.start) × (is_nonzero h.start ≡ true)))
      × (now ≤ time)
      × (time ≤ now + (if have_libudev then 2400 else 1600))
unfolding init_app
init_app_lem have_libudev h now =
    let started = wait_for_devices have_libudev h now in
    let (low, high) = wait_bounds have_libudev h now in
    let (later, limit, before, ends) = poll_lem (has_cameras h) turns started in
    let sum = add_turns have_libudev in
    elim (Bool-cases (is_nonzero h.start)) [
      | inl bad ↦ rw bad (inr (refl, refl), low, omega arith)
      | inr good ↦ rw good (inl (refl, refl), omega arith, omega arith)
    ]
