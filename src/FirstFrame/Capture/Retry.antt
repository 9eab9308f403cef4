-- ===== src/FirstFrame/Capture/Retry.antt =====
-- `xioctl` of first_frame repeats a call that a signal has interrupted (src/first_frame.c).
use twincam.Base.{
  ℕ, zero, suc, ◌+◌, ◌-◌, ◌≤◌, ◌<◌, ◌≡◌, ◌≢◌, some, ◌==◌, arith, Bool-cases, Option-cases, inl, inr,
}
use twincam.FirstFrame.State.{World, tick, Request, Kernel, ok}
use twincam.FirstFrame.Capture.{xioctl}

-- The induction is on the number of answers that are EINTR.
retries :
    (k : Kernel) (n fuel last : ℕ) (r : Request) (w : World)
    → w.now + n ≡ last
    → n < fuel
    → ((t : ℕ) → w.now ≤ t → t < last → k.ioctl t r ≡ some 4)
    → k.ioctl last r ≢ some 4
    → xioctl k fuel r w ≡ ok (k.ioctl last r, record w { now = suc last })
unfolding xioctl
retries k n zero last r w e enough before after = absurd (omega arith)
retries k zero (suc fuel) last r w e enough before after =
    let same : w.now ≡ last = omega (arith, e) in
    elim (Option-cases (k.ioctl w.now r)) [
      | inl done ↦ ground (arith, same, done)
      | inr (m, bad) ↦ elim (Bool-cases (m == 4)) [
        | inl again ↦ absurd (after (ground (arith, same, bad, again)))
        | inr other ↦ ground (arith, same, bad, other)
      ]
    ]
retries k (suc n) (suc fuel) last r w e enough before after =
    let interrupted : k.ioctl w.now r ≡ some 4 = before w.now (omega arith) (omega (arith, e)) in
    rw (xioctl, interrupted)
      (retries k n fuel last r (tick w) (omega (arith, e)) (omega (arith, enough))
        (λ t late early. before t (omega (arith, late)) early) after)

-- Suppose that up to a time all answers to a request are EINTR, that the one at that time is not, and that
-- there is fuel for as many rounds. Then `xioctl` returns that answer, and it has changed nothing but the time.
pub xioctl_lem :
    (k : Kernel) (fuel last : ℕ) (r : Request) (w : World)
    → w.now ≤ last
    → last < w.now + fuel
    → ((t : ℕ) → w.now ≤ t → t < last → k.ioctl t r ≡ some 4)
    → k.ioctl last r ≢ some 4
    → xioctl k fuel r w ≡ ok (k.ioctl last r, record w { now = suc last })
xioctl_lem k fuel last r w late enough before after =
    retries k (last - w.now) fuel last r w (omega (arith, late)) (omega (arith, late, enough))
      before after
