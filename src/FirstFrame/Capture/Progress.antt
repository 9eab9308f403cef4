-- ===== src/FirstFrame/Capture/Progress.antt =====
-- The loops of first_frame's capture (src/first_frame.c) end.
use twincam.Base.{
  ℕ, zero, suc, ◌+◌, ◌<◌, ◌≡◌, refl, ◌∙◌, Bool, true, false, Option, none, some, ltb, ◌==◌,
  get_elem?, if◌then◌else◌, arith, Bool-cases, Option-cases, inl, inr, compare_cases, ap,
}
use mathlib.Core.Path.{subst}
use twincam.FirstFrame.State.{
  IoMethod, io_method_read, io_method_mmap, io_method_userptr, Globals, read_into, dequeued, World,
  tick, log, Request, dqbuf, qbuf, Dequeued, Kernel, Outcome, ok, exits,
}
use twincam.FirstFrame.Capture.{
  process_image, find_buffer, xioctl, must, read_by_read, take_mmap, take_userptr, dequeue_and,
  read_frame,
}
use twincam.FirstFrame.Ends.{IsSettled, Ends, Ends-bind, Ends-map}

eq-of_test : (e n : ℕ) → (e == n) ≡ true → e ≡ n
eq-of_test e n h = ground arith

process_image-now :
    (g : Globals) (start size : ℕ) (w : World) → (process_image g start size w).now ≡ w.now
unfolding process_image
process_image-now g start size w = ground arith

module _ (k : Kernel) (from : ℕ) (settled : IsSettled k from) where
  -- What an `xioctl` returns from a time on: it has taken time, and is no EAGAIN of a dequeuing after all
  -- has settled.
  abbrev pub Answered : Request → ℕ → Option ℕ → World → Type 0
  Answered r now e w = (now < w.now) × (e ≡ some 11 → r ≡ dqbuf → now < from)

  pub xioctl-Ends :
      (fuel : ℕ) (r : Request) (w : World)
      → 0 < fuel
      → from < w.now + fuel
      → Ends (Answered r w.now) (xioctl k fuel r w)
  unfolding xioctl
  xioctl-Ends zero r w some_fuel enough = absurd (omega arith)
  xioctl-Ends (suc fuel) r w some_fuel enough = elim (Option-cases (k.ioctl w.now r)) [
    | inl done ↦ rw (Ends, done) (omega arith, λ e. cc)
    | inr (e, bad) ↦ elim (Bool-cases (e == 4)) [
      | inl again ↦
          let early : w.now < from = elim (compare_cases w.now from) [
            | inl early ↦ early
            | inr late ↦
                absurd
                  (settled.no_signal w.now r (ground arith) (bad ∙ ap some (eq-of_test e 4 again)))
          ] in
          rw (Ends, bad, again)
            (Ends-map (Answered r (suc w.now)) (Answered r w.now) (xioctl k fuel r (tick w))
              (xioctl-Ends fuel r (tick w) (omega (arith, early)) (omega arith))
              (λ e' w' (later, before). (omega arith, λ a b. early)))
      | inr other ↦
          rw (Ends, bad, other)
            (
              omega arith,
              λ e' dq. elim (compare_cases w.now from) [
                | inl early ↦ early
                | inr late ↦ absurd (
                    settled.frame w.now (ground arith)
                      (subst (λ x. k.ioctl w.now x ≡ some 11) dq (bad ∙ e')))
              ],
            )
    ]
  ]

module _ (k : Kernel) (from : ℕ) (settled : IsSettled k from) (fuel : ℕ)
    (enough : from < fuel) where
  pub must-Ends :
      (r : Request) (w : World) → Ends (λ (_ : Unit {0}) w'. w.now < w'.now) (must k fuel r w)
  unfolding must
  must-Ends r w =
      Ends-bind (Answered k from settled r w.now) _ (xioctl k fuel r w) _
        (xioctl-Ends k from settled fuel r w (omega (arith, enough)) (omega (arith, enough))) ends
    where
      ends :
          (e : Option ℕ) (w' : World)
          → Answered k from settled r w.now e w'
          → Ends
              (λ (_ : Unit {0}) w''. w.now < w''.now)
              (elim e [ none ↦ ok (tt, w') | some _ ↦ exits 1 w' ])
      ends none w' h = h.0
      ends (some x) w' h = tt

  -- A frame that is not there has been asked for before all has settled.
  abbrev pub Tried : ℕ → Bool → World → Type 0
  Tried now got w = (now < w.now) × (got ≡ false → now < from)

  read_by_read-Ends : (g : Globals) (w : World) → Ends (Tried w.now) (read_by_read k g w)
  unfolding read_by_read
  read_by_read-Ends g w = elim (Option-cases (get_elem? g.buffers 0)) [
    | inl past ↦ rw (Ends, past) tt
    | inr (b, at) ↦ elim (Option-cases (k.read w.now)) [
      | inl done ↦
          rw (Ends, at, done)
            (
              omega
                  (arith, process_image-now g b.start b.length (log (read_into b.start) (tick w))),
              λ e. cc,
            )
      | inr (e, bad) ↦ elim (Bool-cases (e == 11)) [
        | inr other ↦ rw (Ends, at, bad, other) tt
        | inl nothing ↦
            rw (Ends, at, bad, nothing)
              (
                omega arith,
                λ _. elim (compare_cases w.now from) [
                  | inl early ↦ early
                  | inr late ↦
                      absurd (
                        settled.read w.now (ground arith) (bad ∙ ap some (eq-of_test e 11 nothing)))
                ],
              )
      ]
    ]
  ]

  take_mmap-Ends :
      (g : Globals) (b : Dequeued) (w : World) → Ends (Tried w.now) (take_mmap k fuel g b w)
  unfolding take_mmap
  take_mmap-Ends g b w = elim (Bool-cases (ltb b.index g.n_buffers)) [
    | inr bad ↦ rw (Ends, bad) tt
    | inl small ↦ elim (Option-cases (get_elem? g.buffers b.index)) [
      | inl past ↦ rw (Ends, small, past) tt
      | inr (x, at) ↦
          let w1 = process_image g x.start b.bytesused w in
          rw (Ends, small, at)
            (Ends-bind (λ (_ : Unit {0}) w'. w1.now < w'.now) (Tried w.now)
              (must k fuel (qbuf b.index) w1) _ (must-Ends (qbuf b.index) w1)
              λ _ w' later.
                (omega (arith, later, process_image-now g x.start b.bytesused w), λ e. cc))
    ]
  ]

  take_userptr-Ends :
      (g : Globals) (b : Dequeued) (w : World) → Ends (Tried w.now) (take_userptr k fuel g b w)
  unfolding take_userptr
  take_userptr-Ends g b w = elim (Option-cases (find_buffer g.n_buffers g.buffers b)) [
    | inl past ↦ rw (Ends, past) tt
    | inr (false, bad) ↦ rw (Ends, bad) tt
    | inr (true, found) ↦
        let w1 = process_image g b.userptr b.bytesused w in
        rw (Ends, found)
          (Ends-bind (λ (_ : Unit {0}) w'. w1.now < w'.now) (Tried w.now)
            (must k fuel (qbuf b.index) w1) _ (must-Ends (qbuf b.index) w1)
            λ _ w' later.
              (omega (arith, later, process_image-now g b.userptr b.bytesused w), λ e. cc))
  ]

  dequeue_and-Ends :
      (next : Dequeued → World → Outcome Bool) (w : World)
      → ((b : Dequeued) (w' : World) → Ends (Tried w'.now) (next b w'))
      → Ends (Tried w.now) (dequeue_and k fuel next w)
  unfolding dequeue_and
  dequeue_and-Ends next w go =
      Ends-bind (Answered k from settled dqbuf w.now) _ (xioctl k fuel dqbuf w) _
        (xioctl-Ends k from settled fuel dqbuf w (omega (arith, enough)) (omega (arith, enough)))
        ends
    where
      ends :
          (e : Option ℕ) (w' : World)
          → Answered k from settled dqbuf w.now e w'
          → Ends (Tried w.now) (elim e [
            | some m ↦ if m == 11 then ok (false, w') else exits 1 w'
            | none ↦ let b = k.dequeue w'.now in next b (log (dequeued b.index) w')
          ])
      ends none w' (later, before) =
          let b = k.dequeue w'.now in
          Ends-map (Tried w'.now) (Tried w.now) (next b (log (dequeued b.index) w'))
            (go b (log (dequeued b.index) w'))
            (λ got w'' (later', before').
              (omega (arith, later, later'), λ e. omega (arith, later, before' e)))
      ends (some m) w' (later, before) = elim (Bool-cases (m == 11)) [
        | inr other ↦ rw (Ends, other) tt
        | inl nothing ↦
            rw (Ends, nothing) (later, λ _. before (ap some (eq-of_test m 11 nothing)) refl)
      ]

  pub read_frame-Ends : (g : Globals) (w : World) → Ends (Tried w.now) (read_frame k fuel g w)
  unfolding read_frame
  read_frame-Ends g w = go g.io
    where
      go :
          (io : IoMethod)
          → Ends (Tried w.now) (elim io [
            | io_method_read ↦ read_by_read k g w
            | io_method_mmap ↦ dequeue_and k fuel (take_mmap k fuel g) w
            | io_method_userptr ↦ dequeue_and k fuel (take_userptr k fuel g) w
          ])
      go io_method_read = read_by_read-Ends g w
      go io_method_mmap = dequeue_and-Ends (take_mmap k fuel g) w (take_mmap-Ends g)
      go io_method_userptr = dequeue_and-Ends (take_userptr k fuel g) w (take_userptr-Ends g)
