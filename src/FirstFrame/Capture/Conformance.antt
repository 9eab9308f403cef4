-- ===== src/FirstFrame/Capture/Conformance.antt =====
-- The capture loop of first_frame (src/first_frame.c) keeps to the protocol.
use twincam.Base.{
  ℕ, zero, suc, ◌≡◌, Bool, true, false, ◌&&◌, Option, none, some, length, get_elem?, ltb, ◌==◌,
  if◌then◌else◌, arith, Bool-cases, Option-cases, inl, inr, ap, get_elem?-lt,
}
use twincam.FirstFrame.State.{
  io_method_mmap, io_method_userptr, Buffer, Globals, queued, queued_pointer, dequeued, written,
  shown, World, tick, log, Request, dqbuf, qbuf, Dequeued, Kernel, Outcome, ok, exits,
}
use twincam.FirstFrame.Capture.{
  process_image, find_buffer, xioctl, must, take_mmap, take_userptr, dequeue_and,
}
use twincam.FirstFrame.Protocol.{
  Device, mem, Holds, verdict, Ensures, Ensures-bind, Holds-step, On, On-Fine, accept, may_queue,
  enqueue, is_mmap, is_userptr,
}
use twincam.FirstFrame.Protocol.Stages.{
  IsSetup, IsRunning, IsTaken, mem-starts, find_buffer-mem, find_buffer-some,
}

module _ (k : Kernel) (P : Device → Type 0) (n : ℕ) where
  pub xioctl-On :
      (fuel : ℕ) (r : Request) (w : World)
      → On P n w
      → Ensures (λ (e : Option ℕ) w'. On P n w') (xioctl k fuel r w)
  unfolding xioctl
  xioctl-On zero r w h = tt
  xioctl-On (suc fuel) r w h = elim (Option-cases (k.ioctl w.now r)) [
    | inl done ↦ rw (Ensures, done) h
    | inr (e, bad) ↦ elim (Bool-cases (e == 4)) [
      | inl again ↦ rw (Ensures, bad, again) (xioctl-On fuel r (tick w) h)
      | inr other ↦ rw (Ensures, bad, other) h
    ]
  ]

  pub must-On :
      (fuel : ℕ) (r : Request) (w : World)
      → On P n w
      → Ensures (λ (_ : Unit {0}) w'. On P n w') (must k fuel r w)
  unfolding must
  must-On fuel r w h =
      Ensures-bind (λ (e : Option ℕ) w'. On P n w') (λ _ w'. On P n w') (xioctl k fuel r w) _
        (xioctl-On fuel r w h) ends
    where
      ends :
          (e : Option ℕ) (w' : World)
          → On P n w'
          → Ensures
              (λ (_ : Unit {0}) w'. On P n w')
              (elim e [ none ↦ ok (tt, w') | some _ ↦ exits 1 w' ])
      ends none w' h' = h'
      ends (some x) w' h' = On-Fine P n w' h'

-- An image that the program owns may be shown: that is one frame, and the device stays as it was.
module _ (g : Globals) (P : Device → Type 0) (start : ℕ)
    (owns : (d : Device) → P d → mem start d.owned ≡ true) where
  pub process_image-On :
      (n size : ℕ) (w : World) → On P n w → On P (suc n) (process_image g start size w)
  unfolding process_image
  process_image-On n size w h = elim (Bool-cases (g.out_buf == 0)) [
    | inl quiet ↦
        rw quiet
          (Holds-step P P (shown start) (verdict w.events) h.0 (λ d p. rw (owns d p) p), ap suc h.1)
    | inr out ↦ rw out (
      Holds-step P P (shown start) _
          (Holds-step P P (written start size) (verdict w.events) h.0 (λ d p. rw (owns d p) p))
          (λ d p. rw (owns d p) p),
      ap suc h.1,
    )
  ]

-- After `read_frame`: there is one frame more, or none.
abbrev pub Grabbed : (Device → Type 0) → ℕ → Bool → World → Type 0
Grabbed P n got w = On P (if got then suc n else n) w

module _ (g : Globals) where
  pub owns_buffer :
      (d : Device) (i : ℕ) (b : Buffer)
      → IsSetup g d
      → get_elem? g.buffers i ≡ some b
      → mem b.start d.owned ≡ true
  owns_buffer d i b s e = ground (arith, s.owned, mem-starts g.buffers i b e)

  owns_found :
      (d : Device) (b : Dequeued)
      → IsSetup g d
      → find_buffer g.n_buffers g.buffers b ≡ some true
      → mem b.userptr d.owned ≡ true
  owns_found d b s e = ground (arith, s.owned, find_buffer-mem g.n_buffers g.buffers b e)

  IsTaken-dequeued :
      (i : ℕ) (d : Device) → IsRunning g d → Holds (IsTaken g i) (accept (dequeued i) d)
  IsTaken-dequeued i d r = elim (Bool-cases (d.streaming && ltb i d.count && d.in_driver i)) [
    | inr fault ↦ rw (Holds, fault) tt
    | inl honest ↦
        rw (Holds, honest)
          record {
            setup = record {
              is_open = r.setup.is_open;
              memory = r.setup.memory;
              counted = r.setup.counted;
              owned = r.setup.owned;
            };
            streams = r.streams;
            granted = ground (arith, honest);
            taken = ground arith;
            others = λ j small other. ground (arith, r.full j small);
          }
  ]

  may_take : (i : ℕ) (d : Device) → IsTaken g i d → (may_queue d i ≡ true)
  may_take i d t = ground (arith, t.setup.is_open, t.granted, t.taken)

  IsRunning-enqueue : (i : ℕ) (d : Device) → IsTaken g i d → IsRunning g (enqueue i d)
  IsRunning-enqueue i d t = record {
    setup = record {
      is_open = t.setup.is_open;
      memory = t.setup.memory;
      counted = t.setup.counted;
      owned = t.setup.owned;
    };
    streams = t.streams;
    full = λ j small. ground (arith, t.others j small);
  }

  IsRunning-queued :
      (i : ℕ) (d : Device)
      → g.io ≡ io_method_mmap
      → IsTaken g i d
      → Holds (IsRunning g) (accept (queued i) d)
  IsRunning-queued i d e t =
      let is_mmap_true : is_mmap d.memory ≡ true = ground (arith, t.setup.memory, e) in
      rw (Holds, may_take i d t, is_mmap_true) (IsRunning-enqueue i d t)

  IsRunning-queued_pointer :
      (i a : ℕ) (d : Device)
      → g.io ≡ io_method_userptr
      → mem a d.owned ≡ true
      → IsTaken g i d
      → Holds (IsRunning g) (accept (queued_pointer i a) d)
  IsRunning-queued_pointer i a d e owned t =
      let is_userptr_true : is_userptr d.memory ≡ true = ground (arith, t.setup.memory, e) in
      rw (Holds, may_take i d t, is_userptr_true, owned) (IsRunning-enqueue i d t)

  -- A memory mapped buffer that has been taken is shown and given back.
  pub take_mmap-Grabbed :
      (k : Kernel) (fuel n : ℕ) (b : Dequeued) (w : World)
      → g.io ≡ io_method_mmap
      → g.n_buffers ≡ length g.buffers
      → On (IsTaken g b.index) n w
      → Ensures (Grabbed (IsRunning g) n) (take_mmap k fuel g b w)
  unfolding take_mmap
  take_mmap-Grabbed k fuel n b w e s h = elim (Bool-cases (ltb b.index g.n_buffers)) [
    | inr bad ↦ rw (Ensures, bad) (On-Fine (IsTaken g b.index) n w h)
    | inl small ↦
        let (x, at) = get_elem?-lt g.buffers b.index (ground (arith, small, s)) in
        let w1 = process_image g x.start b.bytesused w in
        let shown_x : On (IsTaken g b.index) (suc n) w1 =
          process_image-On g (IsTaken g b.index) x.start (λ d t. owns_buffer d b.index x t.setup at)
            n b.bytesused w h in
        rw (Ensures, small, at)
          (Ensures-bind (λ (_ : Unit {0}) w'. On (IsTaken g b.index) (suc n) w')
            (Grabbed (IsRunning g) n) (must k fuel (qbuf b.index) w1) _
            (must-On k (IsTaken g b.index) (suc n) fuel (qbuf b.index) w1 shown_x)
            λ _ w' h'. (
              Holds-step (IsTaken g b.index) (IsRunning g) (queued b.index) (verdict w'.events) h'.0
                  (λ d t. IsRunning-queued b.index d e t),
              h'.1,
            ))
  ]

  -- So is a user pointer.
  pub take_userptr-Grabbed :
      (k : Kernel) (fuel n : ℕ) (b : Dequeued) (w : World)
      → g.io ≡ io_method_userptr
      → g.n_buffers ≡ length g.buffers
      → On (IsTaken g b.index) n w
      → Ensures (Grabbed (IsRunning g) n) (take_userptr k fuel g b w)
  unfolding take_userptr
  take_userptr-Grabbed k fuel n b w e s h =
      elim (Option-cases (find_buffer g.n_buffers g.buffers b)) [
        | inl past ↦ absurd (find_buffer-some g.n_buffers g.buffers b (omega (arith, s)) past)
        | inr (false, bad) ↦ rw (Ensures, bad) (On-Fine (IsTaken g b.index) n w h)
        | inr (true, found) ↦
            let w1 = process_image g b.userptr b.bytesused w in
            let shown_x : On (IsTaken g b.index) (suc n) w1 =
              process_image-On g (IsTaken g b.index) b.userptr (λ d t. owns_found d b t.setup found)
                n b.bytesused w h in
            rw (Ensures, found)
              (Ensures-bind (λ (_ : Unit {0}) w'. On (IsTaken g b.index) (suc n) w')
                (Grabbed (IsRunning g) n) (must k fuel (qbuf b.index) w1) _
                (must-On k (IsTaken g b.index) (suc n) fuel (qbuf b.index) w1 shown_x)
                λ _ w' h'. (
                  Holds-step (IsTaken g b.index) (IsRunning g) (queued_pointer b.index b.userptr)
                      (verdict w'.events) h'.0
                      (λ d t.
                        IsRunning-queued_pointer b.index b.userptr d e
                          (owns_found d b t.setup found) t),
                  h'.1,
                ))
      ]

  pub dequeue_and-Grabbed :
      (k : Kernel) (fuel n : ℕ) (next : Dequeued → World → Outcome Bool) (w : World)
      → ((b : Dequeued) (w' : World)
          → On (IsTaken g b.index) n w'
          → Ensures (Grabbed (IsRunning g) n) (next b w'))
      → On (IsRunning g) n w
      → Ensures (Grabbed (IsRunning g) n) (dequeue_and k fuel next w)
  unfolding dequeue_and
  dequeue_and-Grabbed k fuel n next w go h =
      Ensures-bind (λ (_ : Option ℕ) w'. On (IsRunning g) n w') (Grabbed (IsRunning g) n)
        (xioctl k fuel dqbuf w) _ (xioctl-On k (IsRunning g) n fuel dqbuf w h) ends
    where
      ends :
          (e : Option ℕ) (w' : World)
          → On (IsRunning g) n w'
          → Ensures (Grabbed (IsRunning g) n) (elim e [
            | some m ↦ if m == 11 then ok (false, w') else exits 1 w'
            | none ↦ let b = k.dequeue w'.now in next b (log (dequeued b.index) w')
          ])
      ends none w' h' =
          let b = k.dequeue w'.now in
          go b (log (dequeued b.index) w') (
            Holds-step (IsRunning g) (IsTaken g b.index) (dequeued b.index) (verdict w'.events) h'.0
                (λ d r. IsTaken-dequeued b.index d r),
            h'.1,
          )
      ends (some m) w' h' = elim (Bool-cases (m == 11)) [
        | inl nothing ↦ rw (Ensures, nothing) h'
        | inr other ↦ rw (Ensures, other) (On-Fine (IsRunning g) n w' h')
      ]
