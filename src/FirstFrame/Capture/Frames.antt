-- ===== src/FirstFrame/Capture/Frames.antt =====
-- Each frame that first_frame grabs (src/first_frame.c) keeps to the protocol.
use twincam.Base.{
  ℕ, zero, suc, ◌+◌, ◌≡◌, refl, Bool, true, false, ◌&&◌, some, [], ◌∷◌, get_elem?, ◌==◌,
  if◌then◌else◌, arith, Bool-cases, Option-cases, inl, inr, ap,
}
use twincam.FirstFrame.State.{
  IoMethod, io_method_read, io_method_mmap, io_method_userptr, Buffer, Globals, read_into, World,
  tick, log, Selected, ready, timed_out, failed, Kernel, Outcome, ok, exits, ◌>>=◌,
}
use twincam.FirstFrame.Capture.{
  read_by_read, take_mmap, take_userptr, dequeue_and, read_frame, grab, grab_frames, mainloop,
}
use twincam.FirstFrame.Capture.Conformance.{
  process_image-On, Grabbed, owns_buffer, take_mmap-Grabbed, take_userptr-Grabbed,
  dequeue_and-Grabbed,
}
use twincam.FirstFrame.Protocol.{
  Device, mem, Holds, verdict, Ensures, Ensures-bind, Holds-step, On, On-Fine, accept,
}
use twincam.FirstFrame.Protocol.Stages.{Shaped, ShapedFor, IsIdle, IsRunning}

-- The stage in which frames are grabbed.
abbrev pub CaptureFor : Globals → IoMethod → Device → Type 0
CaptureFor g io_method_read = IsIdle g
CaptureFor g io_method_mmap = IsRunning g
CaptureFor g io_method_userptr = IsRunning g

module _ (k : Kernel) (g : Globals) where
  may_read :
      (d : Device) (b : Buffer)
      → IsIdle g d
      → get_elem? g.buffers 0 ≡ some b
      → Holds (IsIdle g) (accept (read_into b.start) d)
  may_read d b s at =
      let allowed : (d.is_open && mem b.start d.owned) ≡ true =
        ground (arith, s.setup.is_open, owns_buffer g d 0 b s.setup at) in
      rw (Holds, allowed) s

  -- `read` fills the buffer, which is shown.
  read_by_read-Grabbed :
      (n : ℕ) (b : Buffer) (w : World)
      → g.buffers ≡ b ∷ []
      → On (IsIdle g) n w
      → Ensures (Grabbed (IsIdle g) n) (read_by_read k g w)
  unfolding read_by_read
  read_by_read-Grabbed n b w e h =
      let at : get_elem? g.buffers 0 ≡ some b = ap (λ l. get_elem? l 0) e in
      elim (Option-cases (k.read w.now)) [
        | inl done ↦
            rw (Ensures, at, done)
              (process_image-On g (IsIdle g) b.start (λ d s. owns_buffer g d 0 b s.setup at) n
                b.length (log (read_into b.start) (tick w))
                (
                  Holds-step (IsIdle g) (IsIdle g) (read_into b.start) (verdict w.events) h.0
                      (λ d s. may_read d b s at),
                  h.1,
                ))
        | inr (m, bad) ↦ elim (Bool-cases (m == 11)) [
          | inl nothing ↦ rw (Ensures, at, bad, nothing) h
          | inr other ↦ rw (Ensures, at, bad, other) (On-Fine (IsIdle g) n w h)
        ]
      ]

  pub read_frame-Grabbed :
      (fuel n : ℕ) (w : World)
      → Shaped g
      → On (CaptureFor g g.io) n w
      → Ensures (Grabbed (CaptureFor g g.io) n) (read_frame k fuel g w)
  unfolding read_frame
  read_frame-Grabbed fuel n w s h = go g.io refl s h
    where
      go :
          (io : IoMethod)
          → g.io ≡ io
          → ShapedFor io g
          → On (CaptureFor g io) n w
          → Ensures (Grabbed (CaptureFor g io) n) (elim io [
            | io_method_read ↦ read_by_read k g w
            | io_method_mmap ↦ dequeue_and k fuel (take_mmap k fuel g) w
            | io_method_userptr ↦ dequeue_and k fuel (take_userptr k fuel g) w
          ])
      go io_method_read e (b, one) h' = read_by_read-Grabbed n b w one h'
      go io_method_mmap e s' h' =
          dequeue_and-Grabbed g k fuel n (take_mmap k fuel g) w
            (λ b w' t. take_mmap-Grabbed g k fuel n b w' e s' t) h'
      go io_method_userptr e s' h' =
          dequeue_and-Grabbed g k fuel n (take_userptr k fuel g) w
            (λ b w' t. take_userptr-Grabbed g k fuel n b w' e s' t) h'

  -- Another turn of the loop, unless there was a frame.
  turn_again :
      (n : ℕ) (rest : World → Outcome (Unit {0}))
      → ((w' : World)
          → On (CaptureFor g g.io) n w'
          → Ensures (λ (_ : Unit {0}) w''. On (CaptureFor g g.io) (suc n) w'') (rest w'))
      → (got : Bool) (w' : World) → Grabbed (CaptureFor g g.io) n got w'
      → Ensures
          (λ (_ : Unit {0}) w''. On (CaptureFor g g.io) (suc n) w'')
          (if got then ok (tt, w') else rest w')
  turn_again n rest next true w' h' = h'
  turn_again n rest next false w' h' = next w' h'

  module _ (fuel : ℕ) (s : Shaped g) where
    -- One turn of `mainloop` grabs one frame.
    grab-On :
        (turns n : ℕ) (w : World)
        → On (CaptureFor g g.io) n w
        → Ensures (λ (_ : Unit {0}) w'. On (CaptureFor g g.io) (suc n) w') (grab k fuel turns g w)
    unfolding grab
    grab-On zero n w h = tt
    grab-On (suc turns) n w h =
        elim (k.select w.now)
          as (λ (r : Selected).
            Ensures (λ (_ : Unit {0}) w'. On (CaptureFor g g.io) (suc n) w')
              (elim r [
                | failed e ↦ if e == 4 then grab k fuel turns g (tick w) else exits 1 (tick w)
                | timed_out ↦ exits 1 (tick w)
                | ready ↦ read_frame k fuel g (tick w) >>= λ (r' : Bool × World).
                    (if r'.0 then ok (tt, r'.1) else grab k fuel turns g r'.1)
              ])) [
                | ready ↦
                    Ensures-bind (Grabbed (CaptureFor g g.io) n) _ (read_frame k fuel g (tick w)) _
                      (read_frame-Grabbed fuel n (tick w) s h)
                      (turn_again n (grab k fuel turns g) (λ w' h'. grab-On turns n w' h'))
                | timed_out ↦ On-Fine (CaptureFor g g.io) n w h
                | failed e ↦ elim (Bool-cases (e == 4)) [
                  | inl interrupted ↦ rw (Ensures, interrupted) (grab-On turns n (tick w) h)
                  | inr other ↦ rw (Ensures, other) (On-Fine (CaptureFor g g.io) n w h)
                ]
              ]

    grab_frames-On :
        (count n m : ℕ) (w : World)
        → count + n ≡ m
        → On (CaptureFor g g.io) n w
        → Ensures (λ (_ : Unit {0}) w'. On (CaptureFor g g.io) m w') (grab_frames k fuel count g w)
    unfolding grab_frames
    grab_frames-On zero n m w e h = (h.0, omega (arith, h.1))
    grab_frames-On (suc count) n m w e h =
        Ensures-bind (λ (_ : Unit {0}) w'. On (CaptureFor g g.io) (suc n) w') _
          (grab k fuel fuel g w) _ (grab-On fuel n w h)
          λ _ w' h'. grab_frames-On count (suc n) m w' (omega arith) h'

    pub mainloop-On :
        (w : World)
        → On (CaptureFor g g.io) 0 w
        → Ensures
            (λ (_ : Unit {0}) w'. On (CaptureFor g g.io) g.frame_count w')
            (mainloop k fuel g w)
    unfolding mainloop
    mainloop-On w h = grab_frames-On g.frame_count 0 g.frame_count w (omega arith) h
