-- ===== src/FirstFrame/Capture/Loops.antt =====
-- The loop of `mainloop`, and what starts and stops a capture, end (src/first_frame.c).
use twincam.Base.{
  ℕ, zero, suc, ◌+◌, ◌<◌, ◌≡◌, refl, ap, Bool, true, false, List, [], ◌∷◌, ◌==◌, if◌then◌else◌,
  arith, Bool-cases, inl, inr, compare_cases,
}
use twincam.FirstFrame.State.{
  IoMethod, io_method_read, io_method_mmap, io_method_userptr, Buffer, Globals, queued,
  queued_pointer, World, tick, log, Request, streamon, streamoff, qbuf, Selected, ready, timed_out,
  failed, Kernel, Outcome, ok, exits, ◌>>=◌,
}
use twincam.FirstFrame.Capture.{
  must, read_frame, grab, grab_frames, mainloop, queue_mmap, queue_userptr, start_stream,
  start_capturing, stop_stream, stop_capturing,
}
use twincam.FirstFrame.Capture.Progress.{must-Ends, Tried, read_frame-Ends}
use twincam.FirstFrame.Ends.{IsSettled, Ends, Anything, Ends-bind, Ends-map}

eq-of_test : (e n : ℕ) → (e == n) ≡ true → e ≡ n
eq-of_test e n h = ground arith

module _ (k : Kernel) (from : ℕ) (settled : IsSettled k from) (fuel : ℕ)
    (enough : from < fuel) where
  turn_Ends :
      (turns now : ℕ) (rest : World → Outcome (Unit {0}))
      → ((w' : World)
          → 0 < turns
          → from < w'.now + turns
          → Ends (λ (_ : Unit {0}) w''. w'.now < w''.now) (rest w'))
      → from < now + suc turns
      → (got : Bool) (w' : World) → Tried k from settled fuel enough (suc now) got w'
      → Ends (λ (_ : Unit {0}) w''. now < w''.now) (if got then ok (tt, w') else rest w')
  turn_Ends turns now rest next big true w' (later, before) = omega (arith, later)
  turn_Ends turns now rest next big false w' (later, before) =
      Ends-map (λ (_ : Unit {0}) w''. w'.now < w''.now) (λ _ w''. now < w''.now) (rest w')
        (next w' (omega (arith, big, before refl)) (omega (arith, big, later)))
        (λ _ w'' h. omega (arith, h, later))

  -- A turn of the loop of `mainloop` is the last one, or all has not settled yet.
  grab-Ends :
      (turns : ℕ) (g : Globals) (w : World)
      → 0 < turns
      → from < w.now + turns
      → Ends (λ (_ : Unit {0}) w'. w.now < w'.now) (grab k fuel turns g w)
  unfolding grab
  grab-Ends zero g w some_turn big = absurd (omega arith)
  grab-Ends (suc turns) g w some_turn big =
      let settle : k.select w.now ≡ failed 4 → w.now < from = λ e. elim (compare_cases w.now from) [
        | inl early ↦ early
        | inr late ↦ absurd (settled.select w.now (ground arith) e)
      ] in
      go (k.select w.now) settle (λ w' p q. grab-Ends turns g w' p q)
    where
      go :
          (r : Selected)
          → (r ≡ failed 4 → w.now < from)
          → ((w' : World)
              → 0 < turns
              → from < w'.now + turns
              → Ends (λ (_ : Unit {0}) w''. w'.now < w''.now) (grab k fuel turns g w'))
          → Ends
              (λ (_ : Unit {0}) w'. w.now < w'.now)
              (elim r [
                | failed e ↦ if e == 4 then grab k fuel turns g (tick w) else exits 1 (tick w)
                | timed_out ↦ exits 1 (tick w)
                | ready ↦ read_frame k fuel g (tick w) >>= λ (r' : Bool × World).
                    (if r'.0 then ok (tt, r'.1) else grab k fuel turns g r'.1)
              ])
      go timed_out settle next = tt
      go (failed e) settle next = elim (Bool-cases (e == 4)) [
        | inr other ↦ rw (Ends, other) tt
        | inl interrupted ↦
            let early : w.now < from = settle (ap failed (eq-of_test e 4 interrupted)) in
            rw (Ends, interrupted)
              (Ends-map (λ (_ : Unit {0}) w''. suc w.now < w''.now) (λ _ w''. w.now < w''.now)
                (grab k fuel turns g (tick w))
                (next (tick w) (omega (arith, big, early)) (omega (arith, big)))
                (λ _ w'' h. omega (arith, h)))
      ]
      go ready settle next =
          Ends-bind (Tried k from settled fuel enough (suc w.now)) _ (read_frame k fuel g (tick w))
            _ (read_frame-Ends k from settled fuel enough g (tick w))
            λ got w' (later, before).
              turn_Ends turns w.now (grab k fuel turns g) next big got w' (later, before)

  pub mainloop-Ends :
      (g : Globals) (w : World) → Ends (Anything {A = Unit {0}}) (mainloop k fuel g w)
  unfolding mainloop grab_frames
  mainloop-Ends g w = frames_end g.frame_count w
    where
      frames_end :
          (count : ℕ) (w' : World) → Ends (Anything {A = Unit {0}}) (grab_frames k fuel count g w')
      frames_end zero w' = tt
      frames_end (suc count) w' =
          Ends-bind (λ (_ : Unit {0}) w''. w'.now < w''.now) _ (grab k fuel fuel g w') _
            (grab-Ends fuel g w' (omega (arith, enough)) (omega (arith, enough)))
            λ _ w'' h. frames_end count w''

  -- A call between two steps, of which only matters that it ends.
  pub must_then :
      {B : Type 0} (r : Request) (w : World) (f : Unit {0} × World → Outcome B)
      → ((w' : World) → Ends (Anything {A = B}) (f (tt, w')))
      → Ends (Anything {A = B}) (must k fuel r w >>= f)
  must_then {B} r w f next =
      Ends-bind (λ (_ : Unit {0}) w'. w.now < w'.now) (Anything {A = B}) (must k fuel r w) f
        (must-Ends k from settled fuel enough r w) (λ _ w' h. next w')

  queue_mmap-Ends :
      (n i : ℕ) (bs : List Buffer) (w : World)
      → Ends (Anything {A = Unit {0}}) (queue_mmap k fuel n i bs w)
  unfolding queue_mmap
  queue_mmap-Ends zero i bs w = tt
  queue_mmap-Ends (suc n) i bs w =
      must_then (qbuf i) w _ λ w'. queue_mmap-Ends n (suc i) bs (log (queued i) w')

  queue_userptr-Ends :
      (n i : ℕ) (bs : List Buffer) (w : World)
      → Ends (Anything {A = Unit {0}}) (queue_userptr k fuel n i bs w)
  unfolding queue_userptr
  queue_userptr-Ends zero i bs w = tt
  queue_userptr-Ends (suc n) i [] w = tt
  queue_userptr-Ends (suc n) i (b ∷ bs) w =
      must_then (qbuf i) w _
        λ w'. queue_userptr-Ends n (suc i) bs (log (queued_pointer i b.start) w')

  start_stream-Ends : (w : World) → Ends (Anything {A = Unit {0}}) (start_stream k fuel w)
  unfolding start_stream
  start_stream-Ends w = must_then streamon w _ λ w'. tt

  pub start_capturing-Ends :
      (g : Globals) (w : World) → Ends (Anything {A = Unit {0}}) (start_capturing k fuel g w)
  unfolding start_capturing
  start_capturing-Ends g w = go g.io
    where
      go :
          (io : IoMethod)
          → Ends (Anything {A = Unit {0}}) (elim io [
            | io_method_read ↦ ok (tt, w)
            | io_method_mmap ↦ do
              (_, w1) ← queue_mmap k fuel g.n_buffers 0 g.buffers w
              start_stream k fuel w1
            | io_method_userptr ↦ do
              (_, w1) ← queue_userptr k fuel g.n_buffers 0 g.buffers w
              start_stream k fuel w1
          ])
      go io_method_read = tt
      go io_method_mmap =
          Ends-bind (Anything {A = Unit {0}}) _ (queue_mmap k fuel g.n_buffers 0 g.buffers w) _
            (queue_mmap-Ends g.n_buffers 0 g.buffers w) λ _ w' _. start_stream-Ends w'
      go io_method_userptr =
          Ends-bind (Anything {A = Unit {0}}) _ (queue_userptr k fuel g.n_buffers 0 g.buffers w) _
            (queue_userptr-Ends g.n_buffers 0 g.buffers w) λ _ w' _. start_stream-Ends w'

  pub stop_capturing-Ends :
      (g : Globals) (w : World) → Ends (Anything {A = Unit {0}}) (stop_capturing k fuel g w)
  unfolding stop_capturing stop_stream
  stop_capturing-Ends g w = go g.io
    where
      go :
          (io : IoMethod)
          → Ends (Anything {A = Unit {0}}) (elim io [
            | io_method_read ↦ ok (tt, w)
            | io_method_mmap ↦ stop_stream k fuel w
            | io_method_userptr ↦ stop_stream k fuel w
          ])
      go io_method_read = tt
      go io_method_mmap = must_then streamoff w _ λ w'. tt
      go io_method_userptr = must_then streamoff w _ λ w'. tt
