-- ===== src/FirstFrame/Capture/Streams.antt =====
-- `start_capturing` and `stop_capturing` of first_frame (src/first_frame.c) keep to the protocol.
use twincam.Base.{
  ℕ, zero, suc, ◌+◌, ◌≤◌, ◌<◌, ◌≡◌, refl, true, not, List, [], ◌∷◌, length, arith, ◌&&◌,
}
use twincam.FirstFrame.State.{
  IoMethod, io_method_read, io_method_mmap, io_method_userptr, Buffer, Globals, queued,
  queued_pointer, stream_on, stream_off, World, log, streamon, streamoff, qbuf, Kernel, ok, ◌>>=◌,
}
use twincam.FirstFrame.Capture.{
  must, queue_mmap, queue_userptr, start_stream, start_capturing, stop_stream, stop_capturing,
}
use twincam.FirstFrame.Capture.Conformance.{must-On}
use twincam.FirstFrame.Capture.Frames.{CaptureFor}
use twincam.FirstFrame.Protocol.{
  Device, mem, Holds, verdict, Ensures, Ensures-bind, Holds-step, Holds-map, On, accept, may_queue,
  enqueue, is_mmap, is_userptr,
}
use twincam.FirstFrame.Protocol.Stages.{Shaped, ShapedFor, IsIdle, IsRunning, IsFilling, starts}

module _ (g : Globals) where
  may_fill : (i : ℕ) (d : Device) → i < g.n_buffers → IsFilling g i d → may_queue d i ≡ true
  may_fill i d small f =
      ground (arith, f.setup.is_open, f.setup.counted, f.kept i (omega arith), small)

  IsFilling-enqueue : (i : ℕ) (d : Device) → IsFilling g i d → IsFilling g (suc i) (enqueue i d)
  IsFilling-enqueue i d f = record {
    setup = record {
      is_open = f.setup.is_open;
      memory = f.setup.memory;
      counted = f.setup.counted;
      owned = f.setup.owned;
    };
    quiet = f.quiet;
    given = λ j small. ground (arith, f.given j);
    kept = λ j large. ground (arith, f.kept j);
  }

  IsFilling-queued :
      (i : ℕ) (d : Device)
      → g.io ≡ io_method_mmap
      → i < g.n_buffers
      → IsFilling g i d
      → Holds (IsFilling g (suc i)) (accept (queued i) d)
  IsFilling-queued i d e small f =
      let mapped : is_mmap d.memory ≡ true = ground (arith, f.setup.memory, e) in
      rw (Holds, may_fill i d small f, mapped) (IsFilling-enqueue i d f)

  IsFilling-queued_pointer :
      (i a : ℕ) (d : Device)
      → g.io ≡ io_method_userptr
      → i < g.n_buffers
      → mem a (starts g.buffers) ≡ true
      → IsFilling g i d
      → Holds (IsFilling g (suc i)) (accept (queued_pointer i a) d)
  IsFilling-queued_pointer i a d e small in_array f =
      let pointer : is_userptr d.memory ≡ true = ground (arith, f.setup.memory, e) in
      let owned : mem a d.owned ≡ true = ground (arith, f.setup.owned, in_array) in
      rw (Holds, may_fill i d small f, pointer, owned) (IsFilling-enqueue i d f)

  IsFilling-zero : (d : Device) → IsIdle g d → IsFilling g 0 d
  IsFilling-zero d s = record {
    setup = s.setup;
    quiet = s.quiet;
    given = λ j small. absurd (omega arith);
    kept = λ j large. s.empty j;
  }

  IsRunning-stream_on :
      (d : Device) → IsFilling g g.n_buffers d → Holds (IsRunning g) (accept stream_on d)
  IsRunning-stream_on d f =
      let allowed : (d.is_open && not d.streaming) ≡ true =
        ground (arith, f.setup.is_open, f.quiet) in
      rw (Holds, allowed)
        record {
          setup = record {
            is_open = f.setup.is_open;
            memory = f.setup.memory;
            counted = f.setup.counted;
            owned = f.setup.owned;
          };
          streams = refl;
          full = f.given;
        }

  IsIdle-stream_off : (d : Device) → IsRunning g d → Holds (IsIdle g) (accept stream_off d)
  IsIdle-stream_off d r =
      rw (Holds, r.streams)
        record {
          setup = record {
            is_open = r.setup.is_open;
            memory = r.setup.memory;
            counted = r.setup.counted;
            owned = r.setup.owned;
          };
          quiet = refl;
          empty = λ i. refl;
        }

module _ (k : Kernel) (fuel : ℕ) (g : Globals) (f : ℕ) where
  queue_mmap-On :
      (n i m : ℕ) (bs : List Buffer) (w : World)
      → g.io ≡ io_method_mmap
      → i + n ≡ m
      → m ≤ g.n_buffers
      → On (IsFilling g i) f w
      → Ensures (λ (_ : Unit {0}) w'. On (IsFilling g m) f w') (queue_mmap k fuel n i bs w)
  unfolding queue_mmap
  queue_mmap-On zero i m bs w io e small h =
      let done : i ≡ m = omega (arith, e) in rw (Ensures, ← done) h
  queue_mmap-On (suc n) i m bs w io e small h =
      Ensures-bind (λ (_ : Unit {0}) w'. On (IsFilling g i) f w') _ (must k fuel (qbuf i) w) _
        (must-On k (IsFilling g i) f fuel (qbuf i) w h)
        λ _ w' h'. queue_mmap-On n (suc i) m bs (log (queued i) w') io (omega (arith, e)) small (
          Holds-step (IsFilling g i) (IsFilling g (suc i)) (queued i) (verdict w'.events) h'.0
              (λ d s. IsFilling-queued g i d io (omega (arith, e, small)) s),
          h'.1,
        )

  queue_userptr-On :
      (n i m : ℕ) (bs : List Buffer) (w : World)
      → g.io ≡ io_method_userptr
      → i + n ≡ m
      → m ≤ g.n_buffers
      → n ≤ length bs
      → ((a : ℕ) → mem a (starts bs) ≡ true → mem a (starts g.buffers) ≡ true)
      → On (IsFilling g i) f w
      → Ensures (λ (_ : Unit {0}) w'. On (IsFilling g m) f w') (queue_userptr k fuel n i bs w)
  unfolding queue_userptr
  queue_userptr-On zero i m bs w io e small long part h =
      let done : i ≡ m = omega (arith, e) in rw (Ensures, ← done) h
  queue_userptr-On (suc n) i m [] w io e small long part h = absurd (omega (arith, long))
  queue_userptr-On (suc n) i m (b ∷ bs) w io e small long part h =
      Ensures-bind (λ (_ : Unit {0}) w'. On (IsFilling g i) f w') _ (must k fuel (qbuf i) w) _
        (must-On k (IsFilling g i) f fuel (qbuf i) w h)
        λ _ w' h'.
          queue_userptr-On n (suc i) m bs (log (queued_pointer i b.start) w') io (omega (arith, e))
            small (omega (arith, long)) (λ a inside. part a (ground (arith, inside)))
            (
              Holds-step (IsFilling g i) (IsFilling g (suc i)) (queued_pointer i b.start)
                  (verdict w'.events) h'.0
                  (λ d s.
                    IsFilling-queued_pointer g i b.start d io (omega (arith, e, small))
                      (part b.start (ground arith)) s),
              h'.1,
            )

  start_stream-On :
      (w : World)
      → On (IsFilling g g.n_buffers) f w
      → Ensures (λ (_ : Unit {0}) w'. On (IsRunning g) f w') (start_stream k fuel w)
  unfolding start_stream
  start_stream-On w h =
      Ensures-bind (λ (_ : Unit {0}) w'. On (IsFilling g g.n_buffers) f w') _
        (must k fuel streamon w) _ (must-On k (IsFilling g g.n_buffers) f fuel streamon w h)
        λ _ w' h'. (
          Holds-step (IsFilling g g.n_buffers) (IsRunning g) stream_on (verdict w'.events) h'.0
              (IsRunning-stream_on g),
          h'.1,
        )

  first_fill : (w : World) → On (IsIdle g) f w → On (IsFilling g 0) f w
  first_fill w h =
      (Holds-map (IsIdle g) (IsFilling g 0) (verdict w.events) (IsFilling-zero g) h.0, h.1)

  stop_stream-On :
      (w : World)
      → On (IsRunning g) f w
      → Ensures (λ (_ : Unit {0}) w'. On (IsIdle g) f w') (stop_stream k fuel w)
  unfolding stop_stream
  stop_stream-On w h =
      Ensures-bind (λ (_ : Unit {0}) w'. On (IsRunning g) f w') _ (must k fuel streamoff w) _
        (must-On k (IsRunning g) f fuel streamoff w h)
        λ _ w' h'. (
          Holds-step (IsRunning g) (IsIdle g) stream_off (verdict w'.events) h'.0
              (IsIdle-stream_off g),
          h'.1,
        )

  pub start_capturing-On :
      (w : World)
      → Shaped g
      → On (IsIdle g) f w
      → Ensures (λ (_ : Unit {0}) w'. On (CaptureFor g g.io) f w') (start_capturing k fuel g w)
  unfolding start_capturing
  start_capturing-On w s h = go g.io refl s
    where
      go :
          (io : IoMethod)
          → g.io ≡ io
          → ShapedFor io g
          → Ensures
              (λ (_ : Unit {0}) w'. On (CaptureFor g io) f w')
              (elim io [
                | io_method_read ↦ ok (tt, w)
                | io_method_mmap ↦ do
                  (_, w1) ← queue_mmap k fuel g.n_buffers 0 g.buffers w
                  start_stream k fuel w1
                | io_method_userptr ↦ do
                  (_, w1) ← queue_userptr k fuel g.n_buffers 0 g.buffers w
                  start_stream k fuel w1
              ])
      go io_method_read e s' = h
      go io_method_mmap e s' =
          Ensures-bind (λ (_ : Unit {0}) w'. On (IsFilling g g.n_buffers) f w') _
            (queue_mmap k fuel g.n_buffers 0 g.buffers w) _
            (queue_mmap-On g.n_buffers 0 g.n_buffers g.buffers w e (omega arith) (omega arith)
              (first_fill w h))
            λ _ w' h'. start_stream-On w' h'
      go io_method_userptr e s' =
          Ensures-bind (λ (_ : Unit {0}) w'. On (IsFilling g g.n_buffers) f w') _
            (queue_userptr k fuel g.n_buffers 0 g.buffers w) _
            (queue_userptr-On g.n_buffers 0 g.n_buffers g.buffers w e (omega arith) (omega arith)
              (omega (arith, s')) (λ a inside. inside) (first_fill w h))
            λ _ w' h'. start_stream-On w' h'

  pub stop_capturing-On :
      (w : World)
      → On (CaptureFor g g.io) f w
      → Ensures (λ (_ : Unit {0}) w'. On (IsIdle g) f w') (stop_capturing k fuel g w)
  unfolding stop_capturing
  stop_capturing-On w h = go g.io h
    where
      go :
          (io : IoMethod)
          → On (CaptureFor g io) f w
          → Ensures
              (λ (_ : Unit {0}) w'. On (IsIdle g) f w')
              (elim io [
                | io_method_read ↦ ok (tt, w)
                | io_method_mmap ↦ stop_stream k fuel w
                | io_method_userptr ↦ stop_stream k fuel w
              ])
      go io_method_read h' = h'
      go io_method_mmap h' = stop_stream-On w h'
      go io_method_userptr h' = stop_stream-On w h'
