-- ===== src/FirstFrame/Capture.antt =====
-- The capture loop of first_frame: `xioctl`, `process_image`, `read_frame`, `mainloop`,
-- `start_capturing` and `stop_capturing` (src/first_frame.c).
pub mod Conformance
pub mod Frames
pub mod Streams
pub mod Progress
pub mod Loops
pub mod Retry
use twincam.Base.{
  ℕ, zero, suc, Bool, true, false, ◌&&◌, Option, none, some, List, [], ◌∷◌, get_elem?, ltb, ◌==◌,
  if◌then◌else◌,
}
use twincam.FirstFrame.State.{
  IoMethod, io_method_read, io_method_mmap, io_method_userptr, Buffer, Globals, queued,
  queued_pointer, dequeued, stream_on, stream_off, read_into, written, shown, World, tick, log,
  Request, dqbuf, streamon, streamoff, qbuf, Dequeued, ready, timed_out, failed, Kernel, Outcome,
  ok, exits, aborts, undefined, looping, ◌>>=◌,
}

abbrev pub eintr : ℕ
eintr = 4

abbrev pub eagain : ℕ
eagain = 11

-- `process_image`: the image goes to the standard output on request, then a line of text does.
unfoldable pub process_image : Globals → ℕ → ℕ → World → World
process_image g start size w =
    log (shown start) (if g.out_buf == 0 then w else log (written start size) w)

-- The search of `read_frame` among the first buffers; none where it reads past them.
unfoldable pub find_buffer : ℕ → List Buffer → Dequeued → Option Bool
find_buffer zero bs b = some false
find_buffer (suc n) [] b = none
find_buffer (suc n) (x ∷ xs) b =
    let rest = find_buffer n xs b in
    if b.userptr == x.start && b.length == x.length then some true else rest

module _ (k : Kernel) where
  -- `xioctl`: the error number, if there is one.
  unfoldable pub xioctl : ℕ → Request → World → Outcome (Option ℕ)
  xioctl zero r w = looping
  xioctl (suc fuel) r w =
      let again = xioctl fuel r (tick w) in
      elim (k.ioctl w.now r) [
        | none ↦ ok (none, tick w)
        | some e ↦ if e == eintr then again else ok (some e, tick w)
      ]

  -- The case IO_METHOD_READ of `read_frame`.
  unfoldable pub read_by_read : Globals → World → Outcome Bool
  read_by_read g w = elim (get_elem? g.buffers 0) [
    | none ↦ undefined
    | some b ↦ elim (k.read w.now) [
      | some e ↦ if e == eagain then ok (false, tick w) else exits 1 (tick w)
      | none ↦ ok (true, process_image g b.start b.length (log (read_into b.start) (tick w)))
    ]
  ]

module _ (k : Kernel) (fuel : ℕ) where
  -- An `xioctl` after whose failure the program exits.
  unfoldable pub must : Request → World → Outcome (Unit {0})
  must r w = do (e, w1) ← xioctl k fuel r w; elim e [ none ↦ ok (tt, w1) | some _ ↦ exits 1 w1 ]

  -- What follows VIDIOC_DQBUF for a memory mapped buffer.
  unfoldable pub take_mmap : Globals → Dequeued → World → Outcome Bool
  take_mmap g b w =
      if ltb b.index g.n_buffers
      then elim (get_elem? g.buffers b.index) [
        | none ↦ undefined
        | some x ↦ do
          (_, w1) ← must (qbuf b.index) (process_image g x.start b.bytesused w)
          ok (true, log (queued b.index) w1)
      ]
      else aborts w

  -- What follows it for a user pointer.
  unfoldable pub take_userptr : Globals → Dequeued → World → Outcome Bool
  take_userptr g b w = elim (find_buffer g.n_buffers g.buffers b) [
    | none ↦ undefined
    | some found ↦
        if found
        then (do
          (_, w1) ← must (qbuf b.index) (process_image g b.userptr b.bytesused w)
          ok (true, log (queued_pointer b.index b.userptr) w1))
        else aborts w
  ]

  -- VIDIOC_DQBUF in `read_frame`, and then one of the two.
  unfoldable pub dequeue_and : (Dequeued → World → Outcome Bool) → World → Outcome Bool
  dequeue_and next w = do
    (e, w1) ← xioctl k fuel dqbuf w
    elim e [
      | some n ↦ if n == eagain then ok (false, w1) else exits 1 w1
      | none ↦ let b = k.dequeue w1.now in next b (log (dequeued b.index) w1)
    ]

  -- `read_frame`: whether there was a frame.
  unfoldable pub read_frame : Globals → World → Outcome Bool
  read_frame g w = elim g.io [
    | io_method_read ↦ read_by_read k g w
    | io_method_mmap ↦ dequeue_and (take_mmap g) w
    | io_method_userptr ↦ dequeue_and (take_userptr g) w
  ]

  -- The loop inside `mainloop`, in which one frame is grabbed.
  unfoldable pub grab : ℕ → Globals → World → Outcome (Unit {0})
  grab zero g w = looping
  grab (suc n) g w =
      let interrupted = grab n g (tick w) in
      elim (k.select w.now) [
        | failed e ↦ if e == eintr then interrupted else exits 1 (tick w)
        | timed_out ↦ exits 1 (tick w)
        | ready ↦ do
          (got, w1) ← read_frame g (tick w)
          let again = grab n g w1
          if got then ok (tt, w1) else again
      ]

  unfoldable pub grab_frames : ℕ → Globals → World → Outcome (Unit {0})
  grab_frames zero g w = ok (tt, w)
  grab_frames (suc count) g w = do (_, w1) ← grab fuel g w; grab_frames count g w1

  -- `mainloop`; the loop has the fuel of an `xioctl`.
  unfoldable pub mainloop : Globals → World → Outcome (Unit {0})
  mainloop g w = grab_frames g.frame_count g w

  -- The loops of `start_capturing`, over `n` buffers from index `i` on.
  unfoldable pub queue_mmap : ℕ → ℕ → List Buffer → World → Outcome (Unit {0})
  queue_mmap zero i bs w = ok (tt, w)
  queue_mmap (suc n) i bs w = do
    (_, w1) ← must (qbuf i) w
    queue_mmap n (suc i) bs (log (queued i) w1)

  unfoldable pub queue_userptr : ℕ → ℕ → List Buffer → World → Outcome (Unit {0})
  queue_userptr zero i bs w = ok (tt, w)
  queue_userptr (suc n) i [] w = undefined
  queue_userptr (suc n) i (b ∷ bs) w = do
    (_, w1) ← must (qbuf i) w
    queue_userptr n (suc i) bs (log (queued_pointer i b.start) w1)

  unfoldable pub start_stream : World → Outcome (Unit {0})
  start_stream w = do (_, w1) ← must streamon w; ok (tt, log stream_on w1)

  unfoldable pub start_capturing : Globals → World → Outcome (Unit {0})
  start_capturing g w = elim g.io [
    | io_method_read ↦ ok (tt, w)
    | io_method_mmap ↦ do (_, w1) ← queue_mmap g.n_buffers 0 g.buffers w; start_stream w1
    | io_method_userptr ↦ do (_, w1) ← queue_userptr g.n_buffers 0 g.buffers w; start_stream w1
  ]

  unfoldable pub stop_stream : World → Outcome (Unit {0})
  stop_stream w = do (_, w1) ← must streamoff w; ok (tt, log stream_off w1)

  unfoldable pub stop_capturing : Globals → World → Outcome (Unit {0})
  stop_capturing g w = elim g.io [
    | io_method_read ↦ ok (tt, w)
    | io_method_mmap ↦ stop_stream w
    | io_method_userptr ↦ stop_stream w
  ]
