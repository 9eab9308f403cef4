-- ===== src/FirstFrame/State.antt =====
-- The globals of first_frame (src/first_frame.c), what it asks of the kernel, and how its functions end.
use twincam.Base.{ℕ, suc, Bool, Option, List, ◌∷◌}

-- `enum io_method`
pub data IoMethod : Type 0 where
  io_method_read io_method_mmap io_method_userptr : IoMethod

-- `struct buffer`
pub record Buffer : Type 0 where
  pub start : ℕ
  pub length : ℕ

-- The globals. `buffers` are the entries of the array that have been filled, `array` is its address,
-- `dev_name` are the bytes before the terminating zero, and `frame_count` are the 32 bits of the `int`.
pub record Globals : Type 0 where
  pub dev_name : List ℕ
  pub io : IoMethod
  pub fd : Option ℕ
  pub array : ℕ
  pub buffers : List Buffer
  pub n_buffers : ℕ
  pub out_buf : ℕ
  pub force_format : ℕ
  pub frame_count : ℕ
  pub to_syslog : Bool

-- What the program has done with an effect outside of it.
pub data Event : Type 0 where
  log_opened log_closed opened closed : Event
  requested : IoMethod → ℕ → Event
  mapped unmapped allocated freed : ℕ → Event
  queued : ℕ → Event
  queued_pointer : ℕ → ℕ → Event
  dequeued : ℕ → Event
  stream_on stream_off : Event
  read_into : ℕ → Event
  written : ℕ → ℕ → Event
  shown : ℕ → Event

-- Time is counted in calls of the kernel; the last event comes first.
pub record World : Type 0 where
  pub now : ℕ
  pub events : List Event

abbrev pub tick : World → World
tick w = record w { now = suc w.now }

abbrev pub log : Event → World → World
log e w = record w { events = e ∷ w.events }

-- The requests of `ioctl`.
pub data Request : Type 0 where
  querycap cropcap s_crop s_fmt g_fmt reqbufs dqbuf streamon streamoff : Request
  querybuf qbuf : ℕ → Request

-- The bits of `v4l2_capability` that are tested.
pub record Capabilities : Type 0 where
  pub video_capture : Bool
  pub readwrite : Bool
  pub streaming : Bool

-- The fields of `v4l2_pix_format` that are read; each has 32 bits.
pub record PixFormat : Type 0 where
  pub width : ℕ
  pub height : ℕ
  pub bytesperline : ℕ
  pub sizeimage : ℕ

-- The fields of a `v4l2_buffer` that VIDIOC_DQBUF fills in.
pub record Dequeued : Type 0 where
  pub index : ℕ
  pub userptr : ℕ
  pub length : ℕ
  pub bytesused : ℕ

pub data Selected : Type 0 where
  ready timed_out : Selected
  failed : ℕ → Selected

-- The kernel, by the answer that a call gets at a time: no error number where it succeeds. What an
-- `ioctl` writes is given by the time after it, and `stat` says whether the file is a character device.
pub record Kernel : Type 0 where
  pub sysfs_exists : ℕ → Bool
  pub video_exists : ℕ → Bool
  pub media_exists : ℕ → Bool
  pub stat : ℕ → Option Bool
  pub open_file : ℕ → Option ℕ
  pub close : ℕ → Bool
  pub ioctl : ℕ → Request → Option ℕ
  pub capabilities : ℕ → Capabilities
  pub format : ℕ → PixFormat
  pub granted : ℕ → ℕ
  pub query_length : ℕ → ℕ
  pub dequeue : ℕ → Dequeued
  pub mmap : ℕ → Option ℕ
  pub munmap : ℕ → Bool
  pub malloc : ℕ → Option ℕ
  pub calloc : ℕ → Option ℕ
  pub read : ℕ → Option ℕ
  pub select : ℕ → Selected

-- How a function ends: it returns, the process exits with a status or aborts, it would access memory out
-- of bounds, or its fuel has run out.
pub data Outcome {ℓ} (A : Type ℓ) : Type ℓ where
  ok : A × World → Outcome A
  exits : ℕ → World → Outcome A
  aborts : World → Outcome A
  undefined : Outcome A
  looping : Outcome A

infixl 5 ◌>>=◌
abbrev pub ◌>>=◌ {ℓ κ} : {A : Type ℓ} {B : Type κ} → Outcome A → (A × World → Outcome B) → Outcome B
ok r >>= f = f r
exits n w >>= f = exits n w
aborts w >>= f = aborts w
undefined >>= f = undefined
looping >>= f = looping
