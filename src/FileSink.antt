-- ===== src/FileSink.antt =====
-- src/file_sink.h, src/file_sink.cpp and the base class of src/frame_sink.cpp: the sink that writes
-- the planes of every frame to a file.
pub mod Writes
pub mod Interface
mod Tests
use Prim.Native.Nat.{min}
use twincam.Base.{
  ◌>>=◌, ℕ, zero, suc, ◌-◌, ◌%◌, ◌^◌, Bool, true, false, Option, none, some, List, [], ◌∷◌, ◌++◌, ℤ,
  pos, negsuc, neg, is_neg, ltb, ◌==◌, if◌then◌else◌, get_elem?, length,
}
use twincam.Base.Maps.{map_insert, map_find}
use twincam.Camera.{FrameBuffer, Request, StreamConfiguration, buffers}
use twincam.Image.{
  MapMode, MmapApi, Span, Image, Outcome, image, null, from_frame_buffer, Reading, span,
  assertion_failed, out_of_bounds, plane_data,
}
use twincam.CameraSession.State.{FrameSink}

-- A call of `write`: the file, the address and the number of bytes.
pub record Write : Type 0 where
  pub fd : ℕ
  pub address : ℕ
  pub length : ℕ

-- What the system answers: the file descriptor of `open`, or none; the return code of `write` as an
-- `int`.
pub record FileApi : Type 0 where
  pub open_file : Option ℕ
  pub write : Write → ℤ

-- `mapped` goes from the address of a buffer to its image. `written` is the history of the writes.
pub record FileSink : Type 0 where
  pub mapped : List (ℕ × Image)
  pub written : List Write

-- `FrameSink::configure`, `start` and `stop` of src/frame_sink.cpp.
abbrev pub succeed {ℓ} : {S : Type ℓ} → S → ℤ × S
succeed k = (pos 0, k)

-- `configure`
abbrev pub configure : List StreamConfiguration → FileSink → ℤ × FileSink
configure config k = let (ret, k') = succeed k in if is_neg ret then (ret, k') else (pos 0, k')

keep_image : ℕ → Outcome → FileSink → Option FileSink
unfolding map_insert
keep_image buffer (null unmapped) k = none
keep_image buffer (image im) k = some (record k { mapped = map_insert buffer im k.mapped })

-- `mapBuffer`, which asserts that there is an image.
pub map_buffer : MmapApi → FrameBuffer → FileSink → Option FileSink
unfolding keep_image from_frame_buffer
map_buffer api buffer k =
    keep_image buffer.address (from_frame_buffer api buffer.planes MapMode.read_only) k

abbrev read_span : Reading → Option Span
read_span (span s) = some s
read_span assertion_failed = none
read_span out_of_bounds = none

-- `static_cast<int>`
abbrev pub to_int : ℕ → ℤ
to_int n = if ltb n (2 ^ 31) then pos n else neg (2 ^ 32 - n)

abbrev same_int : ℤ → ℤ → Bool
same_int a b = elim a [
  | pos m ↦ elim b [ pos n ↦ m == n | negsuc n ↦ false ]
  | negsuc m ↦ elim b [ pos n ↦ false | negsuc n ↦ m == n ]
]

-- `write(fd, data.data(), length)` of a plane.
pub write_of : ℕ → ℕ → Span → Write
write_of fd bytesused s = record {
  fd = fd;
  address = s.address;
  length = min bytesused (s.size % 2 ^ 32);
}

-- The loop over the planes, `n` of them from plane `i` on: the writes that it makes. It ends with the
-- first write that fails or is short.
pub write_planes : FileApi → ℕ → Image → List ℕ → ℕ → ℕ → Option (List Write)
unfolding write_of plane_data
write_planes api fd im metadata zero i = some []
write_planes api fd im metadata (suc n) i =
    let rest = write_planes api fd im metadata n (suc i) in
    get_elem? metadata i >>= λ bytesused. read_span (plane_data im i) >>= λ s.
    let w = write_of fd bytesused s in
    let ret = api.write w in
    if is_neg ret
    then some (w ∷ [])
    else if same_int ret (to_int w.length)
    then rest >>= (λ ws. some (w ∷ ws))
    else some (w ∷ [])

-- `mappedBuffers_[buffer]` of a buffer that is not mapped is null, which has no planes to read.
image_planes : FileApi → ℕ → Option Image → List ℕ → ℕ → Option (List Write)
unfolding write_planes
image_planes api fd none metadata zero = some []
image_planes api fd none metadata (suc n) = none
image_planes api fd (some im) metadata n = write_planes api fd im metadata n 0

-- `writeBuffer`: the writes that it makes to the file that it opens and closes.
pub write_buffer : FileApi → FrameBuffer → FileSink → Option (List Write)
unfolding image_planes map_find
write_buffer api buffer k = elim api.open_file [
  | none ↦ some []
  | some fd ↦
      image_planes api fd (map_find buffer.address k.mapped) buffer.metadata.planes
        (length buffer.planes)
]

write_buffers : FileApi → List (ℕ × FrameBuffer) → FileSink → Option FileSink
unfolding write_buffer
write_buffers api [] k = some k
write_buffers api ((stream, b) ∷ rest) k = do
  ws ← write_buffer api b k
  write_buffers api rest (record k { written = k.written ++ ws })

-- `processRequest`
pub process_request : FileApi → Request → FileSink → Option (Bool × FileSink)
unfolding write_buffers
process_request api r k = do k' ← write_buffers api (buffers r) k; some (true, k')

-- The sink as a `FrameSink`.
pub file_sink : FileApi → MmapApi → FrameSink FileSink
unfolding map_buffer process_request
file_sink api mmap = record {
  configure = λ config k. some (configure config k);
  map_buffer = map_buffer mmap;
  start = λ k. some (succeed k);
  stop = λ k. some (succeed k);
  process_request = process_request api;
}
