-- ===== src/Image.antt =====
-- src/image.h and src/image.cpp: the planes of a frame buffer, mapped into memory.
-- Sizes are `size_t`, and a plane's offset and length are unsigned 32-bit numbers.
pub mod Measure
pub mod Mapping
pub mod Bounds
pub mod Overflow
pub mod Access
mod Tests
use Prim.Native.Nat.{max}
use twincam.Base.{
  ℕ, suc, ◌+◌, ◌%◌, ◌^◌, Bool, true, false, ◌||◌, Option, none, some, List, [], ◌∷◌, ◌++◌, ltb, leb,
  if◌then◌else◌, get_elem?, length,
}
use twincam.Base.Maps.{map_insert, map_find}
use twincam.Camera.{FramePlane}

-- `Image::MapMode`
pub data MapMode : Type 0 where
  read_only write_only read_write : MapMode

-- PROT_READ and PROT_WRITE
pub record Protection : Type 0 where
  pub prot_read : Bool
  pub prot_write : Bool

abbrev pub protection : MapMode → Protection
protection MapMode.read_only = record { prot_read = true; prot_write = false }
protection MapMode.write_only = record { prot_read = false; prot_write = true }
protection MapMode.read_write = record { prot_read = true; prot_write = true }

-- What the system gives: the end of a descriptor's file by `lseek`, as a `size_t`, and the address of
-- a mapping or none for MAP_FAILED.
pub record MmapApi : Type 0 where
  pub lseek_end : ℕ → ℕ
  pub mmap : ℕ → Protection → ℕ → Option ℕ

-- `Span<uint8_t>`
pub record Span : Type 0 where
  pub address : ℕ
  pub size : ℕ

pub record Image : Type 0 where
  pub maps : List Span
  pub planes : List Span

-- `MappedBufferInfo`, with none for the null address.
pub record MappedBufferInfo : Type 0 where
  pub address : Option ℕ
  pub map_length : ℕ
  pub dmabuf_length : ℕ

abbrev pub Buffers : Type 0
Buffers = List (ℕ × MappedBufferInfo)

-- The end of a plane, `plane.offset + plane.length`, in unsigned 32-bit arithmetic.
abbrev pub plane_end : FramePlane → ℕ
plane_end p = (p.offset + p.length) % 2 ^ 32

-- The entry of a descriptor, made when it is first met.
pub info_of : MmapApi → ℕ → Option MappedBufferInfo → MappedBufferInfo
info_of api fd (some info) = info
info_of api fd none = record { address = none; map_length = 0; dmabuf_length = api.lseek_end fd }

-- One round of the first loop: none where the plane is out of the buffer.
pub measure_plane : MmapApi → FramePlane → Buffers → Option Buffers
unfolding info_of map_find map_insert
measure_plane api p m =
    let info = info_of api p.fd (map_find p.fd m) in
    if ltb info.dmabuf_length p.offset || ltb info.dmabuf_length (plane_end p)
    then none
    else some (map_insert p.fd (record info { map_length = max info.map_length (plane_end p) }) m)

pub measure : MmapApi → List FramePlane → Buffers → Option Buffers
unfolding measure_plane
measure api [] m = some m
measure api (p ∷ ps) m = elim (measure_plane api p m) [ none ↦ none | some m' ↦ measure api ps m' ]

-- What a mapped descriptor adds: its address, the entries and the maps.
pub record Mapped : Type 0 where
  pub address : ℕ
  pub buffers : Buffers
  pub maps : List Span

map_new : Option ℕ → FramePlane → MappedBufferInfo → Buffers → List Span → Option Mapped
unfolding map_insert
map_new none p info m maps = none
map_new (some a) p info m maps = some (record {
  address = a;
  buffers = map_insert p.fd (record info { address = some a }) m;
  maps = maps ++ record { address = a; size = info.map_length } ∷ [];
})

-- One round of the second loop, up to the plane's span; none where `mmap` fails.
map_info :
    MmapApi
    → Protection
    → FramePlane
    → MappedBufferInfo
    → Option ℕ
    → Buffers
    → List Span
    → Option Mapped
unfolding map_new
map_info api prot p info (some a) m maps = some (record { address = a; buffers = m; maps = maps })
map_info api prot p info none m maps = map_new (api.mmap p.fd prot info.map_length) p info m maps

pub map_plane : MmapApi → Protection → FramePlane → Buffers → List Span → Option Mapped
unfolding map_info info_of map_find
map_plane api prot p m maps =
    let info = info_of api p.fd (map_find p.fd m) in map_info api prot p info info.address m maps

-- What `fromFrameBuffer` gives: an image, or null with the maps that the destructor of the image has
-- unmapped.
pub data Outcome : Type 0 where
  image : Image → Outcome
  null : List Span → Outcome

pub map_planes : MmapApi → Protection → List FramePlane → Buffers → Image → Outcome
unfolding map_plane
map_planes api prot [] m im = image im
map_planes api prot (p ∷ ps) m im = elim (map_plane api prot p m im.maps) [
  | none ↦ null im.maps
  | some r ↦ map_planes api prot ps r.buffers (record {
    maps = r.maps;
    planes = im.planes ++ record { address = r.address + p.offset; size = p.length } ∷ [];
  })
]

-- `fromFrameBuffer`, of a buffer that has planes (the code asserts that).
unfoldable pub from_frame_buffer : MmapApi → List FramePlane → MapMode → Outcome
unfolding measure map_planes
from_frame_buffer api planes mode = elim (measure api planes []) [
  | none ↦ null []
  | some m ↦ map_planes api (protection mode) planes m (record { maps = []; planes = [] })
]

-- `numPlanes`
unfoldable pub num_planes : Image → ℕ
num_planes im = length im.planes

-- What an access to a plane is: a span, a failed assertion, or a read past the end of the vector.
pub data Reading : Type 0 where
  span : Span → Reading
  assertion_failed : Reading
  out_of_bounds : Reading

abbrev element : Option Span → Reading
element none = out_of_bounds
element (some s) = span s

-- `Image::data`, which asserts `plane <= planes_.size()`.
unfoldable pub plane_data : Image → ℕ → Reading
plane_data im plane =
    if leb plane (length im.planes) then element (get_elem? im.planes plane) else assertion_failed
