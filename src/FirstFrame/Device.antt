-- ===== src/FirstFrame/Device.antt =====
-- Opening, setting up and closing the device in first_frame: `open_device`, `init_device` with its
-- `init_read`, `init_mmap` and `init_userp`, `uninit_device` and `close_device` (src/first_frame.c).
pub mod Setup
pub mod Buffers
pub mod Opening
pub mod Release
pub mod Progress
pub mod Format
use twincam.Base.{
  ℕ, zero, suc, ◌*◌, ◌%◌, ◌^◌, Bool, true, false, ◌&&◌, Option, none, some, List, [], ◌∷◌, ◌++◌,
  get_elem?, ltb, ◌==◌, if◌then◌else◌,
}
use twincam.FirstFrame.State.{
  IoMethod, io_method_read, io_method_mmap, io_method_userptr, Buffer, Globals, opened, closed,
  requested, mapped, unmapped, allocated, freed, World, tick, log, Request, querycap, cropcap,
  s_crop, s_fmt, g_fmt, reqbufs, querybuf, Capabilities, PixFormat, Kernel, Outcome, ok, exits,
  undefined, ◌>>=◌,
}
use twincam.FirstFrame.Capture.{xioctl, must}

-- `buffers[n_buffers++]` gets its start and its length.
abbrev pub add_buffer : ℕ → ℕ → Globals → Globals
add_buffer start size g = record g {
  buffers = g.buffers ++ (record { start = start; length = size } ∷ []);
  n_buffers = suc g.n_buffers;
}

-- `calloc`: an array with no entry filled.
abbrev pub new_array : ℕ → Globals → Globals
new_array a g = record g { array = a; buffers = []; n_buffers = 0 }

-- "Buggy driver paranoia": both products are computed in 32 bits.
unfoldable pub at_least_bytes : PixFormat → PixFormat
at_least_bytes f =
    let line = (f.width * 2) % 2 ^ 32 in
    let bytesperline = if ltb f.bytesperline line then line else f.bytesperline in
    let image = (bytesperline * f.height) % 2 ^ 32 in
    let sizeimage = if ltb f.sizeimage image then image else f.sizeimage in
    record f { bytesperline = bytesperline; sizeimage = sizeimage }

-- The capability that a method needs.
unfoldable pub supports : IoMethod → Capabilities → Bool
supports io_method_read c = c.readwrite
supports io_method_mmap c = c.streaming
supports io_method_userptr c = c.streaming

module _ (k : Kernel) where
  unfoldable pub init_read : ℕ → Globals → World → Outcome Globals
  init_read size g w = elim (k.calloc w.now) [
    | none ↦ exits 1 (tick w)
    | some a ↦
        let w1 = log (allocated a) (tick w) in
        elim (k.malloc w1.now) [
          | none ↦ exits 1 (tick w1)
          | some b ↦ ok (
            record g { array = a; buffers = record { start = b; length = size } ∷ [] },
            log (allocated b) (tick w1),
          )
        ]
  ]

  -- The loop of `init_userp`.
  unfoldable pub alloc_buffers : ℕ → ℕ → Globals → World → Outcome Globals
  alloc_buffers zero size g w = ok (g, w)
  alloc_buffers (suc n) size g w = elim (k.malloc w.now) [
    | none ↦ exits 1 (tick w)
    | some a ↦ alloc_buffers n size (add_buffer a size g) (log (allocated a) (tick w))
  ]

  -- The loops of `uninit_device`.
  unfoldable pub unmap_buffers : ℕ → List Buffer → World → Outcome (Unit {0})
  unmap_buffers zero bs w = ok (tt, w)
  unmap_buffers (suc n) [] w = undefined
  unmap_buffers (suc n) (b ∷ bs) w =
      if k.munmap w.now
      then unmap_buffers n bs (log (unmapped b.start) (tick w))
      else exits 1 (tick w)

  unfoldable pub free_buffers : ℕ → List Buffer → World → Outcome (Unit {0})
  free_buffers zero bs w = ok (tt, w)
  free_buffers (suc n) [] w = undefined
  free_buffers (suc n) (b ∷ bs) w = free_buffers n bs (log (freed b.start) w)

  -- The `switch` of `uninit_device`.
  unfoldable pub release_buffers : Globals → World → Outcome (Unit {0})
  release_buffers g w = elim g.io [
    | io_method_read ↦ elim (get_elem? g.buffers 0) [
      | none ↦ undefined
      | some b ↦ ok (tt, log (freed b.start) w)
    ]
    | io_method_mmap ↦ unmap_buffers g.n_buffers g.buffers w
    | io_method_userptr ↦ free_buffers g.n_buffers g.buffers w
  ]

  unfoldable pub uninit_device : Globals → World → Outcome (Unit {0})
  uninit_device g w = do (_, w1) ← release_buffers g w; ok (tt, log (freed g.array) w1)

  unfoldable pub close_device : Globals → World → Outcome Globals
  close_device g w =
      if k.close w.now then ok (record g { fd = none }, log closed (tick w)) else exits 1 (tick w)

  -- `stat` gives whether the file is a character device.
  unfoldable pub open_device : Globals → World → Outcome Globals
  open_device g w = elim (k.stat w.now) [
    | none ↦ exits 1 (tick w)
    | some false ↦ exits 1 (tick w)
    | some true ↦
        let w1 = tick w in
        elim (k.open_file w1.now) [
          | none ↦ exits 1 (tick w1)
          | some fd ↦ ok (record g { fd = some fd }, log opened (tick w1))
        ]
  ]

module _ (k : Kernel) (fuel : ℕ) where
  -- The loop of `init_mmap`, with `n` rounds left.
  unfoldable pub map_buffers : ℕ → Globals → World → Outcome Globals
  map_buffers zero g w = ok (g, w)
  map_buffers (suc n) g w = do
    (_, w1) ← must k fuel (querybuf g.n_buffers) w
    elim (k.mmap w1.now) [
      | none ↦ exits 1 (tick w1)
      | some a ↦ map_buffers n (add_buffer a (k.query_length w1.now) g) (log (mapped a) (tick w1))
    ]

  -- VIDIOC_REQBUFS; the error EINVAL only has another message. Gives the number of buffers granted.
  unfoldable pub request_buffers : IoMethod → World → Outcome ℕ
  request_buffers io w = do
    (_, w1) ← must k fuel reqbufs w
    ok (k.granted w1.now, log (requested io (k.granted w1.now)) w1)

  unfoldable pub init_mmap : Globals → World → Outcome Globals
  init_mmap g w = do
    (n, w1) ← request_buffers io_method_mmap w
    if ltb n 2 then exits 1 w1 else elim (k.calloc w1.now) [
      | none ↦ exits 1 (tick w1)
      | some a ↦ map_buffers n (new_array a g) (log (allocated a) (tick w1))
    ]

  -- The number granted is not looked at.
  unfoldable pub init_userp : ℕ → Globals → World → Outcome Globals
  init_userp size g w = do
    (n, w1) ← request_buffers io_method_userptr w
    elim (k.calloc w1.now) [
      | none ↦ exits 1 (tick w1)
      | some a ↦ alloc_buffers k 4 size (new_array a g) (log (allocated a) (tick w1))
    ]

  -- The cropping of `init_device`, whose errors are ignored.
  unfoldable pub reset_crop : World → Outcome (Option ℕ)
  reset_crop w = do
    (e, w1) ← xioctl k fuel cropcap w
    elim e [ none ↦ xioctl k fuel s_crop w1 | some n ↦ ok (some n, w1) ]

  -- The last `switch` of `init_device`.
  unfoldable pub init_buffers : ℕ → Globals → World → Outcome Globals
  init_buffers size g w = elim g.io [
    | io_method_read ↦ init_read k size g w
    | io_method_mmap ↦ init_mmap g w
    | io_method_userptr ↦ init_userp size g w
  ]

  -- What follows the check of the capabilities in `init_device`.
  unfoldable pub set_format : Globals → World → Outcome Globals
  set_format g w = do
    (_, w1) ← reset_crop w
    (_, w2) ← must k fuel (if g.force_format == 0 then g_fmt else s_fmt) w1
    init_buffers (at_least_bytes (k.format w2.now)).sizeimage g w2

  unfoldable pub init_device : Globals → World → Outcome Globals
  init_device g w = do
    (_, w1) ← must k fuel querycap w
    let c = k.capabilities w1.now
    if c.video_capture && supports g.io c then set_format g w1 else exits 1 w1
