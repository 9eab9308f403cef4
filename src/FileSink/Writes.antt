-- ===== src/FileSink/Writes.antt =====
-- What `writeBuffer` writes (src/file_sink.cpp).
use twincam.Base.{
  ℕ, zero, suc, ◌≤◌, ◌<◌, ◌≡◌, refl, ◌⊎◌, inl, inr, true, false, some, List, [], ◌∷◌, is_neg, arith,
  get_elem?, length, Bool-cases, get_elem?-lt, ap, ◌+◌, ◌^◌,
}
use twincam.Base.Maps.{map_find}
use twincam.Camera.{FrameBuffer}
use twincam.Image.{Image, Span, plane_data, span, num_planes}
use twincam.Image.Access.{plane_data-cases}
use twincam.FileSink.{
  Write, FileApi, FileSink, write_of, write_planes, write_buffer, to_int, same_int,
}

-- A write to the file of the first bytes of plane `i`: no more than were used and no more than the plane has, and
-- as many as one of the two, for a plane whose size fits 32 bits.
abbrev pub IsWritten : ℕ → Image → List ℕ → ℕ → Write → Type 0
IsWritten fd im metadata i w =
    (s : Span) × (bytesused : ℕ) × (plane_data im i ≡ span s)
    × (get_elem? metadata i ≡ some bytesused)
    × (w.fd ≡ fd)
    × (w.address ≡ s.address)
    × (w.length ≤ s.size)
    × (w.length ≤ bytesused)
    × (s.size < 2 ^ 32 → (w.length ≡ bytesused) ⊎ (w.length ≡ s.size))

-- From plane `i` on, such a write per plane, in order.
abbrev pub AllWritten : ℕ → Image → List ℕ → ℕ → List Write → Type 0
AllWritten fd im metadata i [] = Unit
AllWritten fd im metadata i (w ∷ ws) =
    IsWritten fd im metadata i w × AllWritten fd im metadata (suc i) ws

-- The last write failed or was short.
abbrev pub IsCut : FileApi → List Write → Type 0
IsCut api [] = ⊥
IsCut api (w ∷ []) =
    (is_neg (api.write w) ≡ true) ⊎ (same_int (api.write w) (to_int w.length) ≡ false)
IsCut api (w ∷ v ∷ ws) = IsCut api (v ∷ ws)

write_of-IsWritten :
    (fd : ℕ) (im : Image) (metadata : List ℕ) (i bytesused : ℕ) (s : Span)
    → plane_data im i ≡ span s
    → get_elem? metadata i ≡ some bytesused
    → IsWritten fd im metadata i (write_of fd bytesused s)
unfolding write_of
write_of-IsWritten fd im metadata i bytesused s sh bh =
    (s, bytesused, sh, bh, refl, refl, omega arith, omega arith, λ small. omega arith)

plane_data-lt :
    (im : Image) (i : ℕ) → i < length im.planes → (s : Span) × (plane_data im i ≡ span s)
unfolding num_planes
plane_data-lt im i small = elim (plane_data-cases im i) [
  | inl (lt, (s, e, f)) ↦ (s, f)
  | inr (inl (same, bad)) ↦ absurd (omega arith)
  | inr (inr (large, bad)) ↦ absurd (omega arith)
]

IsCut-cons : (api : FileApi) (w : Write) (ws : List Write) → IsCut api ws → IsCut api (w ∷ ws)
IsCut-cons api w [] cut = absurd cut
IsCut-cons api w (v ∷ ws) cut = cut

-- What the loop gives.
abbrev Result : FileApi → ℕ → Image → List ℕ → ℕ → ℕ → Type 0
Result api fd im metadata n i =
    (ws : List Write) × (write_planes api fd im metadata n i ≡ some ws)
    × AllWritten fd im metadata i ws
    × ((length ws ≡ n) ⊎ IsCut api ws)

write_planes-Result :
    (api : FileApi) (fd : ℕ) (im : Image) (metadata : List ℕ) (n i : ℕ)
    → i + n ≤ length metadata
    → i + n ≤ length im.planes
    → Result api fd im metadata n i
unfolding write_planes
write_planes-Result api fd im metadata zero i m p = ([], refl, tt, inl refl)
write_planes-Result api fd im metadata (suc n) i m p =
    let (b, bh) = get_elem?-lt metadata i (omega arith) in
    let (s, sh) = plane_data-lt im i (omega arith) in
    let (ws, e, v, done) =
      write_planes-Result api fd im metadata n (suc i) (omega arith) (omega arith) in
    let w = write_of fd b s in
    let here : IsWritten fd im metadata i w = write_of-IsWritten fd im metadata i b s sh bh in
    elim (Bool-cases (is_neg (api.write w))) [
      | inl bad ↦ (w ∷ [], ground arith, (here, tt), inr (inl bad))
      | inr good ↦ elim (Bool-cases (same_int (api.write w) (to_int w.length))) [
        | inr short ↦ (w ∷ [], ground arith, (here, tt), inr (inr short))
        | inl whole ↦ (
          w ∷ ws,
          ground arith,
          (here, v),
          elim done [ inl all ↦ inl (ap suc all) | inr cut ↦ inr (IsCut-cons api w ws cut) ],
        )
      ]
    ]

-- If a buffer is mapped, and its image and its metadata have all of its planes, and the file can be opened, then
-- `writeBuffer` returns. It has written to the file, plane by plane and in order, from the start of the plane, never
-- more than the bytes used and never more than the plane has, and, for planes of less than 2^32 bytes, the lesser
-- of both; all planes, unless the last of these writes failed or was short.
pub write_buffer-AllWritten :
    (api : FileApi) (buffer : FrameBuffer) (k : FileSink) (im : Image) (fd : ℕ)
    → map_find buffer.address k.mapped ≡ some im
    → length buffer.planes ≤ length buffer.metadata.planes
    → length buffer.planes ≤ num_planes im
    → api.open_file ≡ some fd
    → (ws : List Write) × (write_buffer api buffer k ≡ some ws)
      × AllWritten fd im buffer.metadata.planes 0 ws
      × ((length ws ≡ length buffer.planes) ⊎ IsCut api ws)
unfolding write_buffer num_planes
write_buffer-AllWritten api buffer k im fd mapped m p opened =
    let (ws, e, v, done) =
      write_planes-Result api fd im buffer.metadata.planes (length buffer.planes) 0 (omega arith)
        (omega arith) in
    (ws, ground arith, v, done)
