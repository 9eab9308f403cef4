-- ===== src/SdlSink/Scanlines.antt =====
-- Where the rows of an MJPEG picture are written (src/sdl_texture_mjpg.cpp).
use twincam.Base.{
  ℕ, zero, suc, ◌+◌, ◌*◌, ◌≤◌, ◌<◌, ◌≡◌, refl, inl, inr, none, some, All, In, ap, sym, ◌∙◌, arith,
  Option-cases,
}
use native.Mathlib.Nat.{mul_comm}
use twincam.Image.{Span}
use twincam.SdlSink.State.{SdlTexture}
use twincam.SdlSink.Texture.{Jpeg, RowWrite, rows, read_scanlines, decompress, new_mjpg}

-- A write stays inside the array.
abbrev pub IsInside : ℕ → RowWrite → Type 0
IsInside size w = w.offset + w.length ≤ size

-- Row `i` of `h` rows of a size ends at or before the end of the last one.
row_end : (i n h stride size : ℕ) → i + suc n ≤ h → stride * h ≤ size → i * stride + stride ≤ size
row_end i n h stride size small all = grind arith

read_scanlines-IsInside :
    (t : SdlTexture) (j : Jpeg) (n i : ℕ)
    → j.output_width * j.output_components ≤ t.stride
    → i + n ≤ t.height
    → t.stride * t.height ≤ t.rgb
    → All (IsInside t.rgb) (read_scanlines t j n i)
unfolding read_scanlines
read_scanlines-IsInside t j zero i wide high size = tt
read_scanlines-IsInside t j (suc n) i wide high size = (
  omega (arith, wide, row_end i n t.height t.stride t.rgb high size),
  read_scanlines-IsInside t j n (suc i) wide (omega (arith, high)) size,
)

abbrev row_write : SdlTexture → Jpeg → ℕ → RowWrite
row_write t j i = record { offset = i * t.stride; length = j.output_width * j.output_components }

In-read_scanlines :
    (t : SdlTexture) (j : Jpeg) (n i m row : ℕ)
    → m < n
    → i + m ≡ row
    → In (row_write t j row) (read_scanlines t j n i)
unfolding read_scanlines
In-read_scanlines t j zero i m row small e = absurd (omega arith)
In-read_scanlines t j (suc n) i zero row small e =
    let same : i ≡ row = omega (arith, e) in inl (rw same refl)
In-read_scanlines t j (suc n) i (suc m) row small e =
    inr (In-read_scanlines t j n (suc i) m row (omega (arith, small)) (omega (arith, e)))

-- The fields of a new texture for MJPEG.
new_mjpg-fields :
    (w h : ℕ) (t : SdlTexture)
    → new_mjpg w h ≡ some t
    → (t.height ≡ h) × (t.stride ≡ w * 3) × (t.rgb ≡ w * 3 * h)
unfolding new_mjpg
new_mjpg-fields w h t e = ground (arith, e)

last_row : (w h : ℕ) (t : SdlTexture) → new_mjpg w h ≡ some t → h * t.stride ≡ t.rgb
last_row w h t e =
    let (high, wide, size) = new_mjpg-fields w h t e in
    ap (λ (n : ℕ). h * n) wide ∙ mul_comm h (w * 3) ∙ sym size

decompress-writes :
    (jpeg : Span → Jpeg) (t : SdlTexture) (s : Span)
    → (decompress jpeg t s).1 ≡ read_scanlines t (jpeg s) (rows (jpeg s)) 0
unfolding decompress
decompress-writes jpeg t s = elim (Option-cases (jpeg s).error_after) [
  | inl fine ↦ ground (arith, fine)
  | inr (n, bad) ↦ ground (arith, bad)
]

-- Let a texture for MJPEG be made for a width and a height. A picture whose rows have no more than three bytes
-- per pixel of the width and that is no higher is decompressed inside the array, whether or not libjpeg finds an
-- error. A picture that is higher and whose rows are not empty is written beyond the array, unless libjpeg
-- finds an error: the row after the last one that fits starts at its end.
pub decompress-IsInside :
    (jpeg : Span → Jpeg) (w h : ℕ) (t : SdlTexture) (s : Span)
    → new_mjpg w h ≡ some t
    → let j = jpeg s in
      let writes = (decompress jpeg t s).1 in
      (j.output_width * j.output_components ≤ w * 3
        → j.output_height ≤ h
        → All (IsInside t.rgb) writes)
      × (h < j.output_height
          → j.error_after ≡ none
          → 0 < j.output_width * j.output_components
          → (x : RowWrite) × In x writes × (x.offset ≡ t.rgb) × (t.rgb < x.offset + x.length))
decompress-IsInside jpeg w h t s e =
    let j = jpeg s in
    let (high, wide, size) = new_mjpg-fields w h t e in
    let last : h * t.stride ≡ t.rgb = last_row w h t e in
    rw (decompress-writes jpeg t s) (
      λ narrow low.
          read_scanlines-IsInside t j (rows j) 0 (ground (arith, wide, narrow))
            (ground (arith, high, low)) (ground (arith, high, wide, size)),
      λ tall no_error some_bytes. (
        row_write t j h,
        In-read_scanlines t j (rows j) 0 h h (ground (arith, no_error, tall)) (omega arith),
        last,
        omega (arith, last, some_bytes),
      ),
    )
