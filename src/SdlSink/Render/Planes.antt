-- ===== src/SdlSink/Render/Planes.antt =====
-- What `renderBuffer` shows (src/sdl_sink.cpp).
use twincam.Base.{
  ℕ, zero, suc, ◌+◌, ◌≤◌, ◌<◌, ◌≡◌, ◌⊎◌, refl, inl, inr, none, some, List, [], ◌∷◌, arith, length,
  get_elem?, ap,
}
use twincam.Base.Maps.{map_find}
use twincam.Camera.{FrameBuffer}
use twincam.Image.{Image, Span, plane_data, span, num_planes}
use twincam.Image.Access.{plane_data-cases}
use twincam.SdlSink.State.{
  TextureFormat, rgb24, nv12, yuy2, SdlTexture, SdlSink, texture_updated, presented, call,
}
use twincam.SdlSink.Texture.{Jpeg, RowWrite, update, decompress}
use twincam.SdlSink.Render.{spans, buffer_spans, render_buffer}

-- The number of planes that `update` of a texture reads.
abbrev pub planes_read : TextureFormat → ℕ
planes_read rgb24 = 1
planes_read nv12 = 2
planes_read yuy2 = 1

-- The spans of the planes from `i` on, one for each number of bytes.
abbrev pub AreSpans : Image → ℕ → List ℕ → List Span → Type 0
AreSpans im i [] [] = Unit
AreSpans im i [] (s ∷ ss) = ⊥
AreSpans im i (b ∷ bs) [] = ⊥
AreSpans im i (b ∷ bs) (s ∷ ss) = (get_elem? im.planes i ≡ some s) × AreSpans im (suc i) bs ss

plane_at :
    (im : Image) (i : ℕ)
    → i < length im.planes
    → (s : Span) × (plane_data im i ≡ span s) × (get_elem? im.planes i ≡ some s)
unfolding num_planes
plane_at im i small = elim (plane_data-cases im i) [
  | inl (lt, (s, e, f)) ↦ (s, f, e)
  | inr (inl (same, bad)) ↦ absurd (omega arith)
  | inr (inr (large, bad)) ↦ absurd (omega arith)
]

pub spans-AreSpans :
    (im : Image) (bs : List ℕ) (i : ℕ)
    → i + length bs ≤ length im.planes
    → (ss : List Span) × (spans im bs i ≡ some ss) × AreSpans im i bs ss × (length ss ≡ length bs)
unfolding spans
spans-AreSpans im [] i small = ([], refl, tt, refl)
spans-AreSpans im (b ∷ bs) i small =
    let (s, f, e) = plane_at im i (omega (arith, small)) in
    let (ss, g, all, long) = spans-AreSpans im bs (suc i) (omega (arith, small)) in
    (s ∷ ss, ground (arith, f, g), (e, all), ap suc long)

-- The first elements of a list.
abbrev pub take : ℕ → List Span → List Span
take zero ss = []
take (suc n) [] = []
take (suc n) (s ∷ ss) = s ∷ take n ss

-- The update of a texture with enough spans.
abbrev Updated : (Span → Jpeg) → SdlTexture → List Span → SdlSink → Type 0
Updated jpeg t ss k =
    (writes : List RowWrite) × (update jpeg t ss k
      ≡ some (writes, call (texture_updated t.ptr (take (planes_read t.format) ss)) k))

-- `update` ends exactly if there are as many spans as the texture reads.
update-cases :
    (jpeg : Span → Jpeg) (f : TextureFormat) (t : SdlTexture) (ss : List Span) (k : SdlSink)
    → t.format ≡ f
    → ((length ss < planes_read f) × (update jpeg t ss k ≡ none))
      ⊎ ((planes_read f ≤ length ss) × Updated jpeg t ss k)
unfolding update
update-cases jpeg rgb24 t [] k e = inl (omega arith, refl)
update-cases jpeg nv12 t [] k e = inl (omega arith, refl)
update-cases jpeg yuy2 t [] k e = inl (omega arith, refl)
update-cases jpeg rgb24 t (s ∷ ss) k e =
    inr (omega arith, ((decompress jpeg t s).1, ground (arith, e)))
update-cases jpeg yuy2 t (s ∷ ss) k e = inr (omega arith, ([], ground (arith, e)))
update-cases jpeg nv12 t (s ∷ []) k e = inl (omega arith, ground (arith, e))
update-cases jpeg nv12 t (s ∷ s' ∷ ss) k e = inr (omega arith, ([], ground (arith, e)))

-- Let a buffer be mapped to an image that has all planes of its metadata, and let there be a texture. If the
-- metadata has as many planes as the texture reads, one, or two for NV12, then `renderBuffer` updates the
-- texture with these first planes, whole and not cut to the bytes used, and then shows it. If the metadata has
-- fewer planes then it reads a vector out of bounds.
pub render_buffer_lem :
    (jpeg : Span → Jpeg) (buffer : FrameBuffer) (k : SdlSink) (im : Image) (t : SdlTexture)
    → map_find buffer.address k.mapped ≡ some im
    → k.texture ≡ some t
    → length buffer.metadata.planes ≤ length im.planes
    → let bs = buffer.metadata.planes in
      (length bs < planes_read t.format → render_buffer jpeg buffer k ≡ none)
      × (planes_read t.format ≤ length bs
          → (ss : List Span) × (writes : List RowWrite) × AreSpans im 0 bs ss
            × (render_buffer jpeg buffer k
                ≡ some (
                  writes,
                  call
                      (presented k.renderer t.ptr)
                      (call (texture_updated t.ptr (take (planes_read t.format) ss)) k),
                )))
unfolding render_buffer buffer_spans
render_buffer_lem jpeg buffer k im t mapped there enough =
    let (ss, g, all, long) = spans-AreSpans im buffer.metadata.planes 0 (omega (arith, enough)) in
    elim (update-cases jpeg t.format t ss k refl) [
      | inl (few, bad) ↦ (
        λ few'. ground (arith, mapped, there, g, bad),
        λ many. absurd (omega (arith, few, many, long)),
      )
      | inr (many, (writes, done)) ↦ (
        λ few. absurd (omega (arith, few, many, long)),
        λ many'. (ss, writes, all, ground (arith, mapped, there, g, done)),
      )
    ]
