-- ===== src/KmsSink/Setup/Buffers.antt =====
-- What `mapBuffer` makes of a buffer (src/kms_sink.cpp).
use twincam.Base.{
  ℕ, suc, ◌+◌, ◌≤◌, ◌≡◌, refl, ◌⊎◌, inl, inr, none, some, List, [], ◌∷◌, arith, lt→ltb, set, length,
  ◌==◌, if◌then◌else◌,
}
use twincam.Camera.{PixelFormat, FramePlane}
use twincam.Camera
use twincam.Drm.FrameBuffer.{
  PrimeApi, FrameBuffer, Created, created, null, undefined, create_frame_buffer,
}
use twincam.Drm.FrameBuffer.Arrays.{create_frame_buffer-undefined}
use twincam.KmsSink.State.{KmsSink}
use twincam.KmsSink.Setup.{fill_strides, emplace, find_buffer, keep_buffer, strides_of, map_buffer}

fill_strides-some :
    (ps : List FramePlane) (i v : ℕ) (strides : List ℕ)
    → i + length ps ≤ 4
    → (ss : List ℕ) × (fill_strides ps i v strides ≡ some ss)
unfolding fill_strides
fill_strides-some [] i v strides h = (strides, refl)
fill_strides-some (p ∷ ps) i v strides h =
    let (ss, e) = fill_strides-some ps (suc i) v (set strides i v) (omega arith) in
    let small = lt→ltb i 4 (omega arith) in (ss, ground arith)

strides_of-some :
    (format : PixelFormat) (stride : ℕ) (planes : List FramePlane)
    → length planes ≤ 4
    → (ss : List ℕ) × (strides_of format stride planes ≡ some ss)
unfolding strides_of
strides_of-some format stride [] h = (stride ∷ 0 ∷ 0 ∷ 0 ∷ [], refl)
strides_of-some format stride (p ∷ ps) h = fill_strides-some ps 1 _ _ (omega arith)

find_buffer-emplace :
    (j k v : ℕ) (m : List (ℕ × ℕ))
    → find_buffer k m ≡ none
    → find_buffer j (emplace k v m) ≡ (if j == k then some v else find_buffer j m)
unfolding find_buffer emplace
find_buffer-emplace j k v [] new = refl
find_buffer-emplace j k v ((i, w) ∷ m) new = ground (arith, find_buffer-emplace j k v m)

Created-cases :
    (c : Created)
    → (c ≡ undefined)
      ⊎ ((closed : List ℕ) × (c ≡ null closed))
      ⊎ ((fb : FrameBuffer) × (c ≡ created fb))
Created-cases undefined = inl refl
Created-cases (null closed) = inr (inl (closed, refl))
Created-cases (created fb) = inr (inr (fb, refl))

-- A buffer with at most four planes that has not been mapped is mapped without undefined behaviour:
-- either no framebuffer can be made of it, and the sink stays as it is; or the sink then finds the id
-- of the framebuffer for this buffer, and for the others what it found before.
pub map_buffer_lem :
    (api : PrimeApi) (fourcc : PixelFormat → ℕ) (buffer : Camera.FrameBuffer) (s : KmsSink)
    → length buffer.planes ≤ 4
    → find_buffer buffer.address s.buffers ≡ none
    → (s' : KmsSink) × (strides : List ℕ) × (map_buffer api fourcc buffer s ≡ some s')
      × (strides_of s.format s.stride buffer.planes ≡ some strides)
      × (let out = create_frame_buffer api buffer.planes (fourcc s.format) s.size strides in
          ((closed : List ℕ) × (out ≡ null closed) × (s' ≡ s))
          ⊎ ((fb : FrameBuffer) × (out ≡ created fb)
              × ((j : ℕ)
                  → find_buffer j s'.buffers
                    ≡ (if j == buffer.address then some fb.id else find_buffer j s.buffers))))
unfolding map_buffer keep_buffer
map_buffer_lem api fourcc buffer s h new =
    let (ss, e) = strides_of-some s.format s.stride buffer.planes h in
    elim (Created-cases (create_frame_buffer api buffer.planes (fourcc s.format) s.size ss)) [
      | inl bad ↦
          absurd (create_frame_buffer-undefined api buffer.planes (fourcc s.format) s.size ss h bad)
      | inr (inl (closed, failed)) ↦ (s, ss, ground arith, e, inl (closed, failed, refl))
      | inr (inr (fb, made)) ↦ (
        record s { buffers = emplace buffer.address fb.id s.buffers },
        ss,
        ground arith,
        e,
        inr (fb, made, λ j. find_buffer-emplace j buffer.address fb.id s.buffers new),
      )
    ]
