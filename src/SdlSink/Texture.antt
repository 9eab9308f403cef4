-- ===== src/SdlSink/Texture.antt =====
-- `SDLTexture` and its classes (src/sdl_texture.cpp, src/sdl_texture_mjpg.cpp, src/sdl_texture_nv12.cpp,
-- src/sdl_texture_yuyv.cpp). libjpeg is a parameter.
use twincam.Base.{
  ℕ, zero, suc, ◌*◌, ◌^◌, ◌&&◌, Option, none, some, List, [], ◌∷◌, ℤ, pos, neg, enomem, einval, ltb,
  if◌then◌else◌,
}
use twincam.Image.{Span}
use twincam.SdlSink.State.{
  TextureFormat, rgb24, nv12, yuy2, SdlTexture, SdlSink, SdlApi, texture_created, texture_destroyed,
  texture_updated, call,
}

-- `SDLTextureMJPG::SDLTextureMJPG`. The products are of `int`s; none stands for their overflow.
unfoldable pub new_mjpg : ℕ → ℕ → Option SdlTexture
new_mjpg w h =
    if ltb w (2 ^ 31) && ltb h (2 ^ 31) && ltb (w * 3) (2 ^ 31) && ltb (w * 3 * h) (2 ^ 31)
    then some (record {
      format = rgb24;
      width = w;
      height = h;
      stride = w * 3;
      rgb = w * 3 * h;
      ptr = none;
    })
    else none

-- `SDLTextureNV12` and `SDLTextureYUYV`
abbrev pub new_plain : TextureFormat → ℕ → ℕ → ℕ → SdlTexture
new_plain format w h stride = record {
  format = format;
  width = w;
  height = h;
  stride = stride;
  rgb = 0;
  ptr = none;
}

-- `SDLTexture::~SDLTexture`, of the texture if there is one.
unfoldable pub destroy : Option SdlTexture → SdlSink → SdlSink
destroy none k = k
destroy (some t) k = elim t.ptr [ none ↦ k | some p ↦ call (texture_destroyed p) k ]

-- `SDLTexture::create`, by what SDL_CreateTexture answers.
unfoldable pub create : SdlApi → SdlTexture → SdlSink → ℤ × SdlSink
create api t k = elim api.create_texture [
  | none ↦ (neg enomem, record k { texture = some (record t { ptr = none }) })
  | some p ↦
      (pos 0, call (texture_created p) (record k { texture = some (record t { ptr = some p }) }))
]

-- What libjpeg makes of an image: the size of the output, and the number of rows after which it found an
-- error, if it did.
pub record Jpeg : Type 0 where
  pub output_width : ℕ
  pub output_components : ℕ
  pub output_height : ℕ
  pub error_after : Option ℕ

-- A write of a row into `rgb_`: its offset and its length.
pub record RowWrite : Type 0 where
  pub offset : ℕ
  pub length : ℕ

-- The loop of `decompress`, with `n` rows left, from row `i` on: the rows that libjpeg writes before an error.
unfoldable pub read_scanlines : SdlTexture → Jpeg → ℕ → ℕ → List RowWrite
read_scanlines t j zero i = []
read_scanlines t j (suc n) i =
    record { offset = i * t.stride; length = j.output_width * j.output_components }
    ∷ read_scanlines t j n (suc i)

-- The rows that are read before an error.
abbrev pub rows : Jpeg → ℕ
rows j = elim j.error_after [
  | none ↦ j.output_height
  | some n ↦ if ltb n j.output_height then n else j.output_height
]

-- `SDLTextureMJPG::decompress`: the return code and the writes. Where libjpeg finds an error it jumps back to
-- `setjmp`, by `errorExit`.
unfoldable pub decompress : (Span → Jpeg) → SdlTexture → Span → ℤ × List RowWrite
decompress jpeg t s =
    let j = jpeg s in
    let writes = read_scanlines t j (rows j) 0 in
    elim j.error_after [ none ↦ (pos 0, writes) | some n ↦ (neg einval, writes) ]

-- `update` of the three classes, with the writes into `rgb_`. A span that is not there is read out of bounds.
unfoldable pub update :
    (Span → Jpeg) → SdlTexture → List Span → SdlSink → Option (List RowWrite × SdlSink)
update jpeg t [] k = none
update jpeg t (s ∷ ss) k = elim t.format [
  | rgb24 ↦
      let (ret, writes) = decompress jpeg t s in
      some (writes, call (texture_updated t.ptr (s ∷ [])) k)
  | nv12 ↦ elim ss [
    | [] ↦ none
    | s' ∷ more ↦ some ([], call (texture_updated t.ptr (s ∷ s' ∷ [])) k)
  ]
  | yuy2 ↦ some ([], call (texture_updated t.ptr (s ∷ [])) k)
]
