-- ===== src/SdlSink/State.antt =====
-- The state of `SDLSink` and `SDLTexture` (src/sdl_sink.h, src/sdl_texture.h, src/sdl_texture_mjpg.h),
-- and what they do with SDL.
use twincam.Base.{ℕ, Bool, Option, none, List, [], ◌∷◌, ℤ, false}
use twincam.Image.{Span, Image}

-- The formats of the textures, SDL_PIXELFORMAT_RGB24, _NV12 and _YUY2.
pub data TextureFormat : Type 0 where
  rgb24 nv12 yuy2 : TextureFormat

-- `SDLTexture`, by the format of its class; `rgb` is the size of the array `rgb_` of a texture for MJPEG.
pub record SdlTexture : Type 0 where
  pub format : TextureFormat
  pub width : ℕ
  pub height : ℕ
  pub stride : ℕ
  pub rgb : ℕ
  pub ptr : Option ℕ

-- A call of SDL. Textures, windows and renderers have numbers.
pub data SdlCall : Type 0 where
  initialised quits : SdlCall
  window_created window_destroyed renderer_created renderer_destroyed : ℕ → SdlCall
  texture_created texture_destroyed : ℕ → SdlCall
  cursor_hidden : SdlCall
  texture_updated : Option ℕ → List Span → SdlCall
  presented : Option ℕ → Option ℕ → SdlCall

-- `SDLSink`; `mapped` goes from the address of a buffer to its image. `calls` has the calls of SDL that
-- succeeded, the last one first, and `timers` counts the timer events that were added.
pub record SdlSink : Type 0 where
  pub mapped : List (ℕ × Image)
  pub texture : Option SdlTexture
  pub window : Option ℕ
  pub renderer : Option ℕ
  pub width : ℕ
  pub height : ℕ
  pub init : Bool
  pub calls : List SdlCall
  pub timers : ℕ

-- What SDL answers: the return codes of SDL_Init and SDL_RenderSetLogicalSize, and what it creates.
pub record SdlApi : Type 0 where
  pub init : ℤ
  pub create_window : Option ℕ
  pub create_renderer : Option ℕ
  pub set_logical_size : ℤ
  pub create_texture : Option ℕ

-- HAVE_LIBJPEG, and whether SDL is 2.0.16 or later.
pub record SdlBuild : Type 0 where
  pub have_libjpeg : Bool
  pub have_nv12 : Bool

-- `SDLSink::SDLSink`
abbrev pub new_sink : SdlSink
new_sink = record {
  mapped = [];
  texture = none;
  window = none;
  renderer = none;
  width = 0;
  height = 0;
  init = false;
  calls = [];
  timers = 0;
}

abbrev pub call : SdlCall → SdlSink → SdlSink
call c k = record k { calls = c ∷ k.calls }
