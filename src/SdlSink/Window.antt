-- ===== src/SdlSink/Window.antt =====
-- The life of `SDLSink`: `configure`, `start`, `stop` and the destructor (src/sdl_sink.cpp).
use twincam.Base.{
  ℕ, suc, true, false, Option, none, some, List, [], ◌∷◌, ℤ, pos, neg, einval, is_nonzero,
  if◌then◌else◌,
}
use twincam.Camera.{PixelFormat, StreamConfiguration}
use twincam.SdlSink.State.{
  nv12, yuy2, SdlTexture, SdlSink, SdlApi, SdlBuild, initialised, quits, window_created,
  window_destroyed, renderer_created, renderer_destroyed, cursor_hidden, call,
}
use twincam.SdlSink.Texture.{new_mjpg, new_plain, destroy, create}

-- `texture_ = std::make_unique<...>(...)`: the texture that was there is destroyed.
unfoldable pub set_texture : SdlTexture → SdlSink → SdlSink
set_texture t k = record (destroy k.texture k) { texture = some t }

-- What the `switch` of `configure` makes: a texture, or none for a format that is not supported.
pub data Choice : Type 0 where
  texture : SdlTexture → Choice
  unsupported overflows : Choice

unfoldable pub mjpg_choice : Option SdlTexture → Choice
mjpg_choice none = overflows
mjpg_choice (some t) = texture t

-- The `switch` of `configure`, for a picture of a size; its cases for MJPEG and NV12 are there by the build.
unfoldable pub choose_texture : SdlBuild → PixelFormat → ℕ → ℕ → ℕ → Choice
choose_texture b format w h stride = elim format [
  | PixelFormat.mjpeg ↦ if b.have_libjpeg then mjpg_choice (new_mjpg w h) else unsupported
  | PixelFormat.nv12 ↦ if b.have_nv12 then texture (new_plain nv12 w h stride) else unsupported
  | PixelFormat.yuyv ↦ texture (new_plain yuy2 w h stride)
  | _ ↦ unsupported
]

unfoldable pub take_choice : Choice → SdlSink → Option (ℤ × SdlSink)
take_choice (texture t) k = some (pos 0, set_texture t k)
take_choice unsupported k = some (neg einval, k)
take_choice overflows k = none

-- `configure`; that of the base class returns 0.
unfoldable pub configure : SdlBuild → List StreamConfiguration → SdlSink → Option (ℤ × SdlSink)
configure b [] k = some (neg einval, k)
configure b (cfg ∷ cfgs) k =
    take_choice (choose_texture b cfg.pixel_format cfg.size.width cfg.size.height cfg.stride)
      (record k { width = cfg.size.width; height = cfg.size.height })

-- The end of `start`; a sink without a texture dereferences null.
unfoldable pub start_texture : SdlApi → SdlSink → Option (ℤ × SdlSink)
start_texture api k = elim k.texture [
  | none ↦ none
  | some t ↦
      let (ret, k') = create api t k in
      if is_nonzero ret
      then some (ret, k')
      else some (pos 0, call cursor_hidden (record k' { timers = suc k'.timers }))
]

-- From SDL_CreateRenderer on. Whether the logical size can be set changes nothing.
unfoldable pub start_renderer : SdlApi → SdlSink → Option (ℤ × SdlSink)
start_renderer api k = elim api.create_renderer [
  | none ↦ some (neg einval, record k { renderer = none })
  | some r ↦ start_texture api (call (renderer_created r) (record k { renderer = some r }))
]

-- From SDL_CreateWindow on.
unfoldable pub start_window : SdlApi → SdlSink → Option (ℤ × SdlSink)
start_window api k = elim api.create_window [
  | none ↦ some (neg einval, record k { window = none })
  | some w ↦ start_renderer api (call (window_created w) (record k { window = some w }))
]

unfoldable pub start : SdlApi → SdlSink → Option (ℤ × SdlSink)
start api k =
    if is_nonzero api.init
    then some (api.init, k)
    else start_window api (call initialised (record k { init = true }))

unfoldable pub stop_renderer : SdlSink → SdlSink
stop_renderer k = elim k.renderer [
  | none ↦ k
  | some r ↦ call (renderer_destroyed r) (record k { renderer = none })
]

unfoldable pub stop_window : SdlSink → SdlSink
stop_window k = elim k.window [
  | none ↦ k
  | some w ↦ call (window_destroyed w) (record k { window = none })
]

unfoldable pub stop_sdl : SdlSink → SdlSink
stop_sdl k = if k.init then call quits (record k { init = false }) else k

-- `stop`, which returns what that of the base class does. The destructor calls it too.
unfoldable pub stop : SdlSink → ℤ × SdlSink
stop k = (
  pos 0,
  stop_sdl (stop_window (stop_renderer (record (destroy k.texture k) { texture = none }))),
)
