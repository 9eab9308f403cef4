-- ===== src/SdlSink/Lifecycle.antt =====
-- `SDLSink` gives back all that it takes from SDL (src/sdl_sink.cpp).
use twincam.Base.{
  ℕ, ◌≡◌, refl, inl, inr, true, false, Option, none, some, List, [], ◌∷◌, ℤ, is_nonzero, is_some,
  arith, Bool-cases, Option-cases,
}
use mathlib.Core.Path.{subst}
use twincam.Camera.{PixelFormat, StreamConfiguration}
use twincam.SdlSink.State.{
  SdlTexture, SdlSink, SdlApi, SdlBuild, initialised, window_created, renderer_created, call,
}
use twincam.SdlSink.Texture.{new_mjpg, destroy, create}
use twincam.SdlSink.Window.{
  Choice, set_texture, mjpg_choice, choose_texture, take_choice, configure, start_texture,
  start_renderer, start_window, start, stop_renderer, stop_window, stop_sdl, stop,
}
use twincam.SdlSink.Ownership.{ptr_of, Owns}

-- The texture of a sink is destroyed, and another one that has not been created takes its place.
destroy-Owns :
    (k : SdlSink) (t : Option SdlTexture)
    → ptr_of t ≡ none
    → Owns k
    → Owns (record (destroy k.texture k) { texture = t })
unfolding destroy
destroy-Owns k t e h = ground (arith, e, h)

stop_renderer-Owns : (k : SdlSink) → ptr_of k.texture ≡ none → Owns k → Owns (stop_renderer k)
unfolding stop_renderer
stop_renderer-Owns k e h = ground (arith, e, h)

stop_window-Owns : (k : SdlSink) → k.renderer ≡ none → Owns k → Owns (stop_window k)
unfolding stop_window
stop_window-Owns k e h = ground (arith, e, h)

stop_sdl-Owns : (k : SdlSink) → k.window ≡ none → Owns k → Owns (stop_sdl k)
unfolding stop_sdl
stop_sdl-Owns k e h = ground (arith, e, h)

-- What each part of `stop` leaves.
pub stopped_fields :
    (k : SdlSink)
    → let k' = (stop k).1 in
      (k'.texture ≡ none) × (k'.window ≡ none) × (k'.renderer ≡ none) × (k'.init ≡ false)
unfolding stop destroy stop_renderer stop_window stop_sdl
stopped_fields k = ground arith

stop_renderer-none : (k : SdlSink) → (stop_renderer k).renderer ≡ none
unfolding stop_renderer
stop_renderer-none k = ground arith

stop_window-none : (k : SdlSink) → (stop_window k).window ≡ none
unfolding stop_window
stop_window-none k = ground arith

pub stop-Owns : (k : SdlSink) → Owns k → Owns (stop k).1
unfolding stop
stop-Owns k h =
    let k1 : SdlSink = record (destroy k.texture k) { texture = none } in
    let k2 = stop_renderer k1 in
    let k3 = stop_window k2 in
    let h1 : Owns k1 = destroy-Owns k none refl h in
    let h2 : Owns k2 = stop_renderer-Owns k1 refl h1 in
    stop_sdl-Owns k3 (stop_window-none k2) (stop_window-Owns k2 (stop_renderer-none k1) h2)

module _ (api : SdlApi) where
  create_start :
      (k : SdlSink) (ret : ℤ) (k' : SdlSink)
      → k.init ≡ true
      → is_some k.renderer ≡ true
      → ptr_of k.texture ≡ none
      → start_texture api k ≡ some (ret, k')
      → Owns k
      → Owns k'
  unfolding start_texture create
  create_start k ret k' i r t e h = ground (arith, i, r, t, e, h)

  start_renderer-Owns :
      (k : SdlSink) (ret : ℤ) (k' : SdlSink)
      → k.init ≡ true
      → is_some k.window ≡ true
      → k.renderer ≡ none
      → ptr_of k.texture ≡ none
      → start_renderer api k ≡ some (ret, k')
      → Owns k
      → Owns k'
  unfolding start_renderer
  start_renderer-Owns k ret k' i w r t e h = elim (Option-cases api.create_renderer) [
    | inl bad ↦ ground (arith, r, e, h, bad)
    | inr (a, good) ↦
        create_start (call (renderer_created a) (record k { renderer = some a })) ret k' i refl t
          (ground (arith, e, good)) (ground (arith, h, w, r, t))
  ]

  start_window-Owns :
      (k : SdlSink) (ret : ℤ) (k' : SdlSink)
      → k.init ≡ true
      → k.window ≡ none
      → k.renderer ≡ none
      → ptr_of k.texture ≡ none
      → start_window api k ≡ some (ret, k')
      → Owns k
      → Owns k'
  unfolding start_window
  start_window-Owns k ret k' i w r t e h = elim (Option-cases api.create_window) [
    | inl bad ↦ ground (arith, w, e, h, bad)
    | inr (a, good) ↦
        start_renderer-Owns (call (window_created a) (record k { window = some a })) ret k' i refl r
          t (ground (arith, e, good)) (ground (arith, h, i, w, r, t))
  ]

  pub start-Owns :
      (k : SdlSink) (ret : ℤ) (k' : SdlSink)
      → k.init ≡ false
      → k.window ≡ none
      → k.renderer ≡ none
      → ptr_of k.texture ≡ none
      → start api k ≡ some (ret, k')
      → Owns k
      → Owns k'
  unfolding start
  start-Owns k ret k' i w r t e h = elim (Bool-cases (is_nonzero api.init)) [
    | inl bad ↦ ground (arith, e, h, bad)
    | inr good ↦
        start_window-Owns (call initialised (record k { init = true })) ret k' refl w r t
          (ground (arith, e, good)) (ground (arith, h, i, w, r, t))
  ]

take_choice-Owns :
    (c : Choice) (k : SdlSink) (ret : ℤ) (k' : SdlSink)
    → ((t : SdlTexture) → c ≡ Choice.texture t → t.ptr ≡ none)
    → take_choice c k ≡ some (ret, k')
    → Owns k
    → Owns k'
unfolding take_choice set_texture
take_choice-Owns (Choice.texture t) k ret k' new e h =
    let there : record (destroy k.texture k) { texture = some t } ≡ k' = ground (arith, e) in
    subst Owns there (destroy-Owns k (some t) (new t refl) h)
take_choice-Owns Choice.unsupported k ret k' new e h = ground (arith, e, h)
take_choice-Owns Choice.overflows k ret k' new e h = ground (arith, e)

-- A texture that has just been chosen has not been created yet.
choose_texture-ptr :
    (b : SdlBuild) (f : PixelFormat) (w h stride : ℕ) (t : SdlTexture)
    → choose_texture b f w h stride ≡ Choice.texture t
    → t.ptr ≡ none
unfolding choose_texture mjpg_choice new_mjpg
choose_texture-ptr b f w h stride t e = ground (arith, e)

pub configure-Owns :
    (b : SdlBuild) (config : List StreamConfiguration) (k : SdlSink) (ret : ℤ) (k' : SdlSink)
    → configure b config k ≡ some (ret, k')
    → Owns k
    → Owns k'
unfolding configure
configure-Owns b [] k ret k' e h = ground (arith, e, h)
configure-Owns b (cfg ∷ cfgs) k ret k' e h =
    take_choice-Owns (choose_texture b cfg.pixel_format cfg.size.width cfg.size.height cfg.stride)
      (record k { width = cfg.size.width; height = cfg.size.height }) ret k'
      (choose_texture-ptr b cfg.pixel_format cfg.size.width cfg.size.height cfg.stride) e h
