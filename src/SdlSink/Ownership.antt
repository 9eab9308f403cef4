-- ===== src/SdlSink/Ownership.antt =====
-- What SDL asks of a program that owns a window, a renderer and a texture. Nothing here is taken from
-- src/sdl_sink.cpp, which is held against it.
use twincam.Base.{
  ℕ, ◌≡◌, Bool, true, false, not, ◌&&◌, Option, none, some, List, [], ◌∷◌, is_some, ◌==◌, ◌>>=◌,
}
use twincam.SdlSink.State.{
  SdlTexture, SdlSink, SdlCall, initialised, quits, window_created, window_destroyed,
  renderer_created, renderer_destroyed, texture_created, texture_destroyed, cursor_hidden,
  texture_updated, presented,
}

-- What there is: whether SDL is initialised, and the objects.
pub record Held : Type 0 where
  pub inited : Bool
  pub window : Option ℕ
  pub renderer : Option ℕ
  pub texture : Option ℕ

abbrev pub nothing : Held
nothing = record { inited = false; window = none; renderer = none; texture = none }

-- Both are the same object, and not null.
abbrev pub same : Option ℕ → Option ℕ → Bool
same none b = false
same (some a) none = false
same (some a) (some b) = a == b

abbrev pub allow : Bool → Held → Option Held
allow true h = some h
allow false h = none

-- A call, or none where it breaks a rule: an object is created once, within the one that it belongs to, and
-- destroyed once, after those that belong to it; only objects that are there are used.
abbrev pub sdl_step : SdlCall → Held → Option Held
sdl_step initialised h = allow (not h.inited) (record h { inited = true })
sdl_step quits h = allow (h.inited && not (is_some h.window)) (record h { inited = false })
sdl_step (window_created w) h =
    allow (h.inited && not (is_some h.window)) (record h { window = some w })
sdl_step (window_destroyed w) h =
    allow (same (some w) h.window && not (is_some h.renderer)) (record h { window = none })
sdl_step (renderer_created r) h =
    allow (is_some h.window && not (is_some h.renderer)) (record h { renderer = some r })
sdl_step (renderer_destroyed r) h =
    allow (same (some r) h.renderer && not (is_some h.texture)) (record h { renderer = none })
sdl_step (texture_created t) h =
    allow (is_some h.renderer && not (is_some h.texture)) (record h { texture = some t })
sdl_step (texture_destroyed t) h = allow (same (some t) h.texture) (record h { texture = none })
sdl_step cursor_hidden h = allow h.inited h
sdl_step (texture_updated t ss) h = allow (same t h.texture) h
sdl_step (presented r t) h = allow (same r h.renderer && same t h.texture) h

-- A history, of which the last call comes first.
abbrev pub replay : List SdlCall → Option Held
replay [] = some nothing
replay (c ∷ cs) = replay cs >>= sdl_step c

abbrev pub ptr_of : Option SdlTexture → Option ℕ
ptr_of none = none
ptr_of (some t) = t.ptr

-- What a sink says that it has.
abbrev pub view : SdlSink → Held
view k = record {
  inited = k.init;
  window = k.window;
  renderer = k.renderer;
  texture = ptr_of k.texture;
}

-- The history of the sink keeps to the rules, and leaves just what the sink says that it has.
abbrev pub Owns : SdlSink → Type 0
Owns k = replay k.calls ≡ some (view k)
