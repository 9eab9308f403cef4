-- ===== src/SdlSink/Runs.antt =====
-- The calls of an `SDLSink` in any order (src/sdl_sink.cpp).
use twincam.Base.{
  ℕ, ◌≡◌, refl, inl, inr, Bool, true, false, Option, none, some, List, [], ◌∷◌, ℤ, pos, arith,
  Option-cases, is_some, ◌∙◌, ap, sym,
}
use mathlib.Core.Path.{subst}
use twincam.Camera.{StreamConfiguration, FrameBuffer, Request}
use twincam.Image.{MapMode, MmapApi, Span, Outcome, image, null, from_frame_buffer}
use twincam.SdlSink.State.{SdlTexture, SdlSink, SdlApi, SdlBuild, new_sink, call, presented}
use twincam.SdlSink.Texture.{Jpeg, RowWrite, create, update}
use twincam.SdlSink.Window.{configure, start, start_window, start_renderer, start_texture, stop}
use twincam.SdlSink.Render.{keep_image, map_buffer, buffer_spans, render_buffer, process_request}
use twincam.Base.Maps.{map_find}
use twincam.SdlSink.Ownership.{nothing, same, replay, ptr_of, view, Owns}
use twincam.SdlSink.Lifecycle.{start-Owns, configure-Owns, stop-Owns, stopped_fields}

-- A sink that has nothing of SDL.
abbrev pub IsStopped : SdlSink → Type 0
IsStopped k = (k.init ≡ false) × (k.window ≡ none) × (k.renderer ≡ none) × (ptr_of k.texture ≡ none)

-- A sink that has a renderer and a texture of SDL.
abbrev pub IsStarted : SdlSink → Type 0
IsStarted k = (is_some k.renderer ≡ true) × (is_some (ptr_of k.texture) ≡ true)

-- A call that ends, whatever SDL, the system and libjpeg answer; only a sink that is stopped is started, and only
-- one that has been started is given requests.
pub data Use (k : SdlSink) (k' : SdlSink) : Type 0 where
  configures :
      (b : SdlBuild) (config : List StreamConfiguration) (ret : ℤ)
      → configure b config k ≡ some (ret, k')
      → Use k k'
  starts : (api : SdlApi) (ret : ℤ) → IsStopped k → start api k ≡ some (ret, k') → Use k k'
  stops : k' ≡ (stop k).1 → Use k k'
  maps : (api : MmapApi) (buffer : FrameBuffer) → map_buffer api buffer k ≡ some k' → Use k k'
  processes :
      (jpeg : Span → Jpeg) (r : Request) (done : Bool)
      → IsStarted k
      → process_request jpeg r k ≡ some (done, k')
      → Use k k'

pub data Uses (k : SdlSink) : SdlSink → Type 0 where
  unused : Uses k k
  after : {k' : SdlSink} {k'' : SdlSink} → Uses k k' → Use k' k'' → Uses k k''

keep_image-Owns :
    (buffer : ℕ) (o : Outcome) (k k' : SdlSink) → keep_image buffer o k ≡ some k' → Owns k → Owns k'
unfolding keep_image
keep_image-Owns buffer (null unmapped) k k' e h = ground (arith, e)
keep_image-Owns buffer (image im) k k' e h = ground (arith, e, h)

same_refl : (o : Option ℕ) → is_some o ≡ true → same o o ≡ true
same_refl none there = absurd (ground (arith, there))
same_refl (some n) there = ground arith

-- What is shown is the texture that there is.
shown_Owns :
    (jpeg : Span → Jpeg) (t : SdlTexture) (ss : List Span) (k : SdlSink) (writes : List RowWrite)
    (k' : SdlSink)
    → k.texture ≡ some t
    → IsStarted k
    → update jpeg t ss k ≡ some (writes, k')
    → Owns k
    → Owns (call (presented k.renderer t.ptr) k')
unfolding update
shown_Owns jpeg t [] k writes k' e (r, p) u h = ground (arith, u)
shown_Owns jpeg t (s ∷ []) k writes k' e (r, p) u h =
    let created : is_some t.ptr ≡ true = ground (arith, p, e) in
    ground (arith, e, u, h, same_refl t.ptr created, same_refl k.renderer r)
shown_Owns jpeg t (s ∷ s' ∷ ss) k writes k' e (r, p) u h =
    let created : is_some t.ptr ≡ true = ground (arith, p, e) in
    ground (arith, e, u, h, same_refl t.ptr created, same_refl k.renderer r)

process_request-Owns :
    (jpeg : Span → Jpeg) (r : Request) (k : SdlSink) (done : Bool) (k' : SdlSink)
    → IsStarted k
    → process_request jpeg r k ≡ some (done, k')
    → Owns k
    → Owns k'
unfolding process_request render_buffer
process_request-Owns jpeg r k done k' begun e h =
    let buffer = r.first.1 in
    elim (Option-cases (buffer_spans (map_find buffer.address k.mapped) buffer.metadata.planes)) [
      | inl bad ↦ absurd (ground (arith, e, bad))
      | inr (ss, planes) ↦ elim (Option-cases k.texture) [
        | inl bad ↦ absurd (ground (arith, e, planes, bad))
        | inr (t, there) ↦ elim (Option-cases (update jpeg t ss k)) [
          | inl bad ↦ absurd (ground (arith, e, planes, there, bad))
          | inr ((writes, k1), updated) ↦
              let shown : call (presented k.renderer t.ptr) k1 ≡ k' =
                ground (arith, e, planes, there, updated) in
              subst Owns shown (shown_Owns jpeg t ss k writes k1 there begun updated h)
        ]
      ]
    ]

-- What a `start` that returns 0 leaves.
start-IsStarted : (api : SdlApi) (k k' : SdlSink) → start api k ≡ some (pos 0, k') → IsStarted k'
unfolding start start_window start_renderer start_texture create
start-IsStarted api k k' e = (ground (arith, e), ground (arith, e))

Use-Owns : (k k' : SdlSink) → Use k k' → Owns k → Owns k'
unfolding map_buffer
Use-Owns k k' (configures b config ret e) h = configure-Owns b config k ret k' e h
Use-Owns k k' (starts api ret (i, w, r, t) e) h = start-Owns api k ret k' i w r t e h
Use-Owns k k' (stops e) h = subst Owns (sym e) (stop-Owns k h)
Use-Owns k k' (maps api buffer e) h =
    keep_image-Owns buffer.address (from_frame_buffer api buffer.planes MapMode.read_only) k k' e h
Use-Owns k k' (processes jpeg r done begun e) h = process_request-Owns jpeg r k done k' begun e h

Uses-Owns : (k : SdlSink) {k' : SdlSink} → Uses k k' → Owns k → Owns k'
Uses-Owns k unused h = h
Uses-Owns k (after {k'} {k''} us u) h = Use-Owns k' k'' u (Uses-Owns k us h)

-- A new sink is configured, started while it is stopped, stopped, given buffers, and given requests while it has
-- a renderer and a texture of SDL, in any order, and whatever SDL, the system and libjpeg answer. Then its calls keep
-- to the rules of SDL: each object is created once within the one that it belongs to, destroyed once and after
-- those that belong to it, and only what is there is used. What there is are just the objects that the fields name.
-- A `start` that returns 0 leaves it with a renderer and a texture. And `stop`, which the destructor calls, returns
-- 0, keeps to the rules, and leaves nothing.
pub Uses-Owns_stop :
    (k : SdlSink)
    → Uses new_sink k
    → (replay k.calls ≡ some (view k))
      × ((api : SdlApi) (k' : SdlSink) → start api k ≡ some (pos 0, k') → IsStarted k')
      × ((stop k).0 ≡ pos 0)
      × (replay (stop k).1.calls ≡ some nothing)
unfolding stop
Uses-Owns_stop k us =
    let owns = Uses-Owns new_sink us refl in
    let (t, w, r, i) = stopped_fields k in
    let gone : view (stop k).1 ≡ nothing = ground (arith, t, w, r, i) in
    (owns, λ api k' e. start-IsStarted api k k' e, refl, stop-Owns k owns ∙ ap some gone)
