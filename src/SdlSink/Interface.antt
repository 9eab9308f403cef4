-- ===== src/SdlSink/Interface.antt =====
-- `SDLSink` and the promise of a sink (src/sdl_sink.cpp).
use twincam.Base.{◌≡◌, inl, inr, Bool, some, [], ◌∷◌, arith, Option-cases, if◌then◌else◌, ◌++◌}
use twincam.Camera.{Request}
use twincam.Image.{MmapApi, Span}
use twincam.CameraSession.Frames.Keeper.{Keeper}
use twincam.SdlSink.State.{SdlSink, SdlApi, SdlBuild}
use twincam.SdlSink.Texture.{Jpeg}
use twincam.SdlSink.Render.{sdl_sink, process_request, render_buffer}

process_held :
    (jpeg : Span → Jpeg) (r : Request) (k : SdlSink) (done : Bool) (k' : SdlSink)
    → process_request jpeg r k ≡ some (done, k')
    → [] ≡ [] ++ (if done then [] else r.address ∷ [])
unfolding process_request
process_held jpeg r k done k' e = elim (Option-cases (render_buffer jpeg r.first.1 k)) [
  | inl crash ↦ absurd (ground (arith, e, crash))
  | inr (k1, shown) ↦ ground (arith, e, shown)
]

-- The sink keeps the promise of the interface: it is done with a request when `process_request` returns.
pub sdl_keeper :
    (b : SdlBuild) (api : SdlApi) (mmap : MmapApi) (jpeg : Span → Jpeg)
    → Keeper (sdl_sink b api mmap jpeg)
unfolding sdl_sink
sdl_keeper b api mmap jpeg = record {
  held = λ k. [];
  Release = λ k o k'. ⊥;
  process_held = process_held jpeg;
  release_held = λ k o k' e. absurd e;
}
