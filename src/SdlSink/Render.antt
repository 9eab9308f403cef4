-- ===== src/SdlSink/Render.antt =====
-- `mapBuffer`, `processRequest`, `renderBuffer` and `processSDLEvents` (src/sdl_sink.cpp), and the sink as a
-- `FrameSink`.
pub mod Planes
pub mod Quit
use twincam.Base.{
  ◌>>=◌, ℕ, suc, Bool, true, false, Option, none, some, List, [], ◌∷◌, ◌++◌, ℤ, pos, if◌then◌else◌,
}
use twincam.Base.Maps.{map_insert, map_find}
use twincam.Camera.{FrameBuffer, Request, buffers}
use twincam.CameraSession.State.{FrameSink}
use twincam.EventLoop.{EventLoop, exit}
use twincam.Image.{
  MapMode, MmapApi, Span, Image, Outcome, image, null, from_frame_buffer, Reading, span,
  assertion_failed, out_of_bounds, plane_data,
}
use twincam.SdlSink.State.{SdlTexture, SdlSink, SdlApi, SdlBuild, presented, call}
use twincam.SdlSink.Texture.{Jpeg, RowWrite, update}
use twincam.SdlSink.Window.{configure, start, stop}

unfoldable pub keep_image : ℕ → Outcome → SdlSink → Option SdlSink
keep_image buffer (null unmapped) k = none
keep_image buffer (image im) k = some (record k { mapped = map_insert buffer im k.mapped })

-- `mapBuffer`, which asserts that there is an image.
unfoldable pub map_buffer : MmapApi → FrameBuffer → SdlSink → Option SdlSink
map_buffer api buffer k =
    keep_image buffer.address (from_frame_buffer api buffer.planes MapMode.read_only) k

-- The loop of `renderBuffer` over the planes of the metadata, from plane `i` on. That more bytes are used than
-- a plane has is only printed.
pub spans : Image → List ℕ → ℕ → Option (List Span)
spans im [] i = some []
spans im (bytesused ∷ more) i = elim (plane_data im i) [
  | span s ↦ do ss ← spans im more (suc i); some (s ∷ ss)
  | assertion_failed ↦ none
  | out_of_bounds ↦ none
]

-- The spans of a buffer: `mappedBuffers_[buffer]` of a buffer that is not mapped is null.
pub buffer_spans : Option Image → List ℕ → Option (List Span)
buffer_spans (some im) metadata = spans im metadata 0
buffer_spans none [] = some []
buffer_spans none (bytesused ∷ more) = none

-- `renderBuffer`, with the writes into the array of an MJPEG texture.
unfoldable pub render_buffer :
    (Span → Jpeg) → FrameBuffer → SdlSink → Option (List RowWrite × SdlSink)
render_buffer jpeg buffer k = do
  ss ← buffer_spans (map_find buffer.address k.mapped) buffer.metadata.planes
  t ← k.texture
  (writes, k') ← update jpeg t ss k
  some (writes, call (presented k.renderer t.ptr) k')

-- `processRequest`, which shows the buffer of the first stream.
unfoldable pub process_request : (Span → Jpeg) → Request → SdlSink → Option (Bool × SdlSink)
process_request jpeg r k = do (writes, k') ← render_buffer jpeg r.first.1 k; some (true, k')

-- What SDL_PollEvent gives.
pub data SdlEvent : Type 0 where
  sdl_quit other_event : SdlEvent

-- `processSDLEvents`, with the events up to the end of the queue.
pub process_sdl_events : {C : Type 0} → List SdlEvent → EventLoop C → EventLoop C
process_sdl_events [] l = l
process_sdl_events (sdl_quit ∷ es) l = process_sdl_events es (exit (pos 0) l)
process_sdl_events (other_event ∷ es) l = process_sdl_events es l

unfoldable pub sdl_sink : SdlBuild → SdlApi → MmapApi → (Span → Jpeg) → FrameSink SdlSink
sdl_sink b api mmap jpeg = record {
  configure = configure b;
  map_buffer = map_buffer mmap;
  start = start api;
  stop = λ k. some (stop k);
  process_request = process_request jpeg;
}
