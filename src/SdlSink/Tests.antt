-- ===== src/SdlSink/Tests.antt =====
-- An `SDLSink` that is used for a while (src/sdl_sink.cpp).
use twincam.Base.{
  ℕ, ◌+◌, ◌*◌, ◌≤◌, ◌<◌, ◌≡◌, refl, none, some, List, [], ◌∷◌, ℤ, pos, neg, einval, All, In, arith,
  length, true,
}
use twincam.Camera.{PixelFormat, StreamConfiguration, FrameBuffer}
use twincam.Image.{Span, Image}
use twincam.SdlSink.State.{
  rgb24, nv12, SdlTexture, SdlSink, SdlApi, SdlBuild, initialised, quits, window_created,
  window_destroyed, renderer_created, texture_created, cursor_hidden, texture_updated, presented,
  call, new_sink,
}
use twincam.SdlSink.Texture.{Jpeg, RowWrite, new_mjpg, destroy, create, decompress}
use twincam.EventLoop.{EventLoop}
use twincam.SdlSink.Render.{sdl_quit, other_event, process_sdl_events, render_buffer}
use twincam.SdlSink.Render.Quit.{process_sdl_events_lem}
use twincam.SdlSink.Render.Planes.{planes_read, take, AreSpans, render_buffer_lem}
use twincam.Base.Maps.{map_find}
use twincam.SdlSink.Window.{
  set_texture, mjpg_choice, choose_texture, take_choice, configure, start_texture, start_renderer,
  start_window, start, stop_renderer, stop_window, stop_sdl, stop,
}
use twincam.SdlSink.Ownership.{replay, nothing, view}
use twincam.SdlSink.Runs.{unused, after, configures, starts, IsStarted, Uses-Owns_stop}
use twincam.SdlSink.Scanlines.{IsInside, decompress-IsInside}

abbrev full : SdlBuild
full = record { have_libjpeg = true; have_nv12 = true }

abbrev working : SdlApi
working = record {
  init = pos 0;
  create_window = some 7;
  create_renderer = some 8;
  set_logical_size = pos 0;
  create_texture = some 9;
}

-- SDL cannot create a renderer.
abbrev no_renderer : SdlApi
no_renderer = record working { create_renderer = none }

abbrev small_mjpg : StreamConfiguration
small_mjpg = record {
  pixel_format = PixelFormat.mjpeg;
  size = record { width = 2; height = 2 };
  stride = 0;
  stream = 1;
}

abbrev small_texture : SdlTexture
small_texture = record { format = rgb24; width = 2; height = 2; stride = 6; rgb = 12; ptr = none }

abbrev configured : SdlSink
configured = record new_sink { texture = some small_texture; width = 2; height = 2 }

configured_run : configure full (small_mjpg ∷ []) new_sink ≡ some (pos 0, configured)
unfolding configure choose_texture take_choice mjpg_choice new_mjpg set_texture destroy
configured_run = refl

empty_run : configure full [] new_sink ≡ some (neg einval, new_sink)
unfolding configure
empty_run = refl

abbrev started : SdlSink
started = record configured {
  texture = some (record small_texture { ptr = some 9 });
  window = some 7;
  renderer = some 8;
  init = true;
  calls =
      cursor_hidden ∷ texture_created 9 ∷ renderer_created 8 ∷ window_created 7 ∷ initialised ∷ [];
  timers = 1;
}

start_run : start working configured ≡ some (pos 0, started)
unfolding start start_window start_renderer start_texture create
start_run = refl

-- The renderer is missing; the window is destroyed and SDL left all the same.
failed_run :
    (ret : ℤ) (k : SdlSink)
    → start no_renderer configured ≡ some (ret, k)
    → (stop k).1.calls ≡ quits ∷ window_destroyed 7 ∷ window_created 7 ∷ initialised ∷ []
unfolding start start_window start_renderer stop stop_sdl stop_window stop_renderer destroy
failed_run ret k e = ground (arith, e)

Uses-Owns_stop_example :
    (replay started.calls ≡ some (view started))
    × ((api : SdlApi) (k' : SdlSink) → start api started ≡ some (pos 0, k') → IsStarted k')
    × ((stop started).0 ≡ pos 0)
    × (replay (stop started).1.calls ≡ some nothing)
Uses-Owns_stop_example = Uses-Owns_stop started (
    after (after unused (configures full (small_mjpg ∷ []) (pos 0) configured_run))
      (starts working (pos 0) (refl, refl, refl, refl) start_run))

-- A picture of three rows in an array of two.
abbrev three_rows : Span → Jpeg
three_rows s = record {
  output_width = 2;
  output_components = 3;
  output_height = 3;
  error_after = none;
}

abbrev small_span : Span
small_span = record { address = 4096; size = 100 }

small_run : new_mjpg 2 2 ≡ some small_texture
unfolding new_mjpg
small_run = refl

decompress-IsInside_example :
    let j = three_rows small_span in
    let writes = (decompress three_rows small_texture small_span).1 in
    (j.output_width * j.output_components ≤ 2 * 3 → j.output_height ≤ 2 → All (IsInside 12) writes)
    × (2 < j.output_height
        → j.error_after ≡ none
        → 0 < j.output_width * j.output_components
        → (x : RowWrite) × In x writes × (x.offset ≡ 12) × (12 < x.offset + x.length))
decompress-IsInside_example = decompress-IsInside three_rows 2 2 small_texture small_span small_run

abbrev idle_loop : EventLoop ℕ
idle_loop = record { exit_code = neg 1; calls = 5 ∷ []; events = []; deleted = []; breaks = 0 }

closed_window :
    let l' = process_sdl_events (other_event ∷ sdl_quit ∷ []) idle_loop in
    (l'.breaks ≡ 0 + 1) × (l'.exit_code ≡ pos 0) × (l'.calls ≡ 5 ∷ []) × (l'.events ≡ [])
closed_window = process_sdl_events_lem (other_event ∷ sdl_quit ∷ []) idle_loop

-- A buffer with one plane.
abbrev one_plane : FrameBuffer
one_plane = record {
  address = 3;
  planes = record { fd = 4; offset = 0; length = 100 } ∷ [];
  metadata = record { sequence = 1; timestamp = 1; planes = 90 ∷ [] };
}

abbrev one_image : Image
one_image = record { maps = small_span ∷ []; planes = small_span ∷ [] }

abbrev shown_texture : SdlTexture
shown_texture = record { format = nv12; width = 2; height = 2; stride = 2; rgb = 0; ptr = some 9 }

abbrev shows_nv12 : SdlSink
shows_nv12 = record started { mapped = (3, one_image) ∷ []; texture = some shown_texture }

render_buffer_lem_example :
    (length {A = ℕ} (90 ∷ []) < planes_read nv12
      → render_buffer three_rows one_plane shows_nv12 ≡ none)
    × (planes_read nv12 ≤ length {A = ℕ} (90 ∷ [])
        → (ss : List Span) × (writes : List RowWrite) × AreSpans one_image 0 (90 ∷ []) ss
          × (render_buffer three_rows one_plane shows_nv12
              ≡ some (
                writes,
                call
                    (presented (some 8) (some 9))
                    (call (texture_updated (some 9) (take (planes_read nv12) ss)) shows_nv12),
              )))
unfolding map_find
render_buffer_lem_example =
    render_buffer_lem three_rows one_plane shows_nv12 one_image shown_texture refl refl
      (omega arith)
