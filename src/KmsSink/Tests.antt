-- ===== src/KmsSink/Tests.antt =====
-- The theorems on the sink's construction and configuration at concrete inputs.
use twincam.Base.{
  ◌==◌, ◌^◌, ◌<◌, ℕ, ◌≡◌, refl, ◌⊎◌, none, some, List, [], ◌∷◌, pos, neg, epipe, arith,
  if◌then◌else◌, str_eq,
}
use twincam.Camera.{PixelFormat, StreamConfiguration}
use twincam.Drm.Types.{Connector, Mode, Status}
use twincam.Drm.Tests.{test_connector, test_device}
use twincam.Drm.Objects.{supports_format}
use twincam.Camera
use twincam.Drm.Types.{got}
use twincam.Drm.FrameBuffer.{PrimeApi, FrameBuffer, created, null, create_frame_buffer}
use twincam.KmsSink.Setup.{find_buffer, map_buffer, strides_of}
use twincam.KmsSink.Setup.Buffers.{map_buffer_lem}
use twincam.KmsSink.State.{KmsSink}
use twincam.KmsSink.Setup.{find_requested_connector}
use twincam.KmsSink.Setup.Connectors.{position, has_status, or_else, find_requested_connector_lem}
use twincam.KmsSink.Pipeline.{Choice, select_pipeline, configure}
use twincam.KmsSink.Pipeline.Selection.{IsPipeline, select_pipeline_lem}
use twincam.KmsSink.Pipeline.Geometry.{IsPlaced, configure-IsPlaced}

abbrev three_connectors : List Connector
three_connectors =
    record test_connector { status = Status.disconnected }
    ∷ record test_connector { name = "DP-1"; status = Status.unknown }
    ∷ record test_connector { name = "DP-2"; status = Status.unknown }
    ∷ []

find_requested_connector_lem_example : find_requested_connector "" 0 three_connectors none ≡ (
    if str_eq "" ""
    then or_else
        (position (λ c. has_status Status.connected c.status) 0 three_connectors)
        (position (λ c. has_status Status.unknown c.status) 0 three_connectors)
    else position (λ c. str_eq c.name "") 0 three_connectors)
find_requested_connector_lem_example = find_requested_connector_lem "" three_connectors

-- The plane has the format with code 8, which is the X variant here.
abbrev fourcc : PixelFormat → ℕ
fourcc PixelFormat.xrgb8888 = 8
fourcc PixelFormat.argb8888 = 9
fourcc _ = 0

abbrev sink : KmsSink
sink = record {
  dev = test_device;
  connector = some 0;
  crtc = none;
  plane = none;
  mode = none;
  format = PixelFormat.invalid;
  size = record { width = 0; height = 0 };
  stride = 0;
  x = 0;
  y = 0;
  buffers = [];
  pending = none;
  queued = none;
  active = none;
  next_address = 0;
}

select_pipeline_lem_example :
    let out = select_pipeline fourcc PixelFormat.argb8888 test_connector sink in
    ((ch : Choice) × IsPipeline fourcc sink.dev PixelFormat.argb8888 test_connector ch
      × (out ≡ (
        pos 0,
        record sink { crtc = some ch.crtc; plane = some ch.plane; format = ch.format },
      )))
    ⊎ (((ch : Choice) → ¬ IsPipeline fourcc sink.dev PixelFormat.argb8888 test_connector ch)
        × (out ≡ (neg epipe, sink)))
select_pipeline_lem_example = select_pipeline_lem fourcc PixelFormat.argb8888 test_connector sink

abbrev config : StreamConfiguration
config = record {
  pixel_format = PixelFormat.argb8888;
  size = record { width = 640; height = 1200 };
  stride = 2560;
  stream = 1;
}

abbrev configured : KmsSink
configured = record sink {
  crtc = some 0;
  plane = some 0;
  mode = some (record { hdisplay = 1920; vdisplay = 1080; vrefresh = 60 });
  format = PixelFormat.xrgb8888;
  size = config.size;
  stride = 2560;
  x = 640;
  y = 2147483588;
}

configure_run : configure fourcc config sink ≡ some (pos 0, configured)
unfolding configure supports_format
configure_run = refl

configure-IsPlaced_example :
    (m : Mode) × (configured.mode ≡ some m)
    × (configured.size ≡ config.size)
    × (m.hdisplay < 2 ^ 16 → IsPlaced configured.x 640 m.hdisplay)
    × (m.vdisplay < 2 ^ 16 → IsPlaced configured.y 1200 m.vdisplay)
configure-IsPlaced_example =
    configure-IsPlaced fourcc config sink (pos 0) configured configure_run refl (omega arith)
      (omega arith)

-- A buffer with two planes in one file.
abbrev prime : PrimeApi
prime = record {
  fd_to_handle = λ fd. got 15;
  add_fb2 = λ size code handles strides offsets. got 71;
}

abbrev buffer : Camera.FrameBuffer
buffer = record {
  address = 100;
  planes =
      record { fd = 5; offset = 0; length = 640 }
      ∷ record { fd = 5; offset = 640; length = 320 }
      ∷ [];
  metadata = record { sequence = 0; timestamp = 0; planes = [] };
}

not_mapped : find_buffer 100 configured.buffers ≡ none
unfolding find_buffer
not_mapped = refl

map_buffer_lem_example :
    (s' : KmsSink) × (strides : List ℕ) × (map_buffer prime fourcc buffer configured ≡ some s')
    × (strides_of configured.format configured.stride buffer.planes ≡ some strides)
    × (let out =
          create_frame_buffer prime buffer.planes
            (fourcc configured.format)
            configured.size
            strides in
        ((closed : List ℕ) × (out ≡ null closed) × (s' ≡ configured))
        ⊎ ((fb : FrameBuffer) × (out ≡ created fb)
            × ((j : ℕ)
                → find_buffer j s'.buffers
                  ≡ (if j == 100 then some fb.id else find_buffer j configured.buffers))))
map_buffer_lem_example = map_buffer_lem prime fourcc buffer configured (omega arith) not_mapped
