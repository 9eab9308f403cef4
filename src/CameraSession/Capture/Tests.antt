-- ===== src/CameraSession/Capture/Tests.antt =====
-- A capture that starts, at a concrete input.
use twincam.Base.{
  ℕ, suc, ◌-◌, ◌^◌, ◌≡◌, refl, Bool, true, none, some, List, [], ◌∷◌, pos, if◌then◌else◌, ◌==◌,
}
use twincam.Camera.{PixelFormat, StreamConfiguration, FrameBuffer}
use twincam.CameraSession.State.{ConfigStatus, CameraApi, FrameSink}
use twincam.CameraSession.Capture.{Session, start_capture}
use twincam.CameraSession.Capture.Requests.{fewest, AllMade}
use twincam.CameraSession.Capture.Queued.{upto, start_capture-Queued}

abbrev buffer : ℕ → FrameBuffer
buffer a = record {
  address = a;
  planes = [];
  metadata = record { sequence = 0; timestamp = 0; planes = [] };
}

abbrev stream : ℕ → StreamConfiguration
stream n = record {
  pixel_format = PixelFormat.nv12;
  size = record { width = 640; height = 480 };
  stride = 640;
  stream = n;
}

-- Stream 1 has two buffers, stream 2 has three.
abbrev api : CameraApi
api = record {
  acquire = λ c. pos 0;
  generate_configuration = λ c. none;
  validate = λ cfg. (ConfigStatus.valid, cfg);
  configure = λ cfg. pos 0;
  allocate = λ n. pos 2;
  buffers = λ n.
      if n == 1 then buffer 100 ∷ buffer 101 ∷ [] else buffer 200 ∷ buffer 201 ∷ buffer 202 ∷ [];
  create_request = λ i. true;
  add_buffer = λ i n b. pos 0;
  start = pos 0;
  queue_request = λ i. pos 0;
}

-- A sink that counts the buffers that it maps.
abbrev counting : FrameSink ℕ
counting = record {
  configure = λ cfg k. some (pos 0, k);
  map_buffer = λ b k. some (suc k);
  start = λ k. some (pos 0, k);
  stop = λ k. some (pos 0, k);
  process_request = λ r k. some (true, k);
}

abbrev idle : Session ℕ
idle = record {
  stream_names = [];
  queue_count = 0;
  capture_count = 0;
  last = 0;
  sink = 0;
  requests = [];
  queued = [];
  running = Bool.false;
}

abbrev capturing : Session ℕ
capturing = record idle {
  queue_count = 2;
  sink = 4;
  requests =
      ((1, buffer 100) ∷ (2, buffer 200) ∷ []) ∷ ((1, buffer 101) ∷ (2, buffer 201) ∷ []) ∷ [];
  queued = 0 ∷ 1 ∷ [];
  running = true;
}

abbrev config : List StreamConfiguration
config = stream 1 ∷ stream 2 ∷ []

capture_run : start_capture api counting config idle ≡ some (pos 0, capturing)
unfolding start_capture
capture_run = refl

start_capture-Queued_example :
    (capturing.running ≡ true)
    × (2 ≡ fewest api config (2 ^ 32 - 1))
    × AllMade api 0 config capturing.requests
    × (0 ∷ 1 ∷ [] ≡ upto 2 0)
start_capture-Queued_example =
    start_capture-Queued api counting config idle capturing refl refl capture_run
