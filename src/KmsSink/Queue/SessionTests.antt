-- ===== src/KmsSink/Queue/SessionTests.antt =====
-- A session with the sink, and the theorem on its requests at a concrete input.
use twincam.Base.{ℕ, ◌≡◌, refl, true, Option, none, some, [], ◌∷◌, pos, neg, String}
use twincam.Camera.{PixelFormat}
use twincam.EventLoop.{LibEvent, dispatch_call, call_later}
use twincam.Drm.Types.{got}
use twincam.Drm.FrameBuffer.{PrimeApi}
use twincam.Drm.Tests.{taking}
use twincam.CameraSession.State.{CameraApi, ConfigStatus}
use twincam.CameraSession.Capture.{Session}
use twincam.CameraSession.Frames
use twincam.CameraSession.Frames.Keeper.{System, Reach, complete, process, here, next, places}
use twincam.CameraSession.Frames.Conservation.{requests_conserved}
use twincam.KmsSink.State.{KmsSink}
use twincam.KmsSink.Queue.Tests.{sink, frame, buffer}
use twincam.KmsSink.Queue.{process_request}
use twincam.KmsSink.Interface.{kms_sink, kms_keeper}

-- A session with this sink: the camera completes frame 1, and the loop gives it to the sink.
abbrev libevent : LibEvent
libevent = record {
  event_new = λ fd flags. some 1;
  event_add = λ h tv. pos 0;
  event_base_once = pos 0;
}

abbrev camera : CameraApi
camera = record {
  acquire = λ c. pos 0;
  generate_configuration = λ c. none;
  validate = λ cfg. (ConfigStatus.valid, cfg);
  configure = λ cfg. pos 0;
  allocate = λ n. pos 2;
  buffers = λ n. buffer ∷ [];
  create_request = λ i. true;
  add_buffer = λ i n b. pos 0;
  start = pos 0;
  queue_request = λ i. pos 0;
}

abbrev prime : PrimeApi
prime = record {
  fd_to_handle = λ fd. got fd;
  add_fb2 = λ size fourcc handles strides offsets. got 71;
}

abbrev fourcc : PixelFormat → ℕ
fourcc format = 8

abbrev rate : Option ℕ → String
rate interval = "(0.00 fps)"

abbrev session : System (KmsSink)
session = record {
  session = record {
    stream_names = (1, "cam0-stream0") ∷ [];
    queue_count = 2;
    capture_count = 0;
    last = 0;
    sink = sink;
    requests = [];
    queued = 1 ∷ 2 ∷ [];
    running = true;
  };
  loop = record { exit_code = neg 1; calls = []; events = []; deleted = []; breaks = 0 };
  cancelled = [];
  refused = [];
}

-- Frame 1 is completed.
abbrev completed : System KmsSink
completed = record session {
  session = record session.session { queued = 2 ∷ [] };
  loop = Frames.request_complete libevent (frame 1) session.loop;
}

abbrev processed : Option (Frames.Processed KmsSink) → Session KmsSink
processed none = session.session
processed (some out) = out.session

-- And it is held by the sink.
abbrev shown : System KmsSink
shown = record completed {
  session = processed (
      Frames.process_request camera (kms_sink taking prime fourcc) rate (frame 1)
        completed.session);
  loop = session.loop;
}

to_shown : Reach (kms_sink taking prime fourcc) (kms_keeper taking prime fourcc) rate session shown
unfolding Frames.process_request Frames.request_complete kms_sink process_request call_later
    dispatch_call
to_shown =
    next (next here (complete libevent (frame 1) [] (2 ∷ []) refl))
      (process camera (frame 1) session.loop _ refl refl)

requests_conserved_example :
    places (kms_sink taking prime fourcc) (kms_keeper taking prime fourcc) rate 1 shown
    ≡ places (kms_sink taking prime fourcc) (kms_keeper taking prime fourcc) rate 1 session
requests_conserved_example =
    requests_conserved (kms_sink taking prime fourcc) (kms_keeper taking prime fourcc) rate
      {s = session} {t = shown} to_shown 1
