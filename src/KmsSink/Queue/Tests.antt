-- ===== src/KmsSink/Queue/Tests.antt =====
-- A run of the sink, and the theorems on its requests at concrete inputs.
use twincam.Base.{
  ◌⊎◌, pos, is_neg, true, ℕ, ◌+◌, ◌≤◌, ◌≡◌, ◌≢◌, refl, false, Option, none, some, List, [], ◌∷◌,
  ◌++◌, length,
}
use twincam.Base.Maps.{map_find}
use twincam.Camera.{PixelFormat, FrameBuffer, Request, RequestStatus}
use twincam.Drm.Lookup.{property}
use twincam.Drm.AtomicRequest.{commit, add_changes, new_request, add_property}
use twincam.Drm.Tests.{test_device, taking, refusing}
use twincam.KmsSink.State.{KmsSink}
use twincam.KmsSink.Queue.{Processed, Completed, dropped, stop, process_request, request_complete}
use twincam.KmsSink.Queue.System.{
  System, Reach, held, idle_system, after_process, after_flip, process, flip, here, next,
}
use twincam.KmsSink.Queue.Order.{accepted-fifo, page_flip_expected}
use twincam.KmsSink.Queue.Stopped.{IsStopped, stop_lem}
use twincam.KmsSink.Queue.Stall.{refused_commit_stalls}

abbrev pub buffer : FrameBuffer
buffer = record {
  address = 100;
  planes = record { fd = 5; offset = 0; length = 16 } ∷ [];
  metadata = record { sequence = 0; timestamp = 0; planes = 16 ∷ [] };
}

abbrev pub frame : ℕ → Request
frame n = record { address = n; status = RequestStatus.complete; first = (1, buffer); others = [] }

-- A configured sink with a framebuffer for the buffer.
abbrev pub sink : KmsSink
sink = record {
  dev = test_device;
  connector = some 0;
  crtc = some 0;
  plane = some 0;
  mode = some (record { hdisplay = 1920; vdisplay = 1080; vrefresh = 60 });
  format = PixelFormat.xrgb8888;
  size = record { width = 640; height = 480 };
  stride = 2560;
  x = 640;
  y = 300;
  buffers = (100, 71) ∷ [];
  pending = none;
  queued = none;
  active = none;
  next_address = 0;
}

abbrev start : System
start = idle_system sink

abbrev processed : Option Processed → Processed
processed none = dropped sink
processed (some out) = out

abbrev completed : Option Completed → Completed
completed none = record { sink = sink; emitted = none; commit = none }
completed (some out) = out

-- The first frame is shown by a page flip, and then the second is taken.
abbrev first_frame : System
first_frame = after_process (frame 1) (processed (process_request taking (frame 1) sink)) start

abbrev first_flip : System
first_flip = after_flip [] (completed (request_complete taking 0 first_frame.sink)) first_frame

abbrev second_frame : System
second_frame =
    after_process (frame 2) (processed (process_request taking (frame 2) first_flip.sink))
      first_flip

abbrev second_flip : System
second_flip = after_flip [] (completed (request_complete taking 1 second_frame.sink)) second_frame

to_second_frame : Reach start second_frame
unfolding process_request request_complete commit add_changes new_request add_property property
    map_find
to_second_frame =
    next (next (next here (process taking (frame 1) _ refl)) (flip taking 0 [] _ refl refl))
      (process taking (frame 2) _ refl)

to_second_flip : Reach start second_flip
unfolding process_request request_complete commit add_changes new_request add_property property
    map_find
to_second_flip = next to_second_frame (flip taking 1 [] _ refl refl)

accepted-fifo_example : second_flip.accepted ≡ second_flip.emitted ++ held second_flip.sink
accepted-fifo_example = accepted-fifo {k = sink} {s = second_flip} refl refl refl to_second_flip

second_flip_due : second_frame.flips ≡ 1 ∷ []
unfolding process_request request_complete commit add_changes new_request add_property property
    map_find
second_flip_due = refl

-- The flips behind the next one.
abbrev none_left : List ℕ
none_left = []

page_flip_expected_example : (request_complete taking 1 second_frame.sink ≢ none) × (none_left ≡ [])
page_flip_expected_example =
    page_flip_expected {k = sink} {s = second_frame} refl refl refl to_second_frame taking 1 []
      second_flip_due

second_flip_shows : second_flip.emitted ≡ frame 1 ∷ []
unfolding process_request request_complete commit add_changes new_request add_property property
    map_find
second_flip_shows = refl

-- The kernel refuses the commit of the first frame, and the second one waits.
abbrev refused : Processed
refused = processed (process_request refusing (frame 1) sink)

abbrev stalled : System
stalled = after_process (frame 1) refused start

abbrev waiting : System
waiting =
    after_process (frame 2) (processed (process_request taking (frame 2) stalled.sink)) stalled

refused_run : process_request refusing (frame 1) sink ≡ some refused
unfolding process_request
refused_run = refl

refused_taken : refused.done ≡ false
unfolding process_request
refused_taken = refl

to_waiting : Reach stalled waiting
unfolding process_request
to_waiting = next here (process taking (frame 2) _ refl)

refused_commit_stalls_example :
    (waiting.emitted ≡ start.emitted) × (length waiting.accepted ≤ length start.accepted + 2)
refused_commit_stalls_example =
    refused_commit_stalls refusing (frame 1) start waiting refused (λ ps flags. refl) refl refl
      refused_run refused_taken to_waiting

-- The sink is stopped while it shows frame 1 and waits for the flip of frame 2.
abbrev stopped : KmsSink
stopped = record second_flip.sink { pending = none; queued = none; active = none; buffers = [] }

stop_run : stop taking second_flip.sink ≡ some (pos 0, stopped)
unfolding stop process_request request_complete commit add_changes new_request add_property property
    map_find
stop_run = refl

stop_lem_example :
    ((is_neg (pos 0) ≡ true) × (stopped ≡ second_flip.sink)) ⊎ ((pos 0 ≡ pos 0) × IsStopped stopped)
stop_lem_example = stop_lem taking second_flip.sink (pos 0) stopped stop_run
