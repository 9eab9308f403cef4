-- ===== src/KmsSink/Queue.antt =====
-- The requests of the sink: `stop`, `processRequest` and `requestComplete` (src/kms_sink.cpp).
pub mod Cases
pub mod System
pub mod Order
pub mod Stall
pub mod Stopped
pub mod Tests
mod SessionTests
use twincam.Base.{
  ◌>>=◌, ℕ, suc, ◌+◌, ◌*◌, ◌%◌, ◌^◌, ◌≡◌, Bool, true, false, not, ◌&&◌, Option, none, some, List,
  [], ◌∷◌, ◌++◌, ℤ, pos, is_neg, is_some, ◌==◌, if◌then◌else◌, get_elem?,
}
use twincam.Camera.{Request}
use twincam.Drm.Types.{Object, Connector, Crtc, Plane, Device}
use twincam.Drm.AtomicRequest.{
  AtomicApi, AtomicRequest, Change, new_request, add_changes, commit, flag_allow_modeset,
  flag_async,
}
use twincam.KmsSink.State.{SinkRequest, KmsSink}
use twincam.KmsSink.Setup.{find_buffer}

-- The objects that the sink's pointers name.
pub record Display : Type 0 where
  pub connector : Object
  pub crtc : Object
  pub plane : Object

pub display : KmsSink → Option Display
display s = do
  i ← s.connector
  connector ← get_elem? s.dev.connectors i
  j ← s.crtc
  crtc ← get_elem? s.dev.crtcs j
  k ← s.plane
  plane ← get_elem? s.dev.planes k
  some (record { connector = connector.base; crtc = crtc.base; plane = plane.base })

abbrev pub stop_changes : Display → List Change
stop_changes o =
    record { object = o.connector; name = "CRTC_ID"; value = 0 }
    ∷ record { object = o.crtc; name = "ACTIVE"; value = 0 }
    ∷ record { object = o.crtc; name = "MODE_ID"; value = 0 }
    ∷ record { object = o.plane; name = "CRTC_ID"; value = 0 }
    ∷ record { object = o.plane; name = "FB_ID"; value = 0 }
    ∷ []

-- `stop`: the return code and the sink.
pub stop : AtomicApi → KmsSink → Option (ℤ × KmsSink)
unfolding display
stop api s = do
  o ← display s
  let ret =
      (commit api flag_allow_modeset (add_changes api s.dev (stop_changes o) (new_request api))).0
  some (
      if is_neg ret
      then (ret, s)
      else (pos 0, record s { pending = none; queued = none; active = none; buffers = [] }))

-- `width << 16` of an unsigned 32-bit number
abbrev shift16 : ℕ → ℕ
shift16 n = n * 2 ^ 16 % 2 ^ 32

-- What enables the display on the first frame.
abbrev enable_changes : KmsSink → Display → List Change
enable_changes s o =
    record { object = o.connector; name = "CRTC_ID"; value = o.crtc.id }
    ∷ record { object = o.plane; name = "SRC_X"; value = 0 }
    ∷ record { object = o.plane; name = "SRC_Y"; value = 0 }
    ∷ record { object = o.plane; name = "SRC_W"; value = shift16 s.size.width }
    ∷ record { object = o.plane; name = "SRC_H"; value = shift16 s.size.height }
    ∷ record { object = o.plane; name = "CRTC_X"; value = s.x }
    ∷ record { object = o.plane; name = "CRTC_Y"; value = s.y }
    ∷ record { object = o.plane; name = "CRTC_W"; value = s.size.width }
    ∷ record { object = o.plane; name = "CRTC_H"; value = s.size.height }
    ∷ []

abbrev frame_changes : KmsSink → Display → ℕ → List Change
frame_changes s o fb =
    record { object = o.plane; name = "FB_ID"; value = fb }
    ∷ (if not (is_some s.active) && not (is_some s.queued) then enable_changes s o else [])

-- A commit that the sink has made: of which request, with which return code, and whether the kernel
-- was asked.
pub record Commit : Type 0 where
  pub address : ℕ
  pub ret : ℤ
  pub asked : Bool

commit_request : AtomicApi → SinkRequest → Commit
commit_request api p =
    let (ret, asked) = commit api flag_async p.drm_request in
    record { address = p.address; ret = ret; asked = asked }

-- The end of `processRequest`: the request is committed and queued, or waits.
submit : AtomicApi → SinkRequest → KmsSink → KmsSink × Option Commit
unfolding commit_request
submit api p s =
    if not (is_some s.queued)
    then (record s { queued = some p; pending = none }, some (commit_request api p))
    else (record s { pending = some p }, none)

-- What `processRequest` has done: its result, the sink, and the commit that it made.
pub record Processed : Type 0 where
  pub done : Bool
  pub sink : KmsSink
  pub commit : Option Commit

abbrev new_sink_request : AtomicApi → KmsSink → Display → ℕ → Request → SinkRequest
new_sink_request api s o fb r = record {
  drm_request = add_changes api s.dev (frame_changes s o fb) (new_request api);
  address = s.next_address;
  cam_request = r;
}

pub accept : AtomicApi → KmsSink → Display → ℕ → Request → Processed
unfolding submit
accept api s o fb r =
    let (s', c) =
      submit api (new_sink_request api s o fb r) (record s { next_address = suc s.next_address }) in
    record { done = false; sink = s'; commit = c }

abbrev pub dropped : KmsSink → Processed
dropped s = record { done = true; sink = s; commit = none }

-- `processRequest`
pub process_request : AtomicApi → Request → KmsSink → Option Processed
unfolding accept find_buffer display
process_request api r s =
    if is_some s.pending then some (dropped s) else elim (find_buffer r.first.1.address s.buffers) [
      | none ↦ some (dropped s)
      | some fb ↦ do o ← display s; some (accept api s o fb r)
    ]

-- What `requestComplete` has done: the sink, the request that it emits, and the commit.
pub record Completed : Type 0 where
  pub sink : KmsSink
  pub emitted : Option Request
  pub commit : Option Commit

abbrev pub cam_requests : Option SinkRequest → Option Request
cam_requests none = none
cam_requests (some p) = some p.cam_request

pub advance : AtomicApi → SinkRequest → Option SinkRequest → KmsSink → Completed
unfolding commit_request
advance api q none s = record {
  sink = record s { active = some q; queued = none };
  emitted = cam_requests s.active;
  commit = none;
}
advance api q (some p) s = record {
  sink = record s { active = some q; queued = some p; pending = none };
  emitted = cam_requests s.active;
  commit = some (commit_request api p);
}

-- `requestComplete`, of the request at an address: it asserts that this is the queued one.
pub request_complete : AtomicApi → ℕ → KmsSink → Option Completed
unfolding advance
request_complete api address s = do
  q ← s.queued
  if q.address == address then some (advance api q s.pending s) else none
