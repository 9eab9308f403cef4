-- ===== src/CameraSession/Frames.antt =====
-- The requests that the camera has completed: `requestComplete`, `processRequest`, `sinkRelease`
-- (src/camera_session.cpp).
pub mod Text
pub mod Keeper
pub mod Conservation
mod Tests
use twincam.Base.{
  ◌>>=◌, ℕ, suc, ◌+◌, ◌-◌, ◌%◌, ◌^◌, Bool, true, false, Option, none, some, List, [], ◌∷◌, ℤ, ltb,
  ◌==◌, if◌then◌else◌, length, String, str_append, to_string,
}
use twincam.Base.Maps.{map_insert, map_find}
use twincam.Camera.{Request, RequestStatus, FrameBuffer, FrameMetadata, buffers}
use twincam.EventLoop.{LibEvent, EventLoop, call_later}
use twincam.CameraSession.State.{CameraApi, FrameSink}
use twincam.CameraSession.Capture.{Session, hand_over, queue_request}

-- The time since the last frame, as an unsigned 64-bit number, from which the frame rate is computed;
-- none where the rate is 0.
abbrev frame_interval : ℕ → ℕ → Option ℕ
frame_interval last ts =
    let interval = (ts + 2 ^ 64 - last) % 2 ^ 64 in
    if last == 0 then none else if interval == 0 then none else some interval

-- The loop over the planes, behind `nplane` of `size` planes.
pub planes_text : ℕ → ℕ → List ℕ → String
planes_text nplane size [] = ""
planes_text nplane size (bytesused ∷ rest) =
    str_append (to_string bytesused)
      (str_append (if ltb (suc nplane) size then "/" else "") (planes_text (suc nplane) size rest))

-- `streamNames_[stream]`, which makes an empty name where there is none.
abbrev stream_name : ℕ → List (ℕ × String) → String × List (ℕ × String)
stream_name stream m = elim (map_find stream m) [
  | some name ↦ (name, m)
  | none ↦ ("", map_insert stream "" m)
]

buffer_text : String → FrameMetadata → String
unfolding planes_text
buffer_text name metadata = str_append " " (
    str_append name (
      str_append " seq: " (
        str_append (to_string metadata.sequence)
          (str_append " bytesused: " (planes_text 0 (length metadata.planes) metadata.planes)))))

-- The loop over the buffers: the text, and the names of the streams.
pub describe : List (ℕ × FrameBuffer) → String → List (ℕ × String) → String × List (ℕ × String)
unfolding buffer_text
describe [] text names = (text, names)
describe ((stream, b) ∷ rest) text names =
    let (name, names') = stream_name stream names in
    describe rest (str_append text (buffer_text name b.metadata)) names'

-- `requestComplete`: the completed request is processed in the event loop, unless it is cancelled. The
-- deferred call `processRequest(request)` is named by the request.
unfoldable pub request_complete : LibEvent → Request → EventLoop Request → EventLoop Request
unfolding call_later
request_complete env r l = elim r.status [
  | RequestStatus.cancelled ↦ l
  | RequestStatus.pending ↦ (call_later env r l).0
  | RequestStatus.complete ↦ (call_later env r l).0
]

-- What `processRequest` has done: the text that it prints, the return code of the camera's
-- `queueRequest` where it was called, and the session.
pub record Processed (S : Type 0) : Type 0 where
  pub text : String
  pub requeued : Option ℤ
  pub session : Session S

module _ {S : Type 0} where
  -- The line that `processRequest` prints, and the names of the streams; `rate` is the text of a frame
  -- rate by the interval.
  abbrev pub frame_line : (Option ℕ → String) → Request → Session S → String × List (ℕ × String)
  frame_line rate r s =
      describe (buffers r) (rate (frame_interval s.last r.first.1.metadata.timestamp))
        s.stream_names

  -- The session with the frame's timestamp, after the sink has become `k`.
  abbrev pub count_frame : Request → List (ℕ × String) → S → Session S → Session S
  count_frame r names k s = record s {
    last = r.first.1.metadata.timestamp;
    stream_names = names;
    sink = k;
    capture_count = (s.capture_count + 1) % 2 ^ 32;
  }

module _ {S : Type 0} (api : CameraApi) where
  -- The end of `processRequest`, once the sink has answered: a request that the sink is done with goes
  -- back to the camera.
  pub requeue : Bool → ℕ → String → Session S → Processed S
  unfolding hand_over
  requeue true a text s =
      let (ret, s') = hand_over api a s in record { text = text; requeued = some ret; session = s' }
  requeue false a text s = record { text = text; requeued = none; session = s }

  -- `processRequest`
  unfoldable pub process_request :
      FrameSink S → (Option ℕ → String) → Request → Session S → Option (Processed S)
  unfolding describe requeue
  process_request sink rate r s = do
    let (text, names) = frame_line rate r s
    (done, k) ← sink.process_request r s.sink
    some (requeue done r.address text (count_frame r names k s))

  -- `sinkRelease`
  pub sink_release : Request → Session S → ℤ × Session S
  unfolding queue_request
  sink_release r s = queue_request api r.address s
