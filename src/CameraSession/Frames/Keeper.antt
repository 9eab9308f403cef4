-- ===== src/CameraSession/Frames/Keeper.antt =====
-- What a sink has to promise, and a session with libcamera, the event loop and such a sink around it
-- (src/frame_sink.h, src/camera_session.cpp).
use twincam.Base.{
  ℕ, ◌+◌, ◌≡◌, Bool, Option, none, some, List, [], ◌∷◌, ◌++◌, map, ℤ, is_neg, to_list,
  if◌then◌else◌, ◌==◌, String,
}
use twincam.Camera.{Request, RequestStatus}
use twincam.EventLoop.{LibEvent, EventLoop, runs, dispatch_call}
use twincam.CameraSession.State.{CameraApi, FrameSink}
use twincam.CameraSession.Capture.{Session}
use twincam.CameraSession.Frames.{request_complete, Processed, process_request, sink_release}

-- How often a number stands in a list.
abbrev pub occurrences : ℕ → List ℕ → ℕ
occurrences a [] = 0
occurrences a (b ∷ bs) = (if a == b then 1 else 0) + occurrences a bs

abbrev pub addresses : List Request → List ℕ
addresses rs = map (λ (r : Request). r.address) rs

-- What a sink promises about the requests that it holds: it holds a request exactly if
-- `process_request` returns false, until it emits `requestProcessed`. `Release k o k'` is an
-- event that takes the sink from `k` to `k'`, and emits the request `o` if there is one.
pub record Keeper {S : Type 0} (sink : FrameSink S) : Type 1 where
  pub held : S → List ℕ
  pub Release : S → Option Request → S → Type 0
  pub process_held :
      (r : Request) (k : S) (done : Bool) (k' : S)
      → sink.process_request r k ≡ some (done, k')
      → held k' ≡ held k ++ (if done then [] else r.address ∷ [])
  pub release_held :
      (k : S) (o : Option Request) (k' : S)
      → Release k o k'
      → held k ≡ map (λ (r : Request). r.address) (to_list o) ++ held k'

-- The session in its surroundings: the event loop with its deferred calls, the requests that came back
-- cancelled, and those that the camera would not take again.
pub record System (S : Type 0) : Type 0 where
  pub session : Session S
  pub loop : EventLoop Request
  pub cancelled : List ℕ
  pub refused : List ℕ

abbrev pub cancelled_of : Request → List ℕ
cancelled_of r = elim r.status [
  | RequestStatus.cancelled ↦ r.address ∷ []
  | RequestStatus.pending ↦ []
  | RequestStatus.complete ↦ []
]

abbrev pub refused_by : ℤ → ℕ → List ℕ
refused_by ret a = if is_neg ret then a ∷ [] else []

abbrev pub refused_of : Option ℤ → ℕ → List ℕ
refused_of none a = []
refused_of (some ret) a = refused_by ret a

module _ {S : Type 0} (sink : FrameSink S) (keeper : Keeper sink) (rate : Option ℕ → String) where
  -- The camera completes a request that it has; the loop makes a deferred call; the sink has an event
  -- without a request, or with one.
  pub data Step (s : System S) : System S → Type 0 where
    complete :
        (env : LibEvent) (r : Request) (front back : List ℕ)
        → s.session.queued ≡ front ++ r.address ∷ back
        → Step s (record s {
          session = record s.session { queued = front ++ back };
          loop = request_complete env r s.loop;
          cancelled = cancelled_of r ++ s.cancelled;
        })
    process :
        (api : CameraApi) (r : Request) (l : EventLoop Request) (out : Processed S)
        → dispatch_call s.loop ≡ (runs r, l)
        → process_request api sink rate r s.session ≡ some out
        → Step s (record s {
          session = out.session;
          loop = l;
          refused = refused_of out.requeued r.address ++ s.refused;
        })
    advance :
        (k : S)
        → keeper.Release s.session.sink none k
        → Step s (record s { session = record s.session { sink = k } })
    release :
        (api : CameraApi) (r : Request) (k : S) (ret : ℤ) (session : Session S)
        → keeper.Release s.session.sink (some r) k
        → sink_release api r (record s.session { sink = k }) ≡ (ret, session)
        → Step s (record s { session = session; refused = refused_by ret r.address ++ s.refused })

  pub data Reach (s : System S) : System S → Type 0 where
    here : Reach s s
    next : {t u : System S} → Reach s t → Step t u → Reach s u

  -- In how many places the request with a number is.
  abbrev pub places : ℕ → System S → ℕ
  places a s =
      occurrences a s.session.queued
      + occurrences a (addresses s.loop.calls)
      + occurrences a (keeper.held s.session.sink)
      + occurrences a s.cancelled
      + occurrences a s.refused
