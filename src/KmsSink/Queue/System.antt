-- ===== src/KmsSink/Queue/System.antt =====
-- The sink with the kernel's page flips around it (src/kms_sink.cpp). A step is a call of
-- `processRequest` or a page flip that the kernel reports.
use twincam.Base.{
  ℕ, ◌≡◌, ◌⊎◌, not, ◌&&◌, Option, none, some, List, [], ◌∷◌, ◌++◌, is_neg, to_list, if◌then◌else◌,
}
use twincam.Camera.{Request}
use twincam.Drm.AtomicRequest.{AtomicApi}
use twincam.KmsSink.State.{SinkRequest, KmsSink}
use twincam.KmsSink.Queue.{
  Commit, Processed, Completed, cam_requests, process_request, request_complete,
}

-- The camera requests that the sink holds, oldest first.
abbrev pub held : KmsSink → List Request
held s =
    to_list (cam_requests s.active)
    ++ (to_list (cam_requests s.queued) ++ to_list (cam_requests s.pending))

-- The page flips that the kernel will report for a commit: one, if it took the request.
abbrev pub flips_of : Option Commit → List ℕ
flips_of none = []
flips_of (some c) = if c.asked && not (is_neg c.ret) then c.address ∷ [] else []

-- The sink with its surroundings: the page flips to come, and the history.
pub record System : Type 0 where
  pub sink : KmsSink
  pub flips : List ℕ
  pub accepted : List Request
  pub emitted : List Request

abbrev pub after_process : Request → Processed → System → System
after_process r out s = record {
  sink = out.sink;
  flips = s.flips ++ flips_of out.commit;
  accepted = s.accepted ++ (if out.done then [] else r ∷ []);
  emitted = s.emitted;
}

abbrev pub after_flip : List ℕ → Completed → System → System
after_flip rest out s = record {
  sink = out.sink;
  flips = rest ++ flips_of out.commit;
  accepted = s.accepted;
  emitted = s.emitted ++ to_list out.emitted;
}

pub data Step (s : System) : System → Type 0 where
  process :
      (api : AtomicApi) (r : Request) (out : Processed)
      → process_request api r s.sink ≡ some out
      → Step s (after_process r out s)
  flip :
      (api : AtomicApi) (a : ℕ) (rest : List ℕ) (out : Completed)
      → s.flips ≡ a ∷ rest
      → request_complete api a s.sink ≡ some out
      → Step s (after_flip rest out s)

pub data Reach (s : System) : System → Type 0 where
  here : Reach s s
  next : {t u : System} → Reach s t → Step t u → Reach s u

-- A page flip is due for the queued request at most.
abbrev pub Due : List ℕ → KmsSink → Type 0
Due flips k = (flips ≡ []) ⊎ ((q : SinkRequest) × (k.queued ≡ some q) × (flips ≡ q.address ∷ []))

-- Besides, a request waits only behind a queued one,
-- and what was accepted is what was emitted, followed by what is held.
pub record Inv (s : System) : Type 0 where
  pub due : Due s.flips s.sink
  pub ordered : s.sink.queued ≡ none → s.sink.pending ≡ none
  pub history : s.accepted ≡ s.emitted ++ held s.sink

-- A sink that holds no request, with no page flip to come.
abbrev pub idle_system : KmsSink → System
idle_system k = record { sink = k; flips = []; accepted = []; emitted = [] }
