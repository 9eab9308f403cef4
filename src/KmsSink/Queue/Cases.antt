-- ===== src/KmsSink/Queue/Cases.antt =====
-- What the sink's operations on requests can do, case by case (src/kms_sink.cpp).
use twincam.Base.{ℕ, ◌≡◌, ◌⊎◌, inl, inr, none, some, arith, ◌==◌, Bool-cases, Option-cases}
use twincam.Camera.{Request}
use twincam.Drm.AtomicRequest.{AtomicApi}
use twincam.KmsSink.State.{SinkRequest, KmsSink}
use twincam.KmsSink.Setup.{find_buffer}
use twincam.KmsSink.Queue.{
  Display, display, Processed, Completed, accept, dropped, advance, process_request,
  request_complete,
}

-- A request is dropped, or accepted where none is pending.
pub process_request-cases :
    (api : AtomicApi) (r : Request) (s : KmsSink) (out : Processed)
    → process_request api r s ≡ some out
    → (out ≡ dropped s)
      ⊎ ((o : Display) × (fb : ℕ) × (s.pending ≡ none) × (out ≡ accept api s o fb r))
unfolding process_request
process_request-cases api r s out e = elim (Option-cases s.pending) [
  | inr (p, full) ↦ inl (ground arith)
  | inl free ↦ elim (Option-cases (find_buffer r.first.1.address s.buffers)) [
    | inl unmapped ↦ inl (ground arith)
    | inr (fb, mapped) ↦ elim (Option-cases (display s)) [
      | inl bad ↦ absurd (ground arith)
      | inr (o, good) ↦ inr (o, fb, free, ground arith)
    ]
  ]
]

-- A completion is of the queued request, and makes the queue advance.
pub request_complete-cases :
    (api : AtomicApi) (a : ℕ) (s : KmsSink) (out : Completed)
    → request_complete api a s ≡ some out
    → (q : SinkRequest) × (s.queued ≡ some q) × (q.address ≡ a) × (out ≡ advance api q s.pending s)
unfolding request_complete
request_complete-cases api a s out e = elim (Option-cases s.queued) [
  | inl empty ↦ absurd (ground arith)
  | inr (q, full) ↦ elim (Bool-cases (q.address == a)) [
    | inl same ↦ (q, full, ground arith, ground arith)
    | inr other ↦ absurd (ground arith)
  ]
]
