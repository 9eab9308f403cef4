-- ===== src/KmsSink/Queue/Stall.antt =====
-- What becomes of the sink when the kernel refuses a commit (src/kms_sink.cpp).
use twincam.Base.{
  ℕ, ◌+◌, ◌≤◌, ◌≡◌, refl, inl, inr, true, false, Option, none, some, List, [], ◌∷◌, append-nil,
  arith, is_some, is_neg, length, length-append, if◌then◌else◌, Option-cases,
}
use twincam.Camera.{Request}
use twincam.Drm.AtomicRequest.{AtomicApi, DrmFlags, PropertySet, flag_async}
use twincam.Drm.AtomicRequest.Atomicity.{commit-neg}
use twincam.KmsSink.State.{SinkRequest, KmsSink}
use twincam.KmsSink.Queue.{
  Display, Processed, accept, process_request, new_sink_request, commit_request,
}
use twincam.KmsSink.Queue.Cases.{process_request-cases}
use twincam.KmsSink.Queue.System.{
  System, after_process, Step, process, flip, Reach, here, next, flips_of,
}

-- A request is queued, but no page flip will come.
abbrev pub IsStalled : System → Type 0
IsStalled s = (s.flips ≡ []) × (is_some s.sink.queued ≡ true)

abbrev room : KmsSink → ℕ
room k = if is_some k.pending then 0 else 1

-- What a stalled sink has done since, where the counter leaves room for one request.
record Inv (s t : System) : Type 0 where
  stalled : IsStalled t
  silent : t.emitted ≡ s.emitted
  full : length t.accepted + room t.sink ≤ length s.accepted + 1

accept-Inv :
    (api : AtomicApi) (o : Display) (fb : ℕ) (r : Request) (s t : System)
    → t.sink.pending ≡ none
    → Inv s t
    → Inv s (after_process r (accept api t.sink o fb r) t)
unfolding accept
accept-Inv api o fb r s t free v = elim (Option-cases t.sink.queued) [
  | inl e ↦ absurd (ground (arith, v.stalled.1))
  | inr (q, e) ↦ record {
    stalled = (ground (arith, append-nil t.flips), ground arith);
    silent = v.silent;
    full = ground (arith, v.full, length-append t.accepted (r ∷ []));
  }
]

Step-Inv : {s t u : System} → Step t u → Inv s t → Inv s u
Step-Inv {s} {t} (process api r out e) v = elim (process_request-cases api r t.sink out e) [
  | inl drop ↦ rw drop (record {
    stalled = (rw (append-nil t.flips) v.stalled.0, v.stalled.1);
    silent = v.silent;
    full = rw (append-nil t.accepted) v.full;
  })
  | inr (o, fb, free, took) ↦ rw took (accept-Inv api o fb r s t free v)
]
Step-Inv (flip api a rest out f e) v = absurd (ground (arith, v.stalled.0))

Reach-Inv : {s t u : System} → Inv s t → Reach t u → Inv s u
Reach-Inv v here = v
Reach-Inv v (next r st) = Step-Inv st (Reach-Inv v r)

stalled_forever : {s t : System} → IsStalled s → Reach s t → Inv s t
stalled_forever {s} h r = Reach-Inv (record { stalled = h; silent = refl; full = ground arith }) r

commit_request-neg :
    (api : AtomicApi) (p : SinkRequest)
    → ((ps : Option (List PropertySet)) (flags : DrmFlags) → is_neg (api.commit ps flags) ≡ true)
    → flips_of (some (commit_request api p)) ≡ []
unfolding commit_request
commit_request-neg api p refuses = ground (arith, commit-neg api flag_async p.drm_request refuses)

accept-IsStalled :
    (api : AtomicApi) (o : Display) (fb : ℕ) (r : Request) (s : System)
    → ((ps : Option (List PropertySet)) (flags : DrmFlags) → is_neg (api.commit ps flags) ≡ true)
    → s.flips ≡ []
    → s.sink.queued ≡ none
    → IsStalled (after_process r (accept api s.sink o fb r) s)
unfolding accept
accept-IsStalled api o fb r s refuses idle free = (
  ground (arith, commit_request-neg api (new_sink_request api s.sink o fb r) refuses),
  ground arith,
)

-- If the kernel refuses the commit of a request that an idle sink takes, then, whatever libdrm answers
-- later and in every order of requests and page flips, the sink gives no request back any more,
-- and takes at most one more.
pub refused_commit_stalls :
    (api : AtomicApi) (r : Request) (s t : System) (out : Processed)
    → ((ps : Option (List PropertySet)) (flags : DrmFlags) → is_neg (api.commit ps flags) ≡ true)
    → s.flips ≡ []
    → s.sink.queued ≡ none
    → process_request api r s.sink ≡ some out
    → out.done ≡ false
    → Reach (after_process r out s) t
    → (t.emitted ≡ s.emitted) × (length t.accepted ≤ length s.accepted + 2)
refused_commit_stalls api r s t out refuses idle free e took reach =
    elim (process_request-cases api r s.sink out e) [
      | inl drop ↦ absurd (ground arith)
      | inr (o, fb, room_left, same) ↦
          let u = after_process r out s in
          let stalled : IsStalled u = rw same (accept-IsStalled api o fb r s refuses idle free) in
          let v = stalled_forever {s = u} {t = t} stalled reach in
          (v.silent, ground (arith, v.full, length-append s.accepted (r ∷ [])))
    ]
