-- ===== src/KmsSink/Queue/Order.antt =====
-- The sink as a queue of camera requests (src/kms_sink.cpp).
use mathlib.Core.Option
use twincam.Base.{
  ℕ, ◌≡◌, ◌≢◌, refl, ◌⊎◌, inl, inr, ◌∙◌, false, not, ◌&&◌, Option, none, some, List, [], ◌∷◌, ◌++◌,
  append_assoc, append-nil, arith, is_neg, to_list, Option-cases, Bool-cases, ap, sym,
}
use twincam.Camera.{Request}
use twincam.Drm.AtomicRequest.{AtomicApi}
use twincam.KmsSink.State.{SinkRequest, KmsSink}
use twincam.KmsSink.Queue.{
  Display, Commit, cam_requests, accept, dropped, advance, request_complete, new_sink_request,
  commit_request,
}
use twincam.KmsSink.Queue.Cases.{process_request-cases, request_complete-cases}
use twincam.KmsSink.Queue.System.{
  held, flips_of, System, after_process, Step, process, flip, Reach, here, next, Due, Inv,
  idle_system,
}

flips_of-cases : (c : Commit) → (flips_of (some c) ≡ []) ⊎ (flips_of (some c) ≡ c.address ∷ [])
flips_of-cases c = elim (Bool-cases (c.asked && not (is_neg c.ret))) [
  | inl good ↦ inr (rw good)
  | inr bad ↦ inl (rw bad)
]

-- What is due after a commit of the request that is queued, where nothing was due.
commit-Due :
    (flips : List ℕ) (c : Option Commit) (k : KmsSink) (p : Commit) (q : SinkRequest)
    → flips ≡ []
    → c ≡ some p
    → k.queued ≡ some q
    → p.address ≡ q.address
    → Due (flips ++ flips_of c) k
commit-Due flips c k p q idle e f same = elim (flips_of-cases p) [
  | inl refused ↦ inl (rw (idle, e) refused)
  | inr due ↦ inr (q, f, rw (idle, e, due, same) refl)
]

accept-Due :
    (api : AtomicApi) (o : Display) (fb : ℕ) (r : Request) (s : System)
    → Inv s
    → let t = after_process r (accept api s.sink o fb r) s in Due t.flips t.sink
unfolding accept
accept-Due api o fb r s v = elim (Option-cases s.sink.queued) [
  | inl e ↦ elim v.due [
    | inl idle ↦
        let p = new_sink_request api s.sink o fb r in
        let out = accept api s.sink o fb r in
        commit-Due s.flips out.commit out.sink (commit_request api p) p idle (ground arith)
          (ground arith) refl
    | inr (q, f, g) ↦ absurd (ground arith)
  ]
  | inr (q, e) ↦ elim v.due [
    | inl idle ↦ inl (ground arith)
    | inr (q', f, g) ↦ inr (q', ground arith, ground (arith, append-nil s.flips))
  ]
]

pub accept-done :
    (api : AtomicApi) (o : Display) (fb : ℕ) (r : Request) (s : KmsSink)
    → (accept api s o fb r).done ≡ false
unfolding accept
accept-done api o fb r s = refl

accept-ordered :
    (api : AtomicApi) (o : Display) (fb : ℕ) (r : Request) (s : KmsSink)
    → let t = (accept api s o fb r).sink in t.queued ≢ none
unfolding accept
accept-ordered api o fb r s = ground arith

pub accept-history :
    (api : AtomicApi) (o : Display) (fb : ℕ) (r : Request) (s : KmsSink)
    → s.pending ≡ none
    → held (accept api s o fb r).sink ≡ held s ++ r ∷ []
unfolding accept
accept-history api o fb r s free = elim (Option-cases s.queued) [
  | inl e ↦ ground (arith, append-nil (to_list (cam_requests s.active)))
  | inr (q, e) ↦
      ground (arith, append_assoc (to_list (cam_requests s.active)) (q.cam_request ∷ []) (r ∷ []))
]

accept-Inv :
    (api : AtomicApi) (o : Display) (fb : ℕ) (r : Request) (s : System)
    → s.sink.pending ≡ none
    → Inv s
    → Inv (after_process r (accept api s.sink o fb r) s)
accept-Inv api o fb r s free v = record {
  due = accept-Due api o fb r s v;
  ordered = λ empty. absurd (accept-ordered api o fb r s.sink empty);
  history =
      rw (accept-done, v.history)
        (append_assoc s.emitted (held s.sink) (r ∷ [])
          ∙ ap (◌++◌ s.emitted) (sym (accept-history api o fb r s.sink free)));
}

pub advance-history :
    (api : AtomicApi) (q : SinkRequest) (s : KmsSink)
    → s.queued ≡ some q
    → held s ≡ to_list (advance api q s.pending s).emitted ++ held (advance api q s.pending s).sink
unfolding advance
advance-history api q s e = ground arith

dropped-Inv : (r : Request) (s : System) → Inv s → Inv (after_process r (dropped s.sink) s)
dropped-Inv r s v = record {
  due = rw (append-nil s.flips) v.due;
  ordered = v.ordered;
  history = rw (append-nil s.accepted) v.history;
}

-- After a completion the flip of the request that is committed next is due, at most.
advance-Due :
    (api : AtomicApi) (q : SinkRequest) (pending : Option SinkRequest) (rest : List ℕ) (s : KmsSink)
    → rest ≡ []
    → let out = advance api q pending s in Due (rest ++ flips_of out.commit) out.sink
unfolding advance
advance-Due api q none rest s e = inl (rw e)
advance-Due api q (some p) rest s e =
    let out = advance api q (some p) s in
    commit-Due rest out.commit out.sink (commit_request api p) p e refl refl refl

advance-ordered :
    (api : AtomicApi) (q : SinkRequest) (s : KmsSink)
    → let k = (advance api q s.pending s).sink in k.queued ≡ none → k.pending ≡ none
unfolding advance
advance-ordered api q s e = ground arith

-- The flip that is due is the only one.
only_flip :
    (flips : List ℕ) (k : KmsSink) (a : ℕ) (rest : List ℕ)
    → Due flips k
    → flips ≡ a ∷ rest
    → (rest ≡ []) × (Option.map (λ (q : SinkRequest). q.address) k.queued ≡ some a)
only_flip flips k a rest (inl idle) e = absurd (ground arith)
only_flip flips k a rest (inr (q, f, g)) e = ground arith

Step-Inv : {s t : System} → Step s t → Inv s → Inv t
Step-Inv {s} (process api r out e) v = elim (process_request-cases api r s.sink out e) [
  | inl drop ↦ rw drop (dropped-Inv r s v)
  | inr (o, fb, free, took) ↦ rw took (accept-Inv api o fb r s free v)
]
Step-Inv {s} (flip api a rest out f e) v =
    let (q, full, same, done) = request_complete-cases api a s.sink out e in
    rw done (record {
      due =
          advance-Due api q s.sink.pending rest s.sink (only_flip s.flips s.sink a rest v.due f).0;
      ordered = advance-ordered api q s.sink;
      history = v.history ∙ (rw (advance-history api q s.sink full, append_assoc));
    })

Reach-Inv : {s t : System} → Inv s → Reach s t → Inv t
Reach-Inv v here = v
Reach-Inv v (next r st) = Step-Inv st (Reach-Inv v r)

idle-Inv :
    (k : KmsSink) → k.pending ≡ none → k.queued ≡ none → k.active ≡ none → Inv (idle_system k)
idle-Inv k p q a = record { due = inl refl; ordered = λ e. p; history = ground arith }

module _ {k : KmsSink} {s : System} where
  -- Starting from a sink that holds nothing, whatever libdrm answers and in every order of requests
  -- and page flips: the requests that the sink has taken are those that it has given back, in the same
  -- order, followed by those that it holds as active, queued and pending.
  pub accepted-fifo :
      k.pending ≡ none
      → k.queued ≡ none
      → k.active ≡ none
      → Reach (idle_system k) s
      → s.accepted ≡ s.emitted ++ held s.sink
  accepted-fifo p q a r = (Reach-Inv (idle-Inv k p q a) r).history

  -- In every such state a page flip that the kernel reports is that of the queued request: the
  -- assertion of `requestComplete` holds, and no other page flip is due.
  pub page_flip_expected :
      k.pending ≡ none
      → k.queued ≡ none
      → k.active ≡ none
      → Reach (idle_system k) s
      → (api : AtomicApi) (a : ℕ) (rest : List ℕ) → s.flips ≡ a ∷ rest
      → (request_complete api a s.sink ≢ none) × (rest ≡ [])
  unfolding request_complete
  page_flip_expected p q a r api i rest e =
      let v = Reach-Inv (idle-Inv k p q a) r in
      let (alone, queued) = only_flip s.flips s.sink i rest v.due e in (ground arith, alone)
