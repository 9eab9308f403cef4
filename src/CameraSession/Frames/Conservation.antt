-- ===== src/CameraSession/Frames/Conservation.antt =====
-- Where the requests of a session are over time (src/camera_session.cpp).
use twincam.Base.{
  ℕ, ◌+◌, ◌%◌, ◌^◌, ◌≡◌, refl, ap, ◌∙◌, ◌⊎◌, inl, inr, Bool, true, false, Option, none, some, List,
  [], ◌∷◌, ◌++◌, ℤ, is_neg, if◌then◌else◌, arith, Bool-cases, Option-cases, String,
}
use twincam.Camera.{Request, RequestStatus}
use twincam.EventLoop.{LibEvent, EventLoop, runs, call_later, dispatch_call}
use twincam.CameraSession.State.{CameraApi, FrameSink}
use twincam.CameraSession.Capture.{Session, hand_over, queue_request}
use twincam.CameraSession.Frames.{
  request_complete, Processed, requeue, process_request, sink_release, frame_line, count_frame,
}
use twincam.CameraSession.Frames.Keeper.{
  occurrences, addresses, Keeper, System, cancelled_of, refused_by, refused_of, Step, complete,
  process, advance, release, Reach, here, next, places,
}

occurrences-append :
    (number : ℕ) (front back : List ℕ)
    → occurrences number (front ++ back) ≡ occurrences number front + occurrences number back
occurrences-append number [] back = ground arith
occurrences-append number (b ∷ bs) back = ground (arith, occurrences-append number bs back)

status_cases :
    (t : RequestStatus)
    → (t ≡ RequestStatus.cancelled) ⊎ (t ≡ RequestStatus.pending) ⊎ (t ≡ RequestStatus.complete)
status_cases RequestStatus.cancelled = inl refl
status_cases RequestStatus.pending = inr (inl refl)
status_cases RequestStatus.complete = inr (inr refl)

here_or_there :
    (a : ℕ) (done : Bool) (b : ℕ)
    → occurrences a (if done then b ∷ [] else []) + occurrences a (if done then [] else b ∷ [])
      ≡ occurrences a (b ∷ [])
here_or_there a true b = ground arith
here_or_there a false b = ground arith

List-cases : {A : Type 0} (xs : List A) → (xs ≡ []) ⊎ ((y : A) × (ys : List A) × (xs ≡ y ∷ ys))
List-cases [] = inl refl
List-cases (y ∷ ys) = inr (y, ys, refl)

module _ {S : Type 0} (sink : FrameSink S) (keeper : Keeper sink) (rate : Option ℕ → String) where
  occurrences-addresses :
      (a : ℕ) (xs ys : List Request)
      → occurrences a (addresses (xs ++ ys))
        ≡ occurrences a (addresses xs) + occurrences a (addresses ys)
  occurrences-addresses a [] ys = omega arith
  occurrences-addresses a (x ∷ xs) ys = omega (arith, occurrences-addresses a xs ys)

  complete-calls :
      (a : ℕ) (env : LibEvent) (r : Request) (l : EventLoop Request)
      → occurrences a (addresses (request_complete env r l).calls) + occurrences a (cancelled_of r)
        ≡ occurrences a (addresses l.calls) + occurrences a (r.address ∷ [])
  unfolding request_complete call_later
  complete-calls a env r l = elim (status_cases r.status) [
    | inl e ↦ ground arith
    | inr e ↦ ground (arith, occurrences-addresses a l.calls (r ∷ []), e)
  ]

  hand_over-occurrences :
      (a : ℕ) (api : CameraApi) (b : ℕ) (s : Session S)
      → let (ret, s') = hand_over api b s in
        (occurrences a s'.queued + occurrences a (refused_by ret b)
          ≡ occurrences a s.queued + occurrences a (b ∷ []))
        × (s'.sink ≡ s.sink)
  unfolding hand_over
  hand_over-occurrences a api b s = elim (Bool-cases (is_neg (api.queue_request b))) [
    | inl bad ↦ (ground arith, ground arith)
    | inr good ↦ (ground (arith, occurrences-append a s.queued (b ∷ [])), ground arith)
  ]

  requeue-places :
      (a : ℕ) (api : CameraApi) (done : Bool) (b : ℕ) (text : String) (s : Session S)
      → let out = requeue api done b text s in
        (occurrences a out.session.queued + occurrences a (refused_of out.requeued b)
          ≡ occurrences a s.queued + occurrences a (if done then b ∷ [] else []))
        × (out.session.sink ≡ s.sink)
  unfolding requeue
  requeue-places a api true b text s = hand_over-occurrences a api b s
  requeue-places a api false b text s = (refl, refl)

  process_request-requeue :
      (api : CameraApi) (r : Request) (s : Session S) (out : Processed S)
      → process_request api sink rate r s ≡ some out
      → (done : Bool) × (k : S) × (text : String) × (s1 : Session S) × (sink.process_request r
            s.sink
          ≡ some (done, k))
        × (out ≡ requeue api done r.address text s1)
        × (s1.queued ≡ s.queued)
        × (s1.sink ≡ k)
  unfolding process_request
  process_request-requeue api r s out e = elim (Option-cases (sink.process_request r s.sink)) [
    | inl crash ↦ absurd (ground arith)
    | inr ((done, k), took) ↦ (
      done,
      k,
      (frame_line rate r s).0,
      count_frame r (frame_line rate r s).1 k s,
      took,
      ground arith,
      refl,
      refl,
    )
  ]

  process-places :
      (a : ℕ) (api : CameraApi) (r : Request) (s : Session S) (out : Processed S)
      → process_request api sink rate r s ≡ some out
      → occurrences a out.session.queued
          + occurrences a (refused_of out.requeued r.address)
          + occurrences a (keeper.held out.session.sink)
        ≡ occurrences a s.queued
          + occurrences a (keeper.held s.sink)
          + occurrences a (r.address ∷ [])
  process-places a api r s out e =
      let (done, k, text, s1, took, same, q, kk) = process_request-requeue api r s out e in
      let (n, m) = requeue-places a api done r.address text s1 in
      let kept = ap keeper.held (m ∙ kk) ∙ keeper.process_held r s.sink done k took in
      let kept_count =
        ap (occurrences a) kept
        ∙ occurrences-append a (keeper.held s.sink) (if done then [] else r.address ∷ []) in
      let either = here_or_there a done r.address in rw same (omega (arith, ap (occurrences a) q))

  release-places :
      (a : ℕ) (api : CameraApi) (r : Request) (s : Session S) (k : S)
      → keeper.Release s.sink (some r) k
      → let (ret, s') = sink_release api r (record s { sink = k }) in
        occurrences a s'.queued
          + occurrences a (refused_by ret r.address)
          + occurrences a (keeper.held s'.sink)
        ≡ occurrences a s.queued + occurrences a (keeper.held s.sink)
  unfolding sink_release queue_request
  release-places a api r s k e =
      let (n, m) =
        hand_over-occurrences a api r.address
          (record s { sink = k; queue_count = (s.queue_count + 1) % 2 ^ 32 }) in
      let kept =
        ap (occurrences a) (keeper.release_held s.sink (some r) k e)
        ∙ occurrences-append a (r.address ∷ []) (keeper.held k) in
      let kept_after = ap (λ x. occurrences a (keeper.held x)) m in omega arith

  dispatched :
      (r : Request) (l l' : EventLoop Request)
      → dispatch_call l ≡ (runs r, l')
      → l.calls ≡ r ∷ l'.calls
  unfolding dispatch_call
  dispatched r l l' e = elim (List-cases l.calls) [
    | inl empty ↦ absurd (ground arith)
    | inr (c, cs, full) ↦ ground arith
  ]

  Step-places :
      {s t : System S} (a : ℕ)
      → Step sink keeper rate s t
      → places sink keeper rate a t ≡ places sink keeper rate a s
  Step-places {s} a (complete env r front back e) = omega (
    arith,
    ap (occurrences a) e,
    occurrences-append a front (r.address ∷ back),
    occurrences-append a front back,
    complete-calls a env r s.loop,
    occurrences-append a (cancelled_of r) s.cancelled,
  )
  Step-places {s} a (process api r l out d e) = omega (
    arith,
    process-places a api r s.session out e,
    ap (λ (rs : List Request). occurrences a (addresses rs)) (dispatched r s.loop l d),
    occurrences-append a (refused_of out.requeued r.address) s.refused,
  )
  Step-places {s} a (advance k e) =
      omega (arith, ap (occurrences a) (keeper.release_held s.session.sink none k e))
  Step-places {s} a (release api r k ret session e f) =
      let kept = release-places a api r s.session k e in
      let lost = occurrences-append a (refused_by ret r.address) s.refused in
      let same_ret = ap (λ (out : ℤ × Session S). occurrences a (refused_by out.0 r.address)) f in
      let same_queue = ap (λ (out : ℤ × Session S). occurrences a out.1.queued) f in
      let same_sink = ap (λ (out : ℤ × Session S). occurrences a (keeper.held out.1.sink)) f in
      omega arith

  -- Whatever libcamera, libevent and the sink answer, in every order of completions, deferred calls and
  -- events of the sink, each number of a request stands as often as at the start with the camera,
  -- the event loop, the sink, the cancelled requests and those that the camera refused, together: no
  -- request is lost or doubled.
  pub requests_conserved :
      {s t : System S}
      → Reach sink keeper rate s t
      → (a : ℕ) → places sink keeper rate a t ≡ places sink keeper rate a s
  requests_conserved here a = refl
  requests_conserved (next r st) a = Step-places a st ∙ requests_conserved r a
