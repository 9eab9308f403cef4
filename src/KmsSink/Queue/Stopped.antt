-- ===== src/KmsSink/Queue/Stopped.antt =====
-- What `stop` leaves of the sink (src/kms_sink.cpp).
use twincam.Base.{
  ℕ, ◌≡◌, refl, ◌⊎◌, inl, inr, true, none, some, [], ℤ, pos, is_neg, arith, Bool-cases,
  Option-cases,
}
use twincam.Camera.{Request}
use twincam.Drm.AtomicRequest.{AtomicApi, commit, add_changes, new_request, flag_allow_modeset}
use twincam.KmsSink.State.{KmsSink}
use twincam.KmsSink.Setup.{find_buffer}
use twincam.KmsSink.Queue.{display, stop, stop_changes, dropped, process_request, request_complete}
use twincam.KmsSink.Queue.System.{held}

-- A sink that holds no request: it drops every request that it is given, and takes no page flip.
abbrev pub IsStopped : KmsSink → Type 0
IsStopped s =
    (held s ≡ [])
    × ((api : AtomicApi) (r : Request) → process_request api r s ≡ some (dropped s))
    × ((api : AtomicApi) (a : ℕ) → request_complete api a s ≡ none)

emptied-IsStopped :
    (s : KmsSink)
    → IsStopped (record s { pending = none; queued = none; active = none; buffers = [] })
unfolding process_request request_complete find_buffer
emptied-IsStopped s = (refl, λ api r. refl, λ api a. refl)

-- If `stop` fails it returns a negative number and leaves the sink as it is. If not it returns 0, and the
-- sink holds no request any more, whatever it held: it emits none of them, drops every later request,
-- and fails the assertion of `requestComplete` on a page flip that comes late.
pub stop_lem :
    (api : AtomicApi) (s : KmsSink) (ret : ℤ) (s' : KmsSink)
    → stop api s ≡ some (ret, s')
    → ((is_neg ret ≡ true) × (s' ≡ s)) ⊎ ((ret ≡ pos 0) × IsStopped s')
unfolding stop
stop_lem api s ret s' e = elim (Option-cases (display s)) [
  | inl dangling ↦ absurd (ground arith)
  | inr (o, found) ↦
      let code =
        (commit api flag_allow_modeset
          (add_changes api s.dev (stop_changes o) (new_request api))).0 in
      elim (Bool-cases (is_neg code)) [
        | inl bad ↦ inl (ground arith, ground arith)
        | inr good ↦
            let empty = record s { pending = none; queued = none; active = none; buffers = [] } in
            let same : s' ≡ empty = ground arith in
            inr (ground arith, rw same (emptied-IsStopped s))
      ]
]
