-- ===== src/CameraSession/Capture/Queued.antt =====
-- What a capture that has started has queued (src/camera_session.cpp).
use twincam.Base.{
  ℕ, zero, suc, ◌+◌, ◌-◌, ◌^◌, ◌%◌, ◌≡◌, ◌∙◌, inl, inr, true, false, some, List, [], ◌∷◌, ◌++◌,
  append_assoc, append-nil, ℤ, pos, ◌≢◌, is_neg, is_nonzero, arith, length, Bool-cases,
  Option-cases,
}
use twincam.Camera.{StreamConfiguration}
use twincam.CameraSession.State.{CameraApi, FrameSink}
use twincam.CameraSession.Capture.{
  Session, allocate_all, make_requests, hand_over, queue_request, stop_sink, queue_all, run_camera,
  run_sink, start_capture, start, name_streams,
}
use twincam.CameraSession.Capture.Requests.{
  fewest, AllMade, allocate_all-fewest, neg_nonzero, not_nonzero, make_requests-Grown,
}

-- The numbers from `i` on.
abbrev pub upto : ℕ → ℕ → List ℕ
upto zero i = []
upto (suc n) i = i ∷ upto n (suc i)

module _ {S : Type 0} (api : CameraApi) (sink : FrameSink S) where
  -- A session all of whose requests are queued.
  record Queued (n i : ℕ) (s s' : Session S) : Type 0 where
    requests : s'.requests ≡ s.requests
    queued : s'.queued ≡ s.queued ++ upto n i
    running : s'.running ≡ s.running

  stop_sink-ret :
      (ret : ℤ) (s s' : Session S)
      → is_nonzero ret ≡ true
      → stop_sink api sink ret s ≢ some (pos 0, s')
  unfolding stop_sink
  stop_sink-ret ret s s' bad e = elim (Option-cases (sink.stop s.sink)) [
    | inl crash ↦ ground arith
    | inr ((code, k), stopped) ↦ ground arith
  ]

  queue_all-Queued :
      (n i : ℕ) (s s' : Session S) → queue_all api sink n i s ≡ some (pos 0, s') → Queued n i s s'
  unfolding queue_all queue_request hand_over
  queue_all-Queued zero i s s' e = record {
    requests = ground arith;
    queued = ground (arith, append-nil s.queued);
    running = ground arith;
  }
  queue_all-Queued (suc n) i s s' e = elim (Bool-cases (is_neg (api.queue_request i))) [
    | inl bad ↦
        let s1 = record s {
          queue_count = (s.queue_count + 1) % 2 ^ 32;
          running = false;
          queued = [];
        } in
        absurd (
          stop_sink-ret (api.queue_request i) s1 s' (neg_nonzero (api.queue_request i) bad)
            (ground arith))
    | inr good ↦
        let s1 = record s {
          queue_count = (s.queue_count + 1) % 2 ^ 32;
          queued = s.queued ++ i ∷ [];
        } in
        let q = queue_all-Queued n (suc i) s1 s' (ground arith) in
        record { requests = q.requests; queued = q.queued ∙ rw append_assoc; running = q.running }
  ]

  run_sink-Queued :
      (s s' : Session S)
      → run_sink api sink s ≡ some (pos 0, s')
      → (s'.requests ≡ s.requests)
        × (s'.queued ≡ s.queued ++ upto (length s.requests) 0)
        × (s'.running ≡ true)
  unfolding run_sink run_camera
  run_sink-Queued s s' e = elim (Option-cases (sink.start s.sink)) [
    | inl crash ↦ absurd (ground arith)
    | inr ((ret, k), begun) ↦ elim (Bool-cases (is_nonzero ret)) [
      | inl bad ↦ absurd (ground arith)
      | inr started ↦ elim (Bool-cases (is_nonzero api.start)) [
        | inl bad ↦ absurd (stop_sink-ret api.start (record s { sink = k }) s' bad (ground arith))
        | inr good ↦
            let s1 = record s { sink = k; running = true } in
            let q = queue_all-Queued (length s.requests) 0 s1 s' (ground arith) in
            (q.requests, q.queued, q.running)
      ]
    ]
  ]

  -- If `startCapture` of a session without requests returns 0, the camera runs, and there are as many
  -- requests as the stream with the fewest buffers has buffers (UINT_MAX, or 2^32 - 1, at most); the
  -- request number i has of every stream the buffer number i; and all of them are queued, each once
  -- and in order.
  pub start_capture-Queued :
      (config : List StreamConfiguration) (s s' : Session S)
      → s.requests ≡ []
      → s.queued ≡ []
      → start_capture api sink config s ≡ some (pos 0, s')
      → (s'.running ≡ true)
        × (length s'.requests ≡ fewest api config (2 ^ 32 - 1))
        × AllMade api 0 config s'.requests
        × (s'.queued ≡ upto (length s'.requests) 0)
  unfolding start_capture
  start_capture-Queued config s s' no_requests none_queued e =
      elim (Option-cases (allocate_all api config (2 ^ 32 - 1))) [
        | inl bad ↦ absurd (ground arith)
        | inr (n, got) ↦ elim (Option-cases (make_requests api sink config n 0 s)) [
          | inl crash ↦ absurd (ground arith)
          | inr ((ret, s1), done) ↦ elim (Bool-cases (is_nonzero ret)) [
            | inl bad ↦ absurd (ground arith)
            | inr good ↦
                let zero_ret = not_nonzero ret good in
                let g = make_requests-Grown api sink config n 0 s s1 (ground arith) in
                let (same, queued, running) = run_sink-Queued s1 s' (ground arith) in
                let requests : s'.requests ≡ g.new = ground (arith, g.requests) in
                (
                  running,
                  ground (arith, g.count, allocate_all-fewest api config (2 ^ 32 - 1) n got),
                  rw requests g.made_all,
                  ground (arith, g.queued),
                )
          ]
        ]
      ]

  -- A session that `start` has brought to run has queued all of its requests, each once and in order.
  pub start-running :
      (config : List StreamConfiguration) (k : S) (s s' : Session S)
      → s.requests ≡ []
      → s.queued ≡ []
      → start api sink config k s ≡ some (pos 0, s')
      → (s'.running ≡ true) × (s'.queued ≡ upto (length s'.requests) 0)
  unfolding start
  start-running config k s s' no_requests none_queued e =
      elim (Bool-cases (is_neg (api.configure config))) [
        | inl bad ↦ absurd (ground (arith, e, bad))
        | inr good ↦ elim (Option-cases (sink.configure config k)) [
          | inl crash ↦ absurd (ground (arith, e, good, crash))
          | inr ((ret, k'), configured) ↦ elim (Bool-cases (is_neg ret)) [
            | inl bad ↦ absurd (ground (arith, e, good, configured, bad))
            | inr fine ↦
                let s1 = record s {
                  queue_count = 0;
                  capture_count = 0;
                  stream_names = name_streams api sink 0 config [];
                  sink = k';
                } in
                let (running, count, made, queued) =
                  start_capture-Queued config s1 s' no_requests none_queued
                    (ground (arith, e, good, configured, fine)) in
                (running, queued)
          ]
        ]
      ]
