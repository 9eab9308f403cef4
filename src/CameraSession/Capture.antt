-- ===== src/CameraSession/Capture.antt =====
-- The start and the stop of a capture: `start`, `startCapture`, `stop` (src/camera_session.cpp).
pub mod Requests
pub mod Queued
mod Tests
use Prim.Native.Nat.{min}
use twincam.Base.{
  ◌>>=◌, ◌+◌, ◌%◌, ℕ, zero, suc, ◌-◌, ◌^◌, Bool, true, false, Option, none, some, List, [], ◌∷◌,
  ◌++◌, ℤ, pos, neg, is_neg, is_nonzero, enomem, if◌then◌else◌, get_elem?, length, String,
  str_append, to_string,
}
use twincam.Base.Maps.{map_insert}
use twincam.Camera.{StreamConfiguration, FrameBuffer}
use twincam.CameraSession.State.{CameraApi, FrameSink}

-- A request that the session has made: the buffers that were added to it, by stream.
abbrev pub Made : Type 0
Made = List (ℕ × FrameBuffer)

-- The session while it captures. `queued` are the requests that the camera has been handed, by number,
-- `running` tells whether the camera has been started.
pub record Session (S : Type 0) : Type 0 where
  pub stream_names : List (ℕ × String)
  pub queue_count : ℕ
  pub capture_count : ℕ
  pub last : ℕ
  pub sink : S
  pub requests : List Made
  pub queued : List ℕ
  pub running : Bool

-- The streams that were allocated: none where `allocate` failed.
pub allocate_all : CameraApi → List StreamConfiguration → ℕ → Option ℕ
allocate_all api [] nbuffers = some nbuffers
allocate_all api (cfg ∷ cfgs) nbuffers =
    let rest = allocate_all api cfgs (min nbuffers (length (api.buffers cfg.stream))) in
    if is_neg (api.allocate cfg.stream) then none else rest

-- A step of the making of requests that may return early.
pub data Making (S : Type 0) : Type 0 where
  made : S → Made → Making S
  failed : ℤ → S → Making S
  undefined : Making S

module _ {S : Type 0} (api : CameraApi) where
  -- `camera_->queueRequest`
  unfoldable pub hand_over : ℕ → Session S → ℤ × Session S
  hand_over i s =
      let ret = api.queue_request i in
      if is_neg ret then (ret, s) else (ret, record s { queued = s.queued ++ i ∷ [] })

  -- `queueRequest`
  unfoldable pub queue_request : ℕ → Session S → ℤ × Session S
  unfolding hand_over
  queue_request i s = hand_over i (record s { queue_count = (s.queue_count + 1) % 2 ^ 32 })

module _ {S : Type 0} (api : CameraApi) (sink : FrameSink S) where
  -- The inner loop: the buffer of every stream is added to request `i` and mapped by the sink.
  pub add_buffers : ℕ → List StreamConfiguration → S → Made → Making S
  add_buffers i [] k r = made k r
  add_buffers i (cfg ∷ cfgs) k r = elim (get_elem? (api.buffers cfg.stream) i) [
    | none ↦ undefined
    | some b ↦ elim (is_neg (api.add_buffer i cfg.stream b)) [
      | true ↦ failed (api.add_buffer i cfg.stream b) k
      | false ↦ elim (sink.map_buffer b k) [
        | none ↦ undefined
        | some k' ↦ add_buffers i cfgs k' (r ++ (cfg.stream, b) ∷ [])
      ]
    ]
  ]

  -- The loop that makes `n` requests, from number `i` on.
  pub make_requests : List StreamConfiguration → ℕ → ℕ → Session S → Option (ℤ × Session S)
  unfolding add_buffers
  make_requests config zero i s = some (pos 0, s)
  make_requests config (suc n) i s = elim (api.create_request i) [
    | false ↦ some (neg enomem, s)
    | true ↦ elim (add_buffers i config s.sink []) [
      | undefined ↦ none
      | failed ret k ↦ some (ret, record s { sink = k })
      | made k r ↦
          make_requests config n (suc i) (record s { sink = k; requests = s.requests ++ r ∷ [] })
    ]
  ]

  -- `sink_->stop()`, whose return code is not used, and the return of `ret`.
  pub stop_sink : ℤ → Session S → Option (ℤ × Session S)
  stop_sink ret s = do (code, k) ← sink.stop s.sink; some (ret, record s { sink = k })

  -- The loop that queues the requests, `n` of them from number `i` on.
  pub queue_all : ℕ → ℕ → Session S → Option (ℤ × Session S)
  unfolding queue_request stop_sink
  queue_all zero i s = some (pos 0, s)
  queue_all (suc n) i s =
      let (ret, s') = queue_request api i s in
      let rest = queue_all n (suc i) s' in
      if is_neg ret then stop_sink ret (record s' { running = false; queued = [] }) else rest

  -- From `camera_->start()` on.
  pub run_camera : Session S → Option (ℤ × Session S)
  unfolding queue_all stop_sink
  run_camera s =
      if is_nonzero api.start
      then stop_sink api.start s
      else queue_all (length s.requests) 0 (record s { running = true })

  -- From `sink_->start()` on.
  pub run_sink : Session S → Option (ℤ × Session S)
  unfolding run_camera
  run_sink s = do
    (ret, k) ← sink.start s.sink
    let s' = record s { sink = k }
    if is_nonzero ret then some (ret, s') else run_camera s'

  -- `startCapture`. The initial `nbuffers` is UINT_MAX.
  pub start_capture : List StreamConfiguration → Session S → Option (ℤ × Session S)
  unfolding allocate_all make_requests run_sink
  start_capture config s = elim (allocate_all api config (2 ^ 32 - 1)) [
    | none ↦ some (neg enomem, s)
    | some n ↦ do
      (ret, s') ← make_requests config n 0 s
      if is_nonzero ret then some (ret, s') else run_sink s'
  ]

  -- "cam<camera index>-stream<index>" of the streams, from `index` on; the camera's index is 0.
  name_streams : ℕ → List StreamConfiguration → List (ℕ × String) → List (ℕ × String)
  unfolding to_string map_insert
  name_streams index [] m = m
  name_streams index (cfg ∷ cfgs) m =
      name_streams (suc index) cfgs
        (map_insert cfg.stream (str_append "cam0-stream" (to_string index)) m)

  -- `start`, with the state `k` of the sink that it makes.
  unfoldable pub start : List StreamConfiguration → S → Session S → Option (ℤ × Session S)
  unfolding start_capture name_streams
  start config k s =
      let s0 = record s { queue_count = 0; capture_count = 0 } in
      if is_neg (api.configure config) then some (api.configure config, s0) else (do
        (ret, k') ← sink.configure config k
        let s1 = record s0 { stream_names = name_streams 0 config []; sink = k' }
        if is_neg ret then some (ret, s1) else start_capture config s1)

  -- `stop`. The requests that are queued go with the camera's stop.
  unfoldable pub stop : Session S → Option (Session S)
  stop s = do
    (ret, k) ← sink.stop s.sink
    some (record s { sink = k; requests = []; queued = []; running = false })
