-- ===== src/CamApp/Main/Exit.antt =====
-- How `main` ends (src/twincam.cpp).
use twincam.Base.{
  ℕ, ◌≡◌, refl, ◌⊎◌, inl, inr, Bool, true, false, ◌||◌, Option, none, some, List, [], ◌∷◌, ℤ,
  is_nonzero, ◌==◌, arith, Bool-cases, String, pos, neg, negsuc, ◌≢◌, length, Option-cases, ap, sym,
  ◌∙◌,
}
use mathlib.Core.Path.{subst}
use twincam.Camera.{PixelFormat, StreamConfiguration}
use twincam.CameraSession.State.{CameraApi, FrameSink, Options, Selected, Build}
use twincam.CameraSession.Selection.{init, new_session}
use twincam.CameraSession.Selection.Ownership.{destroy_holds_none}
use twincam.CameraSession.Capture.{Session, start, stop}
use twincam.CameraSession.Capture.Queued.{upto, start-running}
use twincam.CamApp.CommandLine.{MainOptions, Opt, PidFile}
use twincam.CamApp.CommandLine.Effect.{any, leaves, described, process_args_lem}
use twincam.CamApp.Startup.{Host, init_app, run, exit_status}
use twincam.CamApp.Startup.Polling.{init_app_lem}
use twincam.CamApp.Startup.Sessions.{Captures, run-cases}
use twincam.CamApp.Main.{
  started, stopped, Ended, init_status, session_options, camera_after, cleanup, started_by, exec,
  main,
}

-- No camera is held at the end.
abbrev pub IsReleased : Option Selected → Type 0
IsReleased none = Unit
IsReleased (some s) = s.held ≡ none

init_status-eintr : init_status (neg 4) ≡ 0
unfolding init_status
init_status-eintr = refl

init_status-other : (ret : ℤ) → ret ≢ neg 4 → init_status ret ≡ 1
unfolding init_status
init_status-other (pos n) other = refl
init_status-other (negsuc n) other = elim (Bool-cases (n == 3)) [
  | inl same ↦ absurd (other (ap negsuc (ground (arith, same))))
  | inr different ↦ ground (arith, different)
]

started_by-error : (ret : ℤ) → is_nonzero ret ≡ true → started_by ret ≡ []
unfolding started_by
started_by-error ret bad = ground (arith, bad)

started_by-fine : (ret : ℤ) → is_nonzero ret ≡ false → started_by ret ≡ started ∷ []
unfolding started_by
started_by-fine ret good = ground (arith, good)

module _ {S : Type 0} (api : CameraApi) (sink : FrameSink S) (ran : Session S → Session S)
    (pixel_format : String → PixelFormat) where
  -- The options of a session are those of the program, with the pixel format read from its text.
  abbrev pub options_of : MainOptions → Options
  options_of o = record {
    camera = o.camera;
    drm = o.drm;
    sdl = o.sdl;
    pf = pixel_format o.pf;
    filename = o.filename;
  }

  -- Whether `run` makes no session, with the options `o`, where there are `n` cameras.
  abbrev pub makes_none : MainOptions → ℕ → Bool
  makes_none o n = o.print_available_cameras || n == 0

  -- What `init` of its session gives.
  abbrev pub init_of : MainOptions → ℕ → ℤ × Selected
  init_of o n = init api (options_of o) n new_session

  -- The session has been started with a configuration: where that fails, the exit status is 1; otherwise the camera
  -- ran with all requests queued, the session has been stopped after that, and the exit status is 0.
  abbrev pub HasCaptured :
      List StreamConfiguration → S → Session S → ℕ → Option (Session S) → Type 0
  HasCaptured config k idle status session =
      (ret : ℤ) × (s1 : Session S) × (start api sink config k idle ≡ some (ret, s1))
      × (((is_nonzero ret ≡ true) × (status ≡ 1) × (session ≡ some s1))
          ⊎ ((ret ≡ pos 0)
              × (status ≡ 0)
              × (s1.running ≡ true)
              × (s1.queued ≡ upto (length s1.requests) 0)
              × ((s2 : Session S) × (stop api sink (ran s1) ≡ some s2)
                  × (session ≡ some s2)
                  × (s2.running ≡ false)
                  × (s2.queued ≡ [])
                  × (s2.requests ≡ []))))

  -- The end of a run in which the camera manager was started: it has been stopped, and no camera is held.
  pub record HasRun (o : MainOptions) (n : ℕ) (k : S) (idle : Session S) (end : Ended S)
      : Type 0 where
    pub manager : end.manager ≡ started ∷ stopped ∷ []
    pub released : IsReleased end.camera
    pub session :
        ((makes_none o n ≡ true) × (end.status ≡ 0) × (end.session ≡ none))
        ⊎ ((makes_none o n ≡ false)
            × (((is_nonzero (init_of o n).0 ≡ true) × (end.status ≡ 1) × (end.session ≡ none))
                ⊎ (((init_of o n).0 ≡ pos 0)
                    × ((config : List StreamConfiguration) × ((init_of o n).1.config ≡ some config)
                        × HasCaptured config k idle end.status end.session))))

  stop-idle :
      (s s2 : Session S)
      → stop api sink s ≡ some s2
      → (s2.running ≡ false) × (s2.queued ≡ []) × (s2.requests ≡ [])
  unfolding stop
  stop-idle s s2 e = elim (Option-cases (sink.stop s.sink)) [
    | inl bad ↦ absurd (ground (arith, e, bad))
    | inr ((ret, k), stops) ↦
        (ground (arith, e, stops), ground (arith, e, stops), ground (arith, e, stops))
  ]

  Captures-HasCaptured :
      (config : List StreamConfiguration) (k : S) (idle : Session S) (ret : ℤ)
      (session : Option (Session S))
      → idle.requests ≡ []
      → idle.queued ≡ []
      → Captures api sink ran config k idle ret session
      → HasCaptured config k idle (exit_status ret) session
  Captures-HasCaptured config k idle ret session no_requests none_queued (ret', s1, starts, ends) =
      (
        ret',
        s1,
        starts,
        elim ends [
          | inl (bad, same, there) ↦ inl (bad, ground (arith, bad, same), there)
          | inr (fine, same, (s2, stops, there)) ↦
              let begun : start api sink config k idle ≡ some (pos 0, s1) =
                ground (arith, starts, fine) in
              let (running, queued) =
                start-running api sink config k idle s1 no_requests none_queued begun in
              let (r, q, m) = stop-idle (ran s1) s2 stops in
              inr (fine, ap exit_status same, running, queued, (s2, stops, there, r, q, m))
        ],
      )

  camera_after-IsReleased :
      (o : MainOptions) (n : ℕ) → IsReleased (camera_after api sink ran pixel_format o n)
  unfolding camera_after
  camera_after-IsReleased o n = elim (Bool-cases o.print_available_cameras) [
    | inl lists ↦ rw lists tt
    | inr runs ↦ elim (Bool-cases (n == 0)) [
      | inl no_camera ↦ rw (runs, no_camera) tt
      | inr cameras ↦
          rw (runs, cameras)
            (destroy_holds_none api (session_options api sink ran pixel_format o) n)
    ]
  ]

  exec-HasRun :
      (o : MainOptions) (n : ℕ) (k : S) (idle : Session S) (end : Ended S)
      → idle.requests ≡ []
      → idle.queued ≡ []
      → exec api sink ran pixel_format (started ∷ []) o n k idle ≡ some end
      → HasRun o n k idle end
  unfolding exec cleanup
  exec-HasRun o n k idle end no_requests none_queued e =
      let opts = session_options api sink ran pixel_format o in
      elim (Option-cases (run api sink ran o.print_available_cameras opts n k idle)) [
        | inl bad ↦ absurd (ground (arith, e, bad))
        | inr ((ret, session), ended) ↦
            let cases =
              run-cases api sink ran o.print_available_cameras opts n k idle ret session ended in
            let here : record {
              status = exit_status ret;
              manager = started ∷ stopped ∷ [];
              session = session;
              camera = camera_after api sink ran pixel_format o n;
            }
                ≡ end =
              ground (arith, e, ended) in
            subst (λ (x : Ended S). HasRun o n k idle x) here
              record {
                manager = refl;
                released = camera_after-IsReleased o n;
                session = elim cases [
                  | inl (none_made, fine, nothing) ↦ inl (none_made, ap exit_status fine, nothing)
                  | inr (made, inl (fails, bad, nothing)) ↦
                      inr (made, inl (fails, ground (arith, bad), nothing))
                  | inr (made, inr (good, (config, chosen, captures))) ↦ inr (
                    made,
                    inr (
                      good,
                      (
                        config,
                        chosen,
                        Captures-HasCaptured config k idle ret session no_requests none_queued
                            captures,
                      ),
                    ),
                  )
                ];
              }
      ]

  -- The session of `run` is new: it has no requests. Suppose that `main` returns. An option that makes the program
  -- leave: the exit status is 0, and the camera manager was not touched. The camera manager could not be started: the
  -- exit status is 0 after -EINTR and else 1, and nothing was run. Otherwise it was started and has been stopped, and
  -- no camera is held any more. Then, with the options that the command line sets: where cameras are only listed or
  -- there are none, there was no session, and the exit status is 0; where the `init` of the session fails, the exit
  -- status is 1; where its start with the configuration that `init` has chosen fails, it is 1 too; and otherwise the
  -- camera ran with all requests queued, the session was stopped after that and has no requests any more, and the
  -- exit status is 0.
  pub main_lem :
      (b : Build) (atoi : String → ℤ) (pid : PidFile) (have_libudev : Bool) (host : Host)
      (ds : List Opt) (opts : MainOptions) (k : S) (idle : Session S) (end : Ended S)
      → idle.requests ≡ []
      → idle.queued ≡ []
      → main api sink ran pixel_format b atoi pid have_libudev host ds opts k idle ≡ some end
      → ((any (leaves b) ds ≡ true) × (end.status ≡ 0) × (end.manager ≡ []) × (end.session ≡ none))
        ⊎ ((any (leaves b) ds ≡ false)
            × (((is_nonzero host.start ≡ true)
                  × (host.start ≡ neg 4 → end.status ≡ 0)
                  × (host.start ≢ neg 4 → end.status ≡ 1)
                  × (end.manager ≡ [])
                  × (end.session ≡ none))
                ⊎ ((is_nonzero host.start ≡ false)
                    × HasRun
                        (described atoi ds opts)
                        (host.cameras (init_app have_libudev host 0).1)
                        k
                        idle
                        end)))
  unfolding main
  main_lem b atoi pid have_libudev host ds opts k idle end no_requests none_queued e =
      elim (process_args_lem b atoi pid ds opts) [
        | inr (leaving, code) ↦
            inl (leaving, ground (arith, e, code), ground (arith, e, code), ground (arith, e, code))
        | inl (staying, code, options) ↦ inr (
          staying,
          elim (init_app_lem have_libudev host 0).0 [
            | inr (failed, bad) ↦
                let error : is_nonzero (init_app have_libudev host 0).0 ≡ true =
                  ap is_nonzero failed ∙ bad in
                let status : end.status ≡ init_status host.start =
                  ground (arith, e, code, failed, error) in
                inl (
                  bad,
                  λ interrupted. status ∙ ap init_status interrupted ∙ init_status-eintr,
                  λ other. status ∙ init_status-other host.start other,
                  ground (
                    arith,
                    e,
                    code,
                    error,
                    started_by-error (init_app have_libudev host 0).0 error,
                  ),
                  ground (arith, e, code, error),
                )
            | inl (done, good) ↦
                let fine : is_nonzero (init_app have_libudev host 0).0 ≡ false =
                  ap is_nonzero done in
                let begun = started_by-fine (init_app have_libudev host 0).0 fine in
                inr (
                  good,
                  exec-HasRun (described atoi ds opts)
                      (host.cameras (init_app have_libudev host 0).1) k idle end no_requests
                      none_queued (rw (sym options) (ground (arith, e, code, fine, begun))),
                )
          ],
        )
      ]
