-- ===== src/CamApp/Startup/Sessions.antt =====
-- What `CamApp::run` returns (src/twincam.cpp).
use twincam.Base.{
  ℕ, zero, suc, ◌≡◌, refl, ◌⊎◌, inl, inr, Bool, true, false, ◌||◌, Option, none, some, List, ℤ, ap,
  pos, is_nonzero, ◌==◌, arith, Bool-cases, Option-cases,
}
use twincam.Camera.{StreamConfiguration}
use twincam.CameraSession.Capture.Requests.{not_nonzero}
use twincam.CameraSession.Selection.Ownership.{init-Tried}
use twincam.CameraSession.State.{CameraApi, FrameSink, Options, Selected}
use twincam.CameraSession.Selection.{init, new_session}
use twincam.CameraSession.Capture.{Session, start, stop}
use twincam.CamApp.Startup.{run, start_session, capture}

-- How a session ends that has been initialised with a configuration: `start` fails, and its error is returned; or it
-- returns 0, the event loop runs, and `stop` ends it.
abbrev pub Captures :
    {S : Type 0}
    → CameraApi
    → FrameSink S
    → (Session S → Session S)
    → List StreamConfiguration
    → S
    → Session S
    → ℤ
    → Option (Session S)
    → Type 0
Captures {S} api sink ran config k idle ret session =
    (ret' : ℤ) × (s1 : Session S) × (start api sink config k idle ≡ some (ret', s1))
    × (((is_nonzero ret' ≡ true) × (ret ≡ ret') × (session ≡ some s1))
        ⊎ ((ret' ≡ pos 0)
            × (ret ≡ pos 0)
            × ((s2 : Session S) × (stop api sink (ran s1) ≡ some s2) × (session ≡ some s2))))

module _ {S : Type 0} (api : CameraApi) (sink : FrameSink S) (ran : Session S → Session S) where
  start_session-Captures :
      (k : S) (idle : Session S) (selected : Selected) (config : List StreamConfiguration)
      (r ret : ℤ) (session : Option (Session S))
      → is_nonzero r ≡ false
      → selected.config ≡ some config
      → start_session api sink ran k idle (r, selected) ≡ some (ret, session)
      → Captures api sink ran config k idle ret session
  unfolding start_session capture
  start_session-Captures k idle selected config r ret session good chosen e =
      elim (Option-cases (start api sink config k idle)) [
        | inl bad ↦ absurd (ground (arith, e, good, chosen, bad))
        | inr ((ret', s1), starts) ↦ elim (Bool-cases (is_nonzero ret')) [
          | inl failed ↦ (
            ret',
            s1,
            starts,
            inl (
              failed,
              ground (arith, e, good, chosen, starts, failed),
              ground (arith, e, good, chosen, starts, failed),
            ),
          )
          | inr fine ↦ elim (Option-cases (stop api sink (ran s1))) [
            | inl bad ↦ absurd (ground (arith, e, good, chosen, starts, fine, bad))
            | inr (s2, stops) ↦ (
              ret',
              s1,
              starts,
              inr (
                not_nonzero ret' fine,
                ground (arith, e, good, chosen, starts, fine, stops),
                (s2, stops, ground (arith, e, good, chosen, starts, fine, stops)),
              ),
            )
          ]
        ]
      ]

  -- `run` makes a session if there are cameras that are not only listed. It returns 0 without one, and an error if
  -- the session's `init` fails; otherwise the session captures with the configuration that `init` has chosen.
  pub run-cases :
      (print : Bool) (opts : Options) (n : ℕ) (k : S) (idle : Session S) (ret : ℤ)
      (session : Option (Session S))
      → run api sink ran print opts n k idle ≡ some (ret, session)
      → ((print || n == 0 ≡ true) × (ret ≡ pos 0) × (session ≡ none))
        ⊎ ((print || n == 0 ≡ false)
            × (((is_nonzero (init api opts n new_session).0 ≡ true)
                  × (is_nonzero ret ≡ true)
                  × (session ≡ none))
                ⊎ (((init api opts n new_session).0 ≡ pos 0)
                    × ((config : List StreamConfiguration) × ((init api opts n new_session).1.config
                          ≡ some config)
                        × Captures api sink ran config k idle ret session))))
  unfolding run start_session
  run-cases true opts n k idle ret session e = inl (refl, ground (arith, e), ground (arith, e))
  run-cases false opts zero k idle ret session e = inl (refl, ground (arith, e), ground (arith, e))
  run-cases false opts (suc n) k idle ret session e = inr (
    ground arith,
    elim (init-Tried api opts (suc n)) [
      | inr (bad, empty) ↦ inl (bad, ground (arith, e, bad), ground (arith, e, bad))
      | inl (done, holds) ↦ elim (Option-cases (init api opts (suc n) new_session).1.config) [
        | inl missing ↦ absurd (ground (arith, holds.configured, missing))
        | inr (config, chosen) ↦ inr (
          done,
          (
            config,
            chosen,
            start_session-Captures k idle (init api opts (suc n) new_session).1 config
                (init api opts (suc n) new_session).0 ret session (ap is_nonzero done) chosen
                (ground (arith, e)),
          ),
        )
      ]
    ],
  )
