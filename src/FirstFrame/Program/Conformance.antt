-- ===== src/FirstFrame/Program/Conformance.antt =====
-- A whole run of first_frame (src/first_frame.c) against the protocol.
use mathlib.Core.Path.{subst}
use twincam.Base.{
  ℕ, suc, ◌<◌, ◌≡◌, refl, sym, ◌∙◌, ap, ◌⊎◌, inl, inr, Bool, true, false, none, some, List, [], ◌∷◌,
  ℤ, pos, negsuc, length, lt→ltb, if◌then◌else◌, Bool-cases,
}
use twincam.CamApp.Startup.{poll, turns}
use twincam.FirstFrame.State.{
  IoMethod, io_method_read, io_method_mmap, io_method_userptr, Globals, log_closed, World, log,
  Kernel, Outcome,
}
use twincam.FirstFrame.Capture.{mainloop, start_capturing, stop_capturing}
use twincam.FirstFrame.Capture.Frames.{CaptureFor, mainloop-On}
use twincam.FirstFrame.Capture.Streams.{start_capturing-On, stop_capturing-On}
use twincam.FirstFrame.Device.{open_device, init_device, uninit_device, close_device}
use twincam.FirstFrame.Device.Setup.{IsOpened, Grants, Ready}
use twincam.FirstFrame.Device.Opening.{open_device-On, init_device-Ready}
use twincam.FirstFrame.Device.Release.{IsReleased, uninit_device-On, close_device-On}
use twincam.FirstFrame.Program.{
  Opt, to_u32, video0, initial, handle, parse_options, wait_for, grab_all, grab_with, main,
}
use twincam.FirstFrame.Protocol.{
  fresh, verdict, Ensures, Ensures-bind, Ensures-map, Holds-step, On, On-Fine,
}
use twincam.FirstFrame.Protocol.Stages.{IsIdle}

-- The method that options choose, the last one, and the number of frames that they ask for.
unfoldable pub method : List Opt → IoMethod → IoMethod
method [] io = io
method (Opt.mmap ∷ os) io = method os io_method_mmap
method (Opt.read ∷ os) io = method os io_method_read
method (Opt.userp ∷ os) io = method os io_method_userptr
method (Opt.device name ∷ os) io = method os io
method (Opt.help ∷ os) io = method os io
method (Opt.syslog ∷ os) io = method os io
method (Opt.output ∷ os) io = method os io
method (Opt.format ∷ os) io = method os io
method (Opt.unknown ∷ os) io = method os io
method (Opt.count z ∷ os) io = method os io

pub wanted : List Opt → ℕ → ℕ
wanted [] n = n
wanted (Opt.count (some z) ∷ os) n = wanted os (to_u32 z)
wanted (Opt.count none ∷ os) n = wanted os n
wanted (Opt.mmap ∷ os) n = wanted os n
wanted (Opt.read ∷ os) n = wanted os n
wanted (Opt.userp ∷ os) n = wanted os n
wanted (Opt.device name ∷ os) n = wanted os n
wanted (Opt.help ∷ os) n = wanted os n
wanted (Opt.syslog ∷ os) n = wanted os n
wanted (Opt.output ∷ os) n = wanted os n
wanted (Opt.format ∷ os) n = wanted os n
wanted (Opt.unknown ∷ os) n = wanted os n

-- Device names fit into `dev_name` with their zero.
abbrev pub ShortNames : List Opt → Type 0
ShortNames [] = Unit
ShortNames (Opt.device name ∷ os) = (length name < 16) × ShortNames os
ShortNames (o ∷ os) = ShortNames os

-- What a run gives: all is released after the frames that were asked for, or nothing has been found and
-- nothing been done.
abbrev pub RunsWell : ℕ → ℤ → World → Type 0
RunsWell n ret w =
    ((ret ≡ pos 0) × On (IsReleased false) n w) ⊎ ((ret ≡ negsuc 0) × (w.events ≡ []))

end_On :
    (g : Globals) (n : ℕ) (w : World)
    → On (IsReleased false) n w
    → On (IsReleased false) n (if g.to_syslog then log log_closed w else w)
end_On g n w h = elim (Bool-cases g.to_syslog) [
  | inl yes_log ↦ rw yes_log (
    Holds-step (IsReleased false) (IsReleased false) log_closed (verdict w.events) h.0 (λ d r. r),
    h.1,
  )
  | inr no_log ↦ rw no_log h
]

module _ (k : Kernel) (fuel : ℕ) where
  grab_all-RunsWell :
      (g : Globals) (w : World)
      → g.n_buffers ≡ 0
      → Grants g.io k
      → On (λ d. d ≡ fresh) 0 w
      → Ensures (RunsWell g.frame_count) (grab_all k fuel g w)
  unfolding grab_all
  grab_all-RunsWell g w none_yet grants h =
      Ensures-bind (λ g' w'. (g' ≡ record g { fd = g'.fd }) × On IsOpened 0 w') _
        (open_device k g w) _ (open_device-On k g w h)
        λ g1 w1 (e1, h1).
          let io1 : g1.io ≡ g.io = ap (λ (x : Globals). x.io) e1 in
          Ensures-bind (Ready g1 0) _ (init_device k fuel g1 w1) _
            (init_device-Ready k fuel 0 g1 w1 (ap (λ (x : Globals). x.n_buffers) e1 ∙ none_yet)
              (subst (λ io. Grants io k) (sym io1) grants) h1)
            λ g2 w2 (s, io2, count2, h2).
              Ensures-bind (λ (_ : Unit {0}) w'. On (CaptureFor g2 g2.io) 0 w') _
                (start_capturing k fuel g2 w2) _ (start_capturing-On k fuel g2 0 w2 s h2)
                λ _ w3 h3.
                  Ensures-bind (λ (_ : Unit {0}) w'. On (CaptureFor g2 g2.io) g2.frame_count w') _
                    (mainloop k fuel g2 w3) _ (mainloop-On k g2 fuel s w3 h3)
                    λ _ w4 h4.
                      Ensures-bind (λ (_ : Unit {0}) w'. On (IsIdle g2) g2.frame_count w') _
                        (stop_capturing k fuel g2 w4) _
                        (stop_capturing-On k fuel g2 g2.frame_count w4 h4)
                        λ _ w5 h5.
                          Ensures-bind (λ (_ : Unit {0}) w'. On (IsReleased true) g2.frame_count w')
                            _ (uninit_device k g2 w5) _
                            (uninit_device-On k g2 g2.frame_count w5 s h5)
                            λ _ w6 h6.
                              Ensures-bind
                                (λ (_ : Globals) w'. On (IsReleased false) g2.frame_count w') _
                                (close_device k g2 w6) _ (close_device-On k g2 g2.frame_count w6 h6)
                                λ g3 w7 h7.
                                  let same : g2.frame_count ≡ g.frame_count =
                                    count2 ∙ ap (λ (x : Globals). x.frame_count) e1 in
                                  inl (
                                    refl,
                                    end_On g3 g.frame_count w7
                                        (subst (λ n. On (IsReleased false) n w7) same h7),
                                  )

-- The options leave the outside as it is, and no buffer is made.
abbrev Parsed : List Opt → Globals → World → Globals → World → Type 0
Parsed os g w g' w' =
    (g'.n_buffers ≡ g.n_buffers)
    × (g'.io ≡ method os g.io)
    × (g'.frame_count ≡ wanted os g.frame_count)
    × (w' ≡ w)

parse_options-Parsed :
    (os : List Opt) (g : Globals) (w : World)
    → ShortNames os
    → On (λ d. d ≡ fresh) 0 w
    → Ensures (Parsed os g w) (parse_options os g w)
unfolding parse_options handle method wanted
parse_options-Parsed [] g w s h = (refl, refl, refl, refl)
parse_options-Parsed (Opt.device name ∷ os) g w (short, s) h =
    rw (Ensures, lt→ltb (length name) 16 short)
      (parse_options-Parsed os (record g { dev_name = name }) w s h)
parse_options-Parsed (Opt.help ∷ os) g w s h = On-Fine (λ d. d ≡ fresh) 0 w h
parse_options-Parsed (Opt.mmap ∷ os) g w s h =
    parse_options-Parsed os (record g { io = io_method_mmap }) w s h
parse_options-Parsed (Opt.read ∷ os) g w s h =
    parse_options-Parsed os (record g { io = io_method_read }) w s h
parse_options-Parsed (Opt.syslog ∷ os) g w s h =
    parse_options-Parsed os (record g { to_syslog = true }) w s h
parse_options-Parsed (Opt.userp ∷ os) g w s h =
    parse_options-Parsed os (record g { io = io_method_userptr }) w s h
parse_options-Parsed (Opt.output ∷ os) g w s h =
    parse_options-Parsed os (record g { out_buf = suc g.out_buf }) w s h
parse_options-Parsed (Opt.format ∷ os) g w s h =
    parse_options-Parsed os (record g { force_format = suc g.force_format }) w s h
parse_options-Parsed (Opt.unknown ∷ os) g w s h = On-Fine (λ d. d ≡ fresh) 0 w h
parse_options-Parsed (Opt.count none ∷ os) g w s h = On-Fine (λ d. d ≡ fresh) 0 w h
parse_options-Parsed (Opt.count (some z) ∷ os) g w s h =
    parse_options-Parsed os (record g { frame_count = to_u32 z }) w s h

-- Nothing has been done yet.
abbrev Untouched : World → Type 0
Untouched w = w.events ≡ []

Untouched-On : (w : World) → Untouched w → On (λ d. d ≡ fresh) 0 w
Untouched-On w e = rw (On, e) (refl, refl)

wait_for-RunsWell :
    (look : ℕ → Bool) (n : ℕ) (next : World → Outcome ℤ) (w : World)
    → ((w' : World) → Untouched w' → Ensures (RunsWell n) (next w'))
    → Untouched w
    → Ensures (RunsWell n) (wait_for look next w)
unfolding wait_for
wait_for-RunsWell look n next w go e =
    let (found, time) = poll look turns w.now in
    let w1 : World = record w { now = time } in
    elim (Bool-cases found) [
      | inl there ↦ rw (Ensures, there) (go w1 e)
      | inr nothing ↦ rw (Ensures, nothing) (inr (refl, e))
    ]

module _ (k : Kernel) (fuel : ℕ) (os : List Opt) (short : ShortNames os)
    (grants : Grants (method os io_method_mmap) k) where
  grab_with-RunsWell :
      (w : World) → Untouched w → Ensures (RunsWell (wanted os 1)) (grab_with k fuel os initial w)
  unfolding grab_with
  grab_with-RunsWell w e =
      let g : Globals = record initial { dev_name = video0 } in
      Ensures-bind (Parsed os g w) _ (parse_options os g w) _
        (parse_options-Parsed os g w short (Untouched-On w e))
        λ g' w' (none_yet, io, count, same).
          Ensures-map (RunsWell g'.frame_count) (RunsWell (wanted os 1)) (grab_all k fuel g' w')
            (grab_all-RunsWell k fuel g' w' none_yet (subst (λ m. Grants m k) (sym io) grants)
              (Untouched-On w' (ap (λ (x : World). x.events) same ∙ e)))
            (λ ret w'' h. subst (λ n. RunsWell n ret w'') count h)

  -- Suppose that device names fit into `dev_name`, and that where user pointers are chosen the driver grants
  -- at least four. Then a run of first_frame never reads past the array of its buffers and never breaks a rule
  -- of the protocol before the driver does: where it exits or aborts, and where it returns. It returns 0 or
  -- -1. If it returns 0 then as many frames were shown as the last `-c` asks for, and unless the driver broke
  -- the rules the device is closed and all memory has been released; if it returns -1 then it has done nothing.
  pub main-RunsWell :
      (now : ℕ)
      → Ensures (RunsWell (wanted os 1)) (main k fuel os (record { now = now; events = [] }))
  unfolding main
  main-RunsWell now =
      wait_for-RunsWell k.sysfs_exists (wanted os 1) _ _
        (λ w1 e1.
          wait_for-RunsWell k.video_exists (wanted os 1) _ w1
            (λ w2 e2.
              wait_for-RunsWell k.media_exists (wanted os 1) _ w2
                (λ w3 e3. grab_with-RunsWell w3 e3) e2)
            e1)
        refl
