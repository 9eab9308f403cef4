-- ===== src/FirstFrame/Program/Progress.antt =====
-- A run of first_frame (src/first_frame.c) ends.
use twincam.Base.{
  ℕ, ◌<◌, ◌≢◌, Bool, none, some, List, [], ◌∷◌, ℤ, length, ltb, Bool-cases, inl, inr,
}
use twincam.CamApp.Startup.{poll, turns}
use mathlib.Core.Path.{subst}
use twincam.FirstFrame.State.{Globals, World, Kernel, Outcome, looping}
use twincam.FirstFrame.Capture.{mainloop, start_capturing, stop_capturing}
use twincam.FirstFrame.Capture.Loops.{mainloop-Ends, start_capturing-Ends, stop_capturing-Ends}
use twincam.FirstFrame.Device.{open_device, init_device, uninit_device, close_device}
use twincam.FirstFrame.Device.Progress.{
  open_device-Ends, close_device-Ends, uninit_device-Ends, init_device-Ends,
}
use twincam.FirstFrame.Ends.{IsSettled, Ends, Anything, Ends-bind}
use twincam.FirstFrame.Program.{
  Opt, video0, initial, handle, parse_options, wait_for, grab_all, grab_with, main,
}

handle-Ends : (o : Opt) (g : Globals) (w : World) → Ends (Anything {A = Globals}) (handle o g w)
unfolding handle
handle-Ends (Opt.device name) g w = elim (Bool-cases (ltb (length name) 16)) [
  | inl short ↦ rw (Ends, short) tt
  | inr long ↦ rw (Ends, long) tt
]
handle-Ends Opt.help g w = tt
handle-Ends Opt.mmap g w = tt
handle-Ends Opt.read g w = tt
handle-Ends Opt.syslog g w = tt
handle-Ends Opt.userp g w = tt
handle-Ends Opt.output g w = tt
handle-Ends Opt.format g w = tt
handle-Ends Opt.unknown g w = tt
handle-Ends (Opt.count none) g w = tt
handle-Ends (Opt.count (some z)) g w = tt

parse_options-Ends :
    (os : List Opt) (g : Globals) (w : World) → Ends (Anything {A = Globals}) (parse_options os g w)
unfolding parse_options
parse_options-Ends [] g w = tt
parse_options-Ends (o ∷ os) g w =
    Ends-bind (Anything {A = Globals}) _ (handle o g w) _ (handle-Ends o g w)
      λ g' w' _. parse_options-Ends os g' w'

wait_for-Ends :
    (look : ℕ → Bool) (next : World → Outcome ℤ) (w : World)
    → ((w' : World) → Ends (Anything {A = ℤ}) (next w'))
    → Ends (Anything {A = ℤ}) (wait_for look next w)
unfolding wait_for
wait_for-Ends look next w go =
    let (found, time) = poll look turns w.now in
    elim (Bool-cases found) [
      | inl there ↦ rw (Ends, there) (go (record w { now = time }))
      | inr nothing ↦ rw (Ends, nothing) tt
    ]

module _ (k : Kernel) (from : ℕ) (settled : IsSettled k from) (fuel : ℕ)
    (enough : from < fuel) where
  grab_all-Ends : (g : Globals) (w : World) → Ends (Anything {A = ℤ}) (grab_all k fuel g w)
  unfolding grab_all
  grab_all-Ends g w =
      Ends-bind (Anything {A = Globals}) _ (open_device k g w) _ (open_device-Ends k g w) λ g1 w1 _.
        Ends-bind (Anything {A = Globals}) _ (init_device k fuel g1 w1) _
          (init_device-Ends k from settled fuel enough g1 w1)
          λ g2 w2 _.
            Ends-bind (Anything {A = Unit {0}}) _ (start_capturing k fuel g2 w2) _
              (start_capturing-Ends k from settled fuel enough g2 w2)
              λ _ w3 _.
                Ends-bind (Anything {A = Unit {0}}) _ (mainloop k fuel g2 w3) _
                  (mainloop-Ends k from settled fuel enough g2 w3)
                  λ _ w4 _.
                    Ends-bind (Anything {A = Unit {0}}) _ (stop_capturing k fuel g2 w4) _
                      (stop_capturing-Ends k from settled fuel enough g2 w4)
                      λ _ w5 _.
                        Ends-bind (Anything {A = Unit {0}}) _ (uninit_device k g2 w5) _
                          (uninit_device-Ends k g2 w5)
                          λ _ w6 _.
                            Ends-bind (Anything {A = Globals}) _ (close_device k g2 w6) _
                              (close_device-Ends k g2 w6) λ g3 w7 _. tt

  grab_with-Ends :
      (os : List Opt) (g : Globals) (w : World) → Ends (Anything {A = ℤ}) (grab_with k fuel os g w)
  unfolding grab_with
  grab_with-Ends os g w =
      Ends-bind (Anything {A = Globals}) _ (parse_options os (record g { dev_name = video0 }) w) _
        (parse_options-Ends os (record g { dev_name = video0 }) w) λ g' w' _. grab_all-Ends g' w'

  Ends-ne-looping : (m : Outcome ℤ) → Ends (Anything {A = ℤ}) m → m ≢ looping
  Ends-ne-looping m h e = subst (Ends (Anything {A = ℤ})) e h

  -- Suppose that from some call of the kernel on no signal interrupts a call, `select` included, and no read
  -- or dequeuing of a frame fails with EAGAIN. Then a run of first_frame ends, whatever the options and the
  -- answers are: fuel for more rounds than that number of calls is enough for each of its loops.
  pub main-ne-looping : (os : List Opt) (w : World) → main k fuel os w ≢ looping
  unfolding main
  main-ne-looping os w = Ends-ne-looping _ (
      wait_for-Ends k.sysfs_exists _ _ λ w1.
        wait_for-Ends k.video_exists _ w1
          λ w2. wait_for-Ends k.media_exists _ w2 λ w3. grab_with-Ends os initial w3)
