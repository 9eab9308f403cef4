-- ===== src/FirstFrame/Device/Opening.antt =====
-- `open_device` and `init_device` of first_frame (src/first_frame.c), from their calls on.
use twincam.Base.{
  ℕ, suc, ◌≡◌, refl, sym, ◌∙◌, true, false, ◌&&◌, Option, none, some, ◌==◌, if◌then◌else◌,
  Bool-cases, Option-cases, inl, inr,
}
use mathlib.Core.Path.{subst}
use twincam.FirstFrame.State.{
  IoMethod, io_method_read, io_method_mmap, io_method_userptr, Globals, opened, World, querycap,
  cropcap, s_crop, s_fmt, g_fmt, Kernel, ok,
}
use twincam.FirstFrame.Capture.{xioctl, must}
use twincam.FirstFrame.Capture.Conformance.{xioctl-On, must-On}
use twincam.FirstFrame.Device.{
  at_least_bytes, supports, init_read, open_device, init_mmap, init_userp, reset_crop, init_buffers,
  set_format, init_device,
}
use twincam.FirstFrame.Device.Setup.{IsOpened, Grants, Ready, Filled}
use twincam.FirstFrame.Protocol.{
  fresh, Holds, verdict, Ensures, Ensures-bind, Ensures-map, Holds-step, On, On-Fine,
}
use twincam.FirstFrame.Protocol.Stages.{Shaped, ShapedFor}
use twincam.FirstFrame.Device.Buffers.{init_mmap-Filled, init_userp-Filled, init_read-Ready}

-- `open_device` opens the device, and changes no other global.
pub open_device-On :
    (k : Kernel) (g : Globals) (w : World)
    → On (λ d. d ≡ fresh) 0 w
    → Ensures (λ g' w'. (g' ≡ record g { fd = g'.fd }) × On IsOpened 0 w') (open_device k g w)
unfolding open_device
open_device-On k g w h = elim (Option-cases (k.stat w.now)) [
  | inl bad ↦ rw (Ensures, bad) (On-Fine (λ d. d ≡ fresh) 0 w h)
  | inr (false, bad) ↦ rw (Ensures, bad) (On-Fine (λ d. d ≡ fresh) 0 w h)
  | inr (true, good) ↦ elim (Option-cases (k.open_file (suc w.now))) [
    | inl bad ↦ rw (Ensures, good, bad) (On-Fine (λ d. d ≡ fresh) 0 w h)
    | inr (fd, opens) ↦
        rw (Ensures, good, opens)
          (
            refl,
            (
              Holds-step (λ d. d ≡ fresh) IsOpened opened (verdict w.events) h.0
                  (λ d e. rw (Holds, e) refl),
              h.1,
            ),
          )
  ]
]

module _ (k : Kernel) (fuel f : ℕ) where
  init_buffers-Ready :
      (size : ℕ) (g : Globals) (w : World)
      → g.n_buffers ≡ 0
      → Grants g.io k
      → On IsOpened f w
      → Ensures (Ready g f) (init_buffers k fuel size g w)
  unfolding init_buffers
  init_buffers-Ready size g w none_yet grants h = go g.io refl grants
    where
      shape :
          (io : IoMethod)
          → g.io ≡ io
          → (g' : Globals) → (g'.io ≡ g.io)
          → ShapedFor io g'
          → Shaped g'
      shape io e g' e' s = subst (λ m. ShapedFor m g') (sym (e' ∙ e)) s

      go :
          (io : IoMethod)
          → g.io ≡ io
          → Grants io k
          → Ensures (Ready g f) (elim io [
            | io_method_read ↦ init_read k size g w
            | io_method_mmap ↦ init_mmap k fuel g w
            | io_method_userptr ↦ init_userp k fuel size g w
          ])
      go io_method_read e gr =
          Ensures-map _ _ (init_read k size g w) (init_read-Ready k fuel f size g w e none_yet h)
            λ g' w' (s, e', c, rest). (shape io_method_read e g' e' s, e', c, rest)
      go io_method_mmap e gr =
          Ensures-map (Filled g f) (Ready g f) (init_mmap k fuel g w)
            (init_mmap-Filled k fuel f g w e h)
            λ g' w' (s, e', c, rest). (shape io_method_mmap e g' e' s, e', c, rest)
      go io_method_userptr e gr =
          Ensures-map (Filled g f) (Ready g f) (init_userp k fuel size g w)
            (init_userp-Filled k fuel f size g w e gr h)
            λ g' w' (s, e', c, rest). (shape io_method_userptr e g' e' s, e', c, rest)

  reset_crop-On :
      (w : World)
      → On IsOpened f w
      → Ensures (λ (_ : Option ℕ) w'. On IsOpened f w') (reset_crop k fuel w)
  unfolding reset_crop
  reset_crop-On w h =
      Ensures-bind (λ (_ : Option ℕ) w'. On IsOpened f w') _ (xioctl k fuel cropcap w) _
        (xioctl-On k IsOpened f fuel cropcap w h) ends
    where
      ends :
          (e : Option ℕ) (w' : World)
          → On IsOpened f w'
          → Ensures
              (λ (_ : Option ℕ) w''. On IsOpened f w'')
              (elim e [ none ↦ xioctl k fuel s_crop w' | some n ↦ ok (some n, w') ])
      ends none w' h' = xioctl-On k IsOpened f fuel s_crop w' h'
      ends (some n) w' h' = h'

  -- `init_device` sets the device up by the method of the globals.
  pub init_device-Ready :
      (g : Globals) (w : World)
      → g.n_buffers ≡ 0
      → Grants g.io k
      → On IsOpened f w
      → Ensures (Ready g f) (init_device k fuel g w)
  unfolding init_device set_format
  init_device-Ready g w none_yet grants h =
      Ensures-bind (λ (_ : Unit {0}) w'. On IsOpened f w') _ (must k fuel querycap w) _
        (must-On k IsOpened f fuel querycap w h)
        λ _ w1 h1.
          let c = k.capabilities w1.now in
          elim (Bool-cases (c.video_capture && supports g.io c)) [
            | inr bad ↦ rw (Ensures, bad) (On-Fine IsOpened f w1 h1)
            | inl good ↦
                rw (Ensures, good)
                  (Ensures-bind (λ (_ : Option ℕ) w'. On IsOpened f w') _ (reset_crop k fuel w1) _
                    (reset_crop-On w1 h1)
                    λ _ w2 h2.
                      Ensures-bind (λ (_ : Unit {0}) w'. On IsOpened f w') _
                        (must k fuel (if g.force_format == 0 then g_fmt else s_fmt) w2) _
                        (must-On k IsOpened f fuel (if g.force_format == 0 then g_fmt else s_fmt) w2
                          h2)
                        λ _ w3 h3.
                          init_buffers-Ready (at_least_bytes (k.format w3.now)).sizeimage g w3
                            none_yet grants h3)
          ]
