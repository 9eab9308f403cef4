-- ===== src/FirstFrame/Device/Buffers.antt =====
-- `init_read`, `init_mmap` and `init_userp` of first_frame (src/first_frame.c), by the protocol.
use twincam.Base.{
  ℕ, suc, ◌≤◌, ◌≡◌, refl, sym, true, [], ◌∷◌, ltb, arith, Bool-cases, Option-cases, inl, inr,
}
use mathlib.Core.Path.{subst}
use twincam.FirstFrame.State.{
  IoMethod, io_method_read, io_method_mmap, io_method_userptr, Buffer, Globals, requested,
  allocated, World, tick, log, reqbufs, Kernel,
}
use twincam.FirstFrame.Capture.{must}
use twincam.FirstFrame.Capture.Conformance.{must-On}
use twincam.FirstFrame.Device.{new_array, init_read, request_buffers, init_mmap, init_userp}
use twincam.FirstFrame.Device.Setup.{
  IsOpened, IsRequested, Growing, Filled, requested_ok, array_Growing, map_buffers-Filled,
  alloc_buffers-Filled,
}
use twincam.FirstFrame.Protocol.{
  Device, fresh, Holds, verdict, Ensures, Ensures-bind, Holds-step, Holds-map, On, On-Fine, accept,
}
use twincam.FirstFrame.Protocol.Stages.{IsIdle}

module _ (k : Kernel) (fuel f : ℕ) where
  request_buffers-On :
      (io : IoMethod) (w : World)
      → On IsOpened f w
      → Ensures
          (λ n w'. ((t : ℕ) × (n ≡ k.granted t)) × On (IsRequested io n) f w')
          (request_buffers k fuel io w)
  unfolding request_buffers
  request_buffers-On io w h =
      Ensures-bind (λ (_ : Unit {0}) w'. On IsOpened f w') _ (must k fuel reqbufs w) _
        (must-On k IsOpened f fuel reqbufs w h)
        λ _ w' h'.
          let n = k.granted w'.now in
          (
            (w'.now, refl),
            (
              Holds-step IsOpened (IsRequested io n) (requested io n) (verdict w'.events) h'.0
                  (requested_ok io n),
              h'.1,
            ),
          )

  -- The array is allocated.
  array_On :
      (g : Globals) (a n : ℕ) (w : World)
      → On (IsRequested g.io n) f w
      → On (Growing (new_array a g) n) f (log (allocated a) (tick w))
  array_On g a n w h = (
    Holds-step (IsRequested g.io n) (Growing (new_array a g) n) (allocated a) (verdict w.events) h.0
        (array_Growing g a n),
    h.1,
  )

  pub init_mmap-Filled :
      (g : Globals) (w : World)
      → g.io ≡ io_method_mmap
      → On IsOpened f w
      → Ensures (Filled g f) (init_mmap k fuel g w)
  unfolding init_mmap
  init_mmap-Filled g w io h =
      Ensures-bind (λ n w'. ((t : ℕ) × (n ≡ k.granted t)) × On (IsRequested io_method_mmap n) f w')
        _ (request_buffers k fuel io_method_mmap w) _ (request_buffers-On io_method_mmap w h)
        λ n w' (_, h'). elim (Bool-cases (ltb n 2)) [
          | inl few ↦ rw (Ensures, few) (On-Fine (IsRequested io_method_mmap n) f w' h')
          | inr enough ↦ elim (Option-cases (k.calloc w'.now)) [
            | inl bad ↦ rw (Ensures, enough, bad) (On-Fine (IsRequested io_method_mmap n) f w' h')
            | inr (a, good) ↦
                rw (Ensures, enough, good)
                  (map_buffers-Filled k fuel f n (new_array a g) (log (allocated a) (tick w')) io
                    refl (array_On g a n w' (subst (λ m. On (IsRequested m n) f w') (sym io) h')))
          ]
        ]

  pub init_userp-Filled :
      (size : ℕ) (g : Globals) (w : World)
      → g.io ≡ io_method_userptr
      → ((t : ℕ) → 4 ≤ k.granted t)
      → On IsOpened f w
      → Ensures (Filled g f) (init_userp k fuel size g w)
  unfolding init_userp
  init_userp-Filled size g w io enough h =
      Ensures-bind
        (λ n w'. ((t : ℕ) × (n ≡ k.granted t)) × On (IsRequested io_method_userptr n) f w') _
        (request_buffers k fuel io_method_userptr w) _ (request_buffers-On io_method_userptr w h)
        λ n w' ((t, e), h'). elim (Option-cases (k.calloc w'.now)) [
          | inl bad ↦ rw (Ensures, bad) (On-Fine (IsRequested io_method_userptr n) f w' h')
          | inr (a, good) ↦
              let w1 = log (allocated a) (tick w') in
              let grown : On (Growing (new_array a g) n) f w1 =
                array_On g a n w' (subst (λ m. On (IsRequested m n) f w') (sym io) h') in
              let four : 4 ≤ n = omega (arith, enough t, e) in
              rw (Ensures, good)
                (alloc_buffers-Filled k fuel f 4 size (new_array a g) w1 refl (
                  Holds-map (Growing (new_array a g) n) (Growing (new_array a g) 4)
                      (verdict w1.events) (λ d s. (s.0, omega (arith, s.1, four))) grown.0,
                  grown.1,
                ))
        ]

  -- The array of one buffer is there, and then the buffer.
  one_buffer :
      (g : Globals) (a b size : ℕ) (d : Device)
      → g.io ≡ io_method_read
      → g.n_buffers ≡ 0
      → d ≡ record fresh { is_open = true; owned = a ∷ [] }
      → Holds
          (IsIdle (record g { array = a; buffers = record { start = b; length = size } ∷ [] }))
          (accept (allocated b) d)
  one_buffer g a b size d io none_yet e =
      rw (Holds, e)
        record {
          setup = record {
            is_open = refl;
            memory = sym io;
            counted = omega (arith, none_yet);
            owned = refl;
          };
          quiet = refl;
          empty = λ i. refl;
        }

  pub init_read-Ready :
      (size : ℕ) (g : Globals) (w : World)
      → g.io ≡ io_method_read
      → g.n_buffers ≡ 0
      → On IsOpened f w
      → Ensures
          (λ g' w'.
            ((b : Buffer) × (g'.buffers ≡ b ∷ []))
            × (g'.io ≡ g.io)
            × (g'.frame_count ≡ g.frame_count)
            × On (IsIdle g') f w')
          (init_read k size g w)
  unfolding init_read
  init_read-Ready size g w io none_yet h = elim (Option-cases (k.calloc w.now)) [
    | inl bad ↦ rw (Ensures, bad) (On-Fine IsOpened f w h)
    | inr (a, good) ↦
        let w1 = log (allocated a) (tick w) in
        let P = λ (d : Device). d ≡ record fresh { is_open = true; owned = a ∷ [] } in
        let has_array : On P f w1 = (
          Holds-step IsOpened P (allocated a) (verdict w.events) h.0 (λ d e. rw (Holds, e) refl),
          h.1,
        ) in
        elim (Option-cases (k.malloc (suc w.now))) [
          | inl bad ↦ rw (Ensures, good, bad) (On-Fine P f w1 has_array)
          | inr (b, fills) ↦
              rw (Ensures, good, fills)
                (
                  (record { start = b; length = size }, refl),
                  refl,
                  refl,
                  (
                    Holds-step P
                        (IsIdle (record g {
                          array = a;
                          buffers = record { start = b; length = size } ∷ [];
                        }))
                        (allocated b) (verdict w1.events) has_array.0
                        (λ d e. one_buffer g a b size d io none_yet e),
                    h.1,
                  ),
                )
        ]
  ]
