-- ===== src/FirstFrame/Device/Setup.antt =====
-- `open_device` and `init_device` of first_frame (src/first_frame.c) keep to the protocol.
use twincam.Base.{
  ℕ, zero, suc, ◌+◌, ◌≤◌, ◌≡◌, refl, true, ◌&&◌, [], ◌∷◌, ◌++◌, length, length-append, arith,
  Option-cases, inl, inr,
}
use twincam.FirstFrame.State.{
  IoMethod, io_method_read, io_method_mmap, io_method_userptr, Globals, requested, mapped,
  allocated, World, tick, log, querybuf, Kernel,
}
use twincam.FirstFrame.Capture.{must}
use twincam.FirstFrame.Capture.Conformance.{must-On}
use twincam.FirstFrame.Device.{add_buffer, new_array, alloc_buffers, map_buffers}
use twincam.FirstFrame.Protocol.{
  Device, fresh, Holds, verdict, Ensures, Ensures-bind, Holds-step, Holds-map, On, On-Fine, accept,
  is_mmap,
}
use twincam.FirstFrame.Protocol.Stages.{Shaped, IsIdle, starts-append}

-- The device is open, and nothing more.
abbrev pub IsOpened : Device → Type 0
IsOpened d = d ≡ record fresh { is_open = true }

-- Buffers have been requested.
abbrev pub IsRequested : IoMethod → ℕ → Device → Type 0
IsRequested io n d = d ≡ record fresh { is_open = true; memory = io; count = n }

-- The buffers of the globals are there, and the driver has granted `n` more.
abbrev pub Growing : Globals → ℕ → Device → Type 0
Growing g n d = IsIdle g d × (g.n_buffers + n ≤ d.count)

-- A driver grants at least four user pointers; the other methods ask for nothing.
abbrev pub Grants : IoMethod → Kernel → Type 0
Grants io_method_read k = Unit
Grants io_method_mmap k = Unit
Grants io_method_userptr k = (t : ℕ) → 4 ≤ k.granted t

-- The globals after the setup: the buffers are there, and the settings are as they were.
abbrev pub Ready : Globals → ℕ → Globals → World → Type 0
Ready g f g' w = Shaped g' × (g'.io ≡ g.io) × (g'.frame_count ≡ g.frame_count) × On (IsIdle g') f w

pub requested_ok :
    (io : IoMethod) (n : ℕ) (d : Device)
    → IsOpened d
    → Holds (IsRequested io n) (accept (requested io n) d)
requested_ok io n d e = rw (Holds, e) refl

module _ (g : Globals) where
  pub array_Growing :
      (a n : ℕ) (d : Device)
      → IsRequested g.io n d
      → Holds (Growing (new_array a g) n) (accept (allocated a) d)
  array_Growing a n d e =
      rw (Holds, e)
        (
          record {
            setup = record { is_open = refl; memory = refl; counted = omega arith; owned = refl };
            quiet = refl;
            empty = λ i. refl;
          },
          omega arith,
        )

  add_Growing :
      (a size n : ℕ) (d : Device)
      → Growing g (suc n) d
      → Growing (add_buffer a size g) n (record d { owned = d.owned ++ (a ∷ []) })
  add_Growing a size n d (s, more) = (
    record {
      setup = record {
        is_open = s.setup.is_open;
        memory = s.setup.memory;
        counted = omega (arith, more);
        owned =
            rw (s.setup.owned, starts-append g.buffers (record { start = a; length = size })) refl;
      };
      quiet = s.quiet;
      empty = s.empty;
    },
    omega (arith, more),
  )

  mapped_Growing :
      (a size n : ℕ) (d : Device)
      → g.io ≡ io_method_mmap
      → Growing g (suc n) d
      → Holds (Growing (add_buffer a size g) n) (accept (mapped a) d)
  mapped_Growing a size n d io (s, more) =
      let allowed : (d.is_open && is_mmap d.memory) ≡ true =
        ground (arith, s.setup.is_open, s.setup.memory, io) in
      rw (Holds, allowed) (add_Growing a size n d (s, more))

length_add :
    (a size : ℕ) (g : Globals)
    → g.n_buffers ≡ length g.buffers
    → suc g.n_buffers ≡ length (add_buffer a size g).buffers
length_add a size g e =
    omega (arith, length-append g.buffers (record { start = a; length = size } ∷ []))

-- What a loop that adds buffers gives.
abbrev pub Filled : Globals → ℕ → Globals → World → Type 0
Filled g f g' w =
    (g'.n_buffers ≡ length g'.buffers)
    × (g'.io ≡ g.io)
    × (g'.frame_count ≡ g.frame_count)
    × On (IsIdle g') f w

full : (g : Globals) (f : ℕ) (w : World) → On (Growing g 0) f w → On (IsIdle g) f w
full g f w h = (Holds-map (Growing g 0) (IsIdle g) (verdict w.events) (λ d s. s.0) h.0, h.1)

module _ (k : Kernel) (fuel f : ℕ) where
  pub map_buffers-Filled :
      (n : ℕ) (g : Globals) (w : World)
      → g.io ≡ io_method_mmap
      → g.n_buffers ≡ length g.buffers
      → On (Growing g n) f w
      → Ensures (Filled g f) (map_buffers k fuel n g w)
  unfolding map_buffers
  map_buffers-Filled zero g w io s h = (s, refl, refl, full g f w h)
  map_buffers-Filled (suc n) g w io s h =
      Ensures-bind (λ (_ : Unit {0}) w'. On (Growing g (suc n)) f w') _
        (must k fuel (querybuf g.n_buffers) w) _
        (must-On k (Growing g (suc n)) f fuel (querybuf g.n_buffers) w h)
        λ _ w' h'.
          let size = k.query_length w'.now in
          elim (Option-cases (k.mmap w'.now)) [
            | inl bad ↦ rw (Ensures, bad) (On-Fine (Growing g (suc n)) f w' h')
            | inr (a, good) ↦
                rw (Ensures, good)
                  (map_buffers-Filled n (add_buffer a size g) (log (mapped a) (tick w')) io
                    (length_add a size g s)
                    (
                      Holds-step (Growing g (suc n)) (Growing (add_buffer a size g) n) (mapped a)
                          (verdict w'.events) h'.0 (λ d s'. mapped_Growing g a size n d io s'),
                      h'.1,
                    ))
          ]

  pub alloc_buffers-Filled :
      (n size : ℕ) (g : Globals) (w : World)
      → g.n_buffers ≡ length g.buffers
      → On (Growing g n) f w
      → Ensures (Filled g f) (alloc_buffers k n size g w)
  unfolding alloc_buffers
  alloc_buffers-Filled zero size g w s h = (s, refl, refl, full g f w h)
  alloc_buffers-Filled (suc n) size g w s h = elim (Option-cases (k.malloc w.now)) [
    | inl bad ↦ rw (Ensures, bad) (On-Fine (Growing g (suc n)) f w h)
    | inr (a, good) ↦
        rw (Ensures, good)
          (alloc_buffers-Filled n size (add_buffer a size g) (log (allocated a) (tick w))
            (length_add a size g s)
            (
              Holds-step (Growing g (suc n)) (Growing (add_buffer a size g) n) (allocated a)
                  (verdict w.events) h.0 (λ d s'. add_Growing g a size n d s'),
              h.1,
            ))
  ]
