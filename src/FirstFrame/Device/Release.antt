-- ===== src/FirstFrame/Device/Release.antt =====
-- `uninit_device` and `close_device` of first_frame (src/first_frame.c) give back all that there is.
use twincam.Base.{
  ℕ, zero, suc, ◌≡◌, refl, ◌∙◌, Bool, true, false, not, ◌&&◌, List, [], ◌∷◌, length, arith,
  get_elem?, some, Bool-cases, inl, inr, ap, none,
}
use mathlib.Core.Path.{subst}
use twincam.FirstFrame.State.{
  IoMethod, io_method_read, io_method_mmap, io_method_userptr, Buffer, Globals, closed, unmapped,
  freed, World, tick, log, Kernel, ok, undefined,
}
use twincam.FirstFrame.Device.{
  unmap_buffers, free_buffers, release_buffers, uninit_device, close_device,
}
use twincam.FirstFrame.Protocol.{
  Device, mem, remove, Holds, verdict, Ensures, Ensures-bind, Holds-step, Holds-map, On, On-Fine,
  accept,
}
use twincam.FirstFrame.Protocol.Stages.{Shaped, ShapedFor, IsIdle, starts, remove-starts}

-- The device is still open and quiet, and the program owns the array and these buffers.
record IsReleasing (g : Globals) (bs : List Buffer) (d : Device) : Type 0 where
  is_open : d.is_open ≡ true
  quiet : d.streaming ≡ false
  owned : d.owned ≡ g.array ∷ starts bs

-- The program owns nothing, and the device is in the state given.
pub record IsReleased (is_open_still : Bool) (d : Device) : Type 0 where
  pub is_open : d.is_open ≡ is_open_still
  pub quiet : d.streaming ≡ false
  pub owned : d.owned ≡ []

module _ (g : Globals) where
  release_first :
      (b : Buffer) (bs : List Buffer) (d : Device)
      → IsReleasing g (b ∷ bs) d
      → ((mem b.start d.owned && not d.streaming) ≡ true)
        × IsReleasing g bs (record d { owned = remove b.start d.owned })
  release_first b bs d r = (
    ground (arith, r.owned, r.quiet),
    record {
      is_open = r.is_open;
      quiet = r.quiet;
      owned = ap (remove b.start) r.owned ∙ remove-starts g.array b bs;
    },
  )

  IsReleasing-unmapped :
      (b : Buffer) (bs : List Buffer) (d : Device)
      → IsReleasing g (b ∷ bs) d
      → Holds (IsReleasing g bs) (accept (unmapped b.start) d)
  IsReleasing-unmapped b bs d r =
      let (allowed, next) = release_first b bs d r in rw (Holds, allowed) next

  IsReleasing-freed :
      (b : Buffer) (bs : List Buffer) (d : Device)
      → IsReleasing g (b ∷ bs) d
      → Holds (IsReleasing g bs) (accept (freed b.start) d)
  IsReleasing-freed b bs d r =
      let (allowed, next) = release_first b bs d r in rw (Holds, allowed) next

  IsReleased-freed :
      (d : Device) → IsReleasing g [] d → Holds (IsReleased true) (accept (freed g.array) d)
  IsReleased-freed d r =
      let allowed : (mem g.array d.owned && not d.streaming) ≡ true =
        ground (arith, r.owned, r.quiet) in
      let nothing : remove g.array d.owned ≡ [] = ground (arith, r.owned) in
      rw (Holds, allowed) record { is_open = r.is_open; quiet = r.quiet; owned = nothing }

module _ (k : Kernel) (g : Globals) (f : ℕ) where
  unmap_buffers-On :
      (n : ℕ) (bs : List Buffer) (w : World)
      → n ≡ length bs
      → On (IsReleasing g bs) f w
      → Ensures (λ (_ : Unit {0}) w'. On (IsReleasing g []) f w') (unmap_buffers k n bs w)
  unfolding unmap_buffers
  unmap_buffers-On zero [] w e h = h
  unmap_buffers-On zero (b ∷ bs) w e h = absurd (omega (arith, e))
  unmap_buffers-On (suc n) [] w e h = absurd (omega (arith, e))
  unmap_buffers-On (suc n) (b ∷ bs) w e h = elim (Bool-cases (k.munmap w.now)) [
    | inr bad ↦ rw (Ensures, bad) (On-Fine (IsReleasing g (b ∷ bs)) f w h)
    | inl good ↦
        rw (Ensures, good)
          (unmap_buffers-On n bs (log (unmapped b.start) (tick w)) (omega (arith, e)) (
            Holds-step (IsReleasing g (b ∷ bs)) (IsReleasing g bs) (unmapped b.start)
                (verdict w.events) h.0 (IsReleasing-unmapped g b bs),
            h.1,
          ))
  ]

  free_buffers-On :
      (n : ℕ) (bs : List Buffer) (w : World)
      → n ≡ length bs
      → On (IsReleasing g bs) f w
      → Ensures (λ (_ : Unit {0}) w'. On (IsReleasing g []) f w') (free_buffers k n bs w)
  unfolding free_buffers
  free_buffers-On zero [] w e h = h
  free_buffers-On zero (b ∷ bs) w e h = absurd (omega (arith, e))
  free_buffers-On (suc n) [] w e h = absurd (omega (arith, e))
  free_buffers-On (suc n) (b ∷ bs) w e h =
      free_buffers-On n bs (log (freed b.start) w) (omega (arith, e)) (
        Holds-step (IsReleasing g (b ∷ bs)) (IsReleasing g bs) (freed b.start) (verdict w.events)
            h.0 (IsReleasing-freed g b bs),
        h.1,
      )

  release_buffers-On :
      (w : World)
      → Shaped g
      → On (IsReleasing g g.buffers) f w
      → Ensures (λ (_ : Unit {0}) w'. On (IsReleasing g []) f w') (release_buffers k g w)
  unfolding release_buffers
  release_buffers-On w s h = go g.io s
    where
      one :
          (b : Buffer)
          → g.buffers ≡ b ∷ []
          → Ensures
              (λ (_ : Unit {0}) w'. On (IsReleasing g []) f w')
              (ok (tt, log (freed b.start) w))
      one b e =
          let h' : On (IsReleasing g (b ∷ [])) f w = subst (λ bs. On (IsReleasing g bs) f w) e h in
          (
            Holds-step (IsReleasing g (b ∷ [])) (IsReleasing g []) (freed b.start)
                (verdict w.events) h'.0 (IsReleasing-freed g b []),
            h'.1,
          )

      go :
          (io : IoMethod)
          → ShapedFor io g
          → Ensures
              (λ (_ : Unit {0}) w'. On (IsReleasing g []) f w')
              (elim io [
                | io_method_read ↦ elim (get_elem? g.buffers 0) [
                  | none ↦ undefined
                  | some b ↦ ok (tt, log (freed b.start) w)
                ]
                | io_method_mmap ↦ unmap_buffers k g.n_buffers g.buffers w
                | io_method_userptr ↦ free_buffers k g.n_buffers g.buffers w
              ])
      go io_method_read (b, e) =
          let at : get_elem? g.buffers 0 ≡ some b = ap (λ l. get_elem? l 0) e in
          rw (Ensures, at) (one b e)
      go io_method_mmap s' = unmap_buffers-On g.n_buffers g.buffers w s' h
      go io_method_userptr s' = free_buffers-On g.n_buffers g.buffers w s' h

  pub uninit_device-On :
      (w : World)
      → Shaped g
      → On (IsIdle g) f w
      → Ensures (λ (_ : Unit {0}) w'. On (IsReleased true) f w') (uninit_device k g w)
  unfolding uninit_device
  uninit_device-On w s h =
      let start : On (IsReleasing g g.buffers) f w = (
        Holds-map (IsIdle g) (IsReleasing g g.buffers) (verdict w.events)
            (λ d i. record { is_open = i.setup.is_open; quiet = i.quiet; owned = i.setup.owned })
            h.0,
        h.1,
      ) in
      Ensures-bind (λ (_ : Unit {0}) w'. On (IsReleasing g []) f w') _ (release_buffers k g w) _
        (release_buffers-On w s start)
        λ _ w' h'. (
          Holds-step (IsReleasing g []) (IsReleased true) (freed g.array) (verdict w'.events) h'.0
              (IsReleased-freed g),
          h'.1,
        )

  pub close_device-On :
      (w : World)
      → On (IsReleased true) f w
      → Ensures (λ (_ : Globals) w'. On (IsReleased false) f w') (close_device k g w)
  unfolding close_device
  close_device-On w h = elim (Bool-cases (k.close w.now)) [
    | inr bad ↦ rw (Ensures, bad) (On-Fine (IsReleased true) f w h)
    | inl good ↦
        rw (Ensures, good)
          (
            Holds-step (IsReleased true) (IsReleased false) closed (verdict w.events) h.0 closes,
            h.1,
          )
  ]
    where
      closes : (d : Device) → IsReleased true d → Holds (IsReleased false) (accept closed d)
      closes d r =
          let allowed : (d.is_open && not d.streaming) ≡ true =
            ground (arith, r.is_open, r.quiet) in
          rw (Holds, allowed) record { is_open = refl; quiet = r.quiet; owned = r.owned }
