-- ===== src/FirstFrame/Device/Progress.antt =====
-- Opening, setting up and closing the device ends (src/first_frame.c).
use twincam.Base.{
  ℕ, zero, suc, ◌<◌, true, false, ◌&&◌, Option, none, some, List, [], ◌∷◌, ltb, ◌==◌, get_elem?,
  if◌then◌else◌, arith, Bool-cases, Option-cases, inl, inr,
}
use twincam.FirstFrame.State.{
  IoMethod, io_method_read, io_method_mmap, io_method_userptr, Buffer, Globals, unmapped, freed,
  mapped, allocated, World, tick, log, querycap, cropcap, s_crop, s_fmt, g_fmt, reqbufs, querybuf,
  Request, Kernel, ok, undefined,
}
use twincam.FirstFrame.Capture.{xioctl}
use twincam.FirstFrame.Capture.Progress.{xioctl-Ends, Answered}
use twincam.FirstFrame.Capture.Loops.{must_then}
use twincam.FirstFrame.Device.{
  add_buffer, new_array, at_least_bytes, supports, init_read, alloc_buffers, unmap_buffers,
  free_buffers, release_buffers, uninit_device, close_device, open_device, map_buffers,
  request_buffers, init_mmap, init_userp, reset_crop, init_buffers, set_format, init_device,
}
use twincam.FirstFrame.Ends.{IsSettled, Ends, Anything, Ends-bind, Ends-map}

module _ (k : Kernel) where
  pub open_device-Ends :
      (g : Globals) (w : World) → Ends (Anything {A = Globals}) (open_device k g w)
  unfolding open_device
  open_device-Ends g w = elim (Option-cases (k.stat w.now)) [
    | inl bad ↦ rw (Ends, bad) tt
    | inr (false, bad) ↦ rw (Ends, bad) tt
    | inr (true, good) ↦ elim (Option-cases (k.open_file (suc w.now))) [
      | inl bad ↦ rw (Ends, good, bad) tt
      | inr (fd, opens) ↦ rw (Ends, good, opens) tt
    ]
  ]

  pub close_device-Ends :
      (g : Globals) (w : World) → Ends (Anything {A = Globals}) (close_device k g w)
  unfolding close_device
  close_device-Ends g w = elim (Bool-cases (k.close w.now)) [
    | inl good ↦ rw (Ends, good) tt
    | inr bad ↦ rw (Ends, bad) tt
  ]

  unmap_buffers-Ends :
      (n : ℕ) (bs : List Buffer) (w : World)
      → Ends (Anything {A = Unit {0}}) (unmap_buffers k n bs w)
  unfolding unmap_buffers
  unmap_buffers-Ends zero bs w = tt
  unmap_buffers-Ends (suc n) [] w = tt
  unmap_buffers-Ends (suc n) (b ∷ bs) w = elim (Bool-cases (k.munmap w.now)) [
    | inl good ↦ rw (Ends, good) (unmap_buffers-Ends n bs (log (unmapped b.start) (tick w)))
    | inr bad ↦ rw (Ends, bad) tt
  ]

  free_buffers-Ends :
      (n : ℕ) (bs : List Buffer) (w : World)
      → Ends (Anything {A = Unit {0}}) (free_buffers k n bs w)
  unfolding free_buffers
  free_buffers-Ends zero bs w = tt
  free_buffers-Ends (suc n) [] w = tt
  free_buffers-Ends (suc n) (b ∷ bs) w = free_buffers-Ends n bs (log (freed b.start) w)

  release_buffers-Ends :
      (g : Globals) (w : World) → Ends (Anything {A = Unit {0}}) (release_buffers k g w)
  unfolding release_buffers
  release_buffers-Ends g w = go g.io (get_elem? g.buffers 0)
    where
      go :
          (io : IoMethod) (first : Option Buffer)
          → Ends (Anything {A = Unit {0}}) (elim io [
            | io_method_read ↦ elim first [
              | none ↦ undefined
              | some b ↦ ok (tt, log (freed b.start) w)
            ]
            | io_method_mmap ↦ unmap_buffers k g.n_buffers g.buffers w
            | io_method_userptr ↦ free_buffers k g.n_buffers g.buffers w
          ])
      go io_method_read none = tt
      go io_method_read (some b) = tt
      go io_method_mmap first = unmap_buffers-Ends g.n_buffers g.buffers w
      go io_method_userptr first = free_buffers-Ends g.n_buffers g.buffers w

  pub uninit_device-Ends :
      (g : Globals) (w : World) → Ends (Anything {A = Unit {0}}) (uninit_device k g w)
  unfolding uninit_device
  uninit_device-Ends g w =
      Ends-bind (Anything {A = Unit {0}}) _ (release_buffers k g w) _ (release_buffers-Ends g w)
        λ _ w' _. tt

  alloc_buffers-Ends :
      (n size : ℕ) (g : Globals) (w : World)
      → Ends (Anything {A = Globals}) (alloc_buffers k n size g w)
  unfolding alloc_buffers
  alloc_buffers-Ends zero size g w = tt
  alloc_buffers-Ends (suc n) size g w = elim (Option-cases (k.malloc w.now)) [
    | inl bad ↦ rw (Ends, bad) tt
    | inr (a, good) ↦
        rw (Ends, good)
          (alloc_buffers-Ends n size (add_buffer a size g) (log (allocated a) (tick w)))
  ]

  init_read-Ends :
      (size : ℕ) (g : Globals) (w : World) → Ends (Anything {A = Globals}) (init_read k size g w)
  unfolding init_read
  init_read-Ends size g w = elim (Option-cases (k.calloc w.now)) [
    | inl bad ↦ rw (Ends, bad) tt
    | inr (a, good) ↦ elim (Option-cases (k.malloc (suc w.now))) [
      | inl bad ↦ rw (Ends, good, bad) tt
      | inr (b, fills) ↦ rw (Ends, good, fills) tt
    ]
  ]

module _ (k : Kernel) (from : ℕ) (settled : IsSettled k from) (fuel : ℕ)
    (enough : from < fuel) where
  map_buffers-Ends :
      (n : ℕ) (g : Globals) (w : World) → Ends (Anything {A = Globals}) (map_buffers k fuel n g w)
  unfolding map_buffers
  map_buffers-Ends zero g w = tt
  map_buffers-Ends (suc n) g w =
      must_then k from settled fuel enough (querybuf g.n_buffers) w _ λ w'.
        elim (Option-cases (k.mmap w'.now)) [
          | inl bad ↦ rw (Ends, bad) tt
          | inr (a, good) ↦
              rw (Ends, good)
                (map_buffers-Ends n (add_buffer a (k.query_length w'.now) g)
                  (log (mapped a) (tick w')))
        ]

  request_buffers-Ends :
      (io : IoMethod) (w : World) → Ends (Anything {A = ℕ}) (request_buffers k fuel io w)
  unfolding request_buffers
  request_buffers-Ends io w = must_then k from settled fuel enough reqbufs w _ λ w'. tt

  init_mmap-Ends : (g : Globals) (w : World) → Ends (Anything {A = Globals}) (init_mmap k fuel g w)
  unfolding init_mmap
  init_mmap-Ends g w =
      Ends-bind (Anything {A = ℕ}) _ (request_buffers k fuel io_method_mmap w) _
        (request_buffers-Ends io_method_mmap w)
        λ n w' _. elim (Bool-cases (ltb n 2)) [
          | inl few ↦ rw (Ends, few) tt
          | inr many ↦ elim (Option-cases (k.calloc w'.now)) [
            | inl bad ↦ rw (Ends, many, bad) tt
            | inr (a, good) ↦
                rw (Ends, many, good)
                  (map_buffers-Ends n (new_array a g) (log (allocated a) (tick w')))
          ]
        ]

  init_userp-Ends :
      (size : ℕ) (g : Globals) (w : World)
      → Ends (Anything {A = Globals}) (init_userp k fuel size g w)
  unfolding init_userp
  init_userp-Ends size g w =
      Ends-bind (Anything {A = ℕ}) _ (request_buffers k fuel io_method_userptr w) _
        (request_buffers-Ends io_method_userptr w)
        λ n w' _. elim (Option-cases (k.calloc w'.now)) [
          | inl bad ↦ rw (Ends, bad) tt
          | inr (a, good) ↦
              rw (Ends, good)
                (alloc_buffers-Ends k 4 size (new_array a g) (log (allocated a) (tick w')))
        ]

  init_buffers-Ends :
      (size : ℕ) (g : Globals) (w : World)
      → Ends (Anything {A = Globals}) (init_buffers k fuel size g w)
  unfolding init_buffers
  init_buffers-Ends size g w = go g.io
    where
      go :
          (io : IoMethod)
          → Ends (Anything {A = Globals}) (elim io [
            | io_method_read ↦ init_read k size g w
            | io_method_mmap ↦ init_mmap k fuel g w
            | io_method_userptr ↦ init_userp k fuel size g w
          ])
      go io_method_read = init_read-Ends k size g w
      go io_method_mmap = init_mmap-Ends g w
      go io_method_userptr = init_userp-Ends size g w

  call_Ends : (r : Request) (w : World) → Ends (Anything {A = Option ℕ}) (xioctl k fuel r w)
  call_Ends r w =
      Ends-map (Answered k from settled r w.now) (Anything {A = Option ℕ}) (xioctl k fuel r w)
        (xioctl-Ends k from settled fuel r w (omega (arith, enough)) (omega (arith, enough)))
        (λ e w' h. tt)

  reset_crop-Ends : (w : World) → Ends (Anything {A = Option ℕ}) (reset_crop k fuel w)
  unfolding reset_crop
  reset_crop-Ends w =
      Ends-bind (Anything {A = Option ℕ}) _ (xioctl k fuel cropcap w) _ (call_Ends cropcap w)
        λ e w' _. ends e w'
    where
      ends :
          (e : Option ℕ) (w' : World)
          → Ends
              (Anything {A = Option ℕ})
              (elim e [ none ↦ xioctl k fuel s_crop w' | some n ↦ ok (some n, w') ])
      ends none w' = call_Ends s_crop w'
      ends (some n) w' = tt

  pub init_device-Ends :
      (g : Globals) (w : World) → Ends (Anything {A = Globals}) (init_device k fuel g w)
  unfolding init_device set_format
  init_device-Ends g w = must_then k from settled fuel enough querycap w _ λ w1.
      let c = k.capabilities w1.now in
      elim (Bool-cases (c.video_capture && supports g.io c)) [
        | inr bad ↦ rw (Ends, bad) tt
        | inl good ↦
            rw (Ends, good)
              (Ends-bind (Anything {A = Option ℕ}) _ (reset_crop k fuel w1) _ (reset_crop-Ends w1)
                λ _ w2 _.
                  must_then k from settled fuel enough
                    (if g.force_format == 0 then g_fmt else s_fmt) w2 _
                    λ w3. init_buffers-Ends (at_least_bytes (k.format w3.now)).sizeimage g w3)
      ]
