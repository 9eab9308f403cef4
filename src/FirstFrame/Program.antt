-- ===== src/FirstFrame/Program.antt =====
-- The options and `main` of first_frame (src/first_frame.c). `getopt_long` is a parameter: what it gives,
-- up to its end, is a list.
pub mod Conformance
pub mod Progress
mod Tests
use twincam.Base.{
  ℕ, zero, suc, ◌+◌, ◌-◌, ◌%◌, ◌^◌, Bool, true, false, Option, none, some, List, [], ◌∷◌, ℤ, pos,
  negsuc, length, ltb, if◌then◌else◌,
}
use twincam.CamApp.Startup.{poll, turns}
use twincam.FirstFrame.State.{
  io_method_read, io_method_mmap, io_method_userptr, Globals, log_opened, log_closed, World, log,
  Kernel, Outcome, ok, exits, undefined, ◌>>=◌,
}
use twincam.FirstFrame.Capture.{mainloop, start_capturing, stop_capturing}
use twincam.FirstFrame.Device.{open_device, init_device, uninit_device, close_device}

-- An option with its argument; `count` has what `strtol` makes of it, unless that sets `errno`, and
-- `unknown` is the `default`.
pub data Opt : Type 0 where
  device : List ℕ → Opt
  help mmap read syslog userp output format unknown : Opt
  count : Option ℤ → Opt

-- The 32 bits of an integer.
pub to_u32 : ℤ → ℕ
to_u32 (pos n) = n % 2 ^ 32
to_u32 (negsuc n) = 2 ^ 32 - 1 - n % 2 ^ 32

-- `/dev/video0`
abbrev pub video0 : List ℕ
video0 = 47 ∷ 100 ∷ 101 ∷ 118 ∷ 47 ∷ 118 ∷ 105 ∷ 100 ∷ 101 ∷ 111 ∷ 48 ∷ []

-- The globals as the file initialises them.
abbrev pub initial : Globals
initial = record {
  dev_name = [];
  io = io_method_mmap;
  fd = none;
  array = 0;
  buffers = [];
  n_buffers = 0;
  out_buf = 0;
  force_format = 0;
  frame_count = 1;
  to_syslog = false;
}

-- The `switch` of `main`. A device name that `dev_name` cannot hold with its zero is written past its end.
pub handle : Opt → Globals → World → Outcome Globals
handle (Opt.device name) g w =
    if ltb (length name) 16 then ok (record g { dev_name = name }, w) else undefined
handle Opt.help g w = exits 0 w
handle Opt.mmap g w = ok (record g { io = io_method_mmap }, w)
handle Opt.read g w = ok (record g { io = io_method_read }, w)
handle Opt.syslog g w = ok (record g { to_syslog = true }, w)
handle Opt.userp g w = ok (record g { io = io_method_userptr }, w)
handle Opt.output g w = ok (record g { out_buf = suc g.out_buf }, w)
handle Opt.format g w = ok (record g { force_format = suc g.force_format }, w)
handle (Opt.count none) g w = exits 1 w
handle (Opt.count (some z)) g w = ok (record g { frame_count = to_u32 z }, w)
handle Opt.unknown g w = exits 1 w

pub parse_options : List Opt → Globals → World → Outcome Globals
parse_options [] g w = ok (g, w)
parse_options (o ∷ os) g w = do (g1, w1) ← handle o g w; parse_options os g1 w1

-- A wait of `main`, and what follows it; it returns -1 where nothing has been found.
pub wait_for : (ℕ → Bool) → (World → Outcome ℤ) → World → Outcome ℤ
wait_for look next w =
    let (found, time) = poll look turns w.now in
    let w1 = record w { now = time } in if found then next w1 else ok (negsuc 0, w1)

module _ (k : Kernel) (fuel : ℕ) where
  -- The calls at the end of `main`.
  pub grab_all : Globals → World → Outcome ℤ
  grab_all g w = do
    (g1, w1) ← open_device k g w
    (g2, w2) ← init_device k fuel g1 w1
    (_, w3) ← start_capturing k fuel g2 w2
    (_, w4) ← mainloop k fuel g2 w3
    (_, w5) ← stop_capturing k fuel g2 w4
    (_, w6) ← uninit_device k g2 w5
    (g3, w7) ← close_device k g2 w6
    ok (pos 0, if g3.to_syslog then log log_closed w7 else w7)

  -- What follows the waits of `main`.
  pub grab_with : List Opt → Globals → World → Outcome ℤ
  grab_with opts g w = do
    (g1, w1) ← parse_options opts (record g { dev_name = video0 }) w
    grab_all g1 w1

  pub main : List Opt → World → Outcome ℤ
  main opts w =
      wait_for k.sysfs_exists
        (wait_for k.video_exists (wait_for k.media_exists (grab_with opts initial)))
        (if initial.to_syslog then log log_opened w else w)
