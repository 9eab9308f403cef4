-- ===== src/FirstFrame/Protocol.antt =====
-- What Video4Linux asks of a program, and of a driver: the life of a device, of its buffers and of the
-- memory that they need. Nothing here is taken from src/first_frame.c, which is held against it.
pub mod Stages
use twincam.Base.{
  ℕ, zero, suc, Bool, true, false, not, ◌&&◌, ◌||◌, Option, none, some, List, [], ◌∷◌, ◌++◌, ◌≡◌,
  ◌≢◌, ltb, ◌==◌, if◌then◌else◌,
}
use twincam.FirstFrame.State.{
  IoMethod, io_method_read, io_method_mmap, io_method_userptr, Event, log_opened, log_closed,
  opened, closed, requested, mapped, unmapped, allocated, freed, queued, queued_pointer, dequeued,
  stream_on, stream_off, read_into, written, shown, World, Outcome, ok, exits, aborts, undefined,
  looping, ◌>>=◌,
}

-- `in_driver` says which buffers the driver has, and `owned` are the addresses that the program has
-- mapped or allocated, the oldest first.
pub record Device : Type 0 where
  pub is_open : Bool
  pub memory : IoMethod
  pub count : ℕ
  pub in_driver : ℕ → Bool
  pub streaming : Bool
  pub owned : List ℕ

abbrev pub fresh : Device
fresh = record {
  is_open = false;
  memory = io_method_read;
  count = 0;
  in_driver = λ _. false;
  streaming = false;
  owned = [];
}

abbrev pub mem : ℕ → List ℕ → Bool
mem a [] = false
mem a (x ∷ xs) = x == a || mem a xs

-- Without its first occurrence.
abbrev pub remove : ℕ → List ℕ → List ℕ
remove a [] = []
remove a (x ∷ xs) = let rest = remove a xs in if x == a then xs else x ∷ rest

abbrev pub update : ℕ → Bool → (ℕ → Bool) → ℕ → Bool
update i b f j = if j == i then b else f j

abbrev pub is_mmap : IoMethod → Bool
is_mmap io_method_read = false
is_mmap io_method_mmap = true
is_mmap io_method_userptr = false

abbrev pub is_userptr : IoMethod → Bool
is_userptr io_method_read = false
is_userptr io_method_mmap = false
is_userptr io_method_userptr = true

-- Who has broken the rules first, if anyone has.
pub data Verdict : Type 0 where
  legal : Device → Verdict
  driver_fault program_fault : Verdict

abbrev pub require : Bool → Device → Verdict
require true d = legal d
require false d = program_fault

-- A buffer is given to the driver once, and under its index.
abbrev pub may_queue : Device → ℕ → Bool
may_queue d i = d.is_open && ltb i d.count && not (d.in_driver i)

abbrev pub enqueue : ℕ → Device → Device
enqueue i d = record d { in_driver = update i true d.in_driver }

-- What an event does to the device. Only that a buffer is taken from the queue is up to the driver: it has
-- to be one that it has. How many bytes of a buffer are written out is what the driver says, and is not checked.
abbrev pub accept : Event → Device → Verdict
accept log_opened d = legal d
accept log_closed d = legal d
accept opened d = require (not d.is_open) (record d { is_open = true })
accept (requested io n) d =
    require (d.is_open && not d.streaming && d.count == 0) (record d { memory = io; count = n })
accept (mapped a) d =
    require (d.is_open && is_mmap d.memory) (record d { owned = d.owned ++ (a ∷ []) })
accept (allocated a) d = legal (record d { owned = d.owned ++ (a ∷ []) })
accept (unmapped a) d =
    require (mem a d.owned && not d.streaming) (record d { owned = remove a d.owned })
accept (freed a) d =
    require (mem a d.owned && not d.streaming) (record d { owned = remove a d.owned })
accept (queued i) d = require (may_queue d i && is_mmap d.memory) (enqueue i d)
accept (queued_pointer i a) d =
    require (may_queue d i && is_userptr d.memory && mem a d.owned) (enqueue i d)
accept (dequeued i) d =
    if d.streaming && ltb i d.count && d.in_driver i
    then legal (record d { in_driver = update i false d.in_driver })
    else driver_fault
accept stream_on d = require (d.is_open && not d.streaming) (record d { streaming = true })
accept stream_off d = require d.streaming (record d { streaming = false; in_driver = λ _. false })
accept (read_into a) d = require (d.is_open && mem a d.owned) d
accept (written a n) d = require (mem a d.owned) d
accept (shown a) d = require (mem a d.owned) d
accept closed d =
    require (d.is_open && not d.streaming)
      (record d { is_open = false; memory = io_method_read; count = 0 })

abbrev pub and_then : Verdict → (Device → Verdict) → Verdict
and_then (legal d) f = f d
and_then driver_fault f = driver_fault
and_then program_fault f = program_fault

-- The verdict on a history, of which the last event comes first.
abbrev pub verdict : List Event → Verdict
verdict [] = legal fresh
verdict (e ∷ es) = and_then (verdict es) (accept e)

-- The program has not broken the rules first, and if the driver has not either then the device is as said.
abbrev pub Holds : (Device → Type 0) → Verdict → Type 0
Holds P (legal d) = P d
Holds P driver_fault = Unit
Holds P program_fault = ⊥

-- The number of frames of a history.
abbrev pub frames : List Event → ℕ
frames [] = 0
frames (shown a ∷ es) = suc (frames es)
frames (log_opened ∷ es) = frames es
frames (log_closed ∷ es) = frames es
frames (opened ∷ es) = frames es
frames (closed ∷ es) = frames es
frames (requested io n ∷ es) = frames es
frames (mapped a ∷ es) = frames es
frames (unmapped a ∷ es) = frames es
frames (allocated a ∷ es) = frames es
frames (freed a ∷ es) = frames es
frames (queued i ∷ es) = frames es
frames (queued_pointer i a ∷ es) = frames es
frames (dequeued i ∷ es) = frames es
frames (stream_on ∷ es) = frames es
frames (stream_off ∷ es) = frames es
frames (read_into a ∷ es) = frames es
frames (written a n ∷ es) = frames es

abbrev pub Fine : List Event → Type 0
Fine es = verdict es ≢ program_fault

-- A function that returns does so with what is said, it never accesses memory out of bounds, and where the
-- process exits or aborts the rules have been kept up to then.
abbrev pub Ensures {ℓ} : {A : Type ℓ} → (A → World → Type 0) → Outcome A → Type 0
Ensures P (ok (a, w)) = P a w
Ensures P (exits n w) = Fine w.events
Ensures P (aborts w) = Fine w.events
Ensures P undefined = ⊥
Ensures P looping = Unit

pub Ensures-bind {ℓ κ} :
    {A : Type ℓ} {B : Type κ} (P : A → World → Type 0) (Q : B → World → Type 0) (m : Outcome A)
    (f : A × World → Outcome B)
    → Ensures P m
    → ((a : A) (w : World) → P a w → Ensures Q (f (a, w)))
    → Ensures Q (m >>= f)
Ensures-bind P Q (ok (a, w)) f h next = next a w h
Ensures-bind P Q (exits n w) f h next = h
Ensures-bind P Q (aborts w) f h next = h
Ensures-bind P Q undefined f h next = absurd h
Ensures-bind P Q looping f h next = tt

pub Ensures-map {ℓ} :
    {A : Type ℓ} (P Q : A → World → Type 0) (m : Outcome A)
    → Ensures P m
    → ((a : A) (w : World) → P a w → Q a w)
    → Ensures Q m
Ensures-map P Q (ok (a, w)) h next = next a w h
Ensures-map P Q (exits n w) h next = h
Ensures-map P Q (aborts w) h next = h
Ensures-map P Q undefined h next = absurd h
Ensures-map P Q looping h next = tt

pub Holds-Fine : (P : Device → Type 0) (v : Verdict) → Holds P v → v ≢ program_fault
Holds-Fine P (legal d) h e = cc
Holds-Fine P driver_fault h e = cc
Holds-Fine P program_fault h e = h

-- To add an event: what it asks of the device, and what holds after it.
pub Holds-step :
    (P Q : Device → Type 0) (e : Event) (v : Verdict)
    → Holds P v
    → ((d : Device) → P d → Holds Q (accept e d))
    → Holds Q (and_then v (accept e))
Holds-step P Q e (legal d) h next = next d h
Holds-step P Q e driver_fault h next = tt
Holds-step P Q e program_fault h next = absurd h

pub Holds-map :
    (P Q : Device → Type 0) (v : Verdict) → ((d : Device) → P d → Q d) → Holds P v → Holds Q v
Holds-map P Q (legal d) next h = next d h
Holds-map P Q driver_fault next h = tt
Holds-map P Q program_fault next h = absurd h

-- What holds between two calls: of the device, and the number of frames so far.
abbrev pub On : (Device → Type 0) → ℕ → World → Type 0
On P n w = Holds P (verdict w.events) × (frames w.events ≡ n)

pub On-Fine : (P : Device → Type 0) (n : ℕ) (w : World) → On P n w → Fine w.events
On-Fine P n w h = Holds-Fine P (verdict w.events) h.0
