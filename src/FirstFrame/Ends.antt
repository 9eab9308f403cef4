-- ===== src/FirstFrame/Ends.antt =====
-- That the functions of first_frame (src/first_frame.c) end, however they do.
use twincam.Base.{ℕ, ◌≤◌, ◌≢◌, some}
use twincam.FirstFrame.State.{
  World, Request, dqbuf, failed, Kernel, Outcome, ok, exits, aborts, undefined, looping, ◌>>=◌,
}

-- From a time on, no signal interrupts a call and there always is a frame to be read or dequeued.
pub record IsSettled (k : Kernel) (from : ℕ) : Type 0 where
  pub no_signal : (t : ℕ) (r : Request) → from ≤ t → k.ioctl t r ≢ some 4
  pub frame : (t : ℕ) → from ≤ t → k.ioctl t dqbuf ≢ some 11
  pub select : (t : ℕ) → from ≤ t → k.select t ≢ failed 4
  pub read : (t : ℕ) → from ≤ t → k.read t ≢ some 11

-- The fuel does not run out, and what a function returns is as said.
abbrev pub Ends {ℓ} : {A : Type ℓ} → (A → World → Type 0) → Outcome A → Type 0
Ends P (ok (a, w)) = P a w
Ends P (exits n w) = Unit
Ends P (aborts w) = Unit
Ends P undefined = Unit
Ends P looping = ⊥

abbrev pub Anything {ℓ} : {A : Type ℓ} → A → World → Type 0
Anything a w = Unit

pub Ends-bind {ℓ κ} :
    {A : Type ℓ} {B : Type κ} (P : A → World → Type 0) (Q : B → World → Type 0) (m : Outcome A)
    (f : A × World → Outcome B)
    → Ends P m
    → ((a : A) (w : World) → P a w → Ends Q (f (a, w)))
    → Ends Q (m >>= f)
Ends-bind P Q (ok (a, w)) f h next = next a w h
Ends-bind P Q (exits n w) f h next = tt
Ends-bind P Q (aborts w) f h next = tt
Ends-bind P Q undefined f h next = tt
Ends-bind P Q looping f h next = absurd h

pub Ends-map {ℓ} :
    {A : Type ℓ} (P Q : A → World → Type 0) (m : Outcome A)
    → Ends P m
    → ((a : A) (w : World) → P a w → Q a w)
    → Ends Q m
Ends-map P Q (ok (a, w)) h next = next a w h
Ends-map P Q (exits n w) h next = tt
Ends-map P Q (aborts w) h next = tt
Ends-map P Q undefined h next = tt
Ends-map P Q looping h next = absurd h
