-- ===== src/FirstFrame/Protocol/Stages.antt =====
-- The stages of a device in the life of first_frame (src/first_frame.c).
use twincam.Base.{
  ℕ, zero, suc, ◌≤◌, ◌<◌, ◌≡◌, ◌≢◌, refl, true, false, none, some, List, [], ◌∷◌, ◌++◌, length,
  get_elem?, arith, ap,
}
use twincam.FirstFrame.State.{
  IoMethod, io_method_read, io_method_mmap, io_method_userptr, Buffer, Globals, Dequeued,
}
use twincam.FirstFrame.Capture.{find_buffer}
use twincam.FirstFrame.Protocol.{Device, mem, remove}

abbrev pub starts : List Buffer → List ℕ
starts [] = []
starts (b ∷ bs) = b.start ∷ starts bs

-- How the globals describe the buffers for each method.
abbrev pub ShapedFor : IoMethod → Globals → Type 0
ShapedFor io_method_read g = (b : Buffer) × (g.buffers ≡ b ∷ [])
ShapedFor io_method_mmap g = g.n_buffers ≡ length g.buffers
ShapedFor io_method_userptr g = g.n_buffers ≡ length g.buffers

abbrev pub Shaped : Globals → Type 0
Shaped g = ShapedFor g.io g

-- The device is set up, and the array and its buffers are all that the program owns.
pub record IsSetup (g : Globals) (d : Device) : Type 0 where
  pub is_open : d.is_open ≡ true
  pub memory : d.memory ≡ g.io
  pub counted : g.n_buffers ≤ d.count
  pub owned : d.owned ≡ g.array ∷ starts g.buffers

-- It is not streaming, and the driver has no buffer.
pub record IsIdle (g : Globals) (d : Device) : Type 0 where
  pub setup : IsSetup g d
  pub quiet : d.streaming ≡ false
  pub empty : (i : ℕ) → d.in_driver i ≡ false

-- It is streaming, and the driver has every buffer.
pub record IsRunning (g : Globals) (d : Device) : Type 0 where
  pub setup : IsSetup g d
  pub streams : d.streaming ≡ true
  pub full : (i : ℕ) → i < g.n_buffers → d.in_driver i ≡ true

-- The program has taken buffer `i` and no other.
pub record IsTaken (g : Globals) (i : ℕ) (d : Device) : Type 0 where
  pub setup : IsSetup g d
  pub streams : d.streaming ≡ true
  pub granted : i < d.count
  pub taken : d.in_driver i ≡ false
  pub others : (j : ℕ) → j < g.n_buffers → j ≢ i → d.in_driver j ≡ true

-- The buffers before `i` have been given to the driver, which is not streaming yet.
pub record IsFilling (g : Globals) (i : ℕ) (d : Device) : Type 0 where
  pub setup : IsSetup g d
  pub quiet : d.streaming ≡ false
  pub given : (j : ℕ) → j < i → d.in_driver j ≡ true
  pub kept : (j : ℕ) → i ≤ j → d.in_driver j ≡ false

pub mem-starts :
    (bs : List Buffer) (i : ℕ) (x : Buffer)
    → get_elem? bs i ≡ some x
    → mem x.start (starts bs) ≡ true
mem-starts [] i x h = cc
mem-starts (b ∷ bs) zero x h = ground arith
mem-starts (b ∷ bs) (suc i) x h = ground (arith, mem-starts bs i x h)

pub find_buffer-mem :
    (n : ℕ) (bs : List Buffer) (b : Dequeued)
    → find_buffer n bs b ≡ some true
    → mem b.userptr (starts bs) ≡ true
unfolding find_buffer
find_buffer-mem zero bs b h = ground arith
find_buffer-mem (suc n) [] b h = ground arith
find_buffer-mem (suc n) (x ∷ xs) b h = ground (arith, find_buffer-mem n xs b)

-- To release the first buffer leaves the array and the others.
pub remove-starts :
    (a : ℕ) (b : Buffer) (bs : List Buffer) → remove b.start (a ∷ starts (b ∷ bs)) ≡ a ∷ starts bs
remove-starts a b bs = ground arith

pub starts-append :
    (bs : List Buffer) (b : Buffer) → starts (bs ++ (b ∷ [])) ≡ starts bs ++ (b.start ∷ [])
starts-append [] b = refl
starts-append (x ∷ xs) b = ap (λ l. x.start ∷ l) (starts-append xs b)

pub find_buffer-some :
    (n : ℕ) (bs : List Buffer) (b : Dequeued) → n ≤ length bs → find_buffer n bs b ≢ none
unfolding find_buffer
find_buffer-some zero bs b h = ground arith
find_buffer-some (suc n) [] b h = ground arith
find_buffer-some (suc n) (x ∷ xs) b h = ground (arith, find_buffer-some n xs b)
