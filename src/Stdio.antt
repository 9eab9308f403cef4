-- ===== src/Stdio.antt =====
-- src/twncm_stdio.h, src/uptime.h and src/uptime.cpp: the macros that print, and the time since the start.
-- `snprintf` has a format and arguments that make a text; the text is the parameter here.
pub mod Printf
pub mod Printing
mod Tests
use twincam.Base.{
  ℕ, zero, suc, ◌+◌, ◌-◌, ◌<◌, Bool, true, false, Option, none, some, List, [], ◌∷◌, ◌++◌, length,
  ltb, ◌>>=◌, ◌==◌, if◌then◌else◌,
}

-- `std::string`: its characters, and its capacity.
pub record Str : Type 0 where
  pub chars : List ℕ
  pub capacity : ℕ

-- The first `n` of a list, which is filled up with zeros.
pub sized : ℕ → List ℕ → List ℕ
sized zero cs = []
sized (suc n) [] = 0 ∷ sized n []
sized (suc n) (c ∷ cs) = c ∷ sized n cs

-- `resize`. The capacity that a string gets when it has to grow is the standard library's.
pub resize : (ℕ → ℕ) → ℕ → Str → Str
resize grow n s = record {
  chars = sized n s.chars;
  capacity = if ltb s.capacity n then grow n else s.capacity;
}

-- The bytes that `snprintf` writes, given the size of the buffer: those that fit and a zero.
pub printed : ℕ → List ℕ → List ℕ
printed zero text = []
printed (suc zero) text = 0 ∷ []
printed (suc (suc n)) [] = 0 ∷ []
printed (suc (suc n)) (c ∷ cs) = c ∷ printed (suc n) cs

-- Bytes are written over characters, and a zero over the one that ends them; none where it is anything else or
-- is further on.
pub write_over : List ℕ → List ℕ → Option (List ℕ)
write_over [] cs = some cs
write_over (b ∷ bs) (c ∷ cs) = do cs' ← write_over bs cs; some (b ∷ cs')
write_over (zero ∷ []) [] = some []
write_over (zero ∷ b ∷ bs) [] = none
write_over (suc n ∷ bs) [] = none

-- From a position on.
pub write_at : ℕ → List ℕ → List ℕ → Option (List ℕ)
write_at zero bs cs = write_over bs cs
write_at (suc p) bs [] = none
write_at (suc p) bs (c ∷ cs) = do cs' ← write_at p bs cs; some (c ∷ cs')

-- `snprintf(&str[point], size, ...)` of a text.
pub snprintf_at : ℕ → ℕ → List ℕ → Str → Option Str
snprintf_at point size text s = do
  cs ← write_at point (printed size text) s.chars
  some (record s { chars = cs })

-- STRING_PRINTF. `snprintf` returns the length of the text.
pub string_printf : (ℕ → ℕ) → List ℕ → Str → Option Str
string_printf grow text s =
    let write_point = length s.chars in
    let s1 = resize grow s.capacity s in
    let capacity_left = s1.capacity - length s1.chars in
    snprintf_at write_point capacity_left text s1 >>= λ (s2 : Str).
    let s3 = resize grow (write_point + length text) s2 in
    if ltb (length text) capacity_left
    then some s3
    else snprintf_at write_point (suc (length text)) text s3

-- The options that printing reads.
pub record PrintOptions : Type 0 where
  pub uptime : Bool
  pub to_syslog : Bool
  pub verbose : Bool

-- Where a text goes.
pub data Output : Type 0 where
  to_log to_stdout to_stderr : List ℕ → Output

-- An empty string, with the capacity that it has from the start.
abbrev pub new_str : ℕ → Str
new_str capacity = record { chars = []; capacity = capacity }

module _ (grow : ℕ → ℕ) (capacity : ℕ) (o : PrintOptions) (up : List ℕ) where
  -- HEAD, into a new string: the uptime on request, and the text. `uptime_str` prints by STRING_PRINTF too.
  pub head : List ℕ → Option Str
  head text = do
    s ← (if o.uptime then string_printf grow up (new_str capacity) else some (new_str capacity))
    string_printf grow text s

  abbrev logged : Str → List Output
  logged s = if o.to_syslog then to_log s.chars ∷ [] else []

  -- PRINT, EPRINT and VERBOSE_PRINT
  pub print : List ℕ → Option (List Output)
  print text = do s ← head text; some (logged s ++ (to_stdout s.chars ∷ []))

  pub eprint : List ℕ → Option (List Output)
  eprint text = do s ← head text; some (logged s ++ (to_stderr s.chars ∷ []))

  pub verbose_print : List ℕ → Option (List Output)
  verbose_print text = if o.verbose then print text else some []

-- The numbers of `uptime`, which are of the type `float`: how they are made of nanoseconds, whether one is
-- zero, and their difference.
pub record Floats (F : Type 0) : Type 0 where
  pub of_nanoseconds : ℕ → F
  pub zero_float : F
  pub is_zero : F → Bool
  pub minus : F → F → F

-- `uptime`, at a time of the monotonic clock: the time, the time since the first call, and `init_time`.
pub uptime : {F : Type 0} → Floats F → ℕ → F → F × F × F
uptime fl now init_time =
    let up = fl.of_nanoseconds now in
    if fl.is_zero init_time then (up, fl.zero_float, up) else (up, fl.minus up init_time, init_time)
