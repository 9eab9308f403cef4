-- ===== src/Pid.antt =====
-- The pid file of src/twncm_fnctl.cpp, and `twncm_atoi` of src/twncm_stdlib.h: the number that a daemon writes
-- for `-d`, and that `-k` and `-n` read. The calls of the system are parameters.
pub mod RoundTrip
mod Tests
use twincam.Base.{
  ℕ, zero, suc, ◌+◌, ◌-◌, ◌*◌, ◌/◌, ◌%◌, ◌^◌, Bool, true, false, ◌&&◌, ◌||◌, Option, none, some,
  List, [], ◌∷◌, ◌++◌, ℤ, pos, negsuc, neg, is_neg, length, ltb, leb, ◌==◌, if◌then◌else◌,
}
use twincam.FileSink.{to_int}

-- The digits of a number, as many as the fuel at most.
pub decimal : ℕ → ℕ → List ℕ
decimal zero n = []
decimal (suc fuel) n =
    let front = decimal fuel (n / 10) in
    if ltb n 10 then (48 + n) ∷ [] else front ++ ((48 + n % 10) ∷ [])

-- `pid_write`: the bytes that are handed to `write`. A pid has no more than ten digits, and fits the buffer.
pub pid_text : ℕ → List ℕ
pid_text pid = decimal 10 pid

pub pid_write : (List ℕ → ℤ) → ℕ → ℤ
pid_write write pid = write (pid_text pid)

-- Bytes that are read into a buffer.
pub overlay : List ℕ → List ℕ → List ℕ
overlay [] old = old
overlay (b ∷ bs) [] = []
overlay (b ∷ bs) (o ∷ os) = b ∷ overlay bs os

-- `pid_read`, by the bytes that `read` gives, fifteen at most; none where it fails. The buffer and the result.
pub pid_read : Option (List ℕ) → List ℕ → ℤ × List ℕ
pid_read none buf = (negsuc 0, buf)
pid_read (some bytes) buf = (pos (length bytes), overlay bytes buf)

abbrev pub is_digit : ℕ → Bool
is_digit c = leb 48 c && leb c 57

abbrev pub is_space : ℕ → Bool
is_space c = c == 32 || (leb 9 c && leb c 13)

-- The digits that `strtol` reads; none where it reads past the end of the buffer.
pub read_digits : ℕ → List ℕ → Option ℕ
read_digits n [] = none
read_digits n (c ∷ cs) =
    let more = read_digits (n * 10 + (c - 48)) cs in if is_digit c then more else some n

abbrev pub positive : Option ℕ → Option ℤ
positive none = none
positive (some n) = some (pos n)

abbrev pub negative : Option ℕ → Option ℤ
negative none = none
negative (some n) = some (neg n)

-- `strtol(buf, NULL, 10)`, of a number that a `long` holds.
pub strtol : List ℕ → Option ℤ
strtol [] = none
strtol (c ∷ cs) =
    let more = strtol cs in
    if is_space c
    then more
    else if c == 45
    then negative (read_digits 0 cs)
    else if c == 43
    then positive (read_digits 0 cs)
    else positive (read_digits 0 (c ∷ cs))

-- A `long` as an `int`.
abbrev pub long_to_int : ℤ → ℤ
long_to_int (pos n) = to_int (n % 2 ^ 32)
long_to_int (negsuc n) = to_int (2 ^ 32 - 1 - n % 2 ^ 32)

pub twncm_atoi : List ℕ → Option ℤ
twncm_atoi buf = elim (strtol buf) [ none ↦ none | some z ↦ some (long_to_int z) ]

-- The number that `-k` and `-n` send a signal to. The result of `pid_read` is not looked at, and the buffer has
-- not been initialised.
pub pid_target : Option (List ℕ) → List ℕ → Option ℤ
pid_target answer buf = twncm_atoi (pid_read answer buf).1
