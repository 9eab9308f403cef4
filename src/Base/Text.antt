-- ===== src/Base/Text.antt =====
-- Texts: equality as a Boolean test, concatenation, and the decimal text of a number.
use Prim.Native.Nat.{ℕ, zero, suc, ◌/◌, ◌%◌}
use Prim.Native.String.{String, ◌++◌}
use text.Mathlib.Text.{◌==◌}
use mathlib.Core.Bool.{Bool}
use mathlib.Core.List.{[], ◌∷◌}
use twincam.Base.Tests.{ltb, if◌then◌else◌}
use twincam.Base.Lists.{get_elem?}
use mathlib.Core.Option.{get_or}

abbrev pub str_eq : String → String → Bool
str_eq = ◌==◌

abbrev pub str_append : String → String → String
str_append = ◌++◌

digit : ℕ → String
digit n = get_or (get_elem? ("0" ∷ "1" ∷ "2" ∷ "3" ∷ "4" ∷ "5" ∷ "6" ∷ "7" ∷ "8" ∷ "9" ∷ []) n) "?"

digits : ℕ → ℕ → String
unfolding digit
digits zero n = ""
digits (suc fuel) n =
    let rest = digits fuel (n / 10) in if ltb n 10 then digit n else rest ++ digit (n % 10)

-- `std::to_string` of an unsigned number; twenty digits are enough for 64 bits.
unfoldable pub to_string : ℕ → String
unfolding digits
to_string n = digits 20 n
