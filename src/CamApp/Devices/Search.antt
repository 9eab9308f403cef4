-- ===== src/CamApp/Devices/Search.antt =====
-- What the searches for devices find (src/twincam.cpp).
use twincam.Base.{
  ℕ, ◌≡◌, refl, sym, inl, inr, true, false, none, some, List, [], ◌∷◌, ◌++◌, In, arith, Bool-cases,
  length,
}
use mathlib.Core.Path.{subst}
use twincam.CamApp.Devices.{same_bytes, any_named, dev_exists}

-- A name that starts with another one.
abbrev pub StartsWith : List ℕ → List ℕ → Type 0
StartsWith fn name = (rest : List ℕ) × (name ≡ fn ++ rest)

same_bytes-StartsWith :
    (name fn : List ℕ) → same_bytes (length fn) name fn ≡ true → StartsWith fn name
unfolding same_bytes
same_bytes-StartsWith name [] e = (name, refl)
same_bytes-StartsWith [] (b ∷ fn) e = absurd (ground (arith, e))
same_bytes-StartsWith (a ∷ name) (b ∷ fn) e =
    let (rest, same) = same_bytes-StartsWith name fn (ground (arith, e)) in
    (rest, ground (arith, e, same))

StartsWith-same_bytes : (fn rest : List ℕ) → same_bytes (length fn) (fn ++ rest) fn ≡ true
unfolding same_bytes
StartsWith-same_bytes [] rest = refl
StartsWith-same_bytes (b ∷ fn) rest = ground (arith, StartsWith-same_bytes fn rest)

any_named-In :
    (fn : List ℕ) (names : List (List ℕ))
    → any_named fn names ≡ true
    → (name : List ℕ) × In name names × (same_bytes 5 name fn ≡ true)
unfolding any_named
any_named-In fn [] e = absurd (ground (arith, e))
any_named-In fn (d ∷ ds) e = elim (Bool-cases (same_bytes 5 d fn)) [
  | inl here ↦ (d, inl refl, here)
  | inr other ↦
      let (name, there, same) = any_named-In fn ds (ground (arith, e, other)) in
      (name, inr there, same)
]

In-any_named :
    (fn name : List ℕ) (names : List (List ℕ))
    → In name names
    → same_bytes 5 name fn ≡ true
    → any_named fn names ≡ true
unfolding any_named
In-any_named fn name [] there same = absurd there
In-any_named fn name (d ∷ ds) (inl here) same = ground (arith, here, same)
In-any_named fn name (d ∷ ds) (inr there) same = ground (arith, In-any_named fn name ds there same)

-- For a text of five bytes, as `video` and `media` are, `dev_exists` says whether /dev can be opened and has an
-- entry whose name starts with it.
pub dev_exists_lem :
    (fn : List ℕ) (names : List (List ℕ))
    → length fn ≡ 5
    → (dev_exists fn none ≡ false)
      × (dev_exists fn (some names) ≡ true → (name : List ℕ) × In name names × StartsWith fn name)
      × ((name rest : List ℕ)
          → In name names
          → name ≡ fn ++ rest
          → dev_exists fn (some names) ≡ true)
unfolding dev_exists
dev_exists_lem fn names five = (
  refl,
  λ found.
      let (name, there, same) = any_named-In fn names found in
      (
        name,
        there,
        same_bytes-StartsWith name fn (subst (λ n. same_bytes n name fn ≡ true) (sym five) same),
      ),
  λ name rest there starts. In-any_named fn name names there (
      rw starts
        (subst (λ n. same_bytes n (fn ++ rest) fn ≡ true) five (StartsWith-same_bytes fn rest))),
)
