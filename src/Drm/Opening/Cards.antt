-- ===== src/Drm/Opening/Cards.antt =====
-- The card that `openCard` opens, and what `Device::init` leaves (src/drm.cpp).
use twincam.Base.{
  ℕ, ◌≤◌, ◌<◌, ◌≡◌, refl, ap, ◌⊎◌, inl, inr, true, false, none, some, List, [], ◌∷◌, ◌++◌, ℤ,
  negsuc, is_neg, length, ltb, arith, Bool-cases, Option-cases,
}
use twincam.Drm.Opening.{card_suffix, dri_card, try_cards, open_card}

-- The suffixes of the cards among names.
unfoldable pub cards : List (List ℕ) → List (List ℕ)
cards [] = []
cards (name ∷ names) = elim (card_suffix name) [
  | none ↦ cards names
  | some suffix ↦ suffix ∷ cards names
]

-- No suffix has more than three bytes.
abbrev pub AreShort : List (List ℕ) → Type 0
AreShort [] = Unit
AreShort (s ∷ ss) = (length s ≤ 3) × AreShort ss

-- None of the cards can be opened.
abbrev pub AllFail : (List ℕ → ℤ) → List (List ℕ) → Type 0
AllFail open_file [] = Unit
AllFail open_file (s ∷ ss) = (is_neg (open_file (dri_card ++ s)) ≡ true) × AllFail open_file ss

-- The descriptor is that of the first card that can be opened.
abbrev pub IsFirst : (List ℕ → ℤ) → List (List ℕ) → ℤ → Type 0
IsFirst open_file cs fd =
    (front : List (List ℕ)) × (s : List ℕ) × (back : List (List ℕ)) × (cs ≡ front ++ (s ∷ back))
    × AllFail open_file front
    × (open_file (dri_card ++ s) ≡ fd)

abbrev Tried : (List ℕ → ℤ) → List (List ℕ) → List (List ℕ) → ℤ → Type 0
Tried open_file names cs fd =
    (fd' : ℤ) × (try_cards open_file names fd ≡ some fd')
    × (((is_neg fd' ≡ false) × IsFirst open_file cs fd')
        ⊎ ((is_neg fd' ≡ true) × AllFail open_file cs))

try_cards-Tried :
    (open_file : List ℕ → ℤ) (names : List (List ℕ)) (fd : ℤ)
    → is_neg fd ≡ true
    → AreShort (cards names)
    → Tried open_file names (cards names) fd
unfolding try_cards cards
try_cards-Tried open_file [] fd bad short = (fd, refl, inr (bad, tt))
try_cards-Tried open_file (name ∷ names) fd bad short = elim (Option-cases (card_suffix name)) [
  | inl no_card ↦
      let (fd', e, result) =
        try_cards-Tried open_file names fd bad (ground (arith, short, no_card)) in
      rw (Tried, cards, try_cards, no_card) (fd', e, result)
  | inr (suffix, card) ↦
      let (small, more) : (length suffix ≤ 3) × AreShort (cards names) =
        ground (arith, short, card) in
      let fits : ltb 3 (length suffix) ≡ false = ground (arith, small) in
      elim (Bool-cases (is_neg (open_file (dri_card ++ suffix)))) [
        | inr good ↦
            rw (Tried, cards, try_cards, card, fits, good)
              (
                open_file (dri_card ++ suffix),
                refl,
                inl (good, ([], suffix, cards names, refl, tt, refl)),
              )
        | inl fails ↦
            let (fd', e, result) =
              try_cards-Tried open_file names (open_file (dri_card ++ suffix)) fails more in
            rw (Tried, cards, try_cards, card, fits, fails)
              (
                fd',
                e,
                elim result [
                  | inl (opens, (front, s, back, split, all, same)) ↦ inl (
                    opens,
                    (suffix ∷ front, s, back, ap (λ l. suffix ∷ l) split, (fails, all), same),
                  )
                  | inr (bad', all) ↦ inr (bad', (refl, all))
                ],
              )
      ]
]

-- Suppose that the names of cards in /dev/dri have no more than three bytes behind `card`. Then `openCard`
-- returns; it gives -1 if the directory cannot be opened, and otherwise either the descriptor of the first card
-- that can be opened, or an error if none of them can.
pub open_card_lem :
    (open_file : List ℕ → ℤ) (names : List (List ℕ))
    → AreShort (cards names)
    → (open_card open_file none ≡ some (negsuc 0))
      × ((fd : ℤ) × (open_card open_file (some names) ≡ some fd)
          × (((is_neg fd ≡ false) × IsFirst open_file (cards names) fd)
              ⊎ ((is_neg fd ≡ true) × AllFail open_file (cards names))))
unfolding open_card
open_card_lem open_file names short = (refl, try_cards-Tried open_file names (negsuc 0) refl short)

-- A longer one that is the first card leaves the array without a terminating zero, and is read past its end.
pub open_card_long :
    (open_file : List ℕ → ℤ) (name suffix : List ℕ) (names : List (List ℕ))
    → card_suffix name ≡ some suffix
    → 3 < length suffix
    → open_card open_file (some (name ∷ names)) ≡ none
unfolding open_card try_cards
open_card_long open_file name suffix names card long = ground (arith, card, long)
