-- ===== src/Drm/Opening/Tests.antt =====
-- The opening of a card that stands behind one that cannot be opened, and the theorems at this input.
use twincam.Base.{
  ℕ, ◌≡◌, refl, none, some, List, [], ◌∷◌, is_neg, ℤ, pos, negsuc, false, true, if◌then◌else◌, ◌==◌,
  arith, ◌⊎◌,
}
use twincam.Drm.Types.{Device}
use twincam.Drm.Opening.{card_suffix, try_cards, open_card, destroy, drm_event}
use twincam.Drm.Opening.Cards.{cards, IsFirst, AllFail, open_card_lem}

-- `by-path`, `card0`, `card1`
abbrev entries : List (List ℕ)
entries =
    (98 ∷ 121 ∷ 45 ∷ 112 ∷ 97 ∷ 116 ∷ 104 ∷ [])
    ∷ (99 ∷ 97 ∷ 114 ∷ 100 ∷ 48 ∷ [])
    ∷ (99 ∷ 97 ∷ 114 ∷ 100 ∷ 49 ∷ [])
    ∷ []

-- Only a path that ends in 1 can be opened.
only_card1 : List ℕ → ℤ
only_card1 [] = negsuc 0
only_card1 (c ∷ []) = if c == 49 then pos 5 else negsuc 0
only_card1 (c ∷ d ∷ cs) = only_card1 (d ∷ cs)

entries-cards : cards entries ≡ (48 ∷ []) ∷ (49 ∷ []) ∷ []
unfolding cards card_suffix
entries-cards = refl

card1_opened : open_card only_card1 (some entries) ≡ some (pos 5)
unfolding open_card try_cards card_suffix only_card1
card1_opened = refl

open_card_lem_example :
    (open_card only_card1 none ≡ some (negsuc 0))
    × ((fd : ℤ) × (open_card only_card1 (some entries) ≡ some fd)
        × (((is_neg fd ≡ false) × IsFirst only_card1 (cards entries) fd)
            ⊎ ((is_neg fd ≡ true) × AllFail only_card1 (cards entries))))
unfolding cards card_suffix
open_card_lem_example = open_card_lem only_card1 entries (omega arith, (omega arith, tt))

abbrev new_device : Device
new_device = record {
  fd = negsuc 0;
  crtcs = [];
  encoders = [];
  connectors = [];
  planes = [];
  properties = [];
  objects = [];
}

closes_nothing : destroy new_device ≡ none
unfolding destroy
closes_nothing = refl

two_flips : drm_event (λ r s. some (r ∷ s)) (7 ∷ 8 ∷ []) [] ≡ some (8 ∷ 7 ∷ [])
unfolding drm_event
two_flips = refl
