-- ===== src/Drm/Resources/Positions.antt =====
-- The lists of positions that stand for lists of pointers (src/drm.cpp).
use twincam.Base.{
  ℕ, zero, suc, ◌+◌, ◌<◌, ◌≡◌, refl, ◌⊎◌, inl, inr, Bool, true, false, some, List, [], ◌∷◌, ◌++◌,
  arith, ◌==◌, if◌then◌else◌, get_elem?, set,
}
use mathlib.Core.Path.{subst}
use twincam.Drm.Types.{Crtc, Plane}
use twincam.Drm.Objects.{positions}
use twincam.Drm.Resources.{push_planes, planes_of_crtc}

-- A position is in a list.
abbrev pub has : ℕ → List ℕ → Bool
has j [] = false
has j (i ∷ is) = if i == j then true else has j is

module _ {A : Type 0} (test : A → Bool) where
  has-positions_lt : (xs : List A) (i j : ℕ) → j < i → has j (positions test i xs) ≡ false
  unfolding positions
  has-positions_lt [] i j h = refl
  has-positions_lt (x ∷ xs) i j h = ground (arith, has-positions_lt xs (suc i) j (omega arith))

  -- The position of an element is there exactly if the element passes the test.
  has-positions :
      (xs : List A) (i j : ℕ) (x : A)
      → get_elem? xs j ≡ some x
      → has (i + j) (positions test i xs) ≡ test x
  unfolding positions
  has-positions [] i j x e = absurd (cc)
  has-positions (y ∷ ys) i zero x e =
      ground (arith, has-positions_lt ys (suc i) (i + 0) (omega arith))
  has-positions (y ∷ ys) i (suc j) x e = ground (arith, has-positions ys (suc i) j x e)

  pub has-positions_zero :
      (xs : List A) (j : ℕ) (x : A) → get_elem? xs j ≡ some x → has j (positions test 0 xs) ≡ test x
  has-positions_zero xs j x e =
      let same : 0 + j ≡ j = omega arith in
      subst (λ (k : ℕ). has k (positions test 0 xs) ≡ test x) same (has-positions xs 0 j x e)

module _ {A : Type 0} where
  pub get_elem?-snoc :
      (xs : List A) (x : A) (i : ℕ) (y : A)
      → get_elem? (xs ++ x ∷ []) i ≡ some y
      → (get_elem? xs i ≡ some y) ⊎ (y ≡ x)
  get_elem?-snoc [] x zero y e = inr (ground arith)
  get_elem?-snoc [] x (suc i) y e = absurd (cc)
  get_elem?-snoc (z ∷ zs) x zero y e = inl e
  get_elem?-snoc (z ∷ zs) x (suc i) y e = get_elem?-snoc zs x i y e

  pub get_elem?-set :
      (xs : List A) (i : ℕ) (x : A) (j : ℕ) (y : A)
      → get_elem? (set xs i x) j ≡ some y
      → (get_elem? xs j ≡ some y) ⊎ ((j ≡ i) × (y ≡ x))
  get_elem?-set [] i x j y e = inl e
  get_elem?-set (z ∷ zs) zero x zero y e = inr (refl, ground arith)
  get_elem?-set (z ∷ zs) zero x (suc j) y e = inl e
  get_elem?-set (z ∷ zs) (suc i) x zero y e = inl e
  get_elem?-set (z ∷ zs) (suc i) x (suc j) y e = elim (get_elem?-set zs i x j y e) [
    | inl old ↦ inl old
    | inr (same, new) ↦ inr (omega arith, new)
  ]

pub get_elem?-push_planes :
    (planes : List Plane) (cs : List Crtc) (i : ℕ) (c : Crtc)
    → get_elem? (push_planes planes cs) i ≡ some c
    → (c0 : Crtc) × (get_elem? cs i ≡ some c0)
      × (c ≡ record c0 { planes = c0.planes ++ planes_of_crtc c0.index planes })
get_elem?-push_planes planes [] i c e = absurd (cc)
get_elem?-push_planes planes (c0 ∷ cs) zero c e = (c0, refl, ground arith)
get_elem?-push_planes planes (c0 ∷ cs) (suc i) c e = get_elem?-push_planes planes cs i c e
