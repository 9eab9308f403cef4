-- ===== src/CameraSession/Frames/Text.antt =====
-- The part of the printed line that tells the bytes used of a buffer's planes (src/camera_session.cpp).
use twincam.Base.{
  ℕ, suc, ◌+◌, ◌≡◌, refl, ap, Bool, true, false, lt→ltb, List, [], ◌∷◌, map, arith, ltb, length,
  String, str_append, to_string, if◌then◌else◌,
}
use text.Mathlib.TextLemmas.{append-nil}
use mathlib.Core.Path.{subst, ap₂}
use twincam.CameraSession.Frames.{planes_text}

-- Texts with a separator between two of them.
abbrev pub joined : String → List String → String
joined sep [] = ""
joined sep (t ∷ []) = t
joined sep (t ∷ u ∷ ts) = str_append t (str_append sep (joined sep (u ∷ ts)))

not_below : (n : ℕ) → ltb (suc n) (n + 1) ≡ false
not_below n = ground arith

-- The text of a buffer's planes is that of their bytes used, in order, with a slash between two.
pub planes_text-joined :
    (planes : List ℕ) (nplane : ℕ)
    → planes_text nplane (nplane + length planes) planes ≡ joined "/" (map to_string planes)
unfolding planes_text
planes_text-joined [] nplane = refl
planes_text-joined (b ∷ []) nplane = rw (not_below nplane) (append-nil (to_string b))
planes_text-joined (b ∷ c ∷ bs) nplane =
    let below : ltb (suc nplane) (nplane + length (b ∷ c ∷ bs)) ≡ true =
      lt→ltb (suc nplane) (nplane + length (b ∷ c ∷ bs)) (omega arith) in
    let same : suc nplane + length (c ∷ bs) ≡ nplane + length (b ∷ c ∷ bs) = omega arith in
    let rest : planes_text (suc nplane) (nplane + length (b ∷ c ∷ bs)) (c ∷ bs)
        ≡ joined "/" (map to_string (c ∷ bs)) =
      subst (λ (n : ℕ). planes_text (suc nplane) n (c ∷ bs) ≡ joined "/" (map to_string (c ∷ bs)))
        same (planes_text-joined (c ∷ bs) (suc nplane)) in
    ap₂ (λ (u v : String). str_append (to_string b) (str_append u v))
      (ap (λ (t : Bool). if t then "/" else "") below) rest
