-- ===== src/Drm/Resources/Agreement.antt =====
-- What CRTCs and planes list of each other when the resources have been read (src/drm.cpp).
use twincam.Base.{
  ℕ, ◌≡◌, refl, ◌⊎◌, inl, inr, ◌∙◌, sym, ap, Option, some, List, [], ◌∷◌, ◌++◌, pos, neg, einval,
  arith, get_elem?, set, Option-cases,
}
use twincam.Drm.Types.{Crtc, Plane, PlaneType, ObjectRef, Device, Answer-cases, Libdrm}
use twincam.Drm.Objects.{crtcs_of_mask, mask_bit, new_property}
use twincam.Drm.Resources.{
  going, returned, insert_property, add_properties, set_possible_planes_for_each_crtc,
  planes_of_crtc, setup, setup_plane, plane_setup, perform_all_delayed_setup, finish, outcome,
  collect_property_ids,
}
use twincam.Drm.Resources.Positions.{has, has-positions_zero, get_elem?-set, get_elem?-push_planes}

-- A CRTC lists a plane exactly if the plane lists the CRTC as possible.
abbrev pub Agree : Device → Type 0
Agree d =
    (i j : ℕ) (c : Crtc) (p : Plane)
    → get_elem? d.crtcs i ≡ some c
    → get_elem? d.planes j ≡ some p
    → has j c.planes ≡ has i p.possible_crtcs

-- Before the CRTCs have been given their planes.
pub record Fresh (d : Device) : Type 0 where
  pub no_planes : (i : ℕ) (c : Crtc) → get_elem? d.crtcs i ≡ some c → c.planes ≡ []
  pub masked :
      (j : ℕ) (p : Plane)
      → get_elem? d.planes j ≡ some p
      → p.possible_crtcs ≡ crtcs_of_mask p.possible_crtcs_mask d.crtcs

Fresh-Agree : (d : Device) → Fresh d → Agree (set_possible_planes_for_each_crtc d)
unfolding set_possible_planes_for_each_crtc
Fresh-Agree d v i j c p ec ep =
    let (c0, e0, same) = get_elem?-push_planes d.planes d.crtcs i c ec in
    let crtc_side : has j c.planes ≡ mask_bit p.possible_crtcs_mask c0.index =
      ap (λ (x : Crtc). has j x.planes) same
      ∙ ap (λ (ps : List ℕ). has j (ps ++ planes_of_crtc c0.index d.planes)) (v.no_planes i c0 e0)
      ∙ has-positions_zero (λ (q : Plane). mask_bit q.possible_crtcs_mask c0.index) d.planes j p
          ep in
    let plane_side : has i p.possible_crtcs ≡ mask_bit p.possible_crtcs_mask c0.index =
      ap (has i) (v.masked j p ep)
      ∙ has-positions_zero (λ (x : Crtc). mask_bit p.possible_crtcs_mask x.index) d.crtcs i c0 e0 in
    crtc_side ∙ sym plane_side

-- The relation is about the CRTCs and the planes only.
record Same (d d' : Device) : Type 0 where
  crtcs : d'.crtcs ≡ d.crtcs
  planes : d'.planes ≡ d.planes

Same-Agree : (d d' : Device) → Same d d' → Agree d → Agree d'
Same-Agree d d' s v i j c p ec ep =
    v i j c p (ap (λ cs. get_elem? cs i) (sym s.crtcs) ∙ ec)
      (ap (λ ps. get_elem? ps j) (sym s.planes) ∙ ep)

add_properties-Same : (env : Libdrm) (ids : List ℕ) (d : Device) → Same d (add_properties env ids d)
unfolding add_properties
add_properties-Same env [] d = record { crtcs = refl; planes = refl }
add_properties-Same env (id ∷ ids) d = elim (Answer-cases (env.get_property id)) [
  | inl (e, bad) ↦
      let rest = add_properties-Same env ids d in
      record { crtcs = ground (arith, rest.crtcs); planes = ground (arith, rest.planes) }
  | inr (m, good) ↦
      let rest = add_properties-Same env ids (insert_property (new_property env m) d) in
      record { crtcs = ground (arith, rest.crtcs); planes = ground (arith, rest.planes) }
]

setup_plane-Agree :
    (k : ℕ) (q : Plane) (type : Option PlaneType) (d : Device)
    → get_elem? d.planes k ≡ some q
    → Agree d
    → Agree (record d { planes = set d.planes k (record q { type = type }) })
setup_plane-Agree k q type d at v i j c p ec ep =
    elim (get_elem?-set d.planes k (record q { type = type }) j p ep) [
      | inl old ↦ v i j c p ec old
      | inr (same, new) ↦
          v i j c q ec (ground arith) ∙ ap (λ (x : Plane). has i x.possible_crtcs) (sym new)
    ]

setup-cases :
    (ref : ObjectRef) (d : Device)
    → (setup ref d ≡ returned (neg einval) d) ⊎ ((d' : Device) × (setup ref d ≡ going d'))
unfolding setup setup_plane
setup-cases (ObjectRef.plane k) d = elim (Option-cases (get_elem? d.planes k)) [
  | inl missing ↦ inr (d, ground arith)
  | inr (q, at) ↦ elim (Option-cases (plane_setup d q)) [
    | inl bad ↦ inl (ground arith)
    | inr (type, good) ↦
        inr (record d { planes = set d.planes k (record q { type = some type }) }, ground arith)
  ]
]
setup-cases (ObjectRef.crtc k) d = inr (d, refl)
setup-cases (ObjectRef.encoder k) d = inr (d, refl)
setup-cases (ObjectRef.connector k) d = inr (d, refl)
setup-cases (ObjectRef.property k) d = inr (d, refl)

setup-Agree : (ref : ObjectRef) (d d' : Device) → setup ref d ≡ going d' → Agree d → Agree d'
unfolding setup setup_plane
setup-Agree (ObjectRef.plane k) d d' e v = elim (Option-cases (get_elem? d.planes k)) [
  | inl missing ↦ Same-Agree d d' (record { crtcs = ground arith; planes = ground arith }) v
  | inr (q, at) ↦ elim (Option-cases (plane_setup d q)) [
    | inl bad ↦ absurd (ground arith)
    | inr (type, good) ↦
        Same-Agree (record d { planes = set d.planes k (record q { type = some type }) }) d'
          (record { crtcs = ground arith; planes = ground arith })
          (setup_plane-Agree k q (some type) d at v)
  ]
]
setup-Agree (ObjectRef.crtc k) d d' e v =
    Same-Agree d d' (record { crtcs = ground arith; planes = ground arith }) v
setup-Agree (ObjectRef.encoder k) d d' e v =
    Same-Agree d d' (record { crtcs = ground arith; planes = ground arith }) v
setup-Agree (ObjectRef.connector k) d d' e v =
    Same-Agree d d' (record { crtcs = ground arith; planes = ground arith }) v
setup-Agree (ObjectRef.property k) d d' e v =
    Same-Agree d d' (record { crtcs = ground arith; planes = ground arith }) v

perform-Agree :
    (objects : List (ℕ × ObjectRef)) (d d' : Device)
    → outcome (perform_all_delayed_setup objects d) ≡ (pos 0, d')
    → Agree d
    → Agree d'
unfolding perform_all_delayed_setup
perform-Agree [] d d' e v =
    Same-Agree d d' (record { crtcs = ground arith; planes = ground arith }) v
perform-Agree ((id, ref) ∷ objects) d d' e v = elim (setup-cases ref d) [
  | inl bad ↦ absurd (ground arith)
  | inr (d1, good) ↦ perform-Agree objects d1 d' (ground arith) (setup-Agree ref d d1 good v)
]

pub finish-Agree :
    (env : Libdrm) (d d' : Device) → outcome (finish env d) ≡ (pos 0, d') → Fresh d → Agree d'
unfolding finish
finish-Agree env d d' e v =
    let d1 = set_possible_planes_for_each_crtc d in
    let ids = collect_property_ids d1 d1.objects [] in
    let d2 = add_properties env ids d1 in
    perform-Agree d2.objects d2 d' e
      (Same-Agree d1 d2 (add_properties-Same env ids d1) (Fresh-Agree d v))
