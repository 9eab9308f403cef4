-- ===== src/Drm/Resources/Codes.antt =====
-- `Device::getResources` returns 0 or a negative number (src/drm.cpp).
use twincam.Base.{
  ℕ, zero, suc, ◌≡◌, refl, inl, inr, false, List, [], ◌∷◌, Option, none, some, ℤ, pos, neg, is_neg,
  arith, Option-cases, get_elem?,
}
use twincam.Drm.Types.{Device, ObjectRef, Plane, Libdrm, Answer, got, failed}
use twincam.Drm.Objects.{new_crtc, new_encoder, new_connector, new_plane}
use twincam.Drm.Resources.{
  Stage, going, returned, ◌>>=◌, insert_crtc, insert_encoder, insert_connector, insert_plane,
  add_crtcs, add_encoders, add_connectors, add_planes, add_all_planes, plane_setup, setup_plane,
  setup, perform_all_delayed_setup, finish, resources_stage, outcome,
  set_possible_planes_for_each_crtc, add_properties, collect_property_ids, get_resources,
}

-- A code that is returned is negative or 0.
abbrev IsCode : ℤ → Type 0
IsCode ret = is_neg ret ≡ false → ret ≡ pos 0

abbrev Coded : Stage → Type 0
Coded (going d) = Unit
Coded (returned ret d) = IsCode ret

neg-IsCode : (e : ℕ) → IsCode (neg e)
neg-IsCode zero good = refl
neg-IsCode (suc e) good = absurd (ground (arith, good))

Coded-bind :
    (st : Stage) (f : Device → Stage) → Coded st → ((d : Device) → Coded (f d)) → Coded (st >>= f)
Coded-bind (going d) f h next = next d
Coded-bind (returned ret d) f h next = h

step-Coded :
    {A : Type 0} (a : Answer A) (f : A → Stage) (d : Device)
    → ((m : A) → Coded (f m))
    → Coded (elim a [ failed e ↦ returned (neg e) d | got m ↦ f m ])
step-Coded (failed e) f d next = neg-IsCode e
step-Coded (got m) f d next = next m

module _ (env : Libdrm) where
  add_crtcs-Coded : (ids : List ℕ) (i : ℕ) (d : Device) → Coded (add_crtcs env ids i d)
  unfolding add_crtcs
  add_crtcs-Coded [] i d = tt
  add_crtcs-Coded (id ∷ ids) i d =
      step-Coded (env.get_crtc id) _ d
        (λ m. add_crtcs-Coded ids (suc i) (insert_crtc (new_crtc env m i) d))

  add_encoders-Coded : (ids : List ℕ) (d : Device) → Coded (add_encoders env ids d)
  unfolding add_encoders
  add_encoders-Coded [] d = tt
  add_encoders-Coded (id ∷ ids) d =
      step-Coded (env.get_encoder id) _ d
        (λ m. add_encoders-Coded ids (insert_encoder (new_encoder env d m) d))

  add_connectors-Coded : (ids : List ℕ) (d : Device) → Coded (add_connectors env ids d)
  unfolding add_connectors
  add_connectors-Coded [] d = tt
  add_connectors-Coded (id ∷ ids) d =
      step-Coded (env.get_connector id) _ d
        (λ m. add_connectors-Coded ids (insert_connector (new_connector env d m) d))

  add_planes-Coded : (ids : List ℕ) (d : Device) → Coded (add_planes env ids d)
  unfolding add_planes
  add_planes-Coded [] d = tt
  add_planes-Coded (id ∷ ids) d =
      step-Coded (env.get_plane id) _ d
        (λ m. add_planes-Coded ids (insert_plane (new_plane env d m) d))

  add_all_planes-Coded : (d : Device) → Coded (add_all_planes env d)
  unfolding add_all_planes
  add_all_planes-Coded d =
      step-Coded env.get_plane_resources (λ ids. add_planes env ids d) d
        (λ ids. add_planes-Coded ids d)

setup_plane-Coded : (i : ℕ) (p : Option Plane) (d : Device) → Coded (setup_plane i p d)
unfolding setup_plane
setup_plane-Coded i none d = tt
setup_plane-Coded i (some p) d = elim (Option-cases (plane_setup d p)) [
  | inl bad ↦ rw (Coded, bad) (λ good. absurd (ground (arith, good)))
  | inr (type, found) ↦ rw (Coded, found) tt
]

setup-Coded : (ref : ObjectRef) (d : Device) → Coded (setup ref d)
unfolding setup
setup-Coded (ObjectRef.plane i) d = setup_plane-Coded i (get_elem? d.planes i) d
setup-Coded (ObjectRef.crtc i) d = tt
setup-Coded (ObjectRef.encoder i) d = tt
setup-Coded (ObjectRef.connector i) d = tt
setup-Coded (ObjectRef.property i) d = tt

perform-Coded :
    (objects : List (ℕ × ObjectRef)) (d : Device) → Coded (perform_all_delayed_setup objects d)
unfolding perform_all_delayed_setup
perform-Coded [] d = λ good. refl
perform-Coded ((id, ref) ∷ objects) d =
    Coded-bind (setup ref d) (perform_all_delayed_setup objects) (setup-Coded ref d)
      (perform-Coded objects)

finish-Coded : (env : Libdrm) (d : Device) → Coded (finish env d)
unfolding finish
finish-Coded env d =
    let d1 = set_possible_planes_for_each_crtc d in
    let d2 = add_properties env (collect_property_ids d1 d1.objects []) d1 in
    perform-Coded d2.objects d2

Coded-outcome : (st : Stage) → Coded st → IsCode (outcome st).0
Coded-outcome (going d) h = λ good. refl
Coded-outcome (returned ret d) h = h

pub get_resources-IsCode :
    (env : Libdrm) (d : Device)
    → is_neg (get_resources env d).0 ≡ false
    → (get_resources env d).0 ≡ pos 0
unfolding get_resources resources_stage
get_resources-IsCode env d = Coded-outcome (resources_stage env d) (
    step-Coded env.get_resources _ d λ res.
      Coded-bind (add_crtcs env res.crtcs 0 d) _ (add_crtcs-Coded env res.crtcs 0 d) λ d1.
        Coded-bind (add_encoders env res.encoders d1) _ (add_encoders-Coded env res.encoders d1)
          λ d2.
            Coded-bind (add_connectors env res.connectors d2) _
              (add_connectors-Coded env res.connectors d2)
              λ d3.
                Coded-bind (add_all_planes env d3) (finish env) (add_all_planes-Coded env d3)
                  λ d4. finish-Coded env d4)
