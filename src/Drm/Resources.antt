-- ===== src/Drm/Resources.antt =====
-- `Device::getResources` and the functions that it calls (src/drm.cpp).
pub mod Positions
pub mod Agreement
pub mod Reading
pub mod Codes
mod Tests
use twincam.Base.{
  ℕ, zero, suc, Option, none, some, List, [], ◌∷◌, ◌++◌, ℤ, pos, neg, einval, ltb, ◌==◌,
  if◌then◌else◌, get_elem?, set, length,
}
use twincam.Drm.Types.{
  PropertyValue, Object, Property, Crtc, Encoder, Connector, PlaneType, Plane, ObjectRef, Device,
  got, failed, Libdrm,
}
use twincam.Base.Maps.{map_insert}
use twincam.Drm.Lookup.{property_value}
use twincam.Drm.Objects.{
  new_property, new_crtc, new_encoder, new_connector, new_plane, mask_bit, positions,
}

-- The device so far, and the return code if the function has returned.
pub data Stage : Type 0 where
  going : Device → Stage
  returned : ℤ → Device → Stage

infixl 5 ◌>>=◌
abbrev ◌>>=◌ : Stage → (Device → Stage) → Stage
going d >>= f = f d
returned ret d >>= f = returned ret d

-- `crtcs_.emplace_back(…)` and `objects_[obj.id()] = &obj`, and so for the other lists.
pub insert_crtc : Crtc → Device → Device
unfolding map_insert
insert_crtc c d = record d {
  crtcs = d.crtcs ++ c ∷ [];
  objects = map_insert c.base.id (ObjectRef.crtc (length d.crtcs)) d.objects;
}

pub insert_encoder : Encoder → Device → Device
unfolding map_insert
insert_encoder e d = record d {
  encoders = d.encoders ++ e ∷ [];
  objects = map_insert e.base.id (ObjectRef.encoder (length d.encoders)) d.objects;
}

pub insert_connector : Connector → Device → Device
unfolding map_insert
insert_connector c d = record d {
  connectors = d.connectors ++ c ∷ [];
  objects = map_insert c.base.id (ObjectRef.connector (length d.connectors)) d.objects;
}

pub insert_plane : Plane → Device → Device
unfolding map_insert
insert_plane p d = record d {
  planes = d.planes ++ p ∷ [];
  objects = map_insert p.base.id (ObjectRef.plane (length d.planes)) d.objects;
}

pub insert_property : Property → Device → Device
unfolding map_insert
insert_property p d = record d {
  properties = d.properties ++ p ∷ [];
  objects = map_insert p.base.id (ObjectRef.property (length d.properties)) d.objects;
}

module _ (env : Libdrm) where
  -- The loops over the ids that libdrm lists; `i` is the index of the next CRTC.
  pub add_crtcs : List ℕ → ℕ → Device → Stage
  unfolding new_crtc insert_crtc
  add_crtcs [] i d = going d
  add_crtcs (id ∷ ids) i d = elim (env.get_crtc id) [
    | failed e ↦ returned (neg e) d
    | got crtc_id ↦ add_crtcs ids (suc i) (insert_crtc (new_crtc env crtc_id i) d)
  ]

  pub add_encoders : List ℕ → Device → Stage
  unfolding new_encoder insert_encoder
  add_encoders [] d = going d
  add_encoders (id ∷ ids) d = elim (env.get_encoder id) [
    | failed e ↦ returned (neg e) d
    | got m ↦ add_encoders ids (insert_encoder (new_encoder env d m) d)
  ]

  pub add_connectors : List ℕ → Device → Stage
  unfolding new_connector insert_connector
  add_connectors [] d = going d
  add_connectors (id ∷ ids) d = elim (env.get_connector id) [
    | failed e ↦ returned (neg e) d
    | got m ↦ add_connectors ids (insert_connector (new_connector env d m) d)
  ]

  pub add_planes : List ℕ → Device → Stage
  unfolding new_plane insert_plane
  add_planes [] d = going d
  add_planes (id ∷ ids) d = elim (env.get_plane id) [
    | failed e ↦ returned (neg e) d
    | got m ↦ add_planes ids (insert_plane (new_plane env d m) d)
  ]

  -- A property that cannot be read is skipped.
  pub add_properties : List ℕ → Device → Device
  unfolding new_property insert_property
  add_properties [] d = d
  add_properties (id ∷ ids) d = elim (env.get_property id) [
    | failed e ↦ add_properties ids d
    | got p ↦ add_properties ids (insert_property (new_property env p) d)
  ]

-- The planes whose mask has a CRTC's bit.
abbrev pub planes_of_crtc : ℕ → List Plane → List ℕ
planes_of_crtc index planes =
    positions (λ (p : Plane). mask_bit p.possible_crtcs_mask index) 0 planes

abbrev pub push_planes : List Plane → List Crtc → List Crtc
push_planes planes [] = []
push_planes planes (c ∷ cs) =
    record c { planes = c.planes ++ planes_of_crtc c.index planes } ∷ push_planes planes cs

pub set_possible_planes_for_each_crtc : Device → Device
unfolding positions mask_bit
set_possible_planes_for_each_crtc d = record d { crtcs = push_planes d.planes d.crtcs }

abbrev base_properties : {A : Type 0} → (A → Object) → Option A → List PropertyValue
base_properties f none = []
base_properties f (some a) = (f a).properties

-- `value->properties()` through a pointer of `objects_`.
properties_of : Device → ObjectRef → List PropertyValue
properties_of d (ObjectRef.crtc i) = base_properties (λ (c : Crtc). c.base) (get_elem? d.crtcs i)
properties_of d (ObjectRef.encoder i) =
    base_properties (λ (e : Encoder). e.base) (get_elem? d.encoders i)
properties_of d (ObjectRef.connector i) =
    base_properties (λ (c : Connector). c.base) (get_elem? d.connectors i)
properties_of d (ObjectRef.plane i) = base_properties (λ (p : Plane). p.base) (get_elem? d.planes i)
properties_of d (ObjectRef.property i) =
    base_properties (λ (p : Property). p.base) (get_elem? d.properties i)

-- `std::set::insert`, on the set as an ascending list.
set_insert : ℕ → List ℕ → List ℕ
set_insert id [] = id ∷ []
set_insert id (j ∷ ids) =
    if id == j then j ∷ ids else if ltb id j then id ∷ j ∷ ids else j ∷ set_insert id ids

insert_ids : List PropertyValue → List ℕ → List ℕ
unfolding set_insert
insert_ids [] ids = ids
insert_ids (pv ∷ pvs) ids = insert_ids pvs (set_insert pv.id ids)

pub collect_property_ids : Device → List (ℕ × ObjectRef) → List ℕ → List ℕ
unfolding insert_ids properties_of
collect_property_ids d [] ids = ids
collect_property_ids d ((id, ref) ∷ objects) ids =
    collect_property_ids d objects (insert_ids (properties_of d ref) ids)

-- The values of the "type" property: DRM_PLANE_TYPE_OVERLAY, _PRIMARY and _CURSOR.
abbrev plane_type_of : ℕ → Option PlaneType
plane_type_of zero = some PlaneType.overlay
plane_type_of (suc zero) = some PlaneType.primary
plane_type_of (suc (suc zero)) = some PlaneType.cursor
plane_type_of (suc (suc (suc n))) = none

abbrev type_of_value : Option PropertyValue → Option PlaneType
type_of_value none = none
type_of_value (some pv) = plane_type_of pv.value

-- `Plane::setup`: the type that it finds, or none where it returns -EINVAL.
pub plane_setup : Device → Plane → Option PlaneType
unfolding property_value
plane_setup d p = type_of_value (property_value d p.base "type")

setup_plane : ℕ → Option Plane → Device → Stage
unfolding plane_setup
setup_plane i none d = going d
setup_plane i (some p) d = elim (plane_setup d p) [
  | none ↦ returned (neg einval) d
  | some type ↦ going (record d { planes = set d.planes i (record p { type = some type }) })
]

-- The virtual `setup`, which only planes override.
setup : ObjectRef → Device → Stage
unfolding setup_plane
setup (ObjectRef.plane i) d = setup_plane i (get_elem? d.planes i) d
setup _ d = going d

pub perform_all_delayed_setup : List (ℕ × ObjectRef) → Device → Stage
unfolding setup
perform_all_delayed_setup [] d = returned (pos 0) d
perform_all_delayed_setup ((id, ref) ∷ objects) d = do
  d' ← setup ref d
  perform_all_delayed_setup objects d'

-- From the planes on: the CRTCs' planes, the properties, the delayed set-up.
pub finish : Libdrm → Device → Stage
unfolding perform_all_delayed_setup
finish env d =
    let d1 = set_possible_planes_for_each_crtc d in
    let d2 = add_properties env (collect_property_ids d1 d1.objects []) d1 in
    perform_all_delayed_setup d2.objects d2

add_all_planes : Libdrm → Device → Stage
add_all_planes env d = elim env.get_plane_resources [
  | failed e ↦ returned (neg e) d
  | got ids ↦ add_planes env ids d
]

pub resources_stage : Libdrm → Device → Stage
unfolding add_all_planes
resources_stage env d = elim env.get_resources [
  | failed e ↦ returned (neg e) d
  | got res ↦ do
    d1 ← add_crtcs env res.crtcs 0 d
    d2 ← add_encoders env res.encoders d1
    d3 ← add_connectors env res.connectors d2
    d4 ← add_all_planes env d3
    finish env d4
]

abbrev outcome : Stage → ℤ × Device
outcome (going d) = (pos 0, d)
outcome (returned ret d) = (ret, d)

-- `Device::getResources`: the return code and the device.
pub get_resources : Libdrm → Device → ℤ × Device
unfolding resources_stage
get_resources env d = outcome (resources_stage env d)
