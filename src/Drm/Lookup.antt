-- ===== src/Drm/Lookup.antt =====
-- Finding objects and properties: `Device::object`, `Object::property`, `Object::propertyValue`
-- (src/drm.cpp).
use twincam.Base.{ℕ, Option, none, some, List, [], ◌∷◌, if◌then◌else◌, get_elem?, String, str_eq}
use twincam.Base.Maps.{map_find}
use twincam.Drm.Types.{PropertyValue, Object, Property, ObjectRef, Device}

-- `Device::object`
object : Device → ℕ → Option ObjectRef
object d id = map_find id d.objects

-- The `static_cast` to a `Property`. An object of another kind, which an id of a property never
-- names in DRM, is read as null.
abbrev as_property : Device → Option ObjectRef → Option Property
as_property d (some (ObjectRef.property i)) = get_elem? d.properties i
as_property d _ = none

-- The property of a value, if the device has it and it has this name.
named : Device → String → PropertyValue → Option Property
unfolding object
named d name pv = elim (as_property d (object d pv.id)) [
  | none ↦ none
  | some p ↦ if str_eq p.name name then some p else none
]

property_in : Device → String → List PropertyValue → Option Property
unfolding named
property_in d name [] = none
property_in d name (pv ∷ pvs) = elim (named d name pv) [
  | some p ↦ some p
  | none ↦ property_in d name pvs
]

-- `Object::property`
unfoldable pub property : Device → Object → String → Option Property
unfolding property_in
property d o name = property_in d name o.properties

property_value_in : Device → String → List PropertyValue → Option PropertyValue
unfolding named
property_value_in d name [] = none
property_value_in d name (pv ∷ pvs) = elim (named d name pv) [
  | some p ↦ some pv
  | none ↦ property_value_in d name pvs
]

-- `Object::propertyValue`
unfoldable pub property_value : Device → Object → String → Option PropertyValue
unfolding property_value_in
property_value d o name = property_value_in d name o.properties
