-- ===== src/Drm/Objects.antt =====
-- The constructors of the device's objects (src/drm.cpp).
use twincam.Base.{
  ℕ, suc, ◌/◌, ◌%◌, ◌^◌, Bool, true, false, Option, none, some, List, [], ◌∷◌, ◌==◌, if◌then◌else◌,
  get_elem?, String, str_append, to_string,
}
use twincam.Drm.Types.{
  ObjectType, PropertyValue, Object, PropertyType, Property, Crtc, Encoder, Status, Connector,
  Plane, Device, ModePropertyRes, ModeEncoder, ModeConnection, ModeConnector, ModePlane, Libdrm,
}
use twincam.Base.Maps.{map_insert}

-- Only connectors, CRTCs, encoders and planes have properties.
abbrev has_properties : ObjectType → Bool
has_properties ObjectType.connector = true
has_properties ObjectType.crtc = true
has_properties ObjectType.encoder = true
has_properties ObjectType.plane = true
has_properties _ = false

abbrev or_empty : Option (List PropertyValue) → List PropertyValue
or_empty none = []
or_empty (some pvs) = pvs

-- `Object::Object`
new_object : Libdrm → ℕ → ObjectType → Object
new_object env id type = record {
  id = id;
  type = type;
  properties = if has_properties type then or_empty (env.object_get_properties id type) else [];
}

-- `mask & (1 << index)`, for an index that the shift allows.
unfoldable pub mask_bit : ℕ → ℕ → Bool
mask_bit mask index = mask / 2 ^ index % 2 == 1

-- The positions, from `i` on, of the elements that pass a test.
unfoldable pub positions {ℓ} : {A : Type ℓ} → (A → Bool) → ℕ → List A → List ℕ
positions test i [] = []
positions test i (a ∷ as') =
    let rest = positions test (suc i) as' in if test a then i ∷ rest else rest

property_type : Libdrm → ℕ → PropertyType
property_type env flags =
    if env.property_type_is flags PropertyType.range
    then PropertyType.range
    else if env.property_type_is flags PropertyType.enumeration
    then PropertyType.enumeration
    else if env.property_type_is flags PropertyType.blob
    then PropertyType.blob
    else if env.property_type_is flags PropertyType.bitmask
    then PropertyType.bitmask
    else if env.property_type_is flags PropertyType.object
    then PropertyType.object
    else if env.property_type_is flags PropertyType.signed_range
    then PropertyType.signed_range
    else PropertyType.unknown

fill_enums : List (ℕ × String) → List (ℕ × String) → List (ℕ × String)
fill_enums m [] = m
fill_enums m ((value, name) ∷ es) = fill_enums (map_insert value name m) es

-- `Property::Property`
unfoldable pub new_property : Libdrm → ModePropertyRes → Property
unfolding property_type fill_enums new_object
new_property env p = record {
  base = new_object env p.prop_id ObjectType.property;
  type = property_type env p.flags;
  name = p.name;
  flags = p.flags;
  values = p.values;
  enums = fill_enums [] p.enums;
  blobs = p.blob_ids;
}

-- `Crtc::Crtc`
unfoldable pub new_crtc : Libdrm → ℕ → ℕ → Crtc
unfolding new_object
new_crtc env crtc_id index = record {
  base = new_object env crtc_id ObjectType.crtc;
  index = index;
  planes = [];
}

-- The CRTCs of the device whose bit the mask has.
abbrev pub crtcs_of_mask : ℕ → List Crtc → List ℕ
crtcs_of_mask mask crtcs = positions (λ (c : Crtc). mask_bit mask c.index) 0 crtcs

-- `Encoder::Encoder`
unfoldable pub new_encoder : Libdrm → Device → ModeEncoder → Encoder
unfolding new_object positions mask_bit
new_encoder env d e = record {
  base = new_object env e.encoder_id ObjectType.encoder;
  type = e.encoder_type;
  possible_crtcs = crtcs_of_mask e.possible_crtcs d.crtcs;
}

-- `connectorTypeNames`, by the constants DRM_MODE_CONNECTOR_Unknown (0) to DRM_MODE_CONNECTOR_DPI.
abbrev connector_type_names : List String
connector_type_names =
    "Unknown" ∷ "VGA" ∷ "DVI-I" ∷ "DVI-D" ∷ "DVI-A" ∷ "Composite" ∷ "S-Video" ∷ "LVDS" ∷ "Component"
    ∷ "9-Pin-DIN" ∷ "DP" ∷ "HDMI-A" ∷ "HDMI-B" ∷ "TV" ∷ "eDP" ∷ "Virtual" ∷ "DSI" ∷ "DPI" ∷ []

abbrev name_or_unknown : Option String → String
name_or_unknown none = "Unknown"
name_or_unknown (some name) = name

connector_name : ℕ → ℕ → String
unfolding to_string
connector_name type type_id =
    str_append (name_or_unknown (get_elem? connector_type_names type))
      (str_append "-" (to_string type_id))

abbrev status_of : ModeConnection → Status
status_of ModeConnection.connected = Status.connected
status_of ModeConnection.disconnected = Status.disconnected
status_of ModeConnection.unknown = Status.unknown

-- `std::find_if` by id, as a position from `i` on.
find_encoder : ℕ → ℕ → List Encoder → Option ℕ
find_encoder id i [] = none
find_encoder id i (e ∷ es) = if e.base.id == id then some i else find_encoder id (suc i) es

-- An encoder that is not found is skipped.
resolve_encoders : List ℕ → List Encoder → List ℕ
unfolding find_encoder
resolve_encoders [] es = []
resolve_encoders (id ∷ ids) es = elim (find_encoder id 0 es) [
  | none ↦ resolve_encoders ids es
  | some i ↦ i ∷ resolve_encoders ids es
]

-- `Connector::Connector`
unfoldable pub new_connector : Libdrm → Device → ModeConnector → Connector
unfolding new_object connector_name resolve_encoders
new_connector env d c = record {
  base = new_object env c.connector_id ObjectType.connector;
  type = c.connector_type;
  name = connector_name c.connector_type c.connector_type_id;
  status = status_of c.connection;
  encoders = resolve_encoders c.encoders d.encoders;
  modes = c.modes;
}

-- `Plane::Plane`
unfoldable pub new_plane : Libdrm → Device → ModePlane → Plane
unfolding new_object positions mask_bit
new_plane env d p = record {
  base = new_object env p.plane_id ObjectType.plane;
  type = none;
  formats = p.formats;
  possible_crtcs = crtcs_of_mask p.possible_crtcs d.crtcs;
  possible_crtcs_mask = p.possible_crtcs;
}

contains : ℕ → List ℕ → Bool
contains fourcc [] = false
contains fourcc (f ∷ fs) = if f == fourcc then true else contains fourcc fs

-- `Plane::supportsFormat`, by the format's fourcc.
unfoldable pub supports_format : Plane → ℕ → Bool
unfolding contains
supports_format p fourcc = contains fourcc p.formats
