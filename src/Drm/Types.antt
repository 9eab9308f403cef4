-- ===== src/Drm/Types.antt =====
-- The classes of src/drm.h as records, and what libdrm hands to their constructors.
-- A pointer into one of the device's lists is the position in it: the lists only grow.
use twincam.Base.{ℕ, ◌≡◌, refl, ◌⊎◌, inl, inr, Bool, Option, List, ℤ, String}

-- `Object::Type`
pub data ObjectType : Type 0 where
  crtc connector encoder mode property fb blob plane any : ObjectType

pub record PropertyValue : Type 0 where
  pub id : ℕ
  pub value : ℕ

pub record Object : Type 0 where
  pub id : ℕ
  pub type : ObjectType
  pub properties : List PropertyValue

-- `Property::Type`
pub data PropertyType : Type 0 where
  unknown range enumeration blob bitmask object signed_range : PropertyType

pub record Property : Type 0 where
  pub base : Object
  pub type : PropertyType
  pub name : String
  pub flags : ℕ
  pub values : List ℕ
  pub enums : List (ℕ × String)
  pub blobs : List ℕ

-- `Mode`: the fields of `drmModeModeInfo` that the program reads.
pub record Mode : Type 0 where
  pub hdisplay : ℕ
  pub vdisplay : ℕ
  pub vrefresh : ℕ

-- `planes` points into the device's planes.
pub record Crtc : Type 0 where
  pub base : Object
  pub index : ℕ
  pub planes : List ℕ

-- `possible_crtcs` points into the device's CRTCs.
pub record Encoder : Type 0 where
  pub base : Object
  pub type : ℕ
  pub possible_crtcs : List ℕ

-- `Connector::Status`
pub data Status : Type 0 where
  connected disconnected unknown : Status

-- `encoders` points into the device's encoders.
pub record Connector : Type 0 where
  pub base : Object
  pub type : ℕ
  pub name : String
  pub status : Status
  pub encoders : List ℕ
  pub modes : List Mode

-- `Plane::Type`
pub data PlaneType : Type 0 where
  overlay primary cursor : PlaneType

-- `type` is none until `setup` has set it. `possible_crtcs` points into the device's CRTCs.
pub record Plane : Type 0 where
  pub base : Object
  pub type : Option PlaneType
  pub formats : List ℕ
  pub possible_crtcs : List ℕ
  pub possible_crtcs_mask : ℕ

-- An `Object*` of the map `objects_`, by the list that it points into.
pub data ObjectRef : Type 0 where
  crtc encoder connector plane property : ℕ → ObjectRef

-- `objects` is the `std::map` by ascending keys.
pub record Device : Type 0 where
  pub fd : ℤ
  pub crtcs : List Crtc
  pub encoders : List Encoder
  pub connectors : List Connector
  pub planes : List Plane
  pub properties : List Property
  pub objects : List (ℕ × ObjectRef)

-- What a call of libdrm gives: a value, or null with an `errno`.
pub data Answer (A : Type 0) : Type 0 where
  got : A → Answer A
  failed : ℕ → Answer A

pub Answer-cases :
    {A : Type 0} (r : Answer A) → ((e : ℕ) × (r ≡ failed e)) ⊎ ((a : A) × (r ≡ got a))
Answer-cases (failed e) = inl (e, refl)
Answer-cases (got a) = inr (a, refl)

pub record ModePropertyRes : Type 0 where
  pub prop_id : ℕ
  pub flags : ℕ
  pub name : String
  pub values : List ℕ
  pub enums : List (ℕ × String)
  pub blob_ids : List ℕ

pub record ModeEncoder : Type 0 where
  pub encoder_id : ℕ
  pub encoder_type : ℕ
  pub possible_crtcs : ℕ

-- `drmModeConnection`
pub data ModeConnection : Type 0 where
  connected disconnected unknown : ModeConnection

pub record ModeConnector : Type 0 where
  pub connector_id : ℕ
  pub connector_type : ℕ
  pub connector_type_id : ℕ
  pub connection : ModeConnection
  pub modes : List Mode
  pub encoders : List ℕ

pub record ModePlane : Type 0 where
  pub plane_id : ℕ
  pub formats : List ℕ
  pub possible_crtcs : ℕ

pub record ModeRes : Type 0 where
  pub crtcs : List ℕ
  pub encoders : List ℕ
  pub connectors : List ℕ

-- The calls of libdrm that read a device. `get_crtc` gives the `crtc_id`; `property_type_is` is
-- `drm_property_type_is` on the property's flags.
pub record Libdrm : Type 0 where
  pub object_get_properties : ℕ → ObjectType → Option (List PropertyValue)
  pub get_resources : Answer ModeRes
  pub get_crtc : ℕ → Answer ℕ
  pub get_encoder : ℕ → Answer ModeEncoder
  pub get_connector : ℕ → Answer ModeConnector
  pub get_plane_resources : Answer (List ℕ)
  pub get_plane : ℕ → Answer ModePlane
  pub get_property : ℕ → Answer ModePropertyRes
  pub property_type_is : ℕ → PropertyType → Bool
