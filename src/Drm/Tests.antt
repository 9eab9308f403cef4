-- ===== src/Drm/Tests.antt =====
-- A device for tests, and the theorems on requests and framebuffers at concrete inputs.
use twincam.Base.{
  ℕ, ◌≡◌, refl, ◌⊎◌, true, false, false, some, List, [], ◌∷◌, map, pos, neg, einval, String,
  if◌then◌else◌, ◌==◌,
}
use twincam.Camera.{Size, FramePlane}
use twincam.Drm.Types.{
  ObjectType, Property, PropertyType, PropertyValue, Connector, Status, Plane, PlaneType, ObjectRef,
  Device, got,
}
use twincam.Drm.AtomicRequest.{
  AtomicApi, PropertySet, Change, flag_async, commit, add_changes, new_request, drm_flags,
}
use twincam.Drm.AtomicRequest.Atomicity.{Resolves, commit-add_changes}
use twincam.Drm.FrameBuffer.{PrimeApi, create_frame_buffer}
use twincam.Drm.FrameBuffer.Handles.{Filled, create_frame_buffer-Filled}

abbrev test_property : ℕ → String → Property
test_property id name = record {
  base = record { id = id; type = ObjectType.property; properties = [] };
  type = PropertyType.range;
  name = name;
  flags = 0;
  values = [];
  enums = [];
  blobs = [];
}

abbrev test_properties : List Property
test_properties =
    test_property 51 "CRTC_ID"
    ∷ test_property 52 "FB_ID"
    ∷ test_property 53 "SRC_X"
    ∷ test_property 54 "SRC_Y"
    ∷ test_property 55 "SRC_W"
    ∷ test_property 56 "SRC_H"
    ∷ test_property 57 "CRTC_X"
    ∷ test_property 58 "CRTC_Y"
    ∷ test_property 59 "CRTC_W"
    ∷ test_property 60 "CRTC_H"
    ∷ test_property 61 "ACTIVE"
    ∷ test_property 62 "MODE_ID"
    ∷ []

abbrev test_objects : List (ℕ × ObjectRef)
test_objects =
    (51, ObjectRef.property 0)
    ∷ (52, ObjectRef.property 1)
    ∷ (53, ObjectRef.property 2)
    ∷ (54, ObjectRef.property 3)
    ∷ (55, ObjectRef.property 4)
    ∷ (56, ObjectRef.property 5)
    ∷ (57, ObjectRef.property 6)
    ∷ (58, ObjectRef.property 7)
    ∷ (59, ObjectRef.property 8)
    ∷ (60, ObjectRef.property 9)
    ∷ (61, ObjectRef.property 10)
    ∷ (62, ObjectRef.property 11)
    ∷ []

abbrev test_values : List PropertyValue
test_values = map (λ (p : Property). record { id = p.base.id; value = 0 }) test_properties

abbrev test_plane : Plane
test_plane = record {
  base = record { id = 41; type = ObjectType.plane; properties = test_values };
  type = some PlaneType.primary;
  formats = 7 ∷ 8 ∷ [];
  possible_crtcs = 0 ∷ [];
  possible_crtcs_mask = 1;
}

abbrev pub test_connector : Connector
test_connector = record {
  base = record { id = 31; type = ObjectType.connector; properties = test_values };
  type = 11;
  name = "HDMI-A-1";
  status = Status.connected;
  encoders = 0 ∷ [];
  modes = record { hdisplay = 1920; vdisplay = 1080; vrefresh = 60 } ∷ [];
}

-- One connector, encoder, CRTC and plane, with the properties that the sink sets.
abbrev pub test_device : Device
test_device = record {
  fd = pos 4;
  crtcs =
      record {
        base = record { id = 11; type = ObjectType.crtc; properties = test_values };
        index = 0;
        planes = 0 ∷ [];
      }
      ∷ [];
  encoders =
      record {
        base = record { id = 21; type = ObjectType.encoder; properties = [] };
        type = 2;
        possible_crtcs = 0 ∷ [];
      }
      ∷ [];
  connectors = test_connector ∷ [];
  planes = test_plane ∷ [];
  properties = test_properties;
  objects = test_objects;
}

-- A libdrm that takes everything, and one that refuses commits.
abbrev pub taking : AtomicApi
taking = record { alloc = true; add_property = λ r p. pos 1; commit = λ r f. pos 0 }

abbrev pub refusing : AtomicApi
refusing = record { alloc = true; add_property = λ r p. pos 1; commit = λ r f. neg 16 }

abbrev two_changes : List Change
two_changes =
    record { object = test_plane.base; name = "FB_ID"; value = 61 }
    ∷ record { object = test_connector.base; name = "CRTC_ID"; value = 11 }
    ∷ []

commit-add_changes_example :
    let r = add_changes taking test_device two_changes (new_request taking) in
    (commit taking flag_async r ≡ (neg einval, false))
    ⊎ ((ps : List PropertySet) × Resolves test_device two_changes ps
        × (commit taking flag_async r ≡ (taking.commit (some ps) (drm_flags flag_async), true)))
commit-add_changes_example = commit-add_changes taking test_device two_changes flag_async

-- Descriptors 5 and 6 have the handles 15 and 16.
abbrev prime : PrimeApi
prime = record {
  fd_to_handle = λ fd. if fd == 5 then got 15 else got 16;
  add_fb2 = λ size fourcc handles strides offsets. got 71;
}

abbrev nv12_planes : List FramePlane
nv12_planes =
    record { fd = 5; offset = 0; length = 307200 }
    ∷ record { fd = 5; offset = 307200; length = 153600 }
    ∷ record { fd = 6; offset = 0; length = 16 }
    ∷ []

abbrev test_size : Size
test_size = record { width = 640; height = 480 }

create_frame_buffer-Filled_example :
    (handles : List ℕ) × (offsets : List ℕ) × (prime.add_fb2 test_size 7 handles
        (640 ∷ 640 ∷ [])
        offsets
      ≡ got 71)
    × Filled prime nv12_planes 0 handles offsets
unfolding create_frame_buffer
create_frame_buffer-Filled_example =
    create_frame_buffer-Filled prime nv12_planes 7 test_size (640 ∷ 640 ∷ [])
      (record { id = 71; planes = (5, 15) ∷ (6, 16) ∷ [] }) refl
