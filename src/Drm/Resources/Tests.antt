-- ===== src/Drm/Resources/Tests.antt =====
-- The resources of a small device, and the theorem on them at this input.
use twincam.Base.{List, ◌≡◌, refl, none, some, [], ◌∷◌, pos, false, if◌then◌else◌, ◌==◌}
use twincam.Base.Maps.{map_find}
use twincam.Base.{ℕ, ℤ, negsuc, is_neg, true, ◌⊎◌, arith}
use twincam.EventLoop.{EventType, LibEvent, EventLoop, add_fd_event}
use twincam.Drm.Opening.{card_suffix, try_cards, open_card, CardApi, init_card, init}
use twincam.EventLoop.Watching.{IsWatched, IsRefused}
use twincam.Drm.Opening.Cards.{cards, IsFirst}
use twincam.Drm.Opening.Ready.{init_lem}
use twincam.Drm.Types.{Device, Libdrm, ModeConnection, got}
use twincam.Drm.Resources.{
  get_resources, add_crtcs, add_encoders, add_connectors, add_planes, add_all_planes, finish,
  perform_all_delayed_setup, add_properties, collect_property_ids,
  set_possible_planes_for_each_crtc,
}
use twincam.Drm.Resources.Agreement.{Agree}
use twincam.Drm.Resources.Reading.{SetsErrno, get_resources-Agree}

-- A device with one connector, encoder, CRTC and plane, which has the property "type".
abbrev libdrm : Libdrm
libdrm = record {
  object_get_properties =
      λ id type. if id == 41 then some (record { id = 51; value = 1 } ∷ []) else none;
  get_resources = got (record { crtcs = 11 ∷ []; encoders = 21 ∷ []; connectors = 31 ∷ [] });
  get_crtc = got;
  get_encoder = λ id. got (record { encoder_id = id; encoder_type = 2; possible_crtcs = 1 });
  get_connector = λ id. got (record {
    connector_id = id;
    connector_type = 11;
    connector_type_id = 1;
    connection = ModeConnection.connected;
    modes = [];
    encoders = 21 ∷ [];
  });
  get_plane_resources = got (41 ∷ []);
  get_plane = λ id. got (record { plane_id = id; formats = 7 ∷ []; possible_crtcs = 1 });
  get_property = λ id.
      got
        (record { prop_id = id; flags = 8; name = "type"; values = []; enums = []; blob_ids = [] });
  property_type_is = λ flags type. false;
}

libdrm-SetsErrno : SetsErrno libdrm
libdrm-SetsErrno = record {
  resources = λ e h. absurd (cc);
  crtc = λ id e h. absurd (cc);
  encoder = λ id e h. absurd (cc);
  connector = λ id e h. absurd (cc);
  plane_resources = λ e h. absurd (cc);
  plane = λ id e h. absurd (cc);
}

abbrev no_device : Device
no_device = record {
  fd = pos 4;
  crtcs = [];
  encoders = [];
  connectors = [];
  planes = [];
  properties = [];
  objects = [];
}

abbrev read_device : Device
read_device = (get_resources libdrm no_device).1

get_resources_run : get_resources libdrm no_device ≡ (pos 0, read_device)
unfolding get_resources add_crtcs add_encoders add_connectors add_planes add_all_planes finish
    perform_all_delayed_setup add_properties collect_property_ids set_possible_planes_for_each_crtc
    map_find
get_resources_run = refl

get_resources-Agree_example : Agree read_device
get_resources-Agree_example =
    get_resources-Agree libdrm no_device read_device libdrm-SetsErrno refl refl get_resources_run

-- `card0` can be opened, and is the descriptor 4.
abbrev api : CardApi
api = record {
  dri = some ((99 ∷ 97 ∷ 114 ∷ 100 ∷ 48 ∷ []) ∷ []);
  open_file = λ path. pos 4;
  set_client_cap = pos 0;
  errno = 22;
}

abbrev libevent : LibEvent
libevent = record {
  event_new = λ fd flags. some 9;
  event_add = λ h tv. pos 0;
  event_base_once = pos 0;
}

abbrev loop : EventLoop ℕ
loop = record { exit_code = pos 0; calls = []; events = []; deleted = []; breaks = 0 }

abbrev watching : EventLoop ℕ
watching = add_fd_event libevent (pos 4) EventType.read 3 loop

device_opened :
    init api libdrm libevent 3 (record no_device { fd = negsuc 0 }) loop
    ≡ some (pos 0, read_device, watching)
unfolding init init_card open_card try_cards card_suffix get_resources add_crtcs add_encoders
    add_connectors add_planes add_all_planes finish perform_all_delayed_setup add_properties
    collect_property_ids set_possible_planes_for_each_crtc map_find
device_opened = refl

abbrev card_names : List (List ℕ)
card_names = (99 ∷ 97 ∷ 114 ∷ 100 ∷ 48 ∷ []) ∷ []

init_lem_example :
    (ret : ℤ) × (d' : Device) × (l' : EventLoop ℕ) × (init api libdrm libevent 3
        (record no_device { fd = negsuc 0 })
        loop
      ≡ some (ret, d', l'))
    × (((is_neg ret ≡ true) × (l' ≡ loop))
        ⊎ ((ret ≡ pos 0)
            × Agree d'
            × ((fd : ℤ) × (is_neg fd ≡ false)
                × IsFirst api.open_file (cards card_names) fd
                × (IsWatched libevent fd 3 loop l' ⊎ IsRefused libevent fd loop l'))))
unfolding cards card_suffix
init_lem_example =
    init_lem api libdrm libevent 3 (record no_device { fd = negsuc 0 }) loop card_names refl
      (omega arith, tt) (omega arith) libdrm-SetsErrno refl refl
