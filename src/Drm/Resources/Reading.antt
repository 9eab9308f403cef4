-- ===== src/Drm/Resources/Reading.antt =====
-- The loops of `Device::getResources` up to the planes, and the function as a whole (src/drm.cpp).
use twincam.Base.{
  ℕ, zero, suc, ◌≤◌, ◌≡◌, refl, inl, inr, ap, true, some, List, [], ◌∷◌, pos, neg, is_neg, arith,
  get_elem?,
}
use twincam.Drm.Types.{Crtc, Device, failed, Answer-cases, ModeRes, Libdrm, ModePlane}
use twincam.Drm.Objects.{new_plane, new_crtc, new_encoder, new_connector}
use twincam.Drm.Resources.{
  Stage, going, returned, insert_crtc, insert_encoder, insert_connector, insert_plane, add_crtcs,
  add_encoders, add_connectors, add_planes, add_all_planes, finish, resources_stage, get_resources,
  outcome, ◌>>=◌,
}
use twincam.Drm.Resources.Positions.{get_elem?-snoc}
use twincam.Drm.Resources.Agreement.{Agree, Fresh, finish-Agree}

-- libdrm sets `errno` when a call fails.
pub record SetsErrno (env : Libdrm) : Type 0 where
  pub resources : (e : ℕ) → env.get_resources ≡ failed e → 1 ≤ e
  pub crtc : (id e : ℕ) → env.get_crtc id ≡ failed e → 1 ≤ e
  pub encoder : (id e : ℕ) → env.get_encoder id ≡ failed e → 1 ≤ e
  pub connector : (id e : ℕ) → env.get_connector id ≡ failed e → 1 ≤ e
  pub plane_resources : (e : ℕ) → env.get_plane_resources ≡ failed e → 1 ≤ e
  pub plane : (id e : ℕ) → env.get_plane id ≡ failed e → 1 ≤ e

pub neg-is_neg : (e : ℕ) → 1 ≤ e → is_neg (neg e) ≡ true
neg-is_neg zero h = absurd (omega arith)
neg-is_neg (suc e) h = refl

-- Before the planes are read.
record Early (d : Device) : Type 0 where
  no_planes : (i : ℕ) (c : Crtc) → get_elem? d.crtcs i ≡ some c → c.planes ≡ []
  none_yet : d.planes ≡ []

-- A loop goes on with a device that has a property, or has returned a negative number.
abbrev Ends : (Device → Type 0) → Stage → Type 0
Ends P (going d) = P d
Ends P (returned ret d) = is_neg ret ≡ true

module _ (env : Libdrm) (errno : SetsErrno env) where
  insert_crtc-Early : (m i : ℕ) (d : Device) → Early d → Early (insert_crtc (new_crtc env m i) d)
  unfolding insert_crtc new_crtc
  insert_crtc-Early m i d v = record {
    no_planes = λ k c e. elim (get_elem?-snoc d.crtcs (new_crtc env m i) k c e) [
      | inl old ↦ v.no_planes k c old
      | inr new ↦ ap (λ (x : Crtc). x.planes) new
    ];
    none_yet = v.none_yet;
  }

  add_crtcs-Ends :
      (ids : List ℕ) (i : ℕ) (d : Device) → Early d → Ends Early (add_crtcs env ids i d)
  unfolding add_crtcs
  add_crtcs-Ends [] i d v = v
  add_crtcs-Ends (id ∷ ids) i d v = elim (Answer-cases (env.get_crtc id)) [
    | inl (e, bad) ↦ rw (Ends, add_crtcs, bad) (neg-is_neg e (errno.crtc id e bad))
    | inr (m, good) ↦
        rw (add_crtcs, good)
          (add_crtcs-Ends ids (suc i) (insert_crtc (new_crtc env m i) d)
            (insert_crtc-Early m i d v))
  ]

  add_encoders-Ends : (ids : List ℕ) (d : Device) → Early d → Ends Early (add_encoders env ids d)
  unfolding add_encoders insert_encoder
  add_encoders-Ends [] d v = v
  add_encoders-Ends (id ∷ ids) d v = elim (Answer-cases (env.get_encoder id)) [
    | inl (e, bad) ↦ rw (Ends, add_encoders, bad) (neg-is_neg e (errno.encoder id e bad))
    | inr (m, good) ↦
        rw (add_encoders, good)
          (add_encoders-Ends ids (insert_encoder (new_encoder env d m) d)
            (record { no_planes = v.no_planes; none_yet = v.none_yet }))
  ]

  add_connectors-Ends :
      (ids : List ℕ) (d : Device) → Early d → Ends Early (add_connectors env ids d)
  unfolding add_connectors insert_connector
  add_connectors-Ends [] d v = v
  add_connectors-Ends (id ∷ ids) d v = elim (Answer-cases (env.get_connector id)) [
    | inl (e, bad) ↦ rw (Ends, add_connectors, bad) (neg-is_neg e (errno.connector id e bad))
    | inr (m, good) ↦
        rw (add_connectors, good)
          (add_connectors-Ends ids (insert_connector (new_connector env d m) d)
            (record { no_planes = v.no_planes; none_yet = v.none_yet }))
  ]

  insert_plane-Fresh :
      (m : ModePlane) (d : Device) → Fresh d → Fresh (insert_plane (new_plane env d m) d)
  unfolding insert_plane new_plane
  insert_plane-Fresh m d v = record {
    no_planes = v.no_planes;
    masked = λ k p e. elim (get_elem?-snoc d.planes (new_plane env d m) k p e) [
      | inl old ↦ v.masked k p old
      | inr new ↦ ground arith
    ];
  }

  add_planes-Ends : (ids : List ℕ) (d : Device) → Fresh d → Ends Fresh (add_planes env ids d)
  unfolding add_planes
  add_planes-Ends [] d v = v
  add_planes-Ends (id ∷ ids) d v = elim (Answer-cases (env.get_plane id)) [
    | inl (e, bad) ↦ rw (Ends, add_planes, bad) (neg-is_neg e (errno.plane id e bad))
    | inr (m, good) ↦
        rw (add_planes, good)
          (add_planes-Ends ids (insert_plane (new_plane env d m) d) (insert_plane-Fresh m d v))
  ]

  Early-Fresh : (d : Device) → Early d → Fresh d
  Early-Fresh d v = record {
    no_planes = v.no_planes;
    masked = λ j p e. absurd (ground (arith, v.none_yet));
  }

  add_all_planes-Ends : (d : Device) → Early d → Ends Fresh (add_all_planes env d)
  unfolding add_all_planes
  add_all_planes-Ends d v = elim (Answer-cases env.get_plane_resources) [
    | inl (e, bad) ↦ rw (Ends, add_all_planes, bad) (neg-is_neg e (errno.plane_resources e bad))
    | inr (ids, good) ↦ rw (add_all_planes, good) (add_planes-Ends ids d (Early-Fresh d v))
  ]

-- If the function ends with 0, CRTCs and planes agree.
abbrev Done : Stage → Type 0
Done st = (d' : Device) → outcome st ≡ (pos 0, d') → Agree d'

Ends-Done :
    (P : Device → Type 0) (st : Stage) (f : Device → Stage)
    → Ends P st
    → ((d : Device) → P d → Done (f d))
    → Done (st >>= f)
Ends-Done P (going d) f v next = next d v
Ends-Done P (returned ret d) f v next = λ d' e. absurd (ground arith)

module _ (env : Libdrm) (errno : SetsErrno env) (res : ModeRes) where
  abbrev from_planes : Device → Stage
  from_planes d = add_all_planes env d >>= finish env

  abbrev from_connectors : Device → Stage
  from_connectors d = add_connectors env res.connectors d >>= from_planes

  abbrev from_encoders : Device → Stage
  from_encoders d = add_encoders env res.encoders d >>= from_connectors

  from_planes-Done : (d : Device) → Early d → Done (from_planes d)
  from_planes-Done d v =
      Ends-Done Fresh (add_all_planes env d) (finish env) (add_all_planes-Ends env errno d v)
        λ d1 v1 d2 e. finish-Agree env d1 d2 e v1

  from_connectors-Done : (d : Device) → Early d → Done (from_connectors d)
  from_connectors-Done d v =
      Ends-Done Early (add_connectors env res.connectors d) from_planes
        (add_connectors-Ends env errno res.connectors d v) from_planes-Done

  from_encoders-Done : (d : Device) → Early d → Done (from_encoders d)
  from_encoders-Done d v =
      Ends-Done Early (add_encoders env res.encoders d) from_connectors
        (add_encoders-Ends env errno res.encoders d v) from_connectors-Done

  reading-Done : (d : Device) → Early d → Done (add_crtcs env res.crtcs 0 d >>= from_encoders)
  reading-Done d v =
      Ends-Done Early (add_crtcs env res.crtcs 0 d) from_encoders
        (add_crtcs-Ends env errno res.crtcs 0 d v) from_encoders-Done

-- If libdrm sets `errno` when a call fails, and `getResources` of a device without CRTCs and planes
-- returns 0, then each CRTC lists exactly the planes which list it among their possible CRTCs.
pub get_resources-Agree :
    (env : Libdrm) (d d' : Device)
    → SetsErrno env
    → d.crtcs ≡ []
    → d.planes ≡ []
    → get_resources env d ≡ (pos 0, d')
    → Agree d'
unfolding get_resources resources_stage
get_resources-Agree env d d' errno no_crtcs no_planes e = elim (Answer-cases env.get_resources) [
  | inl (n, bad) ↦ absurd (ground (arith, neg-is_neg n (errno.resources n bad)))
  | inr (res, good) ↦
      let start : Early d = record {
        no_planes = λ i c at. absurd (ground arith);
        none_yet = no_planes;
      } in
      reading-Done env errno res d start d' (ground arith)
]
