-- ===== src/Drm/FrameBuffer.antt =====
-- `DRM::FrameBuffer` and `Device::createFrameBuffer` (src/drm.cpp): the GEM handles of a buffer's
-- file descriptors.
pub mod Handles
pub mod Arrays
use twincam.Base.{
  ℕ, zero, suc, Bool, true, false, Option, none, some, List, [], ◌∷◌, ◌++◌, map, ℤ, if◌then◌else◌,
  ltb, set,
}
use twincam.Camera.{FramePlane, Size}
use twincam.Drm.Types.{Answer, got, failed}
use twincam.Base.Maps.{map_insert, map_find}

-- `planes` goes from file descriptors to GEM handles.
pub record FrameBuffer : Type 0 where
  pub id : ℕ
  pub planes : List (ℕ × ℕ)

-- The results of `drmPrimeFDToHandle` and of `drmModeAddFB2`, which gives the new id.
pub record PrimeApi : Type 0 where
  pub fd_to_handle : ℕ → Answer ℕ
  pub add_fb2 : Size → ℕ → List ℕ → List ℕ → List ℕ → Answer ℕ

-- `~FrameBuffer`: the handles that DRM_IOCTL_GEM_CLOSE is called for. (It is called again until it is
-- not interrupted, and its errors are only printed.)
pub closes : FrameBuffer → List ℕ
closes fb = map (λ (p : ℕ × ℕ). p.1) fb.planes

-- How the loop over the planes ends: after the last plane, at a descriptor that cannot be imported,
-- or with a write past the end of `handles[4]`.
pub data Import : Type 0 where
  imported : List (ℕ × ℕ) → List ℕ → List ℕ → Import
  import_failed : List (ℕ × ℕ) → ℕ → Import
  overflow : List (ℕ × ℕ) → Import

-- The handle of a descriptor and the map with it.
pub handle_of : PrimeApi → ℕ → List (ℕ × ℕ) → Answer (ℕ × List (ℕ × ℕ))
unfolding map_find map_insert
handle_of api fd m = elim (map_find fd m) [
  | some handle ↦ got (handle, m)
  | none ↦ elim (api.fd_to_handle fd) [
    | failed e ↦ failed e
    | got handle ↦ got (handle, map_insert fd handle m)
  ]
]

pub import_planes : PrimeApi → List FramePlane → ℕ → List (ℕ × ℕ) → List ℕ → List ℕ → Import
unfolding handle_of
import_planes api [] i m handles offsets = imported m handles offsets
import_planes api (p ∷ ps) i m handles offsets = elim (handle_of api p.fd m) [
  | failed e ↦ import_failed m e
  | got (handle, m') ↦ elim (ltb i 4) [
    | true ↦ import_planes api ps (suc i) m' (set handles i handle) (set offsets i p.offset)
    | false ↦ overflow m'
  ]
]

-- What `createFrameBuffer` gives: a framebuffer, null with the handles that its destructor has
-- closed, or undefined behaviour.
pub data Created : Type 0 where
  created : FrameBuffer → Created
  null : List ℕ → Created
  undefined : Created

abbrev pub zeros : List ℕ
zeros = 0 ∷ 0 ∷ 0 ∷ 0 ∷ []

add_fb : PrimeApi → ℕ → Size → List ℕ → Import → Created
unfolding closes
add_fb api fourcc size strides (import_failed m e) = null (closes (record { id = 0; planes = m }))
add_fb api fourcc size strides (overflow m) = undefined
add_fb api fourcc size strides (imported m handles offsets) =
    elim (api.add_fb2 size fourcc handles strides offsets) [
      | failed e ↦ null (closes (record { id = 0; planes = m }))
      | got id ↦ created (record { id = id; planes = m })
    ]

-- `Device::createFrameBuffer`, of a buffer's planes, a format's fourcc, a size and the strides.
unfoldable pub create_frame_buffer : PrimeApi → List FramePlane → ℕ → Size → List ℕ → Created
unfolding import_planes add_fb
create_frame_buffer api planes fourcc size strides =
    add_fb api fourcc size strides (import_planes api planes 0 [] zeros zeros)
