-- ===== src/Drm/AtomicRequest.antt =====
-- `DRM::AtomicRequest` (src/drm.h, src/drm.cpp): a list of property changes and its commit.
pub mod Atomicity
use twincam.Base.{
  ℕ, ◌+◌, ◌/◌, ◌%◌, ◌≡◌, refl, ◌⊎◌, inl, inr, Bool, true, false, not, Option, none, some, List, [],
  ◌∷◌, ◌++◌, ℤ, pos, neg, is_neg, einval, ◌==◌, if◌then◌else◌, String, arith,
}
use twincam.Drm.Types.{Object, Property, Device}
use twincam.Drm.Lookup.{property}

-- One entry of a `drmModeAtomicReq`.
pub record PropertySet : Type 0 where
  pub object : ℕ
  pub property : ℕ
  pub value : ℕ

-- The flags of `drmModeAtomicCommit`: DRM_MODE_ATOMIC_ALLOW_MODESET, DRM_MODE_PAGE_FLIP_EVENT,
-- DRM_MODE_ATOMIC_NONBLOCK and DRM_MODE_ATOMIC_TEST_ONLY.
pub record DrmFlags : Type 0 where
  pub allow_modeset : Bool
  pub page_flip_event : Bool
  pub nonblock : Bool
  pub test_only : Bool

-- The results of libdrm's calls on requests: whether `drmModeAtomicAlloc` gives one, and the return
-- codes of `drmModeAtomicAddProperty` and `drmModeAtomicCommit`.
pub record AtomicApi : Type 0 where
  pub alloc : Bool
  pub add_property : Option (List PropertySet) → PropertySet → ℤ
  pub commit : Option (List PropertySet) → DrmFlags → ℤ

-- `request` is the `drmModeAtomicReq`, by the entries that it has taken, or null.
pub record AtomicRequest : Type 0 where
  pub valid : Bool
  pub request : Option (List PropertySet)

-- The constructor.
unfoldable pub new_request : AtomicApi → AtomicRequest
new_request api =
    if api.alloc
    then record { valid = true; request = some [] }
    else record { valid = false; request = none }

abbrev extend : Option (List PropertySet) → PropertySet → Option (List PropertySet)
extend none p = none
extend (some ps) p = some (ps ++ p ∷ [])

-- The private `addProperty`, by ids.
add_property_by_id : AtomicApi → PropertySet → AtomicRequest → ℤ × AtomicRequest
add_property_by_id api p r =
    let ret = api.add_property r.request p in
    if is_neg ret
    then (ret, record r { valid = false })
    else (pos 0, record r { request = extend r.request p })

abbrev pub set_of : Object → Property → ℕ → PropertySet
set_of o p value = record { object = o.id; property = p.base.id; value = value }

add_found : AtomicApi → Object → Option Property → ℕ → AtomicRequest → ℤ × AtomicRequest
unfolding add_property_by_id
add_found api o none value r = (neg einval, record r { valid = false })
add_found api o (some p) value r = add_property_by_id api (set_of o p value) r

-- `addProperty`, by an object and the name of a property.
unfoldable pub add_property :
    AtomicApi → Device → Object → String → ℕ → AtomicRequest → ℤ × AtomicRequest
unfolding add_found
add_property api d o name value r =
    if not r.valid then (neg einval, r) else add_found api o (property d o name) value r

-- The flags of `AtomicRequest::Flags`, as a bit set.
abbrev pub flag_allow_modeset : ℕ
flag_allow_modeset = 1

abbrev pub flag_async : ℕ
flag_async = 2

abbrev flag_test_only : ℕ
flag_test_only = 4

abbrev has_flag : ℕ → ℕ → Bool
has_flag flags flag = flags / flag % 2 == 1

pub drm_flags : ℕ → DrmFlags
drm_flags flags = record {
  allow_modeset = has_flag flags flag_allow_modeset;
  page_flip_event = has_flag flags flag_async;
  nonblock = has_flag flags flag_async;
  test_only = has_flag flags flag_test_only;
}

-- `commit`: the return code, and whether the request went to the kernel.
unfoldable pub commit : AtomicApi → ℕ → AtomicRequest → ℤ × Bool
unfolding drm_flags
commit api flags r =
    if not r.valid then (neg einval, false) else (api.commit r.request (drm_flags flags), true)

-- A call of `addProperty`.
pub record Change : Type 0 where
  pub object : Object
  pub name : String
  pub value : ℕ

-- Calls of `addProperty` in a row, whose return codes the sinks drop.
unfoldable pub add_changes : AtomicApi → Device → List Change → AtomicRequest → AtomicRequest
unfolding add_property
add_changes api d [] r = r
add_changes api d (c ∷ cs) r = add_changes api d cs (add_property api d c.object c.name c.value r).1
