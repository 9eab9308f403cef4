-- ===== src/Drm/Opening.antt =====
-- `openCard`, `Device::init`, the destructor and the page flip events of src/drm.cpp.
pub mod Cards
pub mod Ready
mod Tests
use twincam.Base.{
  ◌>>=◌, ℕ, zero, suc, Bool, true, false, ◌&&◌, Option, none, some, List, [], ◌∷◌, ◌++◌, ℤ, pos,
  negsuc, neg, is_neg, length, ltb, ◌==◌, if◌then◌else◌,
}
use twincam.EventLoop.{EventType, LibEvent, EventLoop, add_fd_event}
use twincam.Drm.Types.{Device, Libdrm}
use twincam.Drm.Resources.{get_resources}

-- What follows `card` in the name of an entry of /dev/dri, if it starts with that.
unfoldable pub card_suffix : List ℕ → Option (List ℕ)
card_suffix (a ∷ b ∷ c ∷ d ∷ rest) =
    if a == 99 && b == 97 && c == 114 && d == 100 then some rest else none
card_suffix (a ∷ b ∷ c ∷ []) = none
card_suffix (a ∷ b ∷ []) = none
card_suffix (a ∷ []) = none
card_suffix [] = none

-- `/dev/dri/card`
abbrev pub dri_card : List ℕ
dri_card = 47 ∷ 100 ∷ 101 ∷ 118 ∷ 47 ∷ 100 ∷ 114 ∷ 105 ∷ 47 ∷ 99 ∷ 97 ∷ 114 ∷ 100 ∷ []

-- The loop of `openCard` over the names, with the descriptor so far. Four bytes are copied behind `card`, to the
-- end of the array: where they have no zero the name is not terminated, and `open` reads past it.
unfoldable pub try_cards : (List ℕ → ℤ) → List (List ℕ) → ℤ → Option ℤ
try_cards open_file [] fd = some fd
try_cards open_file (name ∷ names) fd =
    let skip = try_cards open_file names fd in
    elim (card_suffix name) [
      | none ↦ skip
      | some suffix ↦
          let ret = open_file (dri_card ++ suffix) in
          let next = try_cards open_file names ret in
          if ltb 3 (length suffix) then none else if is_neg ret then next else some ret
    ]

-- `openCard`, by the names in /dev/dri if it can be opened.
unfoldable pub open_card : (List ℕ → ℤ) → Option (List (List ℕ)) → Option ℤ
open_card open_file none = some (negsuc 0)
open_card open_file (some names) = try_cards open_file names (negsuc 0)

-- What the system answers to `Device::init`: the files, and the return code and `errno` of drmSetClientCap.
pub record CardApi : Type 0 where
  pub dri : Option (List (List ℕ))
  pub open_file : List ℕ → ℤ
  pub set_client_cap : ℤ
  pub errno : ℕ

module _ {C : Type 0} (api : CardApi) (env : Libdrm) (event : LibEvent) (drm_event : C) where
  -- `Device::init` once the card is open.
  unfoldable pub init_card : ℤ → Device → EventLoop C → ℤ × Device × EventLoop C
  init_card fd d l =
      if is_neg fd
      then (fd, d, l)
      else if is_neg api.set_client_cap
      then (neg api.errno, d, l)
      else let (ret, d') = get_resources env d in
        if is_neg ret
        then (ret, d', l)
        else (pos 0, d', add_fd_event event fd EventType.read drm_event l)

  unfoldable pub init : Device → EventLoop C → Option (ℤ × Device × EventLoop C)
  init d l = do fd ← open_card api.open_file api.dri; some (init_card fd (record d { fd = fd }) l)

-- `Device::~Device`: the descriptor that is closed, if one is.
pub destroy : Device → Option ℤ
destroy d = elim d.fd [ pos n ↦ some (pos n) | negsuc n ↦ if n == 0 then none else some (negsuc n) ]

-- `drmEvent`: for each page flip that drmHandleEvent reads, `pageFlipComplete` emits `requestComplete` with its
-- request; `emit` is what that does.
pub drm_event : {S : Type 0} → (ℕ → S → Option S) → List ℕ → S → Option S
drm_event emit [] s = some s
drm_event emit (request ∷ requests) s = do s' ← emit request s; drm_event emit requests s'
