-- ===== src/Drm/Opening/Ready.antt =====
-- What `Device::init` leaves (src/drm.cpp).
use twincam.Base.{
  ℕ, ◌≤◌, ◌≡◌, refl, ap, ◌⊎◌, inl, inr, true, false, some, List, [], ℤ, pos, is_neg, arith,
  Bool-cases, ◌∙◌, neg,
}
use mathlib.Core.Path.{subst}
use twincam.EventLoop.{EventType, LibEvent, EventLoop, add_fd_event}
use twincam.EventLoop.Watching.{IsWatched, IsRefused, add_fd_event-cases}
use twincam.Drm.Types.{Device, Libdrm}
use twincam.Drm.Resources.{get_resources}
use twincam.Drm.Resources.Agreement.{Agree}
use twincam.Drm.Resources.Reading.{SetsErrno, get_resources-Agree, neg-is_neg}
use twincam.Drm.Resources.Codes.{get_resources-IsCode}
use twincam.Drm.Opening.{open_card, CardApi, init_card, init}
use twincam.Drm.Opening.Cards.{cards, AreShort, IsFirst, open_card_lem}

-- The card that is open is the first of /dev/dri that can be opened.
open_card-IsFirst :
    (open_file : List ℕ → ℤ) (names : List (List ℕ)) (fd : ℤ)
    → AreShort (cards names)
    → open_card open_file (some names) ≡ some fd
    → is_neg fd ≡ false
    → IsFirst open_file (cards names) fd
open_card-IsFirst open_file names fd short opened good =
    let (fd', e, result) = (open_card_lem open_file names short).1 in
    let same : fd' ≡ fd = ground (arith, e, opened) in
    elim result [
      | inl (opens, first) ↦ subst (IsFirst open_file (cards names)) same first
      | inr (bad, all) ↦ absurd (ground (arith, bad, same, good))
    ]

get_resources-ready :
    (env : Libdrm) (d : Device)
    → SetsErrno env
    → d.crtcs ≡ []
    → d.planes ≡ []
    → is_neg (get_resources env d).0 ≡ false
    → Agree (get_resources env d).1
get_resources-ready env d errno no_crtcs no_planes good =
    let code = get_resources-IsCode env d good in
    get_resources-Agree env d (get_resources env d).1 errno no_crtcs no_planes
      (ground (arith, code))

-- Let /dev/dri be readable, with names of cards that have no more than three bytes behind `card`, let libdrm set
-- `errno` when a call fails, and let the device be new. If `Device::init` returns 0 then the first card that can be
-- opened is open, and in the device each CRTC lists exactly the planes that list it. The event loop has one event
-- more, with which libevent watches this card for reading and which calls `drmEvent`; but where libevent refuses the
-- event, `init` returns 0 all the same, and the loop has none. If `init` does not return 0 then it returns an error,
-- and the loop is as it was. And it returns.
pub init_lem :
    {C : Type 0} (api : CardApi) (env : Libdrm) (event : LibEvent) (drm_event : C) (d : Device)
    (l : EventLoop C) (names : List (List ℕ))
    → api.dri ≡ some names
    → AreShort (cards names)
    → 1 ≤ api.errno
    → SetsErrno env
    → d.crtcs ≡ []
    → d.planes ≡ []
    → (ret : ℤ) × (d' : Device) × (l' : EventLoop C) × (init api env event drm_event d l
        ≡ some (ret, d', l'))
      × (((is_neg ret ≡ true) × (l' ≡ l))
          ⊎ ((ret ≡ pos 0)
              × Agree d'
              × ((fd : ℤ) × (is_neg fd ≡ false)
                  × IsFirst api.open_file (cards names) fd
                  × (IsWatched event fd drm_event l l' ⊎ IsRefused event fd l l'))))
unfolding init init_card
init_lem api env event drm_event d l names there short errno sets no_crtcs no_planes =
    let (fd, e, result) = (open_card_lem api.open_file names short).1 in
    let opened : open_card api.open_file api.dri ≡ some fd =
      ap (open_card api.open_file) there ∙ e in
    let d1 = record d { fd = fd } in
    elim (Bool-cases (is_neg fd)) [
      | inl bad ↦ (fd, d1, l, ground (arith, opened, bad), inl (bad, refl))
      | inr good ↦ elim (Bool-cases (is_neg api.set_client_cap)) [
        | inl bad ↦ (
          neg api.errno,
          d1,
          l,
          ground (arith, opened, good, bad),
          inl (neg-is_neg api.errno errno, refl),
        )
        | inr able ↦ elim (Bool-cases (is_neg (get_resources env d1).0)) [
          | inl bad ↦ (
            (get_resources env d1).0,
            (get_resources env d1).1,
            l,
            ground (arith, opened, good, able, bad),
            inl (bad, refl),
          )
          | inr listed ↦ (
            pos 0,
            (get_resources env d1).1,
            add_fd_event event fd EventType.read drm_event l,
            ground (arith, opened, good, able, listed),
            inr (
              refl,
              get_resources-ready env d1 sets no_crtcs no_planes listed,
              (
                fd,
                good,
                open_card-IsFirst api.open_file names fd short e good,
                add_fd_event-cases event fd drm_event l,
              ),
            ),
          )
        ]
      ]
    ]
