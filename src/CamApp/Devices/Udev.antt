-- ===== src/CamApp/Devices/Udev.antt =====
-- What `wait_for_udev` finds, and that it keeps nothing (src/twincam.cpp).
use twincam.Base.{
  ℕ, ◌≡◌, ◌≢◌, refl, ◌⊎◌, inl, inr, Bool, true, false, Option, none, some, List, [], ◌∷◌, ◌++◌, In,
  ℤ, pos, neg, negsuc, is_neg, enomem, String, ◌==◌, if◌then◌else◌, arith, Bool-cases, Option-cases,
  str_eq, ap, ◌∙◌, is_some,
}
use mathlib.Core.Path.{subst}
use text.Mathlib.TextEquality.{eq_iff}
use twincam.CamApp.Devices.{
  enodev, UdevDevice, check_udev_device, UdevApi, UdevRef, takes, releases, is_valid, scan_entries,
  enumerate, wait_for_udev,
}

-- The references that are held, the last one first; none where one is released that is not the last.
abbrev pub hold : List UdevRef → List ℕ → Option (List ℕ)
hold [] held = some held
hold (takes a ∷ refs) held = hold refs (a ∷ held)
hold (releases a ∷ refs) [] = none
hold (releases a ∷ refs) (b ∷ held) = let rest = hold refs held in if a == b then rest else none

-- Whether a scan lists a device that is not skipped.
abbrev pub any_valid : UdevApi → String → List String → Bool
any_valid api subsys [] = false
any_valid api subsys (path ∷ paths) =
    let rest = any_valid api subsys paths in
    elim (api.device path) [ none ↦ rest | some dev ↦ if is_valid dev subsys then true else rest ]

scan_entries_lem :
    (api : UdevApi) (subsys : String) (paths : List String) (ret : ℤ) (more : List UdevRef)
    (held : List ℕ)
    → let (ret', refs) = scan_entries api subsys paths ret in
      (ret' ≡ (if any_valid api subsys paths then pos 0 else ret))
      × (hold (refs ++ more) held ≡ hold more held)
unfolding scan_entries
scan_entries_lem api subsys [] ret more held = (refl, refl)
scan_entries_lem api subsys (path ∷ paths) ret more held =
    let (same, balanced) = scan_entries_lem api subsys paths ret more held in
    elim (Option-cases (api.device path)) [
      | inl missing ↦ ground (arith, missing, same, balanced)
      | inr (dev, there) ↦ elim (Bool-cases (is_valid dev subsys)) [
        | inl good ↦ ground (arith, there, good)
        | inr bad ↦ ground (arith, there, bad, same, balanced)
      ]
    ]

-- The scan itself, with its early returns.
enumerate_lem :
    (api : UdevApi) (subsys : String) (more : List UdevRef) (held : List ℕ)
    → let (ret, refs) = enumerate api subsys in
      (hold (refs ++ more) held ≡ hold more held)
      × (is_neg ret ≡ false
          → (api.entries ≢ [])
            × (ret ≡ (if any_valid api subsys api.entries then pos 0 else api.scan)))
unfolding enumerate
enumerate_lem api subsys more held = elim (Bool-cases (is_neg api.match_subsystem)) [
  | inl bad ↦ rw bad (refl, λ good. absurd (ground (arith, bad, good)))
  | inr ok1 ↦ elim (Bool-cases (is_neg api.match_initialized)) [
    | inl bad ↦ rw (ok1, bad) (refl, λ good. absurd (ground (arith, bad, good)))
    | inr ok2 ↦ elim (Bool-cases (is_neg api.scan)) [
      | inl bad ↦ rw (ok1, ok2, bad) (refl, λ good. absurd (ground (arith, bad, good)))
      | inr ok3 ↦ rw (ok1, ok2, ok3) (listed api.entries)
    ]
  ]
]
  where
    listed :
        (entries : List String)
        → let (ret, refs) = elim entries as (λ _. ℤ × List UdevRef) [
          | [] ↦ (negsuc 0, [])
          | e ∷ es ↦ scan_entries api subsys (e ∷ es) api.scan
        ] in
          (hold (refs ++ more) held ≡ hold more held)
          × (is_neg ret ≡ false
              → (entries ≢ []) × (ret ≡ (if any_valid api subsys entries then pos 0 else api.scan)))
    listed [] = (refl, λ good. absurd (ground (arith, good)))
    listed (e ∷ es) =
        let (same, balanced) = scan_entries_lem api subsys (e ∷ es) api.scan more held in
        (balanced, λ good. (λ bad. cc, same))

-- Its three ways.
wait_for_udev-cases :
    (api : UdevApi) (subsys : String)
    → (wait_for_udev api subsys ≡ (neg enodev, []))
      ⊎ (((u : ℕ) × (wait_for_udev api subsys ≡ (neg enomem, takes u ∷ releases u ∷ [])))
          ⊎ ((u : ℕ) × (e : ℕ) × (wait_for_udev api subsys ≡ (
            (enumerate api subsys).0,
            takes u ∷ takes e ∷ ((enumerate api subsys).1 ++ (releases e ∷ releases u ∷ [])),
          ))))
unfolding wait_for_udev
wait_for_udev-cases api subsys = elim (Option-cases api.new_udev) [
  | inl bad ↦ inl (ground (arith, bad))
  | inr (u, there) ↦ elim (Option-cases api.new_enumerate) [
    | inl bad ↦ inr (inl (u, ground (arith, there, bad)))
    | inr (e, listed) ↦ inr (inr (u, e, ground (arith, there, listed)))
  ]
]

-- A path of a device that can be opened, has a node and is of the subsystem.
abbrev pub IsCamera : UdevApi → String → String → Type 0
IsCamera api subsys path =
    (dev : UdevDevice) × (node : String) × (api.device path ≡ some dev)
    × (dev.devnode ≡ some node)
    × (dev.subsystem ≡ some subsys)

-- There is one among paths.
abbrev pub HasCamera : UdevApi → String → List String → Type 0
HasCamera api subsys paths = (path : String) × In path paths × IsCamera api subsys path

is_valid-cases :
    (dev : UdevDevice) (subsys : String)
    → ((is_valid dev subsys ≡ true)
        × ((node : String) × (dev.devnode ≡ some node) × (dev.subsystem ≡ some subsys)))
      ⊎ ((is_valid dev subsys ≡ false)
          × ((node : String) → dev.devnode ≡ some node → dev.subsystem ≢ some subsys))
unfolding is_valid check_udev_device
is_valid-cases dev subsys = elim (Option-cases dev.devnode) [
  | inl no_node ↦ inr (ground (arith, no_node), λ node e f. ground (arith, no_node, e))
  | inr (node, there) ↦ elim (Option-cases dev.subsystem) [
    | inl missing ↦ inr (ground (arith, there, missing), λ n e f. ground (arith, missing, f))
    | inr (s, named) ↦ elim (Bool-cases (str_eq s subsys)) [
      | inl same ↦
          let is_same : s ≡ subsys = (eq_iff s subsys).0 same in
          inl (ground (arith, there, named, same), (node, there, named ∙ ap some is_same))
      | inr other ↦ inr (
        ground (arith, there, named, other),
        λ n e f.
            let same : str_eq s subsys ≡ true = (eq_iff s subsys).1 (ground (arith, named, f)) in
            ground (arith, other, same),
      )
    ]
  ]
]

no_camera :
    (api : UdevApi) (subsys p : String) (paths : List String)
    → ¬ IsCamera api subsys p
    → ¬ HasCamera api subsys paths
    → ¬ HasCamera api subsys (p ∷ paths)
no_camera api subsys p paths not_first none_there (path, inl same, camera) =
    not_first (subst (IsCamera api subsys) same camera)
no_camera api subsys p paths not_first none_there (path, inr there, camera) =
    none_there (path, there, camera)

-- A scan finds a camera exactly if there is one.
any_valid-cases :
    (api : UdevApi) (subsys : String) (paths : List String)
    → ((any_valid api subsys paths ≡ true) × HasCamera api subsys paths)
      ⊎ ((any_valid api subsys paths ≡ false) × ¬ HasCamera api subsys paths)
any_valid-cases api subsys [] = inr (refl, λ (path, there, rest). there)
any_valid-cases api subsys (p ∷ paths) = elim (Option-cases (api.device p)) [
  | inl missing ↦ elim (any_valid-cases api subsys paths) [
    | inl (found, (path, there, camera)) ↦
        inl (ground (arith, missing, found), (path, inr there, camera))
    | inr (nothing, none_there) ↦ inr (
      ground (arith, missing, nothing),
      no_camera api subsys p paths
          (λ (dev, node, opens, rest, named). ground (arith, missing, opens)) none_there,
    )
  ]
  | inr (dev, opens) ↦ elim (is_valid-cases dev subsys) [
    | inl (good, (node, has_node, named)) ↦
        inl (ground (arith, opens, good), (p, inl refl, (dev, node, opens, has_node, named)))
    | inr (bad, skipped) ↦ elim (any_valid-cases api subsys paths) [
      | inl (found, (path, there, camera)) ↦
          inl (ground (arith, opens, bad, found), (path, inr there, camera))
      | inr (nothing, none_there) ↦ inr (
        ground (arith, opens, bad, nothing),
        no_camera api subsys p paths
            (λ (dev', node, opens', has_node, named).
              let same : dev ≡ dev' = ground (arith, opens, opens') in
              skipped node (ap (λ (d : UdevDevice). d.devnode) same ∙ has_node)
                (ap (λ (d : UdevDevice). d.subsystem) same ∙ named))
            none_there,
      )
    ]
  ]
]

-- If its calls succeed, the result of the scan is that of the loop.
enumerate_ret :
    (api : UdevApi) (subsys : String)
    → is_neg api.match_subsystem ≡ false
    → is_neg api.match_initialized ≡ false
    → is_neg api.scan ≡ false
    → any_valid api subsys api.entries ≡ true
    → (enumerate api subsys).0 ≡ pos 0
unfolding enumerate
enumerate_ret api subsys ok1 ok2 ok3 found = rw (ok1, ok2, ok3) (loop api.entries found)
  where
    loop :
        (entries : List String)
        → any_valid api subsys entries ≡ true
        → (elim entries as (λ _. ℤ × List UdevRef) [
          | [] ↦ (negsuc 0, [])
          | e ∷ es ↦ scan_entries api subsys (e ∷ es) api.scan
        ]).0
          ≡ pos 0
    loop [] valid = absurd (ground (arith, valid))
    loop (e ∷ es) valid =
        let (same, balanced) = scan_entries_lem api subsys (e ∷ es) api.scan [] [] in
        ground (arith, same, valid)

scanned_ret :
    (api : UdevApi) (subsys : String)
    → is_some api.new_udev ≡ true
    → is_some api.new_enumerate ≡ true
    → (wait_for_udev api subsys).0 ≡ (enumerate api subsys).0
unfolding wait_for_udev
scanned_ret api subsys has_udev has_enum = elim (Option-cases api.new_udev) [
  | inl bad ↦ absurd (ground (arith, has_udev, bad))
  | inr (u, there) ↦ elim (Option-cases api.new_enumerate) [
    | inl bad ↦ absurd (ground (arith, has_enum, bad))
    | inr (e, listed) ↦ ground (arith, there, listed)
  ]
]

-- What is returned and held, by the scan.
wait_for_udev-returns :
    (api : UdevApi) (subsys : String)
    → let (ret, refs) = wait_for_udev api subsys in
      (hold refs [] ≡ some [])
      × (is_neg ret ≡ false
          → (api.entries ≢ [])
            × (ret ≡ (if any_valid api subsys api.entries then pos 0 else api.scan)))
wait_for_udev-returns api subsys = elim (wait_for_udev-cases api subsys) [
  | inl no_udev ↦ rw no_udev (refl, λ good. absurd (ground (arith, good)))
  | inr (inl (u, no_memory)) ↦ rw no_memory (ground arith, λ good. absurd (ground (arith, good)))
  | inr (inr (u, e, scanned)) ↦
      let (balanced, result) =
        enumerate_lem api subsys (releases e ∷ releases u ∷ []) (e ∷ u ∷ []) in
      rw scanned (ground (arith, balanced), result)
]

-- `wait_for_udev` releases every reference that it takes, the last one first, on each of its returns. If the calls
-- before the loop succeed and the scan lists a device that can be opened, has a node and is of the subsystem, then
-- it returns 0. If it returns no error, then the scan has listed devices: either there is such a device among
-- them, and it returns 0; or there is none, and it returns what the scan returned, which is no error either.
pub wait_for_udev_lem :
    (api : UdevApi) (subsys : String)
    → let (ret, refs) = wait_for_udev api subsys in
      (hold refs [] ≡ some [])
      × (is_some api.new_udev ≡ true
          → is_some api.new_enumerate ≡ true
          → is_neg api.match_subsystem ≡ false
          → is_neg api.match_initialized ≡ false
          → is_neg api.scan ≡ false
          → HasCamera api subsys api.entries
          → ret ≡ pos 0)
      × (is_neg ret ≡ false
          → (api.entries ≢ [])
            × ((HasCamera api subsys api.entries × (ret ≡ pos 0))
                ⊎ (¬ HasCamera api subsys api.entries × (ret ≡ api.scan))))
wait_for_udev_lem api subsys =
    let (balanced, result) = wait_for_udev-returns api subsys in
    elim (any_valid-cases api subsys api.entries) [
      | inl (found, camera) ↦ (
        balanced,
        λ u e m i s there. scanned_ret api subsys u e ∙ enumerate_ret api subsys m i s found,
        λ good.
            let (listed, ret) = result good in (listed, inl (camera, ground (arith, ret, found))),
      )
      | inr (nothing, none_there) ↦ (
        balanced,
        λ u e m i s there. absurd (none_there there),
        λ good.
            let (listed, ret) = result good in
            (listed, inr (none_there, ground (arith, ret, nothing))),
      )
    ]
