-- ===== src/CamApp/Devices.antt =====
-- How `CamApp::init` and first_frame look for devices: `sysfs_exists` and `dev_exists` (src/twincam.cpp,
-- src/first_frame.c), and `checkUdevDevice` and `wait_for_udev` (src/twincam.cpp). The file system and libudev
-- are parameters.
pub mod Search
pub mod Udev
pub mod Hosts
mod Tests
use twincam.Base.{
  ℕ, zero, suc, Bool, true, false, ◌&&◌, Option, none, some, List, [], ◌∷◌, ◌++◌, ℤ, pos, neg,
  negsuc, is_neg, enomem, String, str_eq, ◌==◌, if◌then◌else◌,
}

abbrev pub sysfs_dirs : List String
sysfs_dirs =
    "/sys/subsystem/media/devices" ∷ "/sys/bus/media/devices" ∷ "/sys/class/media/devices" ∷ []

-- The loop of `sysfs_exists`, by whether a directory can be opened.
pub any_opens : (String → Bool) → List String → Bool
any_opens opendir [] = false
any_opens opendir (d ∷ ds) = let rest = any_opens opendir ds in if opendir d then true else rest

pub sysfs_exists : (String → Bool) → Bool
sysfs_exists opendir = any_opens opendir sysfs_dirs

-- `!memcmp(a, b, n)` of two byte strings with their terminating zeros, which are longer than `n` or differ
-- before their end.
pub same_bytes : ℕ → List ℕ → List ℕ → Bool
same_bytes zero xs ys = true
same_bytes (suc n) [] bs = false
same_bytes (suc n) (a ∷ xs) [] = false
same_bytes (suc n) (a ∷ xs) (b ∷ bs) = a == b && same_bytes n xs bs

-- The loop of `dev_exists` over the names of a directory.
pub any_named : List ℕ → List (List ℕ) → Bool
any_named fn [] = false
any_named fn (d ∷ ds) = let rest = any_named fn ds in if same_bytes 5 d fn then true else rest

-- `dev_exists`, by the names in /dev if it can be opened.
pub dev_exists : List ℕ → Option (List (List ℕ)) → Bool
dev_exists fn none = false
dev_exists fn (some names) = any_named fn names

abbrev pub enodev : ℕ
enodev = 19

-- A device of libudev, by its subsystem and its node.
pub record UdevDevice : Type 0 where
  pub address : ℕ
  pub subsystem : Option String
  pub devnode : Option String

-- What libudev answers: its objects, the return codes, and the paths that a scan lists.
pub record UdevApi : Type 0 where
  pub new_udev : Option ℕ
  pub new_enumerate : Option ℕ
  pub match_subsystem : ℤ
  pub match_initialized : ℤ
  pub scan : ℤ
  pub entries : List String
  pub device : String → Option UdevDevice

-- A reference that is taken, or released by a destructor.
pub data UdevRef : Type 0 where
  takes releases : ℕ → UdevRef

-- `checkUdevDevice`
pub check_udev_device : UdevDevice → String → ℤ
check_udev_device dev subsys = elim dev.subsystem [
  | none ↦ neg enodev
  | some s ↦ if str_eq s subsys then pos 0 else neg enodev
]

-- Whether a turn of the loop of `wait_for_udev` does not skip the device.
pub is_valid : UdevDevice → String → Bool
is_valid dev subsys = elim dev.devnode [
  | none ↦ false
  | some node ↦ if is_neg (check_udev_device dev subsys) then false else true
]

-- The loop, with the return code so far. The device of a turn is released at its end.
pub scan_entries : UdevApi → String → List String → ℤ → ℤ × List UdevRef
scan_entries api subsys [] ret = (ret, [])
scan_entries api subsys (path ∷ paths) ret =
    let (later, refs) = scan_entries api subsys paths ret in
    elim (api.device path) [
      | none ↦ (later, refs)
      | some dev ↦
          if is_valid dev subsys
          then (pos 0, takes dev.address ∷ releases dev.address ∷ [])
          else (later, takes dev.address ∷ releases dev.address ∷ refs)
    ]

-- From the enumeration on: the return code and the references of devices.
pub enumerate : UdevApi → String → ℤ × List UdevRef
enumerate api subsys =
    if is_neg api.match_subsystem
    then (api.match_subsystem, [])
    else if is_neg api.match_initialized
    then (api.match_initialized, [])
    else if is_neg api.scan
    then (api.scan, [])
    else elim api.entries [
      | [] ↦ (negsuc 0, [])
      | e ∷ es ↦ scan_entries api subsys (e ∷ es) api.scan
    ]

-- `wait_for_udev`. The destructors of `udev_enum` and `udev` run on each return.
pub wait_for_udev : UdevApi → String → ℤ × List UdevRef
wait_for_udev api subsys = elim api.new_udev [
  | none ↦ (neg enodev, [])
  | some u ↦ elim api.new_enumerate [
    | none ↦ (neg enomem, takes u ∷ releases u ∷ [])
    | some e ↦
        let (ret, refs) = enumerate api subsys in
        (ret, takes u ∷ takes e ∷ (refs ++ (releases e ∷ releases u ∷ [])))
  ]
]
