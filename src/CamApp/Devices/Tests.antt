-- ===== src/CamApp/Devices/Tests.antt =====
-- Searches on systems at hand (src/twincam.cpp).
use twincam.Base.{
  is_some, ◌⊎◌, ◌+◌, ◌≤◌, ◌<◌, leb, ◌&&◌, str_eq, inl, inr, arith, ℕ, ◌≡◌, ◌≢◌, refl, true, false,
  none, some, List, [], ◌∷◌, ◌++◌, In, pos, is_neg, if◌then◌else◌,
}
use twincam.CamApp.Startup.{init_app}
use twincam.CamApp.Devices.Hosts.{video, media, Files, host_of, IsReady, init_app-IsReady}
use twincam.CamApp.Devices.{
  any_opens, sysfs_exists, same_bytes, any_named, dev_exists, UdevApi, takes, releases,
  check_udev_device, is_valid, scan_entries, enumerate, wait_for_udev,
}
use twincam.CamApp.Devices.Udev.{hold, HasCamera, wait_for_udev_lem}
use twincam.CamApp.Devices.Search.{StartsWith, dev_exists_lem}

abbrev dev_entries : List (List ℕ)
dev_entries = (46 ∷ []) ∷ (118 ∷ 105 ∷ 100 ∷ 101 ∷ 111 ∷ 48 ∷ []) ∷ []

dev_exists_run : dev_exists video (some dev_entries) ≡ true
unfolding dev_exists any_named same_bytes
dev_exists_run = refl

sysfs_exists_run : sysfs_exists (λ d. false) ≡ false
unfolding sysfs_exists any_opens
sysfs_exists_run = refl

entries_searched :
    (dev_exists video none ≡ false)
    × (dev_exists video (some dev_entries) ≡ true
        → (name : List ℕ) × In name dev_entries × StartsWith video name)
    × ((name rest : List ℕ)
        → In name dev_entries
        → name ≡ video ++ rest
        → dev_exists video (some dev_entries) ≡ true)
entries_searched = dev_exists_lem video dev_entries refl

-- One device, which is of another subsystem.
abbrev usb_only : UdevApi
usb_only = record {
  new_udev = some 1;
  new_enumerate = some 2;
  match_subsystem = pos 0;
  match_initialized = pos 0;
  scan = pos 0;
  entries = "/sys/devices/usb1" ∷ [];
  device =
      λ path. some (record { address = 3; subsystem = some "usb"; devnode = some "/dev/bus/usb" });
}

-- It is skipped, and the result is 0 all the same.
usb_only_run :
    wait_for_udev usb_only "media"
    ≡ (pos 0, takes 1 ∷ takes 2 ∷ takes 3 ∷ releases 3 ∷ releases 2 ∷ releases 1 ∷ [])
unfolding wait_for_udev enumerate scan_entries is_valid check_udev_device
usb_only_run = refl

-- A camera of which udev knows the media device and the video device.
abbrev one_camera : UdevApi
one_camera = record usb_only {
  entries = "/sys/devices/media0" ∷ "/sys/devices/video0" ∷ [];
  device = λ path. some (record {
    address = 3;
    subsystem = some (if str_eq path "/sys/devices/media0" then "media" else "video4linux");
    devnode = some "/dev/node";
  });
}

wait_for_udev_lem_example :
    let (ret, refs) = wait_for_udev one_camera "video4linux" in
    (hold refs [] ≡ some [])
    × (is_some one_camera.new_udev ≡ true
        → is_some one_camera.new_enumerate ≡ true
        → is_neg one_camera.match_subsystem ≡ false
        → is_neg one_camera.match_initialized ≡ false
        → is_neg one_camera.scan ≡ false
        → HasCamera one_camera "video4linux" one_camera.entries
        → ret ≡ pos 0)
    × (is_neg ret ≡ false
        → (one_camera.entries ≢ [])
          × ((HasCamera one_camera "video4linux" one_camera.entries × (ret ≡ pos 0))
              ⊎ (¬ HasCamera one_camera "video4linux" one_camera.entries
                  × (ret ≡ one_camera.scan))))
wait_for_udev_lem_example = wait_for_udev_lem one_camera "video4linux"

-- `video0` and `media0`
abbrev both : List (List ℕ)
both = (video ++ (48 ∷ [])) ∷ (media ++ (48 ∷ [])) ∷ []

-- It comes after three sleeps.
abbrev plugged : Files
plugged = record {
  opendir = λ t d. leb 3 t && str_eq d "/sys/bus/media/devices";
  dev = λ t. some (if leb 3 t then both else []);
  udev = λ t. if leb 3 t then one_camera else usb_only;
  cameras = λ t. if leb 3 t then 1 else 0;
  start = pos 0;
}

plugged-IsReady : IsReady plugged 3
unfolding wait_for_udev enumerate scan_entries is_valid check_udev_device
plugged-IsReady = record {
  sysfs = λ t late. ("/sys/bus/media/devices", inr (inl refl), ground (arith, late));
  video = λ t late. (both, 48 ∷ [], ground (arith, late), inl refl);
  media = λ t late. (both, 48 ∷ [], ground (arith, late), inr (inl refl));
  udev_media = λ t late. let there : leb 3 t ≡ true = ground (arith, late) in rw there refl;
  udev_video4linux = λ t late. let there : leb 3 t ≡ true = ground (arith, late) in rw there refl;
  cameras = λ t late. ground (arith, late);
}

init_app-IsReady_example :
    let (ret, time) = init_app true (host_of plugged) 0 in
    (ret ≡ pos 0) × (time ≤ 3) × (3 < 0 + 400 → 0 < plugged.cameras time)
init_app-IsReady_example =
    init_app-IsReady true plugged 0 3 3 plugged-IsReady refl (omega arith) (omega arith)
