-- ===== src/Uevent.antt =====
-- src/uevent.c: the status of the USB connection, the charger and the battery, kept up to date by
-- the kernel's uevents. The files under /sys are the environment: a function from a path to what a
-- read of at most 15 bytes finds there, `none` where the file does not open or read.
pub mod Events
pub mod Tests
use tboot.Base.{
  ◌>>=◌, ℕ, zero, suc, ◌+◌, ◌-◌, ◌/◌, ◌*◌, ◌%◌, ◌^◌, ◌≤◌, ◌<◌, min, ◌≡◌, refl, sym, ap, ◌∙◌, ◌≢◌,
  ◌↔◌, ◌⊎◌, inl, inr, Bool, true, false, not, ◌&&◌, ◌||◌, Option, none, some, List, [], ◌∷◌, ◌++◌,
  map, arith, String, Text, codes, text_eq, starts_with, after_char, before_char, text_eq_refl,
  text_eq-eq, text_eq_symm, text_eq_iff, starts_with-append, length, get_elem?, take, drop,
  length-append, length-take, length-drop, take-append-drop, take_all, take-take, drop-nil,
  drop-drop, drop_all, ltb, leb, ◌==◌, if◌then◌else◌, ltb→lt, lt→ltb, ==_iff, Bool-cases,
  Option-cases,
}
use tboot.Base.Int.{ℤ, pos, negsuc, is_zero}
use tboot.Base.Number.{atoi}

-- PLATFORM_T of src/platform.h
pub data Platform : Type 0 where
  unknown blackbay redridge redhookbay : Platform

-- enum device_type; TYPE_UNKNOWN only marks the end of the table.
pub data DeviceType : Type 0 where
  usb battery charger : DeviceType

pub record DeviceMapping : Type 0 where
  pub plat : Platform
  pub type : DeviceType
  pub path : Text
  pub file : Text

abbrev usb_path : Text
usb_path = codes "/devices/virtual/usb_mode/usb0"

abbrev pub uevent_path : List DeviceMapping
uevent_path =
    record { plat = blackbay; type = usb; path = usb_path; file = codes "state" }
    ∷ record {
      plat = blackbay;
      type = battery;
      path = codes "/devices/pci0000:00/0000:00:00.4/i2c-1/1-0036/power_supply/max17042_battery";
      file = codes "capacity";
    }
    ∷ record {
      plat = blackbay;
      type = charger;
      path = codes "/devices/platform/intel_msic/msic_battery/power_supply/msic_charger";
      file = codes "online";
    }
    ∷ record { plat = blackbay; type = usb; path = usb_path; file = codes "state" }
    ∷ record {
      plat = blackbay;
      type = battery;
      path = codes "/devices/pci0000:00/0000:00:00.4/i2c-1/1-0036/power_supply/max170xx_battery";
      file = codes "capacity";
    }
    ∷ record {
      plat = blackbay;
      type = charger;
      path = codes "/devices/ipc/msic_battery/power_supply/msic_charger";
      file = codes "online";
    }
    ∷ record { plat = redridge; type = usb; path = usb_path; file = codes "state" }
    ∷ record {
      plat = redridge;
      type = battery;
      path = codes "/devices/pci0000:00/0000:00:00.4/i2c-1/1-0036/power_supply/max17042_battery";
      file = codes "capacity";
    }
    ∷ record {
      plat = redridge;
      type = charger;
      path = codes "/devices/pci0000:00/0000:00:00.4/i2c-1/1-0006/power_supply/smb347-mains";
      file = codes "online";
    }
    ∷ record {
      plat = redridge;
      type = battery;
      path = codes "/devices/pci0000:00/0000:00:00.4/i2c-1/1-0036/power_supply/max170xx_battery";
      file = codes "capacity";
    }
    ∷ record { plat = redhookbay; type = usb; path = usb_path; file = codes "state" }
    ∷ record {
      plat = redhookbay;
      type = battery;
      path = codes "/devices/pci0000:00/0000:00:00.5/i2c-2/2-0036/power_supply/max17047_battery";
      file = codes "capacity";
    }
    ∷ record {
      plat = redhookbay;
      type = charger;
      path = codes "/devices/pci0000:00/0000:00:00.5/i2c-2/2-006b";
      file = codes "online";
    }
    ∷ []

-- enum status
pub data Status : Type 0 where
  disconnected connected unknown_status : Status

pub record UeventStatus : Type 0 where
  pub usb_status : Status
  pub charger_status : Status
  pub battery_capacity : ℤ

-- dm->plat == plat
abbrev pub same_platform : Platform → Platform → Bool
same_platform unknown unknown = true
same_platform blackbay blackbay = true
same_platform redridge redridge = true
same_platform redhookbay redhookbay = true
same_platform _ _ = false

-- The file that is read for a device.
abbrev status_file : DeviceMapping → Text
status_file m = codes "/sys" ++ m.path ++ codes "/" ++ m.file

-- What the contents of the file say of a device.
set_status : DeviceType → Text → UeventStatus → UeventStatus
set_status usb buf st = record st {
  usb_status =
      if starts_with (codes "CONFIGURED") buf
      then connected
      else if starts_with (codes "DISCONNECTED") buf
      then disconnected
      else unknown_status;
}
set_status battery buf st = record st { battery_capacity = atoi buf }
set_status charger buf st = record st {
  charger_status = if is_zero (atoi buf) then disconnected else connected;
}

read_status : Option Text → DeviceType → UeventStatus → UeventStatus
unfolding set_status
read_status none type st = st
read_status (some bytes) type st = set_status type (before_char 0 (take 15 bytes)) st

-- From the device that was found on.
pub update : (Text → Option Text) → DeviceMapping → UeventStatus → UeventStatus
unfolding read_status
update sysfs m st = read_status (sysfs (status_file m)) m.type st

find_device : Platform → Text → List DeviceMapping → Option DeviceMapping
find_device plat p [] = none
find_device plat p (m ∷ devices) =
    if same_platform m.plat plat && starts_with m.path p then some m else find_device plat p devices

update_found : (Text → Option Text) → Option DeviceMapping → UeventStatus → UeventStatus
unfolding update
update_found sysfs none st = st
update_found sysfs (some m) st = update sysfs m st

-- strchr(uevent, '@') is NULL where there is no '@'; the program then follows the pointer NULL + 1,
-- for which `none` stands.
parse_device : Platform → (Text → Option Text) → Option Text → UeventStatus → Option UeventStatus
unfolding find_device update_found
parse_device plat sysfs none st = none
parse_device plat sysfs (some p) st = some (update_found sysfs (find_device plat p uevent_path) st)

pub parse_uevent : Platform → (Text → Option Text) → Text → UeventStatus → Option UeventStatus
unfolding parse_device
parse_uevent plat sysfs uevent st =
    if starts_with (codes "change") uevent
    then parse_device plat sysfs (after_char 64 uevent) st
    else some st

init_from :
    List DeviceMapping → Platform → (Text → Option Text) → UeventStatus → Option UeventStatus
init_from [] plat sysfs st = some st
init_from (m ∷ devices) plat sysfs st =
    if same_platform m.plat plat
    then (do
      st' ← parse_uevent plat sysfs (codes "change@" ++ m.path) st
      init_from devices plat sysfs st')
    else init_from devices plat sysfs st

pub uevent_status_init : Platform → (Text → Option Text) → UeventStatus → Option UeventStatus
unfolding init_from
uevent_status_init plat sysfs st = init_from uevent_path plat sysfs st

-- strstr(s, "@/") != NULL
has_path : Text → Bool
has_path [] = false
has_path (x ∷ s) = starts_with (codes "@/") (x ∷ s) || has_path s

-- The loop of `uevent_thread`, over the messages that recv() gives until it fails. A message is a
-- NUL-terminated string. The results: the status, and the status at each call of the callback.
pub uevent_loop :
    Platform
    → (Text → Option Text)
    → List Text
    → UeventStatus × List UeventStatus
    → Option (UeventStatus × List UeventStatus)
unfolding has_path
uevent_loop plat sysfs [] r = some r
uevent_loop plat sysfs (bytes ∷ messages) (st, shown) =
    let skip = uevent_loop plat sysfs messages (st, shown) in
    let uevent = before_char 0 bytes in
    if ltb (length bytes) 4 then skip else if not (has_path uevent) then skip else (do
      st' ← parse_uevent plat sysfs uevent st
      uevent_loop plat sysfs messages (st', shown ++ st' ∷ []))

pub uevent_thread :
    Platform
    → (Text → Option Text)
    → List Text
    → UeventStatus
    → Option (UeventStatus × List UeventStatus)
uevent_thread plat sysfs messages st = do
  st' ← uevent_status_init plat sysfs st
  uevent_loop plat sysfs messages (st', st' ∷ [])
