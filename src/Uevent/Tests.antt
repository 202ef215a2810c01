-- ===== src/Uevent/Tests.antt =====
-- Concrete events of src/uevent.c.
use tboot.Base.{
  ◌≡◌, Option, none, some, List, [], ◌∷◌, ◌++◌, Text, codes, starts_with, if◌then◌else◌,
}
use tboot.Base.Int.{pos}
use tboot.Uevent.{
  redhookbay, unknown_status, UeventStatus, uevent_path, parse_uevent, uevent_thread,
}
use tboot.Uevent.Events.{Answered, parse_uevent-Answered, uevent_thread_never_faults}

-- Every file that is read holds "CONFIGURED", except those of the batteries.
abbrev files : Text → Option Text
files path =
    if starts_with (codes "/sys/devices/virtual") path then some (codes "CONFIGURED") else none

abbrev unread : UeventStatus
unread = record {
  usb_status = unknown_status;
  charger_status = unknown_status;
  battery_capacity = pos 0;
}

parse_uevent-Answered_example :
    (st' : UeventStatus) × (parse_uevent redhookbay files
        (codes "change@" ++ codes "/devices/virtual/usb_mode/usb0")
        unread
      ≡ some st')
    × Answered redhookbay files (codes "/devices/virtual/usb_mode/usb0") uevent_path unread st'
parse_uevent-Answered_example =
    parse_uevent-Answered redhookbay files (codes "/devices/virtual/usb_mode/usb0") unread

uevent_thread_never_faults_example :
    (r : UeventStatus × List UeventStatus) × (uevent_thread redhookbay files
        (codes "change" ∷ codes "change@/devices" ∷ [])
        unread
      ≡ some r)
uevent_thread_never_faults_example =
    uevent_thread_never_faults redhookbay files (codes "change" ∷ codes "change@/devices" ∷ [])
      unread
