-- ===== src/Uevent/Events.antt =====
-- What the events and the initial round of src/uevent.c do to the status.
use tboot.Base.{
  ◌≡◌, refl, ◌≢◌, ◌⊎◌, inl, inr, true, false, Option, none, some, List, [], ◌∷◌, ◌++◌, arith, Text,
  codes, starts_with, after_char, before_char, length, take, ltb, ◌==◌, if◌then◌else◌, Bool-cases,
}
use tboot.Base.Int.{is_zero}
use tboot.Base.Number.{atoi}
use tboot.Uevent.{
  Platform, unknown, blackbay, redridge, redhookbay, DeviceMapping, uevent_path, UeventStatus,
  DeviceType, usb, battery, charger, connected, disconnected, unknown_status, set_status,
  read_status, status_file, same_platform, update, update_found, find_device, parse_device,
  parse_uevent, init_from, uevent_status_init, uevent_loop, has_path, uevent_thread,
}

-- Each device of the platform is read once, in the order of the table.
pub refresh : List DeviceMapping → Platform → (Text → Option Text) → UeventStatus → UeventStatus
refresh [] plat sysfs st = st
refresh (m ∷ devices) plat sysfs st =
    let rest = refresh devices plat sysfs in
    if same_platform m.plat plat then rest (update sysfs m st) else rest st

-- What a device's file says, with `buf` for the bytes of a read.
abbrev pub Says : DeviceType → Text → UeventStatus → UeventStatus → Type 0
Says usb buf st st' =
    ((t : Text) × (buf ≡ codes "CONFIGURED" ++ t) × (st' ≡ record st { usb_status = connected }))
    ⊎ ((t : Text) × (buf ≡ codes "DISCONNECTED" ++ t)
        × (st' ≡ record st { usb_status = disconnected }))
    ⊎ ((starts_with (codes "CONFIGURED") buf ≡ false)
        × (starts_with (codes "DISCONNECTED") buf ≡ false)
        × (st' ≡ record st { usb_status = unknown_status }))
Says battery buf st st' = st' ≡ record st { battery_capacity = atoi buf }
Says charger buf st st' =
    ((is_zero (atoi buf) ≡ true) × (st' ≡ record st { charger_status = disconnected }))
    ⊎ ((is_zero (atoi buf) ≡ false) × (st' ≡ record st { charger_status = connected }))

-- The same of a file that may be missing, up to its first NUL and its fifteenth byte.
abbrev pub FileSays : DeviceType → Option Text → UeventStatus → UeventStatus → Type 0
FileSays type none st st' = st' ≡ st
FileSays type (some bytes) st st' = Says type (before_char 0 (take 15 bytes)) st st'

-- The first device of the platform whose path the event's path begins with says what it says, or
-- there is no such device.
abbrev pub Answered :
    Platform
    → (Text → Option Text)
    → Text
    → List DeviceMapping
    → UeventStatus
    → UeventStatus
    → Type 0
Answered plat sysfs p [] st st' = st' ≡ st
Answered plat sysfs p (m ∷ devices) st st' =
    ((below : Text) × (m.plat ≡ plat)
      × (p ≡ m.path ++ below)
      × FileSays m.type (sysfs (codes "/sys" ++ m.path ++ codes "/" ++ m.file)) st st')
    ⊎ (((m.plat ≢ plat) ⊎ (starts_with m.path p ≡ false)) × Answered plat sysfs p devices st st')

starts_with-rest : (p s : Text) → starts_with p s ≡ true → (t : Text) × (s ≡ p ++ t)
unfolding starts_with
starts_with-rest [] s h = (s, refl)
starts_with-rest (x ∷ p) [] h = cc
starts_with-rest (x ∷ p) (y ∷ s) h =
    let (t, e) = starts_with-rest p s (ground arith) in
    let same : x ≡ y = ground arith in (t, rw (e, same) refl)

set_status-Says :
    (type : DeviceType) (buf : Text) (st : UeventStatus) → Says type buf st (set_status type buf st)
unfolding set_status
set_status-Says usb buf st = elim (Bool-cases (starts_with (codes "CONFIGURED") buf)) [
  | inl on ↦ let (t, e) = starts_with-rest (codes "CONFIGURED") buf on in inl (t, e, rw on refl)
  | inr other ↦ elim (Bool-cases (starts_with (codes "DISCONNECTED") buf)) [
    | inl off ↦
        let (t, e) = starts_with-rest (codes "DISCONNECTED") buf off in
        inr (inl (t, e, rw (other, off) refl))
    | inr neither ↦ inr (inr (other, neither, rw (other, neither) refl))
  ]
]
set_status-Says battery buf st = refl
set_status-Says charger buf st = elim (Bool-cases (is_zero (atoi buf))) [
  | inl z ↦ inl (z, rw z refl)
  | inr n ↦ inr (n, rw n refl)
]

read_status-FileSays :
    (type : DeviceType) (file : Option Text) (st : UeventStatus)
    → FileSays type file st (read_status file type st)
unfolding read_status
read_status-FileSays type none st = refl
read_status-FileSays type (some bytes) st = set_status-Says type (before_char 0 (take 15 bytes)) st

same_platform-eq : (a b : Platform) → same_platform a b ≡ true → a ≡ b
same_platform-eq unknown unknown h = refl
same_platform-eq blackbay blackbay h = refl
same_platform-eq redridge redridge h = refl
same_platform-eq redhookbay redhookbay h = refl
same_platform-eq _ _ h = cc

same_platform_refl : (a : Platform) → same_platform a a ≡ true
same_platform_refl unknown = refl
same_platform_refl blackbay = refl
same_platform_refl redridge = refl
same_platform_refl redhookbay = refl

find_device-Answered :
    (plat : Platform) (sysfs : Text → Option Text) (p : Text) (devices : List DeviceMapping)
    (st : UeventStatus)
    → Answered plat sysfs p devices st (update_found sysfs (find_device plat p devices) st)
unfolding find_device update_found update status_file
find_device-Answered plat sysfs p [] st = refl
find_device-Answered plat sysfs p (m ∷ devices) st = elim (Bool-cases (same_platform m.plat plat)) [
  | inr other ↦
      let foreign : m.plat ≢ plat =
        λ e. let same : same_platform m.plat plat ≡ true = rw e (same_platform_refl plat) in cc in
      inr (inl foreign, rw other (find_device-Answered plat sysfs p devices st))
  | inl same ↦ elim (Bool-cases (starts_with m.path p)) [
    | inr off ↦ inr (inr off, rw (same, off) (find_device-Answered plat sysfs p devices st))
    | inl on ↦
        let (below, e) = starts_with-rest m.path p on in
        inl (
          below,
          same_platform-eq m.plat plat same,
          e,
          rw (same, on) (read_status-FileSays m.type (sysfs (status_file m)) st),
        )
  ]
]

-- An event "change@" on any path is answered by the first device of the table that stands for the
-- running platform and whose path that path begins with: the status changes as the file of that
-- device says, and not at all where the file cannot be read or where there is no such device. For
-- the USB connection "CONFIGURED" is connected, "DISCONNECTED" disconnected and all else unknown;
-- a charger is disconnected at 0 and connected at all else; a battery gives its capacity.
pub parse_uevent-Answered :
    (plat : Platform) (sysfs : Text → Option Text) (p : Text) (st : UeventStatus)
    → (st' : UeventStatus) × (parse_uevent plat sysfs (codes "change@" ++ p) st ≡ some st')
      × Answered plat sysfs p uevent_path st st'
unfolding parse_uevent parse_device starts_with after_char
parse_uevent-Answered plat sysfs p st = (_, refl, find_device-Answered plat sysfs p uevent_path st)

-- At the start the status is read from each device of the platform once, whatever the files hold
-- and whichever of them are missing.
pub uevent_status_init-refresh :
    (plat : Platform) (sysfs : Text → Option Text) (st : UeventStatus)
    → uevent_status_init plat sysfs st ≡ some (refresh uevent_path plat sysfs st)
unfolding uevent_status_init init_from parse_uevent parse_device find_device update_found
    starts_with after_char refresh
uevent_status_init-refresh unknown sysfs st = refl
uevent_status_init-refresh blackbay sysfs st = refl
uevent_status_init-refresh redridge sysfs st = refl
uevent_status_init-refresh redhookbay sysfs st = refl

has_path-at : (s : Text) → has_path s ≡ true → (p : Text) × (after_char 64 s ≡ some p)
unfolding has_path after_char starts_with
has_path-at [] h = cc
has_path-at (x ∷ s) h = elim (Bool-cases (x == 64)) [
  | inl at ↦ (s, rw at refl)
  | inr other ↦ let (p, e) = has_path-at s (ground arith) in (p, rw other e)
]

parse-some :
    (plat : Platform) (sysfs : Text → Option Text) (s : Text) (st : UeventStatus)
    → has_path s ≡ true
    → (st' : UeventStatus) × (parse_uevent plat sysfs s st ≡ some st')
unfolding parse_uevent parse_device
parse-some plat sysfs s st h =
    let (p, e) = has_path-at s h in
    elim (Bool-cases (starts_with (codes "change") s)) [
      | inl change ↦ (update_found sysfs (find_device plat p uevent_path) st, rw (change, e) refl)
      | inr other ↦ (st, rw other refl)
    ]

loop-some :
    (plat : Platform) (sysfs : Text → Option Text) (messages : List Text) (st : UeventStatus)
    (shown : List UeventStatus)
    → (r : UeventStatus × List UeventStatus) × (uevent_loop plat sysfs messages (st, shown)
        ≡ some r)
unfolding uevent_loop
loop-some plat sysfs [] st shown = (_, refl)
loop-some plat sysfs (bytes ∷ messages) st shown = elim (Bool-cases (ltb (length bytes) 4)) [
  | inl short ↦ rw short (loop-some plat sysfs messages st shown)
  | inr long ↦ elim (Bool-cases (has_path (before_char 0 bytes))) [
    | inr no_path ↦ rw (long, no_path) (loop-some plat sysfs messages st shown)
    | inl path ↦
        let (st', e) = parse-some plat sysfs (before_char 0 bytes) st path in
        rw (long, path, e) (loop-some plat sysfs messages st' (shown ++ st' ∷ []))
  ]
]

-- Whatever messages arrive, and whatever the files of the devices hold, the thread never follows
-- the pointer that strchr() gives for a message without '@'.
pub uevent_thread_never_faults :
    (plat : Platform) (sysfs : Text → Option Text) (messages : List Text) (st : UeventStatus)
    → (r : UeventStatus × List UeventStatus) × (uevent_thread plat sysfs messages st ≡ some r)
unfolding uevent_thread
uevent_thread_never_faults plat sysfs messages st =
    let st' = refresh uevent_path plat sysfs st in
    rw (uevent_status_init-refresh plat sysfs st) (loop-some plat sysfs messages st' (st' ∷ []))
