-- ===== src/Boot.antt =====
-- The boot flow of src/tboot.c: the options of the kernel command line, the countdown, and the start
-- of the second-stage kernel.
use tboot.Base.{
  ℕ, zero, suc, ◌+◌, ◌-◌, ◌/◌, ◌*◌, ◌%◌, ◌^◌, ◌≤◌, ◌<◌, min, ◌≡◌, refl, sym, ap, ◌∙◌, ◌≢◌, ◌↔◌, ◌⊎◌,
  inl, inr, Bool, true, false, not, ◌&&◌, ◌||◌, Option, none, some, List, [], ◌∷◌, ◌++◌, map, arith,
  String, Text, codes, text_eq, starts_with, after_char, before_char, text_eq_refl, text_eq-eq,
  text_eq_symm, text_eq_iff, starts_with-append, length, get_elem?, take, drop, length-append,
  length-take, length-drop, take-append-drop, take_all, take-take, drop-nil, drop-drop, drop_all,
  ltb, leb, ◌==◌, if◌then◌else◌, ltb→lt, lt→ltb, ==_iff, Bool-cases, Option-cases,
}
pub mod Options
pub mod Countdown
pub mod Kexec
pub mod Rootfs
pub mod Tests
use tboot.Base.Int.{ℤ, pos, negsuc, neg_ℕ}
use tboot.Base.Number.{atoi}
use tboot.Uevent.{Platform, unknown, blackbay, redridge, redhookbay}

-- What the boot flow shows and does: the percentage given to tboot_ui_textbar, tboot_ui_bouncebar,
-- tboot_ui_error, and kexec_linux() with the directory and the kernel.
pub data BootEvent : Type 0 where
  bar : ℤ → BootEvent
  booting : Text → BootEvent
  boot_error : Text → BootEvent
  kexec : Text → Text → BootEvent

-- The globals of the boot flow; `platform` is the one that src/platform.c keeps.
pub record Boot : Type 0 where
  pub use_autoboot : ℤ
  pub autoboot_delay_secs : ℤ
  pub scratch_size : ℤ
  pub bootpart : Text
  pub bootdir : Text
  pub update_pause : ℤ
  pub platform : Platform
  pub autoboot_enabled : Bool
  pub power_pressed : Bool
  pub events : List BootEvent

platform_of : Text → Platform
platform_of value =
    if starts_with (codes "blackbay") value
    then blackbay
    else if starts_with (codes "redridge") value
    then redridge
    else if starts_with (codes "redhookbay") value
    then redhookbay
    else unknown

set_option : Text → Text → Boot → Boot
unfolding platform_of
set_option name value b =
    if text_eq name (codes "tboot.bootloader")
    then record b { use_autoboot = atoi value }
    else if text_eq name (codes "tboot.delay")
    then record b { autoboot_delay_secs = atoi value }
    else if text_eq name (codes "tboot.scratch")
    then record b { scratch_size = atoi value }
    else if text_eq name (codes "tboot.bootpart")
    then record b { bootpart = value }
    else if text_eq name (codes "tboot.bootdir")
    then record b { bootpart = value }
    else if text_eq name (codes "tboot.updatepause")
    then record b { update_pause = atoi value }
    else if text_eq name (codes "tboot.platform")
    then record b { platform = platform_of value }
    else b

-- `none` for an option without '='. A name that is empty does not start with "tboot" either.
option_value : Text → Option Text → Boot → Boot
unfolding set_option
option_value name none b = b
option_value name (some value) b =
    if starts_with (codes "tboot") name then set_option name value b else b

pub parse_cmdline_option : Text → Boot → Boot
unfolding option_value
parse_cmdline_option option b = option_value (before_char 61 option) (after_char 61 option) b

-- What happens while the countdown sleeps a second: a key or a command disables the automatic boot,
-- the power key is pressed.
pub record Tick : Type 0 where
  pub disabled : Bool
  pub powered : Bool

tick : Tick → Boot → Boot
tick t b = record b {
  autoboot_enabled = b.autoboot_enabled && not t.disabled;
  power_pressed = b.power_pressed || t.powered;
}

-- (int)(-100.0 / total - 0.5), without its sign.
abbrev frag : ℕ → ℕ
frag total = (200 + total) / (2 * total)

-- The seconds whose ticks are not listed pass quietly.
abbrev pub first_tick : List Tick → Tick
first_tick [] = record { disabled = false; powered = false }
first_tick (t ∷ ticks) = t

abbrev pub later_ticks : List Tick → List Tick
later_ticks [] = []
later_ticks (t ∷ ticks) = ticks

abbrev pub show_second : ℕ → ℕ → Boot → Boot
show_second total seconds b = record b {
  events = b.events ++ bar (neg_ℕ (frag total * seconds)) ∷ [];
}

-- The loop of `countdown`.
countdown_loop : ℕ → ℕ → List Tick → Boot → Boot
unfolding tick
countdown_loop total zero ticks b = b
countdown_loop total (suc seconds) ticks b =
    let after =
      countdown_loop total seconds (later_ticks ticks)
        (tick (first_tick ticks) (show_second total (suc seconds) b)) in
    if b.autoboot_enabled && not b.power_pressed then after else b

-- The Boolean is what `countdown` returns. A delay of no or negative seconds returns at once and
-- leaves `autoboot_enabled` set.
pub countdown : ℤ → List Tick → Boot → Bool × Boot
unfolding countdown_loop
countdown (negsuc n) ticks b = (true, record b { autoboot_enabled = true })
countdown (pos n) ticks b =
    let total = min n 100 in
    let b' = countdown_loop total total ticks (record b { autoboot_enabled = true }) in
    if n == 0
    then (true, record b { autoboot_enabled = true })
    else (b'.autoboot_enabled, record b' { autoboot_enabled = false })

-- strstr(s, pattern), or the empty text.
pub from_pattern : Text → Text → Text
from_pattern pattern [] = []
from_pattern pattern (x ∷ s) =
    let rest = from_pattern pattern s in if starts_with pattern (x ∷ s) then x ∷ s else rest

abbrev pub basepath : Boot → Text
basepath b = codes "/mnt/" ++ b.bootpart ++ codes "/" ++ b.bootdir ++ codes "/"

-- `readable` is access(…, R_OK) on a path. The result `true` stands for 0. No path is taken to be
-- longer than PATH_MAX.
pub autoboot_precheck : (Text → Bool) → Text → Boot → Bool
unfolding from_pattern
autoboot_precheck readable kernel b =
    readable (basepath b ++ (codes "/cmdline" ++ from_pattern (codes ".bak") kernel))
    && readable (basepath b ++ (codes "/" ++ kernel))

-- kexec_linux() returns only if it failed.
pub start_kernel : (Text → Bool) → Text → Boot → Boot
start_kernel readable kernel b =
    let shown = b.events ++ booting kernel ∷ [] in
    let missing = boot_error (codes "Missing kernel or cmdline.") in
    let back = boot_error (codes "Boot failed, back to Pre-OS mode.") in
    if autoboot_precheck readable kernel b
    then record b { events = shown ++ kexec (basepath b) kernel ∷ back ∷ []; power_pressed = false }
    else record b { events = shown ++ missing ∷ []; power_pressed = false }

-- `mounts`: whether mount_internal_mmc() succeeds. The umount() that follows is left out.
unfoldable pub start_mounted : Bool → (Text → Bool) → Text → Boot → Boot
start_mounted true readable kernel b = start_kernel readable kernel b
start_mounted false readable kernel b = record b {
  events = b.events ++ boot_error (codes "Mount rootfs failed.") ∷ [];
}

pub start_default_kernel : Bool → (Text → Bool) → Boot → Boot
unfolding start_mounted
start_default_kernel mounts readable b = start_mounted mounts readable (codes "kernel") b

pub start_backup_kernel : Bool → (Text → Bool) → Boot → Boot
unfolding start_mounted
start_backup_kernel mounts readable b = start_mounted mounts readable (codes "kernel.bak") b
