-- ===== src/Boot/Tests.antt =====
-- Concrete runs of the boot flow.
use tboot.Fastboot.{offline, Session}
use tboot.Boot.Kexec.{KexecEnv, Launch, kexec_linux, kexec_linux-Launch}
use tboot.Base.{
  Bool, ◌≡◌, min, refl, arith, true, false, List, [], ◌∷◌, Text, codes, starts_with, text_eq, some,
}
use tboot.Base.Int.{pos}
use tboot.Boot.{
  BootEvent, booting, boot_error, start_default_kernel, start_backup_kernel, start_mounted,
  start_kernel, autoboot_precheck, from_pattern,
}
use tboot.Uevent.{unknown}
use tboot.Boot.{Boot, Tick, countdown}
use tboot.Boot.Countdown.{stays_enabled, countdown_lem}

-- The globals as src/tboot.c initializes them.
abbrev fresh : Boot
fresh = record {
  use_autoboot = pos 0;
  autoboot_delay_secs = pos 8;
  scratch_size = pos 10;
  bootpart = codes "platform";
  bootdir = codes "boot";
  update_pause = pos 0;
  platform = unknown;
  autoboot_enabled = false;
  power_pressed = false;
  events = [];
}

-- A key in the second second.
abbrev a_key : List Tick
a_key =
    record { disabled = false; powered = false } ∷ record { disabled = true; powered = false } ∷ []

quiet_is_foreign : starts_with (codes "tboot") (codes "quiet=1") ≡ false
unfolding starts_with
quiet_is_foreign = refl

countdown_lem_example :
    ((countdown (pos 8) a_key fresh).0 ≡ stays_enabled (min 8 100) a_key)
    × ((countdown (pos 8) a_key fresh).1.autoboot_enabled ≡ false)
countdown_lem_example = countdown_lem 8 a_key fresh (omega arith) refl

-- Only the default kernel is there, without a command line.
abbrev files : Text → Bool
files path = text_eq path (codes "/mnt/platform/boot//kernel")

abbrev missing : Text → List BootEvent
missing kernel = booting kernel ∷ boot_error (codes "Missing kernel or cmdline.") ∷ []

default_is_missing : (start_default_kernel true files fresh).events ≡ missing (codes "kernel")
unfolding start_default_kernel start_mounted start_kernel autoboot_precheck from_pattern starts_with
    text_eq
default_is_missing = refl

backup_is_missing : (start_backup_kernel true files fresh).events ≡ missing (codes "kernel.bak")
unfolding start_backup_kernel start_mounted start_kernel autoboot_precheck from_pattern starts_with
    text_eq
backup_is_missing = refl

-- A kernel without a ramdisk, for which every command works.
abbrev kexec_env : KexecEnv
kexec_env = record {
  file_text = λ _. some (codes "root=/dev/sda1");
  readable = λ _. false;
  execute = λ _. pos 0;
}

abbrev kexec_session : Session
kexec_session = record {
  state = offline;
  reads = [];
  writes = [];
  sent = [];
  download_base = [];
  download_max = 0;
  download_size = 0;
  varlist = [];
  ui = [];
  fault = false;
}

kexec_linux-Launch_example :
    Launch kexec_env
      (codes "/mnt/platform/boot/")
      (codes "kernel.bak")
      kexec_session
      (kexec_linux kexec_env (codes "/mnt/platform/boot/") (codes "kernel.bak") kexec_session)
kexec_linux-Launch_example =
    kexec_linux-Launch kexec_env (codes "/mnt/platform/boot/") (codes "kernel.bak") kexec_session
