-- ===== src/Recovery/Tests.antt =====
-- A concrete software update of src/tboot.c.
use tboot.Base.{◌≡◌, refl, true, false, none, some, [], ◌∷◌, codes, text_eq, if◌then◌else◌}
use tboot.Base.Int.{pos}
use tboot.Fstab.{Volume}
use tboot.Uevent.{unknown}
use tboot.Aboot.Tests.{target}
use tboot.Aboot.Target.{Part, Target}
use tboot.Util.{wrote}
use tboot.Recovery.{provision_partition, provision_part, provision_device}
use tboot.Recovery.Update.{Updater, UpdateEnv}

-- A disk with a cache partition whose file system is not there yet.
abbrev cache : Part
cache = record { name = codes "cache"; len_kb = 2048; is_linux = true }

abbrev cached_target : Target
cached_target = record target {
  find_part = λ name. if text_eq name (codes "cache") then some cache else none;
  find_part_device =
      λ name. if text_eq name (codes "cache") then some (codes "/dev/sda2") else none;
}

abbrev env : UpdateEnv
env = record {
  mounts = record { has_dir = λ _. true; mounts = λ _ _ _. true; exists = λ _. true };
  target = cached_target;
  device_name = codes "board";
  platform_result = pos 0;
  old_command = some [];
  writes = wrote 100 ∷ [];
}

abbrev volume : Volume
volume = record {
  mount_point = codes "/sdcard";
  fs_type = codes "vfat";
  device = some (codes "/dev/mmcblk1p1");
  device2 = none;
  length = pos 0;
}

abbrev updater : Updater
updater = record {
  update_location = none;
  boot = record {
    use_autoboot = pos 0;
    autoboot_delay_secs = pos 8;
    scratch_size = pos 10;
    bootpart = codes "platform";
    bootdir = codes "boot";
    update_pause = pos 0;
    platform = unknown;
    autoboot_enabled = false;
    power_pressed = false;
    events = [];
  };
  applied = none;
  formats = [];
  ended = false;
}

cache_is_formatted :
    (provision_partition cached_target (codes "cache") (codes "/dev/mmcblk1p1")).1
    ≡ codes "/dev/sda2" ∷ []
unfolding provision_partition provision_part provision_device text_eq
cache_is_formatted = refl
