-- ===== src/Recovery/Update.antt =====
-- `try_update_sw` of src/tboot.c and `apply_sw_update` of src/tboot_util.c.
use tboot.Base.{Bool, true, false, ◌&&◌, Option, none, some, List, ◌++◌, Text, codes, if◌then◌else◌}
use tboot.Base.Int.{ℤ, is_zero}
use tboot.Fstab.{Volume}
use tboot.Aboot.Target.{Part, Target}
use tboot.Boot.{Boot, Tick, countdown}
use tboot.Util.{Write, Written, named_file_write}
use tboot.Recovery.{
  Mounts, mount_partition, ready, not_ready, process_died, Provisioned, provisioning_checks,
  detect_sw_update,
}

-- What `apply_sw_update` leaves: the file with the command for the recovery console, if it was
-- written to, and whether the partition that it unmounts in the end was NULL, a fault.
pub record Applied : Type 0 where
  pub command_file : Option Written
  pub answered : Bool
  pub unmounts_null : Bool

abbrev not_applied : Bool → Applied
not_applied null = record { command_file = none; answered = false; unmounts_null = null }

abbrev pub command_of : Text → Text
command_of location = codes "--update_package=" ++ location

write_command : Option Text → List Write → Text → Bool → Applied
write_command old writes location send_ok =
    let written = named_file_write old writes (command_of location) in
    record {
      command_file = some written;
      answered = written.done && send_ok;
      unmounts_null = false;
    }

apply_on : Mounts → Target → Option Text → List Write → Text → Bool → Option Part → Applied
unfolding write_command
apply_on m target old writes location send_ok none = not_applied true
apply_on m target old writes location send_ok (some ptn) =
    if mount_partition m target ptn && m.has_dir (codes "/mnt/cache/recovery")
    then write_command old writes location send_ok
    else not_applied false

-- `old` and `writes`: what the command file held, and how the calls of write() end. `answered`
-- stands for the OKAY. (The reboot is commented out, so that the function always returns.)
unfoldable pub apply_sw_update : Mounts → Target → Option Text → List Write → Text → Bool → Applied
unfolding apply_on
apply_sw_update m target old writes location send_ok =
    apply_on m target old writes location send_ok (target.find_part (codes "cache"))

-- `g_update_location`, and what the boot flow keeps; what was applied last; the devices formatted;
-- a fault, or the end of the process.
pub record Updater : Type 0 where
  pub update_location : Option Text
  pub boot : Boot
  pub applied : Option Applied
  pub formats : List Text
  pub ended : Bool

-- What surrounds an update: the mounts, the disk, the platform's function, the command file.
pub record UpdateEnv : Type 0 where
  pub mounts : Mounts
  pub target : Target
  pub device_name : Text
  pub platform_result : ℤ
  pub old_command : Option Text
  pub writes : List Write

-- After the provisioning: the update is applied, or its location is kept for later.
unfoldable pub finish_update : UpdateEnv → Text → Provisioned → Updater → Bool × Updater
finish_update env location (not_ready, formats) u =
    (false, record u { formats = u.formats ++ formats })
finish_update env location (process_died, formats) u =
    (false, record u { formats = u.formats ++ formats; ended = true })
finish_update env location (ready, formats) u =
    let done = record u { formats = u.formats ++ formats } in
    if is_zero u.boot.update_pause
    then (
      false,
      record done {
        applied =
            some (apply_sw_update env.mounts env.target env.old_command env.writes location false);
      },
    )
    else (true, record done { update_location = some location })

-- strcmp() with a NULL device is a fault.
unfoldable pub provision_from : UpdateEnv → Text → Option Text → Updater → Bool × Updater
unfolding finish_update
provision_from env location none u = (false, record u { ended = true })
provision_from env location (some source) u =
    finish_update env location (provisioning_checks env.target env.platform_result source) u

unfoldable pub after_countdown :
    UpdateEnv → Text → Option Text → Bool × Boot → Updater → Bool × Updater
unfolding provision_from
after_countdown env location source (false, boot) u = (true, record u { boot = boot })
after_countdown env location source (true, boot) u =
    provision_from env location source (record u { boot = boot })

unfoldable pub found_update :
    UpdateEnv → Volume → Bool → List Tick → Option Text → Updater → Bool × Updater
unfolding after_countdown
found_update env v use_countdown ticks none u = (true, u)
found_update env v use_countdown ticks (some location) u =
    let counted =
      after_countdown env location v.device (countdown u.boot.autoboot_delay_secs ticks u.boot) u in
    if use_countdown then counted else provision_from env location v.device u

unfoldable pub update_unless :
    Option Text → UpdateEnv → Volume → Bool → List Tick → Updater → Bool × Updater
unfolding found_update
update_unless (some location) env v use_countdown ticks u = (true, u)
update_unless none env v use_countdown ticks u =
    found_update env v use_countdown ticks (detect_sw_update env.mounts env.device_name v) u

-- `try_update_sw`; `true` stands for 0.
unfoldable pub try_update_sw : UpdateEnv → Volume → Bool → List Tick → Updater → Bool × Updater
unfolding update_unless
try_update_sw env v use_countdown ticks u =
    update_unless u.update_location env v use_countdown ticks u
