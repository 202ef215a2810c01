-- ===== src/Recovery.antt =====
-- The software updates of src/tboot.c: `detect_sw_update`, `provision_partition` and
-- `provisioning_checks`, with the mounts of src/tboot_util.c.
pub mod Safety
pub mod Update
pub mod Updating
pub mod Tests
use tboot.Base.{
  ℕ, zero, suc, ◌+◌, ◌-◌, ◌/◌, ◌*◌, ◌%◌, ◌^◌, ◌≤◌, ◌<◌, min, ◌≡◌, refl, sym, ap, ◌∙◌, ◌≢◌, ◌↔◌, ◌⊎◌,
  inl, inr, Bool, true, false, not, ◌&&◌, ◌||◌, Option, none, some, List, [], ◌∷◌, ◌++◌, map, arith,
  String, Text, codes, text_eq, starts_with, after_char, before_char, text_eq_refl, text_eq-eq,
  text_eq_symm, text_eq_iff, starts_with-append, length, get_elem?, take, drop, length-append,
  length-take, length-drop, take-append-drop, take_all, take-take, drop-nil, drop-drop, drop_all,
  ltb, leb, ◌==◌, if◌then◌else◌, ltb→lt, lt→ltb, ==_iff, Bool-cases, Option-cases,
}
use tboot.Base.Int.{ℤ, is_zero}
use tboot.Fstab.{Volume, volume_for_device}
use tboot.Aboot.Target.{
  Part, Target, Erased, erased, not_erased, died, erase_partition, ext4_filesystem_checks,
}

-- What mkdir(), mount() and stat() come to: a directory is there after mkdir(), a device is mounted
-- or busy, a path exists.
pub record Mounts : Type 0 where
  pub has_dir : Text → Bool
  pub mounts : Option Text → Text → Text → Bool
  pub exists : Text → Bool

-- `mount_partition_device`; `true` stands for 0.
unfoldable pub mount_partition_device : Mounts → Option Text → Text → Text → Bool
mount_partition_device m device type mountpoint =
    m.has_dir mountpoint && m.mounts device type mountpoint

mount_volume : Mounts → Text → Text → Option Volume → Bool
mount_volume m name device none = false
mount_volume m name device (some (v)) =
    mount_partition_device m (some device) v.fs_type (codes "/mnt/" ++ name)

mount_device : Mounts → Target → Text → Option Text → Bool
unfolding mount_volume
mount_device m target name none = false
mount_device m target name (some device) =
    mount_volume m name device (volume_for_device device target.volumes)

unfoldable pub mount_partition : Mounts → Target → Part → Bool
unfolding mount_device
mount_partition m target ptn = mount_device m target ptn.name (target.find_part_device ptn.name)

-- How a part of the provisioning ends, with the devices that erase_partition() was called for.
pub data Outcome : Type 0 where
  ready not_ready process_died : Outcome

abbrev pub Provisioned : Type 0
Provisioned = Outcome × List Text

abbrev erased_as : Erased → Outcome
erased_as erased = ready
erased_as not_erased = not_ready
erased_as died = process_died

abbrev ready_if : Bool → Outcome
ready_if true = ready
ready_if false = not_ready

unfoldable pub provision_device : Target → Part → Text → Option Text → Provisioned
provision_device target ptn source none = (not_ready, [])
provision_device target ptn source (some device) =
    if text_eq source device
    then (ready_if (ext4_filesystem_checks target device), [])
    else (erased_as (erase_partition target ptn), device ∷ [])

unfoldable pub provision_part : Target → Text → Option Part → Provisioned
unfolding provision_device
provision_part target source none = (not_ready, [])
provision_part target source (some ptn) =
    provision_device target ptn source (target.find_part_device ptn.name)

-- `provision_partition`; `source` is the first device of the volume with the update, which is
-- not NULL here. The update lies on the second one where the first does not mount.
unfoldable pub provision_partition : Target → Text → Text → Provisioned
unfolding provision_part
provision_partition target name source = provision_part target source (target.find_part name)

-- A step of the provisioning, and the next one where it is ready.
unfoldable pub then_provision : Provisioned → Provisioned → Provisioned
then_provision (ready, formats) (outcome, more) = (outcome, formats ++ more)
then_provision (not_ready, formats) next = (not_ready, formats)
then_provision (process_died, formats) next = (process_died, formats)

-- `provisioning_checks`; `platform` is the result of the platform's function, 0 where there is none.
unfoldable pub provisioning_checks : Target → ℤ → Text → Provisioned
unfolding provision_partition then_provision
provisioning_checks target platform source =
    then_provision (ready_if (is_zero platform), [])
      (then_provision (provision_partition target (codes "cache") source)
        (provision_partition target (codes "userdata") source))

-- `detect_sw_update`: the path of the update on its volume. `device_name` is the DEVICE_NAME that
-- the program is built with.
abbrev update_path : Text → Volume → Text
update_path device_name v = v.mount_point ++ (codes "/" ++ (device_name ++ codes ".auto-ota.zip"))

mounts_second : Mounts → Volume → Text → Option Text → Bool
mounts_second m v mountpoint none = false
mounts_second m v mountpoint (some device) =
    mount_partition_device m (some device) v.fs_type mountpoint

unfoldable pub detect_sw_update : Mounts → Text → Volume → Option Text
unfolding mounts_second
detect_sw_update m device_name v =
    let mountpoint = codes "/mnt" ++ v.mount_point in
    let path = update_path device_name v in
    if mount_partition_device m v.device v.fs_type mountpoint
      || mounts_second m v mountpoint v.device2
    then if m.exists (codes "/mnt" ++ path) then some path else none
    else none
