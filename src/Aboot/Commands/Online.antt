-- ===== src/Aboot/Commands/Online.antt =====
-- The commands of src/aboot.c that neither flash nor run a plugin keep the protocol online.
use tboot.Base.{ℕ, Bool, true, false, Option, none, some, List, [], ◌∷◌, Text, codes}
use tboot.Fastboot.{Session}
use tboot.Fastboot.Online.{Online, fastboot_info-Online, fastboot_fail-Online, fastboot_okay-Online}
use tboot.Device.{Device}
use tboot.Aboot.Target.{Part, Target, Erased, erased, not_erased, died, erase_partition}
use tboot.Aboot.Commands.{
  show, list_keys, list_parts, list_os, list_partitions, part_line, erase_result, erase_part,
  cmd_erase, cmd_boot, cmd_reboot, cmd_reboot_bl,
}

module _ (n : ℕ) where
  pub list_keys-Online : (keys : List Text) (s : Session) → Online n s → Online n (list_keys keys s)
  unfolding list_keys
  list_keys-Online [] s on = on
  list_keys-Online (key ∷ keys) s on =
      list_keys-Online keys _
        (fastboot_info-Online n (codes "\n") _ (fastboot_info-Online n key s on))

  list_parts-Online : (parts : List Part) (s : Session) → Online n s → Online n (list_parts parts s)
  unfolding list_parts
  list_parts-Online [] s on = on
  list_parts-Online (ptn ∷ parts) s on =
      list_parts-Online parts _ (fastboot_info-Online n (part_line ptn) s on)

  list_os-Online :
      (os : Bool) (keys : List Text) (s : Session) → Online n s → Online n (list_os os keys s)
  unfolding list_os
  list_os-Online false keys s on = on
  list_os-Online true keys s on =
      list_keys-Online keys _
        (fastboot_info-Online n (codes "FW and raw OS can be flashed:\n") s on)

  pub list_partitions-Online :
      (os : Bool) (keys : List Text) (target : Target) (s : Session)
      → Online n s
      → Online n (list_partitions os keys target s)
  unfolding list_partitions
  list_partitions-Online os keys target s on =
      let info = fastboot_info-Online n in
      fastboot_okay-Online n [] _ (
        info (codes "\n") _ (
          list_parts-Online target.part_lst _ (
            info (codes "--------------------\n") _ (
              info (codes "Name        Size(MB)\n") _ (
                info (codes "\nPartitions can be flashed/erased:\n") _
                  (list_os-Online os keys s on))))))

  erase_result-Online :
      (part_name : Text) (r : Erased) (s : Session)
      → Online n s
      → Online n (erase_result part_name r s)
  unfolding erase_result show
  erase_result-Online part_name erased s on = fastboot_okay-Online n [] _ on
  erase_result-Online part_name not_erased s on =
      fastboot_fail-Online n (codes "Can't erase partition") _ on
  erase_result-Online part_name died s on = on

  erase_part-Online :
      (part_name : Text) (target : Target) (ptn : Option Part) (s : Session)
      → Online n s
      → Online n (erase_part part_name target ptn s)
  unfolding erase_part show
  erase_part-Online part_name target none s on =
      fastboot_fail-Online n (codes "unknown partition name.") _ on
  erase_part-Online part_name target (some ptn) s on =
      erase_result-Online part_name (erase_partition target ptn) _ on

  pub cmd_erase-Online :
      (target : Target) (arg : Text) (s : Session) → Online n s → Online n (cmd_erase target arg s)
  unfolding cmd_erase
  cmd_erase-Online target [] s on = list_partitions-Online false [] target s on
  cmd_erase-Online target (c ∷ name) s on =
      erase_part-Online (c ∷ name) target (target.find_part (c ∷ name)) s on

  pub cmd_boot-Online : (s : Session) → Online n s → Online n (cmd_boot s)
  unfolding cmd_boot
  cmd_boot-Online s on =
      fastboot_fail-Online n (codes "boot command stubbed on this platform!") s on

  pub cmd_reboot-Online : (d : Device) → Online n d.session → Online n (cmd_reboot d).session
  unfolding cmd_reboot show
  cmd_reboot-Online d on = fastboot_okay-Online n [] d.session on

  pub cmd_reboot_bl-Online : (d : Device) → Online n d.session → Online n (cmd_reboot_bl d).session
  unfolding cmd_reboot_bl show
  cmd_reboot_bl-Online d on = fastboot_okay-Online n [] d.session on
