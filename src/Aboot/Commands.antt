-- ===== src/Aboot/Commands.antt =====
-- `cmd_erase`, `cmd_boot`, `cmd_reboot`, `cmd_reboot_bl` and the lists of src/aboot.c.
pub mod Online
use tboot.Base.{
  ℕ, zero, suc, ◌+◌, ◌-◌, ◌/◌, ◌*◌, ◌%◌, ◌^◌, ◌≤◌, ◌<◌, min, ◌≡◌, refl, sym, ap, ◌∙◌, ◌≢◌, ◌↔◌, ◌⊎◌,
  inl, inr, Bool, true, false, not, ◌&&◌, ◌||◌, Option, none, some, List, [], ◌∷◌, ◌++◌, map, arith,
  String, Text, codes, text_eq, starts_with, after_char, before_char, text_eq_refl, text_eq-eq,
  text_eq_symm, text_eq_iff, starts_with-append, length, get_elem?, take, drop, length-append,
  length-take, length-drop, take-append-drop, take_all, take-take, drop-nil, drop-drop, drop_all,
  ltb, leb, ◌==◌, if◌then◌else◌, ltb→lt, lt→ltb, ==_iff, Bool-cases, Option-cases,
}
use tboot.Base.Number.{dec}
use tboot.Fastboot.{UiCall, ui_error, ui_info, ui_warn, bouncebar, Session}
use tboot.Fastboot.Reply.{fastboot_info, fastboot_fail, fastboot_okay}
use tboot.Device.{Device}
use tboot.Aboot.Target.{Part, Target, Erased, erased, not_erased, died, erase_partition}

unfoldable pub show : UiCall → Session → Session
show call s = record s { ui = s.ui ++ call ∷ [] }

-- The keys of a map, a line each: hashmapForEach with `list_callback`.
unfoldable pub list_keys : List Text → Session → Session
list_keys [] s = s
list_keys (key ∷ keys) s = list_keys keys (fastboot_info (codes "\n") (fastboot_info key s))

spaces : ℕ → Text
spaces zero = []
spaces (suc n) = 32 ∷ spaces n

-- "%-12s%u\n"
part_line : Part → Text
unfolding spaces
part_line ptn =
    ptn.name ++ (spaces (12 - length ptn.name) ++ (dec (ptn.len_kb / 1024) ++ codes "\n"))

list_parts : List Part → Session → Session
list_parts [] s = s
list_parts (ptn ∷ parts) s = list_parts parts (fastboot_info (part_line ptn) s)

list_os : Bool → List Text → Session → Session
list_os false keys s = s
list_os true keys s = list_keys keys (fastboot_info (codes "FW and raw OS can be flashed:\n") s)

-- `list_partitions(os, 1)`, the only calls there are; `keys` are those of `flash_cmds`.
unfoldable pub list_partitions : Bool → List Text → Target → Session → Session
unfolding list_parts list_os part_line
list_partitions os keys target s =
    let s1 = fastboot_info (codes "\nPartitions can be flashed/erased:\n") (list_os os keys s) in
    let s2 = fastboot_info (codes "Name        Size(MB)\n") s1 in
    let s3 = list_parts target.part_lst (fastboot_info (codes "--------------------\n") s2) in
    fastboot_okay [] (fastboot_info (codes "\n") s3)

erase_result : Text → Erased → Session → Session
erase_result part_name erased s =
    fastboot_okay [] (show (ui_info (codes "Erase " ++ (part_name ++ codes " finished."))) s)
erase_result part_name not_erased s =
    fastboot_fail (codes "Can't erase partition")
      (show (ui_error (codes "Erase " ++ (part_name ++ codes " failed."))) s)
erase_result part_name died s = record s { fault = true }

erase_part : Text → Target → Option Part → Session → Session
unfolding erase_result
erase_part part_name target none s =
    fastboot_fail (codes "unknown partition name.")
      (show (ui_error (codes "unknown partition: " ++ (part_name ++ codes "."))) s)
erase_part part_name target (some ptn) s =
    erase_result part_name (erase_partition target ptn)
      (show (bouncebar (codes "Erasing " ++ (part_name ++ codes "..."))) s)

unfoldable pub cmd_erase : Target → Text → Session → Session
unfolding erase_part
cmd_erase target [] s = list_partitions false [] target s
cmd_erase target (c ∷ name) s = erase_part (c ∷ name) target (target.find_part (c ∷ name)) s

unfoldable pub cmd_boot : Session → Session
cmd_boot s = fastboot_fail (codes "boot command stubbed on this platform!") s

-- The reboot itself, where it works, ends the program; this is the case in which it comes back.
unfoldable pub cmd_reboot : Device → Device
cmd_reboot d = record d {
  session =
      show (ui_error (codes "Reboot failed."))
        (show (bouncebar (codes "Rebooting...")) (fastboot_okay [] d.session));
  reboots = d.reboots ++ codes "android" ∷ [];
}

unfoldable pub cmd_reboot_bl : Device → Device
cmd_reboot_bl d = record d {
  session =
      show (ui_error (codes "Restarting tboot failed."))
        (show (bouncebar (codes "Restarting tboot...")) (fastboot_okay [] d.session));
  reboots = d.reboots ++ codes "bootloader" ∷ [];
}
