-- ===== src/Loop/Dispatch.antt =====
-- Which handler a command line reaches.
use tboot.Base.{◌≡◌, refl, some, ◌++◌, Text, codes, starts_with, drop, if◌then◌else◌}
use tboot.Loop.{
  cmd_oem, cmd_boot, cmd_reboot, cmd_reboot_bl, cmd_erase, cmd_stream_flash, cmd_getvar,
  cmd_download, registered, find_cmd,
}

-- With the commands registered as the program registers them, every command line reaches the
-- handler of its own command, with what follows the prefix as the argument; "reboot" followed by
-- "-bootloader" is the other command, and not "reboot" with an argument.
pub find_cmd-registered :
    (rest : Text)
    → (find_cmd (codes "download:" ++ rest) registered ≡ some (cmd_download, rest))
      × (find_cmd (codes "getvar:" ++ rest) registered ≡ some (cmd_getvar, rest))
      × (find_cmd (codes "flash:" ++ rest) registered ≡ some (cmd_stream_flash, rest))
      × (find_cmd (codes "erase:" ++ rest) registered ≡ some (cmd_erase, rest))
      × (find_cmd (codes "boot" ++ rest) registered ≡ some (cmd_boot, rest))
      × (find_cmd (codes "oem" ++ rest) registered ≡ some (cmd_oem, rest))
      × (find_cmd (codes "reboot-bootloader" ++ rest) registered ≡ some (cmd_reboot_bl, rest))
      × (find_cmd (codes "reboot" ++ rest) registered ≡ (
          if starts_with (codes "-bootloader") rest
          then some (cmd_reboot_bl, drop 11 rest)
          else some (cmd_reboot, rest)))
unfolding registered find_cmd starts_with
find_cmd-registered rest = (refl, refl, refl, refl, refl, refl, refl, refl)
