-- ===== src/Server.antt =====
-- The fastboot server as a whole: the command loop of src/fastboot.c with the commands of
-- src/fastboot.c and src/aboot.c behind it.
pub mod Ends
pub mod Tests
use tboot.Base.{ℕ, suc, Option, none, some, List, [], ◌∷◌, ◌>>=◌, Text, codes, length}
use tboot.Fastboot.Download
use tboot.Fastboot.Download.{fastboot_publish}
use tboot.Device.{Device}
use tboot.Loop.{Handler, on_session, registered, command_loop}
use tboot.Aboot.Target.{Target}
use tboot.Aboot.Commands
use tboot.Aboot.Oem
use tboot.Aboot.Oem.{Storage}
use tboot.Aboot.Flash.{System}
use tboot.Aboot.Flash.Command

-- One pass of the loop of `fastboot_handler`: the device node opens, with what its reads and
-- writes will return, or does not open, and is tried again.
pub data Opening : Type 0 where
  not_opened : Opening
  opened : List (Option Text) → List (Option ℕ) → Opening

abbrev connect : List (Option Text) → List (Option ℕ) → Device → Device
connect reads writes d = on_session (λ s. record s { reads = reads; writes = writes }) d

-- What the system answers to a command may depend on the device that the command finds.
module _ (target : Device → Target) (system : Device → System) (storage : Device → Storage) where
  -- The function behind each name that `aboot_register_commands` and `fastboot_init` register.
  unfoldable pub handle : Handler → Text → Device → Device
  handle Handler.cmd_oem arg d = Oem.cmd_oem (target d) (storage d) arg d
  handle Handler.cmd_boot arg d = on_session Commands.cmd_boot d
  handle Handler.cmd_reboot arg d = Commands.cmd_reboot d
  handle Handler.cmd_reboot_bl arg d = Commands.cmd_reboot_bl d
  handle Handler.cmd_erase arg d = on_session (Commands.cmd_erase (target d) arg) d
  handle Handler.cmd_stream_flash arg d =
      on_session (Command.cmd_stream_flash (system d) (target d) arg) d
  handle Handler.cmd_getvar arg d = on_session (Download.cmd_getvar arg) d
  handle Handler.cmd_download arg d = on_session (Download.cmd_download arg) d

  -- The thread of `fastboot_handler`: the command loop with the registered commands, until the
  -- device node fails. `none`: out of fuel.
  unfoldable pub serve : ℕ → Device → Option Device
  unfolding handle
  serve fuel d = command_loop handle fuel registered d

  -- `fastboot_handler`, over as many passes as are given; each connection has fuel for its reads.
  unfoldable pub fastboot_handler : List Opening → Device → Option Device
  unfolding serve
  fastboot_handler [] d = some d
  fastboot_handler (not_opened ∷ rest) d = fastboot_handler rest d
  fastboot_handler (opened reads writes ∷ rest) d =
      serve (suc (length reads)) (connect reads writes d) >>= fastboot_handler rest

  -- `fastboot_init`, where malloc() gives the buffer.
  unfoldable pub fastboot_init : ℕ → List Opening → Device → Option Device
  unfolding fastboot_handler
  fastboot_init size openings d = fastboot_handler openings (
      on_session
        (λ s. fastboot_publish (codes "fastboot") (codes "0.6") (record s { download_max = size }))
        d)
