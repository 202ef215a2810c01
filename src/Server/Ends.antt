-- ===== src/Server/Ends.antt =====
-- The command loop of the fastboot server with the program's own commands.
use tboot.Base.{ℕ, ◌<◌, ◌≡◌, ◌≢◌, none, some, Text, length}
use tboot.Fastboot.{offline, command}
use tboot.Fastboot.Online.{Online}
use tboot.Fastboot.Download.Online.{cmd_getvar-Online, cmd_download-Online}
use tboot.Device.{Device, check_battery}
use tboot.Loop.{Handler, registered, command_round}
use tboot.Loop.Ends.{HandlerLaws, command_round-closes, command_loop-ends}
use tboot.Aboot.Target.{Target}
use tboot.Aboot.Target.Registry.{AllOf}
use tboot.Aboot.Commands.Online.{
  cmd_erase-Online, cmd_boot-Online, cmd_reboot-Online, cmd_reboot_bl-Online,
}
use tboot.Aboot.Oem.{Storage}
use tboot.Aboot.Oem.Online.{OemLaw, cmd_oem-Online}
use tboot.Aboot.Flash.{System}
use tboot.Aboot.Flash.Command.Ending.{FunctionLaw}
use tboot.Aboot.Flash.Command.Closing.{cmd_stream_flash-completes}
use tboot.Server.{handle, serve}

-- What the server relies on in the functions of the plugins: called while the protocol is online,
-- they leave it online and put nothing back into the device node.
pub record PluginLaws (target : Target) : Type 0 where
  pub flash_laws : (n : ℕ) → AllOf (FunctionLaw n) target.flash_cmds
  pub oem_laws : (n : ℕ) → AllOf (OemLaw n) target.oem_cmds

module _ (target : Device → Target) (system : Device → System) (storage : Device → Storage)
    (laws : (d : Device) → PluginLaws (target d)) where
  handle-Online :
      (h : Handler) (arg : Text) (d : Device) (n : ℕ)
      → Online n d.session
      → Online n (handle target system storage h arg d).session
  unfolding handle
  handle-Online Handler.cmd_oem arg d n on =
      cmd_oem-Online n (target d) (storage d) arg d ((laws d).oem_laws n) on
  handle-Online Handler.cmd_boot arg d n on = cmd_boot-Online n d.session on
  handle-Online Handler.cmd_reboot arg d n on = cmd_reboot-Online n d on
  handle-Online Handler.cmd_reboot_bl arg d n on = cmd_reboot_bl-Online n d on
  handle-Online Handler.cmd_erase arg d n on = cmd_erase-Online n (target d) arg d.session on
  handle-Online Handler.cmd_stream_flash arg d n on =
      (cmd_stream_flash-completes n (system d) (target d) arg d.session ((laws d).flash_laws n)
        on).0
  handle-Online Handler.cmd_getvar arg d n on = cmd_getvar-Online n arg d.session on
  handle-Online Handler.cmd_download arg d n on = cmd_download-Online n arg d.session on

  pub handle-HandlerLaws : HandlerLaws (handle target system storage)
  handle-HandlerLaws = record { keeps_online = handle-Online }

  -- With the program's own commands, and plugins that keep the protocol online, the server comes to
  -- an end whatever the reads and writes on the device node return and whatever the disk and the
  -- programs that are run answer, on any fuel above the number of reads; it is then offline.
  pub serve-ends :
      (fuel : ℕ) (d : Device)
      → length d.session.reads < fuel
      → (d' : Device) × (serve target system storage fuel d ≡ some d')
        × (d'.session.state ≡ offline)
  unfolding serve
  serve-ends fuel d enough =
      command_loop-ends (handle target system storage) handle-HandlerLaws fuel registered d enough

  -- With the program's own commands, a configured battery threshold and plugins that keep the
  -- protocol online, every line of the host is dealt with in one round: no command stays open and
  -- the protocol does not go offline.
  pub round-closes :
      (bytes : Text) (d : Device)
      → check_battery d ≢ none
      → ((command_round (handle target system storage) registered bytes d).session.state ≢ command)
        × ((command_round (handle target system storage) registered bytes d).session.state
            ≢ offline)
  round-closes bytes d known =
      command_round-closes (handle target system storage) handle-HandlerLaws registered bytes d
        known
