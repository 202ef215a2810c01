-- ===== src/Loop/Tests.antt =====
-- Concrete runs of the command loop of src/fastboot.c.
use tboot.Base.{
  ◌≡◌, ◌≢◌, refl, true, false, none, some, [], ◌∷◌, ◌++◌, arith, Text, codes, starts_with,
  before_char, text_eq,
}
use tboot.Base.Int.{pos}
use tboot.Base.Number.{atoi}
use tboot.Fastboot.{command, complete, offline}
use tboot.Fastboot.Reply.{fastboot_fail}
use tboot.Config.{tboot_config_get, defaults, map_get}
use tboot.Lcd.{LcdState}
use tboot.Device.{Device, check_battery, disable_autoboot}
use tboot.Loop.{
  Handler, cmd_erase, registered, find_cmd, find_blocked, blocked_cmds, command_round, command_loop,
}
use tboot.Loop.Battery.{received, low_battery_blocks}
use tboot.Loop.Ends.{HandlerLaws, command_round-closes, command_loop-ends}

-- A handler that completes its command and does nothing else.
abbrev quiet_handler : Handler → Text → Device → Device
quiet_handler h arg d = record d { session = record (d.session) { state = complete } }

quiet_laws : HandlerLaws quiet_handler
quiet_laws = record { keeps_online = λ h arg d n on. (on.0, λ e. cc e) }

-- The default configuration, a battery at 5 %, and a host that has sent one erase command.
abbrev device : Device
device = record {
  session = record {
    state = offline;
    reads = some (codes "erase:data") ∷ [];
    writes = some 64 ∷ [];
    sent = [];
    download_base = [];
    download_max = 8192;
    download_size = 0;
    varlist = [];
    ui = [];
    fault = false;
  };
  config = some defaults;
  lcd = LcdState.on;
  backlight = record {
    max_brightness = some (some (pos 255));
    brightness_opens = true;
    blank_opens = true;
    brightness = 255;
    blank = 0;
  };
  alarm = some (pos 30);
  autoboot_enabled = true;
  ignore_keypress = false;
  battery_capacity = pos 5;
  warnings = [];
  files = [];
  reboots = [];
}

device_is_low : check_battery device ≡ some true
unfolding check_battery tboot_config_get map_get atoi text_eq
device_is_low = refl

erase_is_blocked :
    find_blocked (before_char 0 (codes "erase:data")) blocked_cmds ≡ some (codes "erase")
unfolding find_blocked starts_with before_char
erase_is_blocked = refl

erase_is_found :
    find_cmd (before_char 0 (codes "erase:data")) registered ≡ some (cmd_erase, codes "data")
unfolding find_cmd registered starts_with before_char
erase_is_found = refl

low_battery_blocks_example :
    ((command_round quiet_handler registered (codes "erase:data") device).session
      ≡ fastboot_fail
          (codes "can't do this operation when battery low")
          (record (device.session) { state = command }))
    × ((command_round quiet_handler registered (codes "erase:data") device).alarm ≡ none)
    × ((command_round quiet_handler registered (codes "erase:data") device).warnings
        ≡ (disable_autoboot (received device)).warnings ++ codes "erase" ∷ [])
low_battery_blocks_example =
    low_battery_blocks quiet_handler registered (codes "erase:data") device cmd_erase (codes "data")
      (codes "erase") device_is_low erase_is_blocked erase_is_found

device_has_threshold : check_battery device ≢ none
device_has_threshold = λ e. cc (device_is_low, e)

command_round-closes_example :
    ((command_round quiet_handler registered (codes "erase:data") device).session.state ≢ command)
    × ((command_round quiet_handler registered (codes "erase:data") device).session.state ≢ offline)
command_round-closes_example =
    command_round-closes quiet_handler quiet_laws registered (codes "erase:data") device
      device_has_threshold

command_loop-ends_example :
    (d' : Device) × (command_loop quiet_handler 2 registered device ≡ some d')
    × (d'.session.state ≡ offline)
command_loop-ends_example =
    command_loop-ends quiet_handler quiet_laws 2 registered device (omega arith)
