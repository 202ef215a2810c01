-- ===== src/Device.antt =====
-- The globals of src/tboot.c that the fastboot server shares with the other threads, and the
-- functions on them: the alarm, the keypress and autoboot flags, and `check_battery`.
use tboot.Base.{Bool, true, false, Option, none, some, List, Text, ◌==◌, if◌then◌else◌}
use tboot.Base.Int.{ℤ, pos, negsuc, ltb_ℤ}
use tboot.Base.Number.{atoi}
use tboot.Config.{
  Config, bat_threshold_key, lcd_dim_timeout_key, lcd_dim_brightness_key, tboot_config_get,
}
use tboot.Lcd.{LcdEvent, LcdState, Backlight, lcd_state}
use tboot.Fastboot.{Session}

-- `alarm`: the seconds of the pending alarm(), `none` if there is none. `warnings`: the calls of
-- tboot_ui_warn, by the command that was refused. `files`: the files that `oem push` has written,
-- with their contents. `reboots`: the arguments of the calls of preos_reboot() that came back.
pub record Device : Type 0 where
  pub session : Session
  pub config : Config
  pub lcd : LcdState
  pub backlight : Backlight
  pub alarm : Option ℤ
  pub autoboot_enabled : Bool
  pub ignore_keypress : Bool
  pub battery_capacity : ℤ
  pub warnings : List Text
  pub files : List (Text × Text)
  pub reboots : List Text

-- atoi(tboot_config_get(key)), where a missing value is the fault atoi(NULL).
unfoldable pub number_or_fault : Option Text → (ℤ → Device → Device) → Device → Device
number_or_fault none use_it d = record d { session = record (d.session) { fault = true } }
number_or_fault (some text) use_it d = use_it (atoi text) d

unfoldable pub with_number : Text → (ℤ → Device → Device) → Device → Device
unfolding number_or_fault
with_number key use_it d = number_or_fault (tboot_config_get key d.config) use_it d

-- alarm(0) cancels.
abbrev pub alarm_of : ℤ → Option ℤ
alarm_of (pos n) = if n == 0 then none else some (pos n)
alarm_of (negsuc n) = some (negsuc n)

-- RESET_ALARM
unfoldable pub reset_alarm : Device → Device
unfolding with_number
reset_alarm d =
    with_number lcd_dim_timeout_key (λ n t. record t { alarm = alarm_of n })
      (record d { alarm = none })

-- CLEAR_ALARM
unfoldable pub clear_alarm : Device → Device
clear_alarm d = record d { alarm = none }

-- `lcd_state = (lcd_state_t)lcd_state(event)`; the dimmed brightness is read only when dimming.
abbrev dims : LcdState → LcdEvent → Bool
dims LcdState.on LcdEvent.idle = true
dims _ _ = false

unfoldable pub lcd_step : LcdEvent → Device → Device
unfolding with_number
lcd_step e d =
    let go = λ (percent : ℤ) (t : Device).
      let (s, b) = lcd_state percent t.lcd e t.backlight in record t { lcd = s; backlight = b } in
    if dims d.lcd e then with_number lcd_dim_brightness_key go d else go (pos 0) d

unfoldable pub disable_autoboot : Device → Device
disable_autoboot d = if d.autoboot_enabled then record d { autoboot_enabled = false } else d

unfoldable pub disable_keypress : Device → Device
disable_keypress d = record d { ignore_keypress = true }

unfoldable pub enable_keypress : Device → Device
enable_keypress d = record d { ignore_keypress = false }

-- `check_battery`: true stands for -1, a battery below the threshold; `none` for the fault
-- atoi(NULL).
unfoldable pub battery_low : Option Text → ℤ → Option Bool
battery_low none capacity = none
battery_low (some threshold) capacity = some (ltb_ℤ capacity (atoi threshold))

unfoldable pub check_battery : Device → Option Bool
unfolding battery_low
check_battery d = battery_low (tboot_config_get bat_threshold_key d.config) d.battery_capacity
