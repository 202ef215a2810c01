-- ===== src/Loop/Battery.antt =====
-- What the command loop does when the battery is low, and with unknown commands.
use tboot.Base.{
  ◌≡◌, refl, ap, ◌∙◌, Bool, true, Option, none, some, [], ◌∷◌, ◌++◌, arith, Text, codes,
  before_char,
}
use tboot.Fastboot.{command}
use tboot.Fastboot.Reply.{fastboot_fail}
use tboot.Lcd.{LcdEvent}
use tboot.Device.{Device, clear_alarm, lcd_step, disable_autoboot, check_battery}
use tboot.Loop.{
  Handler, CmdList, find_cmd, find_blocked, blocked_cmds, on_session, refuse, guarded, dispatch,
  command_round,
}

-- The device as the loop hands it to a command.
abbrev pub received : Device → Device
received d =
    lcd_step LcdEvent.command (clear_alarm (on_session (λ s. record s { state = command }) d))

step-alarm : (d : Device) → d.alarm ≡ none → (lcd_step LcdEvent.command d).alarm ≡ none
unfolding lcd_step
step-alarm d h = ground arith

received-alarm : (d : Device) → (received d).alarm ≡ none
unfolding clear_alarm
received-alarm d = step-alarm _ refl

pub step-battery :
    (d : Device)
    → ((lcd_step LcdEvent.command d).config ≡ d.config)
      × ((lcd_step LcdEvent.command d).battery_capacity ≡ d.battery_capacity)
      × ((lcd_step LcdEvent.command d).session ≡ d.session)
unfolding lcd_step
step-battery d = ground arith

battery_of :
    (d e : Device)
    → e.config ≡ d.config
    → e.battery_capacity ≡ d.battery_capacity
    → check_battery e ≡ check_battery d
unfolding check_battery
battery_of d e c b = ground arith

pub autoboot-keeps :
    (d : Device)
    → ((disable_autoboot d).config ≡ d.config)
      × ((disable_autoboot d).battery_capacity ≡ d.battery_capacity)
      × ((disable_autoboot d).session ≡ d.session)
      × ((disable_autoboot d).alarm ≡ d.alarm)
unfolding disable_autoboot
autoboot-keeps d = ground arith

pub received-battery :
    (d : Device) → check_battery (disable_autoboot (received d)) ≡ check_battery d
unfolding clear_alarm
received-battery d =
    let k = autoboot-keeps (received d) in
    let t = step-battery (clear_alarm (on_session (λ s. record s { state = command }) d)) in
    battery_of d (disable_autoboot (received d)) (k.0 ∙ t.0) (k.1 ∙ t.1)

received-session :
    (d : Device) → (disable_autoboot (received d)).session ≡ record (d.session) { state = command }
unfolding clear_alarm
received-session d =
    (autoboot-keeps (received d)).2
    ∙ (step-battery (clear_alarm (on_session (λ s. record s { state = command }) d))).2

module _ (handle : Handler → Text → Device → Device) where
  guarded-refuses :
      (low : Option Bool) (buffer : Text) (h : Handler) (arg c : Text) (d : Device)
      → low ≡ some true
      → find_blocked buffer blocked_cmds ≡ some c
      → guarded handle low buffer h arg d ≡ refuse handle c d
  unfolding guarded
  guarded-refuses low buffer h arg c d e b = rw (e, guarded) (rw (b, guarded) refl)

  round-refuses :
      (cmds : CmdList) (bytes : Text) (d : Device) (h : Handler) (arg c : Text)
      → check_battery d ≡ some true
      → find_blocked (before_char 0 bytes) blocked_cmds ≡ some c
      → find_cmd (before_char 0 bytes) cmds ≡ some (h, arg)
      → command_round handle cmds bytes d ≡ refuse handle c (disable_autoboot (received d))
  unfolding command_round
  round-refuses cmds bytes d h arg c low blocked found =
      rw (found, dispatch)
        (guarded-refuses _ (before_char 0 bytes) h arg c (disable_autoboot (received d))
          (received-battery d ∙ low) blocked)

  refuse-fields :
      (c : Text) (d : Device)
      → ((refuse handle c d).session
          ≡ fastboot_fail (codes "can't do this operation when battery low") d.session)
        × ((refuse handle c d).alarm ≡ d.alarm)
        × ((refuse handle c d).warnings ≡ d.warnings ++ c ∷ [])
  unfolding refuse
  refuse-fields c d = (refl, refl, refl)

  -- With a battery below the threshold, a registered command line that starts with "flash", "erase"
  -- or "oem system" does to the session what one FAIL does to it in STATE_COMMAND, whatever the
  -- handler is; the user is warned, and the alarm that dims the screen stays cancelled.
  pub low_battery_blocks :
      (cmds : CmdList) (bytes : Text) (d : Device) (h : Handler) (arg c : Text)
      → check_battery d ≡ some true
      → find_blocked (before_char 0 bytes) blocked_cmds ≡ some c
      → find_cmd (before_char 0 bytes) cmds ≡ some (h, arg)
      → let d' = command_round handle cmds bytes d in
        (d'.session
          ≡ fastboot_fail
              (codes "can't do this operation when battery low")
              (record (d.session) { state = command }))
        × (d'.alarm ≡ none)
        × (d'.warnings ≡ (disable_autoboot (received d)).warnings ++ c ∷ [])
  low_battery_blocks cmds bytes d h arg c low blocked found =
      let e = round-refuses cmds bytes d h arg c low blocked found in
      let r = refuse-fields c (disable_autoboot (received d)) in
      (
        ap (λ (t : Device). t.session) e
            ∙ r.0
            ∙ ap (fastboot_fail (codes "can't do this operation when battery low"))
                (received-session d),
        ap (λ (t : Device). t.alarm) e ∙ r.1 ∙ (autoboot-keeps (received d)).3 ∙ received-alarm d,
        ap (λ (t : Device). t.warnings) e ∙ r.2,
      )

  round-unknown :
      (cmds : CmdList) (bytes : Text) (d : Device)
      → find_cmd (before_char 0 bytes) cmds ≡ none
      → command_round handle cmds bytes d
        ≡ on_session (fastboot_fail (codes "unknown command")) (received d)
  unfolding command_round
  round-unknown cmds bytes d found = rw (found, dispatch) refl

  -- A line that starts with no registered prefix does to the session what one FAIL does to it in
  -- STATE_COMMAND, whatever the handlers are; the alarm was cancelled for it and is not set again.
  unknown_command :
      (cmds : CmdList) (bytes : Text) (d : Device)
      → find_cmd (before_char 0 bytes) cmds ≡ none
      → let d' = command_round handle cmds bytes d in
        (d'.session
          ≡ fastboot_fail (codes "unknown command") (record (d.session) { state = command }))
        × (d'.alarm ≡ none)
  unknown_command cmds bytes d found =
      let e = round-unknown cmds bytes d found in
      (
        ap (λ (t : Device). t.session) e
            ∙ ap (fastboot_fail (codes "unknown command"))
                (step-battery (clear_alarm (on_session (λ s. record s { state = command }) d))).2
            ∙ cleared,
        ap (λ (t : Device). t.alarm) e ∙ received-alarm d,
      )
    where
      cleared :
          fastboot_fail
            (codes "unknown command")
            (clear_alarm (on_session (λ s. record s { state = command }) d)).session
          ≡ fastboot_fail (codes "unknown command") (record (d.session) { state = command })
      cleared = unfold clear_alarm in refl
