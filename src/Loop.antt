-- ===== src/Loop.antt =====
-- `fastboot_command_loop` of src/fastboot.c. The handlers of the registered commands are a
-- parameter: a function from the name of a handler to what it does.
pub mod Dispatch
pub mod Battery
pub mod Ends
pub mod Tests
use tboot.Base.{
  ℕ, zero, suc, ◌+◌, ◌-◌, ◌/◌, ◌*◌, ◌%◌, ◌^◌, ◌≤◌, ◌<◌, min, ◌≡◌, refl, sym, ap, ◌∙◌, ◌≢◌, ◌↔◌, ◌⊎◌,
  inl, inr, Bool, true, false, not, ◌&&◌, ◌||◌, Option, none, some, List, [], ◌∷◌, ◌++◌, map, arith,
  String, Text, codes, text_eq, starts_with, after_char, before_char, text_eq_refl, text_eq-eq,
  text_eq_symm, text_eq_iff, starts_with-append, length, get_elem?, take, drop, length-append,
  length-take, length-drop, take-append-drop, take_all, take-take, drop-nil, drop-drop, drop_all,
  ltb, leb, ◌==◌, if◌then◌else◌, ltb→lt, lt→ltb, ==_iff, Bool-cases, Option-cases,
}
use tboot.Base.Int.{ℤ}
use tboot.Fastboot.{FastbootState, offline, command, complete, error, Session}
use tboot.Fastboot.Usb.{usb_read}
use tboot.Fastboot.Reply.{fastboot_fail}
use tboot.Lcd.{LcdEvent}
use tboot.Device.{
  Device, reset_alarm, clear_alarm, lcd_step, disable_autoboot, disable_keypress, enable_keypress,
  check_battery,
}

-- The handlers that the program registers, by the names of their functions.
pub data Handler : Type 0 where
  cmd_oem cmd_boot cmd_reboot cmd_reboot_bl cmd_erase cmd_stream_flash cmd_getvar cmd_download :
      Handler

-- `struct fastboot_cmd`: a prefix and its handler.
abbrev pub CmdList : Type 0
CmdList = List (Text × Handler)

-- A registered command stands in front of the older ones.
unfoldable pub fastboot_register : Text → Handler → CmdList → CmdList
fastboot_register prefix handle cmds = (prefix, handle) ∷ cmds

-- What is registered when the loop starts: by `aboot_register_commands`, then by `fastboot_init`.
unfoldable pub registered : CmdList
unfolding fastboot_register
registered = fastboot_register (codes "download:") cmd_download (
    fastboot_register (codes "getvar:") cmd_getvar (
      fastboot_register (codes "flash:") cmd_stream_flash (
        fastboot_register (codes "erase:") cmd_erase (
          fastboot_register (codes "reboot-bootloader") cmd_reboot_bl (
            fastboot_register (codes "reboot") cmd_reboot (
              fastboot_register (codes "boot") cmd_boot
                (fastboot_register (codes "oem") cmd_oem [])))))))

-- The first command whose prefix the buffer starts with, and what follows the prefix.
unfoldable pub find_cmd : Text → CmdList → Option (Handler × Text)
find_cmd buffer [] = none
find_cmd buffer ((prefix, handle) ∷ cmds) =
    let rest = find_cmd buffer cmds in
    if starts_with prefix buffer then some (handle, drop (length prefix) buffer) else rest

-- The commands that a low battery blocks, and the one of them that the buffer starts with.
abbrev pub blocked_cmds : List Text
blocked_cmds = codes "flash" ∷ codes "erase" ∷ codes "oem system" ∷ []

unfoldable pub find_blocked : Text → List Text → Option Text
find_blocked buffer [] = none
find_blocked buffer (c ∷ cmds) =
    let rest = find_blocked buffer cmds in if starts_with c buffer then some c else rest

abbrev pub on_session : (Session → Session) → Device → Device
on_session f d = record d { session = f d.session }

abbrev in_command : FastbootState → Bool
in_command command = true
in_command _ = false

is_error : FastbootState → Bool
is_error error = true
is_error _ = false

abbrev go_offline : Device → Device
go_offline d = on_session (λ s. record s { state = offline }) d

module _ (handle : Handler → Text → Device → Device) where
  -- A handler that has sent no final reply is given a FAIL.
  finish_cmd : Device → Device
  finish_cmd d = reset_alarm (
      if in_command d.session.state
      then on_session (fastboot_fail (codes "unknown reason")) d
      else d)

  run_cmd : Handler → Text → Device → Device
  unfolding finish_cmd
  run_cmd h arg d = finish_cmd (enable_keypress (handle h arg (disable_keypress d)))

  refuse : Text → Device → Device
  refuse c d =
      on_session (fastboot_fail (codes "can't do this operation when battery low"))
        (record d { warnings = d.warnings ++ c ∷ [] })

  -- With a low battery a blocked command is refused; the alarm is then not set again.
  guarded : Option Bool → Text → Handler → Text → Device → Device
  unfolding run_cmd refuse
  guarded none buffer h arg d = on_session (λ s. record s { fault = true }) d
  guarded (some false) buffer h arg d = run_cmd h arg d
  guarded (some true) buffer h arg d = elim (find_blocked buffer blocked_cmds) [
    | none ↦ run_cmd h arg d
    | some c ↦ refuse c d
  ]

  dispatch : Option (Handler × Text) → Text → Device → Device
  unfolding guarded
  dispatch none buffer d = on_session (fastboot_fail (codes "unknown command")) d
  dispatch (some (h, arg)) buffer d =
      guarded (check_battery (disable_autoboot d)) buffer h arg (disable_autoboot d)

  -- One command, from the buffer that was read. A C string ends at its first NUL.
  pub command_round : CmdList → Text → Device → Device
  unfolding dispatch
  command_round cmds bytes d =
      let buffer = before_char 0 bytes in
      let d' =
        lcd_step LcdEvent.command
          (clear_alarm (on_session (λ s. record s { state = command }) d)) in
      dispatch (find_cmd buffer cmds) buffer d'

  after_read : (Device → Option Device) → CmdList → Option Text × Session → Device → Option Device
  after_read again cmds (none, s) d = some (go_offline (record d { session = s }))
  after_read again cmds (some bytes, s) d =
      again (command_round cmds bytes (record d { session = s }))

  -- `none`: the fuel has run out.
  pub command_loop : ℕ → CmdList → Device → Option Device
  unfolding is_error after_read
  command_loop zero cmds d = none
  command_loop (suc fuel) cmds d =
      let next = after_read (command_loop fuel cmds) cmds (usb_read 64 d.session) d in
      if is_error d.session.state then some (go_offline d) else next
