-- ===== src/Panel.antt =====
-- The keys, the signals and the status line of src/tboot.c: `input_callback`, `sig_handler` and
-- `ui_callback`, with what they do to the screen and its alarm.
pub mod Armed
pub mod Keys
pub mod Tests
use tboot.Base.{
  ℕ, zero, suc, ◌+◌, ◌-◌, ◌/◌, ◌*◌, ◌%◌, ◌^◌, ◌≤◌, ◌<◌, min, ◌≡◌, refl, sym, ap, ◌∙◌, ◌≢◌, ◌↔◌, ◌⊎◌,
  inl, inr, Bool, true, false, not, ◌&&◌, ◌||◌, Option, none, some, List, [], ◌∷◌, ◌++◌, map, arith,
  String, Text, codes, text_eq, starts_with, after_char, before_char, text_eq_refl, text_eq-eq,
  text_eq_symm, text_eq_iff, starts_with-append, length, get_elem?, take, drop, length-append,
  length-take, length-drop, take-append-drop, take_all, take-take, drop-nil, drop-drop, drop_all,
  ltb, leb, ◌==◌, if◌then◌else◌, ltb→lt, lt→ltb, ==_iff, Bool-cases, Option-cases,
}
use tboot.Base.Int.{ℤ, pos, negsuc}
use tboot.Lcd.{LcdEvent, LcdState}
use tboot.Fastboot.{FastbootState, offline, command, complete, error}
use tboot.Config.{lcd_off_timeout_key}
use tboot.Uevent.{Status, disconnected, connected, unknown_status, UeventStatus}
use tboot.Device.{Device, with_number, alarm_of, reset_alarm, lcd_step, disable_autoboot}

-- tboot_ui_menu_up(), tboot_ui_menu_down(), tboot_ui_menu_action(), and tboot_ui_uevent() with the
-- two statuses and the capacity that it shows, `none` for an unknown capacity.
pub data PanelCall : Type 0 where
  menu_up menu_down menu_action : PanelCall
  show_status : Status → Status → Option ℕ → PanelCall

-- `saved_usb_status` and `saved_charger_status` are static in `ui_callback`.
pub record Panel : Type 0 where
  pub device : Device
  pub power_pressed : Bool
  pub pipe_broken : Bool
  pub saved_usb : Status
  pub saved_charger : Status
  pub calls : List PanelCall

-- ev.code of a key event, and ev.value, 1 for a press; an event of another type.
pub data Key : Type 0 where
  volume_up volume_down power other_key : Key

pub data InputEvent : Type 0 where
  key : Key → ℕ → InputEvent
  not_a_key : InputEvent

abbrev on_device : (Device → Device) → Panel → Panel
on_device f p = record p { device = f p.device }

abbrev pub is_power : Key → Bool
is_power power = true
is_power _ = false

abbrev pub is_menu_key : Key → Bool
is_menu_key other_key = false
is_menu_key _ = true

abbrev pub is_lit : LcdState → Bool
is_lit LcdState.on = true
is_lit _ = false

unfoldable pub menu_call : Key → Panel → Panel
menu_call volume_up p = record p { calls = p.calls ++ menu_up ∷ [] }
menu_call volume_down p = record p { calls = p.calls ++ menu_down ∷ [] }
menu_call power p = record p { calls = p.calls ++ menu_action ∷ [] }
menu_call other_key p = p

-- A key during the countdown.
unfoldable pub stop_countdown : Key → Panel → Panel
stop_countdown k p =
    if is_power k then record p { power_pressed = true } else on_device disable_autoboot p

-- A press of a key that the menu knows resets the alarm; on a screen that is not on it does nothing
-- else but light it.
unfoldable pub press : Key → Panel → Panel
unfolding menu_call
press k p =
    let woken = on_device reset_alarm p in
    if is_menu_key k
    then if is_lit p.device.lcd then menu_call k woken else on_device (lcd_step LcdEvent.key) woken
    else menu_call k p

unfoldable pub handle_key : Key → ℕ → Panel → Panel
unfolding stop_countdown press
handle_key k value p =
    if p.device.autoboot_enabled then stop_countdown k p else if value == 1 then press k p else p

unfoldable pub handle_input : InputEvent → Panel → Panel
unfolding handle_key
handle_input not_a_key p = p
handle_input (key k value) p = handle_key k value p

-- `none`: ev_get_input() fails.
unfoldable pub input_callback : Option InputEvent → Panel → Panel
unfolding handle_input
input_callback none p = p
input_callback (some ev) p = if p.device.ignore_keypress then p else handle_input ev p

pub data Signal : Type 0 where
  sigpipe sigalrm other_signal : Signal

unfoldable pub is_command : FastbootState → Bool
is_command command = true
is_command _ = false

unfoldable pub is_fastboot_active : Device → Bool
unfolding is_command
is_fastboot_active d = is_command d.session.state

abbrev is_dim : LcdState → Bool
is_dim LcdState.dim = true
is_dim _ = false

unfoldable pub off_timeout : Device → Device
off_timeout d =
    let timed = with_number lcd_off_timeout_key (λ n t. record t { alarm = alarm_of n }) d in
    if is_dim d.lcd then timed else d

-- While a command runs, an alarm is only noted.
unfoldable pub idle : Device → Device
unfolding off_timeout is_fastboot_active
idle d = if is_fastboot_active d then d else off_timeout (lcd_step LcdEvent.idle d)

-- The alarm that has gone off is no longer pending.
unfoldable pub on_signal : Signal → Panel → Panel
unfolding idle
on_signal sigpipe p = record p { pipe_broken = true }
on_signal sigalrm p = on_device (λ d. idle (record d { alarm = none })) p
on_signal other_signal p = p

unfoldable pub same_status : Status → Status → Bool
same_status disconnected disconnected = true
same_status connected connected = true
same_status unknown_status unknown_status = true
same_status _ _ = false

unfoldable pub wake : Bool → Device → Device
wake same d = if same then d else lcd_step LcdEvent.usb_event (reset_alarm d)

known_capacity : ℤ → Option ℕ
known_capacity (pos n) = some n
known_capacity (negsuc n) = none

-- `ui_callback`: a change of a status lights the screen.
unfoldable pub ui_callback : UeventStatus → Panel → Panel
unfolding same_status wake known_capacity
ui_callback st p =
    let usb = wake (same_status p.saved_usb st.usb_status) p.device in
    let charger = wake (same_status p.saved_charger st.charger_status) usb in
    record p {
      device = charger;
      saved_usb = st.usb_status;
      saved_charger = st.charger_status;
      calls =
          p.calls
          ++ show_status st.usb_status st.charger_status (known_capacity st.battery_capacity) ∷ [];
    }

-- `lcd_state_init`
unfoldable pub lcd_state_init : Device → Device
lcd_state_init d = reset_alarm (record d { lcd = LcdState.on })

-- What reaches the panel while no command runs, in the order in which it comes.
pub data PanelEvent : Type 0 where
  input : Option InputEvent → PanelEvent
  signal : Signal → PanelEvent
  uevent : UeventStatus → PanelEvent

unfoldable pub panel_step : PanelEvent → Panel → Panel
unfolding input_callback on_signal ui_callback
panel_step (input ev) p = input_callback ev p
panel_step (signal s) p = on_signal s p
panel_step (uevent st) p = ui_callback st p

unfoldable pub panel_run : List PanelEvent → Panel → Panel
unfolding panel_step
panel_run [] p = p
panel_run (e ∷ events) p = panel_run events (panel_step e p)
