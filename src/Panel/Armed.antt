-- ===== src/Panel/Armed.antt =====
-- The screen that src/tboot.c lights goes dark again: its alarm is always pending.
use tboot.Base.{
  ℕ, ◌≡◌, refl, sym, ap, ◌∙◌, ◌≢◌, inl, inr, Bool, true, false, Option, none, some, List, [], ◌∷◌,
  arith, Text, ◌==◌, if◌then◌else◌, Bool-cases,
}
use tboot.Base.Number.{atoi}
use tboot.Lcd.{LcdEvent, LcdState, lcd_state}
use tboot.Fastboot.{FastbootState, offline, command, complete, error, Session}
use tboot.Config.{
  Config, tboot_config_get, lcd_off_timeout_key, lcd_dim_timeout_key, lcd_dim_brightness_key,
}
use tboot.Uevent.{UeventStatus}
use tboot.Device.{
  Device, with_number, number_or_fault, alarm_of, reset_alarm, lcd_step, disable_autoboot,
}
use tboot.Panel.{
  Panel, PanelEvent, input, signal, uevent, panel_run, panel_step, Key, InputEvent, key, not_a_key,
  Signal, sigpipe, sigalrm, other_signal, is_command, is_fastboot_active, idle, off_timeout, wake,
  input_callback, handle_input, handle_key, press, menu_call, stop_countdown, is_power, is_menu_key,
  is_lit, on_signal, ui_callback, same_status, volume_up, volume_down, power, other_key,
}

-- The settings of the screen: both timeouts and the brightness are there, and no timeout is 0.
pub record Timed (config : Config) : Type 0 where
  pub dim_timeout : Text
  pub blank_timeout : Text
  pub brightness : Text
  pub has_dim : tboot_config_get lcd_dim_timeout_key config ≡ some dim_timeout
  pub has_off : tboot_config_get lcd_off_timeout_key config ≡ some blank_timeout
  pub has_brightness : tboot_config_get lcd_dim_brightness_key config ≡ some brightness
  pub dims_later : alarm_of (atoi dim_timeout) ≢ none
  pub offs_later : alarm_of (atoi blank_timeout) ≢ none

-- A screen that is not off will be dimmed or blanked: an alarm is pending. No command runs.
abbrev pub Armed : Config → Device → Type 0
Armed config d =
    (d.config ≡ config) × (d.session.state ≢ command) × (d.lcd ≢ LcdState.off → d.alarm ≢ none)

module _ (config : Config) (timed : Timed config) where
  pub reset_timed :
      (d : Device)
      → d.config ≡ config
      → reset_alarm d ≡ record d { alarm = alarm_of (atoi timed.dim_timeout) }
  unfolding reset_alarm with_number number_or_fault
  reset_timed d e =
      ap
        (λ o.
          number_or_fault o (λ n t. record t { alarm = alarm_of n }) (record d { alarm = none }))
        (ap (tboot_config_get lcd_dim_timeout_key) e ∙ timed.has_dim)

  reset-Armed :
      (d : Device) → d.config ≡ config → d.session.state ≢ command → Armed config (reset_alarm d)
  reset-Armed d e no_command = rw (reset_timed d e) (e, no_command, λ _. timed.dims_later)

  pub has_brightness_of :
      (d : Device)
      → d.config ≡ config
      → tboot_config_get lcd_dim_brightness_key d.config ≡ some timed.brightness
  has_brightness_of d e = ap (tboot_config_get lcd_dim_brightness_key) e ∙ timed.has_brightness

  pub has_off_timeout :
      (d : Device)
      → d.config ≡ config
      → tboot_config_get lcd_off_timeout_key d.config ≡ some timed.blank_timeout
  has_off_timeout d e = ap (tboot_config_get lcd_off_timeout_key) e ∙ timed.has_off

  lit-keeps :
      (e : LcdEvent) (d : Device)
      → e ≢ LcdEvent.idle
      → ((lcd_step e d).config ≡ d.config)
        × ((lcd_step e d).session ≡ d.session)
        × ((lcd_step e d).alarm ≡ d.alarm)
  unfolding lcd_step
  lit-keeps LcdEvent.idle d h = absurd (h refl)
  lit-keeps LcdEvent.command d h = ground arith
  lit-keeps LcdEvent.key d h = ground arith
  lit-keeps LcdEvent.usb_event d h = ground arith

  lit-Armed :
      (e : LcdEvent) (d : Device)
      → e ≢ LcdEvent.idle
      → Armed config d
      → d.alarm ≢ none
      → Armed config (lcd_step e d)
  lit-Armed e d h (c, s, a) pending =
      let (ec, es, ea) = lit-keeps e d h in
      (ec ∙ c, λ x. s (ap (λ (t : Session). t.state) (sym es) ∙ x), λ _ x. pending (sym ea ∙ x))

  autoboot-Armed : (d : Device) → Armed config d → Armed config (disable_autoboot d)
  unfolding disable_autoboot
  autoboot-Armed d h = elim (Bool-cases d.autoboot_enabled) [ inl e ↦ rw e h | inr e ↦ rw e h ]

  pub not_command : (st : FastbootState) → st ≢ command → is_command st ≡ false
  unfolding is_command
  not_command offline h = refl
  not_command command h = absurd (h refl)
  not_command complete h = refl
  not_command error h = refl

  idle_from :
      (s : LcdState) (d : Device)
      → d.config ≡ config
      → d.session.state ≢ command
      → Armed config (off_timeout (lcd_step LcdEvent.idle (record d { lcd = s })))
  unfolding off_timeout lcd_step lcd_state with_number number_or_fault
  idle_from LcdState.on d e h =
      rw (has_brightness_of d e, has_off_timeout d e) (e, h, λ _. timed.offs_later)
  idle_from LcdState.dim d e h = (e, h, λ lit. absurd (lit refl))
  idle_from LcdState.off d e h = (e, h, λ lit. absurd (lit refl))

  idle-Armed : (d : Device) → d.config ≡ config → d.session.state ≢ command → Armed config (idle d)
  unfolding idle is_fastboot_active
  idle-Armed d e h = rw (not_command d.session.state h) (idle_from d.lcd d e h)

  wake-Armed : (same : Bool) (d : Device) → Armed config d → Armed config (wake same d)
  unfolding wake
  wake-Armed true d h = h
  wake-Armed false d (e, s, a) =
      lit-Armed LcdEvent.usb_event (reset_alarm d) (λ x. cc x) (reset-Armed d e s)
        (λ x. timed.dims_later (ap (λ (t : Device). t.alarm) (sym (reset_timed d e)) ∙ x))

  ArmedPanel : Panel → Type 0
  ArmedPanel p = Armed config p.device

  menu-Armed : (k : Key) (p : Panel) → ArmedPanel p → ArmedPanel (menu_call k p)
  unfolding menu_call ArmedPanel
  menu-Armed volume_up p h = h
  menu-Armed volume_down p h = h
  menu-Armed power p h = h
  menu-Armed other_key p h = h

  press-Armed : (k : Key) (p : Panel) → ArmedPanel p → ArmedPanel (press k p)
  unfolding press ArmedPanel
  press-Armed k p h = elim (Bool-cases (is_menu_key k)) [
    | inl known ↦ elim (Bool-cases (is_lit p.device.lcd)) [
      | inl lit ↦ rw (known, lit) (menu-Armed k _ (reset-Armed p.device h.0 h.1))
      | inr dark ↦
          rw (known, dark)
            (lit-Armed LcdEvent.key (reset_alarm p.device) (λ x. cc x)
              (reset-Armed p.device h.0 h.1)
              (λ x.
                timed.dims_later
                  (ap (λ (t : Device). t.alarm) (sym (reset_timed p.device h.0)) ∙ x)))
    ]
    | inr other ↦ rw other (menu-Armed k p h)
  ]

  countdown-Armed : (k : Key) (p : Panel) → ArmedPanel p → ArmedPanel (stop_countdown k p)
  unfolding stop_countdown ArmedPanel
  countdown-Armed k p h = elim (Bool-cases (is_power k)) [
    | inl e ↦ rw e h
    | inr e ↦ rw e (autoboot-Armed p.device h)
  ]

  if-Armed :
      (b : Bool) (x y : Panel) → ArmedPanel x → ArmedPanel y → ArmedPanel (if b then x else y)
  if-Armed true x y hx hy = hx
  if-Armed false x y hx hy = hy

  key-Armed : (k : Key) (value : ℕ) (p : Panel) → ArmedPanel p → ArmedPanel (handle_key k value p)
  unfolding handle_key
  key-Armed k value p h =
      if-Armed p.device.autoboot_enabled _ _ (countdown-Armed k p h)
        (if-Armed (value == 1) _ _ (press-Armed k p h) h)

  input-Armed :
      (ev : Option InputEvent) (p : Panel) → ArmedPanel p → ArmedPanel (input_callback ev p)
  unfolding input_callback handle_input
  input-Armed none p h = h
  input-Armed (some not_a_key) p h = if-Armed p.device.ignore_keypress _ _ h h
  input-Armed (some (key k value)) p h =
      if-Armed p.device.ignore_keypress _ _ h (key-Armed k value p h)

  signal-Armed : (s : Signal) (p : Panel) → ArmedPanel p → ArmedPanel (on_signal s p)
  unfolding on_signal ArmedPanel
  signal-Armed sigpipe p h = h
  signal-Armed sigalrm p h = idle-Armed (record (p.device) { alarm = none }) h.0 h.1
  signal-Armed other_signal p h = h

  uevent-Armed : (st : UeventStatus) (p : Panel) → ArmedPanel p → ArmedPanel (ui_callback st p)
  unfolding ui_callback ArmedPanel
  uevent-Armed st p h =
      wake-Armed (same_status p.saved_charger st.charger_status) _
        (wake-Armed (same_status p.saved_usb st.usb_status) p.device h)

  -- With both timeouts and the brightness configured and no timeout 0, no sequence of keys, signals
  -- and status changes between two commands leaves a screen that is on or dimmed without a pending
  -- alarm that will dim or blank it.
  pub panel_run-Armed :
      (events : List PanelEvent) (p : Panel)
      → Armed config p.device
      → Armed config (panel_run events p).device
  unfolding panel_run panel_step ArmedPanel
  panel_run-Armed [] p h = h
  panel_run-Armed (input ev ∷ events) p h =
      panel_run-Armed events (input_callback ev p) (input-Armed ev p h)
  panel_run-Armed (signal s ∷ events) p h =
      panel_run-Armed events (on_signal s p) (signal-Armed s p h)
  panel_run-Armed (uevent st ∷ events) p h =
      panel_run-Armed events (ui_callback st p) (uevent-Armed st p h)
