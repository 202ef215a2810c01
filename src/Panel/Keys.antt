-- ===== src/Panel/Keys.antt =====
-- What keys and alarms do to the screen and the menu of src/tboot.c.
use tboot.Base.{
  ◌+◌, ◌≡◌, refl, ap, ◌∙◌, ◌≢◌, Bool, true, false, none, some, [], ◌∷◌, length, length-append,
  if◌then◌else◌,
}
use tboot.Lcd.{LcdEvent, LcdState, lcd_state}
use tboot.Fastboot.{command}
use tboot.Config.{Config}
use tboot.Device.{Device, with_number, number_or_fault, reset_alarm, lcd_step}
use tboot.Panel.{
  Panel, signal, panel_run, panel_step, Key, key, sigalrm, is_fastboot_active, idle, off_timeout,
  input_callback, handle_input, handle_key, press, menu_call, is_menu_key, is_lit, on_signal,
  volume_up, volume_down, power, other_key,
}
use tboot.Panel.Armed.{
  Timed, Armed, has_off_timeout, has_brightness_of, not_command, panel_run-Armed,
}

next_lcd : LcdState → LcdState
next_lcd LcdState.on = LcdState.dim
next_lcd LcdState.dim = LcdState.off
next_lcd LcdState.off = LcdState.off

module _ (config : Config) (timed : Timed config) where
  -- The screen after an idle event, with the rest that the next one needs.
  idle_lcd :
      (s : LcdState) (d : Device)
      → d.config ≡ config
      → (off_timeout (lcd_step LcdEvent.idle (record d { lcd = s }))).lcd ≡ next_lcd s
  unfolding next_lcd off_timeout lcd_step lcd_state with_number number_or_fault
  idle_lcd LcdState.on d e =
      rw (has_brightness_of config timed d e, has_off_timeout config timed d e) refl
  idle_lcd LcdState.dim d e = refl
  idle_lcd LcdState.off d e = refl

  alarm_lcd :
      (p : Panel)
      → p.device.config ≡ config
      → p.device.session.state ≢ command
      → (on_signal sigalrm p).device.lcd ≡ next_lcd p.device.lcd
  unfolding on_signal idle is_fastboot_active
  alarm_lcd p e h =
      rw (not_command config timed p.device.session.state h)
        (idle_lcd p.device.lcd (record (p.device) { alarm = none }) e)

  twice : (s : LcdState) → next_lcd (next_lcd s) ≡ LcdState.off
  unfolding next_lcd
  twice LcdState.on = refl
  twice LcdState.dim = refl
  twice LcdState.off = refl

  -- Two alarms with nothing in between blank the screen, whatever it showed, where the timeouts and
  -- the brightness are configured and no command runs.
  alarms_blank :
      (p : Panel)
      → Armed config p.device
      → (panel_run (signal sigalrm ∷ signal sigalrm ∷ []) p).device.lcd ≡ LcdState.off
  unfolding panel_run panel_step
  alarms_blank p h =
      let q = on_signal sigalrm p in
      let kept = panel_run-Armed config timed (signal sigalrm ∷ []) p h in
      alarm_lcd q kept.0 kept.1 ∙ ap next_lcd (alarm_lcd p h.0 h.1) ∙ twice p.device.lcd

if-true : (b : Bool) (x y : Panel) → b ≡ true → (if b then x else y) ≡ x
if-true true x y e = refl
if-true false x y e = cc e

if-false : (b : Bool) (x y : Panel) → b ≡ false → (if b then x else y) ≡ y
if-false true x y e = cc e
if-false false x y e = refl

heard :
    (k : Key) (p : Panel)
    → p.device.ignore_keypress ≡ false
    → input_callback (some (key k 1)) p ≡ handle_key k 1 p
unfolding input_callback handle_input
heard k p e = if-false p.device.ignore_keypress _ _ e

pressed :
    (k : Key) (p : Panel)
    → p.device.ignore_keypress ≡ false
    → p.device.autoboot_enabled ≡ false
    → input_callback (some (key k 1)) p ≡ press k p
unfolding handle_key
pressed k p e f = heard k p e ∙ if-false p.device.autoboot_enabled _ _ f

menu_moves :
    (k : Key) (p : Panel)
    → is_menu_key k ≡ true
    → (length (menu_call k p).calls ≡ length p.calls + 1) × ((menu_call k p).device ≡ p.device)
unfolding menu_call
menu_moves volume_up p e = (length-append p.calls _, refl)
menu_moves volume_down p e = (length-append p.calls _, refl)
menu_moves power p e = (length-append p.calls _, refl)
menu_moves other_key p e = cc e

-- A press of a key of the menu on a screen that is dimmed or off only lights the screen and starts
-- its alarm again; on a lit screen it also makes one call of the menu; while keys are ignored it
-- changes nothing. (No countdown is under way.)
pub menu_key :
    (k : Key) (p : Panel)
    → is_menu_key k ≡ true
    → p.device.autoboot_enabled ≡ false
    → let q = input_callback (some (key k 1)) p in
      (p.device.ignore_keypress ≡ true → q ≡ p)
      × (p.device.ignore_keypress ≡ false
          → is_lit p.device.lcd ≡ false
          → (q.calls ≡ p.calls) × (q.device ≡ lcd_step LcdEvent.key (reset_alarm p.device)))
      × (p.device.ignore_keypress ≡ false
          → is_lit p.device.lcd ≡ true
          → (length q.calls ≡ length p.calls + 1) × (q.device ≡ reset_alarm p.device))
unfolding input_callback press
menu_key k p known quiet =
    let chosen = if-true (is_menu_key k) _ _ known in
    (
      λ ignored. if-true p.device.ignore_keypress _ _ ignored,
      λ hears dark.
          let path = pressed k p hears quiet ∙ chosen ∙ if-false (is_lit p.device.lcd) _ _ dark in
          (ap (λ (q : Panel). q.calls) path, ap (λ (q : Panel). q.device) path),
      λ hears lit.
          let path = pressed k p hears quiet ∙ chosen ∙ if-true (is_lit p.device.lcd) _ _ lit in
          let (more, same) = menu_moves k (record p { device = reset_alarm p.device }) known in
          (
            ap (λ (q : Panel). length q.calls) path ∙ more,
            ap (λ (q : Panel). q.device) path ∙ same,
          ),
    )
