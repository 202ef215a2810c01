-- ===== src/Lcd/Tests.antt =====
-- A concrete backlight of src/backlight_control.c.
use tboot.Base.{◌≡◌, ◌≢◌, refl, true, some, [], ◌∷◌, arith}
use tboot.Base.Int.{pos}
use tboot.Lcd.{idle, key, on, off, Backlight, lcd_state, lcd_run, Shows}
use tboot.Lcd.Screen.{lcd_run-Shows}

abbrev lit : Backlight
lit = record {
  max_brightness = some (some (pos 255));
  brightness_opens = true;
  blank_opens = true;
  brightness = 255;
  blank = 0;
}

key_is_not_idle : key ≢ idle
key_is_not_idle e = cc e

lcd_run-Shows_example :
    let (s, b') = lcd_run (pos 10) (idle ∷ key ∷ idle ∷ idle ∷ []) (on, lit) in
    let woken = lcd_state (pos 10) s key b' in
    let slept = lcd_run (pos 10) (idle ∷ idle ∷ []) (s, b') in
    Shows 255 10 s b'
    × (woken.0 ≡ on)
    × (woken.1.blank ≡ 0)
    × (woken.1.brightness ≡ 255)
    × (slept.0 ≡ off)
    × (slept.1.blank ≡ 1)
lcd_run-Shows_example =
    lcd_run-Shows 255 10 (idle ∷ key ∷ idle ∷ idle ∷ []) key lit (omega arith) (omega arith)
      key_is_not_idle (refl, refl, refl) (refl, refl)
