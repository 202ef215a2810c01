-- ===== src/Lcd.antt =====
-- src/backlight_control.c: the three states of the screen and what they do to the backlight.
pub mod Screen
pub mod Tests
use tboot.Base.{
  ℕ, zero, suc, ◌+◌, ◌-◌, ◌/◌, ◌*◌, ◌%◌, ◌^◌, ◌≤◌, ◌<◌, min, ◌≡◌, refl, sym, ap, ◌∙◌, ◌≢◌, ◌↔◌, ◌⊎◌,
  inl, inr, Bool, true, false, not, ◌&&◌, ◌||◌, Option, none, some, List, [], ◌∷◌, ◌++◌, map, arith,
  String, Text, codes, text_eq, starts_with, after_char, before_char, text_eq_refl, text_eq-eq,
  text_eq_symm, starts_with-append, length, get_elem?, take, drop, length-append, length-take,
  length-drop, take-append-drop, take_all, take-take, drop-nil, drop-drop, drop_all, ltb, leb, ◌==◌,
  if◌then◌else◌, ltb→lt, lt→ltb, ==_iff, Bool-cases, Option-cases,
}
use tboot.Base.Int.{ℤ, pos, negsuc}

pub data LcdEvent : Type 0 where
  idle command key usb_event : LcdEvent

pub data LcdState : Type 0 where
  on dim off : LcdState

-- The three files of the backlight: what fopen() and fscanf() give for the largest brightness
-- (`none`: the file does not open; `some none`: no number in it), whether the other two open, and
-- what was written to them last.
pub record Backlight : Type 0 where
  pub max_brightness : Option (Option ℤ)
  pub brightness_opens : Bool
  pub blank_opens : Bool
  pub brightness : ℕ
  pub blank : ℕ

-- The brightness for a percentage: 1 where no largest brightness is known.
abbrev level : ℕ → Option ℤ → ℕ
level percent none = 1
level percent (some (negsuc n)) = 1
level percent (some (pos n)) = if n == 0 then 1 else n * percent / 100

write_level : ℕ → Option (Option ℤ) → Backlight → Bool × Backlight
write_level percent none b = (false, b)
write_level percent (some max) b =
    if b.brightness_opens then (true, record b { brightness = level percent max }) else (false, b)

-- `true` stands for the result 0, `false` for -1.
pub set_bl_brightness : ℤ → Backlight → Bool × Backlight
unfolding write_level
set_bl_brightness (negsuc n) b = (false, b)
set_bl_brightness (pos percent) b =
    if ltb 100 percent then (false, b) else write_level percent b.max_brightness b

pub write_fb0_blank : ℕ → Backlight → Bool × Backlight
write_fb0_blank n b = if b.blank_opens then (true, record b { blank = n }) else (false, b)

pub lcd_lighton : Backlight → Bool × Backlight
lcd_lighton b = write_fb0_blank 0 (set_bl_brightness (pos 100) b).1

pub lcd_lightoff : Backlight → Bool × Backlight
lcd_lightoff b = write_fb0_blank 1 b

-- The functions lcd_state_on, lcd_state_dim and lcd_state_off, by the state that they stand for.
-- `percent` is the configured brightness of a dimmed screen.
unfoldable pub lcd_state : ℤ → LcdState → LcdEvent → Backlight → LcdState × Backlight
lcd_state percent on idle b = (dim, (set_bl_brightness percent b).1)
lcd_state percent on _ b = (on, b)
lcd_state percent dim idle b = (off, (lcd_lightoff b).1)
lcd_state percent dim _ b = (on, (lcd_lighton b).1)
lcd_state percent off idle b = (off, b)
lcd_state percent off _ b = (on, (lcd_lighton b).1)

pub lcd_run : ℤ → List LcdEvent → LcdState × Backlight → LcdState × Backlight
lcd_run percent [] (s, b) = (s, b)
lcd_run percent (e ∷ events) (s, b) = lcd_run percent events (lcd_state percent s e b)

-- All files work, and the largest brightness is `max`.
abbrev pub Works : ℕ → Backlight → Type 0
Works max b =
    (b.max_brightness ≡ some (some (pos max)))
    × (b.brightness_opens ≡ true)
    × (b.blank_opens ≡ true)

-- What the screen shows in each state.
abbrev pub Shows : ℕ → ℕ → LcdState → Backlight → Type 0
Shows max percent on b = (b.blank ≡ 0) × (b.brightness ≡ max)
Shows max percent dim b = (b.blank ≡ 0) × (b.brightness ≡ max * percent / 100)
Shows max percent off b = b.blank ≡ 1
