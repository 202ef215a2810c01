-- ===== src/Lcd/Screen.antt =====
-- What the screen shows after any sequence of events.
use tboot.Base.{ℕ, ◌≤◌, ◌<◌, ◌≡◌, refl, ◌≢◌, List, [], ◌∷◌, arith}
use tboot.Base.Int.{pos}
use tboot.Lcd.{
  LcdEvent, idle, LcdState, on, dim, off, Backlight, set_bl_brightness, write_fb0_blank,
  lcd_lighton, lcd_lightoff, lcd_state, lcd_run, Works, Shows,
}

module _ (max percent : ℕ) (some_light : 0 < max) (is_percent : percent ≤ 100) where
  abbrev Good : LcdState × Backlight → Type 0
  Good (s, b) = Works max b × Shows max percent s b

  step-Good :
      (s : LcdState) (e : LcdEvent) (b : Backlight)
      → Works max b
      → Shows max percent s b
      → Good (lcd_state (pos percent) s e b)
  unfolding lcd_state lcd_lighton lcd_lightoff set_bl_brightness write_fb0_blank
  step-Good on e b w h = ground arith
  step-Good dim e b w h = ground arith
  step-Good off e b w h = ground arith

  run-Good :
      (events : List LcdEvent) (r : LcdState × Backlight)
      → Good r
      → Good (lcd_run (pos percent) events r)
  unfolding lcd_run
  run-Good [] (s, b) h = h
  run-Good (e ∷ events) (s, b) h =
      run-Good events (lcd_state (pos percent) s e b) (step-Good s e b h.0 h.1)

  wakes :
      (s : LcdState) (e : LcdEvent) (b : Backlight)
      → e ≢ idle
      → Works max b
      → Shows max percent s b
      → let (s', b') = lcd_state (pos percent) s e b in
        (s' ≡ on) × (b'.blank ≡ 0) × (b'.brightness ≡ max)
  unfolding lcd_state lcd_lighton lcd_lightoff set_bl_brightness write_fb0_blank
  wakes on idle b n w h = absurd (n refl)
  wakes on _ b n w h = ground arith
  wakes dim idle b n w h = absurd (n refl)
  wakes dim _ b n w h = ground arith
  wakes off idle b n w h = absurd (n refl)
  wakes off _ b n w h = ground arith

  sleeps :
      (s : LcdState) (b : Backlight)
      → Works max b
      → Shows max percent s b
      → let (s', b') = lcd_run (pos percent) (idle ∷ idle ∷ []) (s, b) in
        (s' ≡ off) × (b'.blank ≡ 1)
  unfolding lcd_run lcd_state lcd_lighton lcd_lightoff set_bl_brightness write_fb0_blank
  sleeps on b w h = ground arith
  sleeps dim b w h = ground arith
  sleeps off b w h = ground arith

-- On a backlight whose files work, with a positive largest brightness and a percentage of at most
-- 100, started lit: after any events the screen is blank in the state off, lit at full brightness
-- in the state on, and lit at the configured share of it when dimmed; an event other than idle then
-- leads to a lit screen at full brightness, and two idle events to a blank one.
pub lcd_run-Shows :
    (max percent : ℕ) (events : List LcdEvent) (e : LcdEvent) (b : Backlight)
    → 0 < max
    → percent ≤ 100
    → e ≢ idle
    → Works max b
    → Shows max percent on b
    → let (s, b') = lcd_run (pos percent) events (on, b) in
      let woken = lcd_state (pos percent) s e b' in
      let slept = lcd_run (pos percent) (idle ∷ idle ∷ []) (s, b') in
      Shows max percent s b'
      × (woken.0 ≡ on)
      × (woken.1.blank ≡ 0)
      × (woken.1.brightness ≡ max)
      × (slept.0 ≡ off)
      × (slept.1.blank ≡ 1)
lcd_run-Shows max percent events e b some_light is_percent wake w h =
    let (s, b') = lcd_run (pos percent) events (on, b) in
    let g = run-Good max percent some_light is_percent events (on, b) (w, h) in
    let up = wakes max percent some_light is_percent s e b' wake g.0 g.1 in
    let down = sleeps max percent some_light is_percent s b' g.0 g.1 in
    (g.1, up.0, up.1, up.2, down.0, down.1)
