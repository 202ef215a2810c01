-- ===== src/Ui/Layout/Stacked.antt =====
-- Where the windows of src/tboot_ui.c lie on the screen.
use tboot.Base.{
  ℕ, ◌+◌, ◌-◌, ◌%◌, ◌<◌, ◌≡◌, refl, sym, ap, ◌∙◌, Bool, Option, none, some, arith, ltb,
  if◌then◌else◌,
}
use mathlib.Core.Path.{subst}
use tboot.Base.{◌>>=◌}
use tboot.Base.Number.{u32}
use tboot.Minui.{Window}
use tboot.Ui.Settings.{Settings}
use tboot.Ui.Layout.{
  Layout, as_size, tboot_ui_setwindow, tboot_ui_initwindow, set_at, log_extent, info_window,
  menu_window, bar_window, log_window, adjust_windows,
}

pub some_of_bind {ℓ κ} :
    {A : Type ℓ} {B : Type κ} (m : Option A) (f : A → Option B) (b : B)
    → (m >>= f) ≡ some b
    → (a : A) × (m ≡ some a) × (f a ≡ some b)
some_of_bind none f b h = absurd (cc h)
some_of_bind (some a) f b h = (a, refl, h)

pub some_injective {ℓ} : {A : Type ℓ} {a b : A} → some a ≡ some b → a ≡ b
some_injective e = cc e

module _ (fonts : ℕ → ℕ × ℕ) (settings : Settings) (screen_width screen_height : ℕ) where
  abbrev turned : Bool
  turned = ltb screen_height screen_width

  abbrev starts_at : Window → ℕ
  starts_at win = if turned then win.x else win.y

  abbrev gap : ℕ
  gap = settings.window_separator_height

  -- A window reaches across the whole screen, and has an extent.
  abbrev Reaches : Window → Type 0
  Reaches win =
      (win.width ≡ (if turned then screen_height else screen_width))
      × ((if turned then win.y else win.x) ≡ 0)
      × (0 < win.height)

  -- The windows follow one another in this order, with gaps, from one end of the screen to the other.
  pub record Stacked (l : Layout) : Type 0 where
    pub info_first : starts_at l.info ≡ 0
    pub menu_next : starts_at l.menu ≡ starts_at l.info + l.info.height + gap
    pub log_next : starts_at l.log ≡ starts_at l.menu + l.menu.height + gap
    pub bar_next : starts_at l.bar ≡ starts_at l.log + l.log.height + gap
    pub bar_last : starts_at l.bar + l.bar.height ≡ (if turned then screen_width else screen_height)
    pub info_reaches : Reaches l.info
    pub menu_reaches : Reaches l.menu
    pub log_reaches : Reaches l.log
    pub bar_reaches : Reaches l.bar

  -- The screen and all that is added up along it stay below 2 ^ 31.
  abbrev pub InInt : Layout → Type 0
  InInt l =
      (screen_width < 0x8000_0000)
      × (screen_height < 0x8000_0000)
      × (l.info.height + gap + l.menu.height + gap + l.bar.height + gap < 0x8000_0000)

  placed :
      (win : Window) (at extent : ℕ) (w : Window)
      → set_at fonts settings screen_width screen_height win at extent ≡ some w
      → (starts_at w ≡ at) × (w.height ≡ extent) × Reaches w
  unfolding set_at tboot_ui_setwindow
  placed win at extent w h = ground arith

  info_placed :
      (info : Window)
      → info_window fonts settings screen_width screen_height ≡ some info
      → (starts_at info ≡ 0) × Reaches info
  unfolding info_window
  info_placed info e =
      let (at, size, reach) =
        placed
          (tboot_ui_initwindow fonts settings screen_width screen_height settings.infowin_color
            settings.infowin_font_height)
          0 _ info e in
      (at, reach)

  menu_placed :
      (info menu : Window)
      → menu_window fonts settings screen_width screen_height info ≡ some menu
      → (starts_at menu ≡ as_size (starts_at info + info.height + gap)) × Reaches menu
  unfolding menu_window
  menu_placed info menu e =
      let (at, size, reach) =
        placed
          (tboot_ui_initwindow fonts settings screen_width screen_height settings.menuwin_color
            settings.menuwin_font_height)
          _ _ menu e in
      (at, reach)

  bar_placed :
      (bar : Window)
      → bar_window fonts settings screen_width screen_height ≡ some bar
      → (starts_at bar ≡ (if turned then screen_width else screen_height) - bar.height)
        × Reaches bar
  unfolding bar_window
  bar_placed bar e =
      let (at, size, reach) =
        placed
          (tboot_ui_initwindow fonts settings screen_width screen_height settings.barwin_color
            settings.barwin_font_height)
          _ _ bar e in
      (at ∙ ap (λ k. (if turned then screen_width else screen_height) - k) (sym size), reach)

  log_placed :
      (info menu bar log : Window)
      → log_window fonts settings screen_width screen_height info menu bar ≡ some log
      → (starts_at log ≡ as_size (starts_at menu + menu.height + gap))
        × (log.height
            ≡ as_size (
                (if turned then screen_width else screen_height)
                + (u32 - (info.height + gap + menu.height + gap + bar.height + gap) % u32)))
        × Reaches log
  unfolding log_window log_extent
  log_placed info menu bar log e =
      placed
        (tboot_ui_initwindow fonts settings screen_width screen_height settings.logwin_color
          settings.logwin_font_height)
        _ _ log e

  small : (n : ℕ) → n < 0x8000_0000 → as_size n ≡ n
  unfolding as_size
  small n h = ground arith

  -- What is left, if something is.
  left_over :
      (whole others : ℕ)
      → whole < 0x8000_0000
      → others < 0x8000_0000
      → 0 < as_size (whole + (u32 - others % u32))
      → as_size (whole + (u32 - others % u32)) + others ≡ whole
  unfolding as_size
  left_over whole others h k some_left = ground (arith, h, k, some_left)

  along_small :
      screen_width < 0x8000_0000
      → screen_height < 0x8000_0000
      → (if turned then screen_width else screen_height) < 0x8000_0000
  along_small h k = ground (arith, h, k)

  stacked :
      (info menu bar log : Window)
      → info_window fonts settings screen_width screen_height ≡ some info
      → menu_window fonts settings screen_width screen_height info ≡ some menu
      → bar_window fonts settings screen_width screen_height ≡ some bar
      → log_window fonts settings screen_width screen_height info menu bar ≡ some log
      → InInt (record { info = info; menu = menu; bar = bar; log = log })
      → Stacked (record { info = info; menu = menu; bar = bar; log = log })
  stacked info menu bar log e1 e2 e3 e4 (wide, high, sum) =
      let (at1, reach1) = info_placed info e1 in
      let (at2, reach2) = menu_placed info menu e2 in
      let (at3, reach3) = bar_placed bar e3 in
      let (at4, size4, reach4) = log_placed info menu bar log e4 in
      let next2 = at2 ∙ small _ (omega (arith, at1, sum)) in
      let next4 = at4 ∙ small _ (omega (arith, at1, next2, sum)) in
      let some_left = subst (λ n. 0 < n) size4 reach4.2 in
      let rest =
        ap (λ n. n + (info.height + gap + menu.height + gap + bar.height + gap)) size4
        ∙ left_over _ _ (along_small wide high) sum some_left in
      record {
        info_first = at1;
        menu_next = next2;
        log_next = next4;
        bar_next = omega (arith, at1, next2, at3, next4, rest);
        bar_last = omega (arith, at3, rest);
        info_reaches = reach1;
        menu_reaches = reach2;
        log_reaches = reach4;
        bar_reaches = reach3;
      }

  -- If the windows can be made at all, they follow one another along the longer side of the screen
  -- in the order info, menu, log, bar, with window_separator_height between each two, from one end of
  -- the screen to the other, and every one reaches across the whole of it and has an extent. The sizes of the
  -- screen, and the heights of the info, menu and bar windows with three gaps together, are less than
  -- 2 ^ 31, the largest int; beyond it sums wrap around.
  pub adjust_windows-Stacked :
      (l : Layout)
      → adjust_windows fonts settings screen_width screen_height ≡ some l
      → InInt l
      → Stacked l
  unfolding adjust_windows
  adjust_windows-Stacked l made in_int =
      let (info, e1, rest1) =
        some_of_bind (info_window fonts settings screen_width screen_height) _ l made in
      let (menu, e2, rest2) =
        some_of_bind (menu_window fonts settings screen_width screen_height info) _ l rest1 in
      let (bar, e3, rest3) =
        some_of_bind (bar_window fonts settings screen_width screen_height) _ l rest2 in
      let (log, e4, done) =
        some_of_bind (log_window fonts settings screen_width screen_height info menu bar) _ l
          rest3 in
      let same = some_injective done in
      subst Stacked same (stacked info menu bar log e1 e2 e3 e4 (subst InInt (sym same) in_int))
