-- ===== src/Ui/Components/Rows.antt =====
-- The room that the windows of `tboot_ui_adjust` of src/tboot_ui.c give their parts.
use tboot.Base.{ℕ, ◌+◌, ◌-◌, ◌/◌, ◌*◌, ◌≤◌, ◌<◌, ◌≡◌, some, arith}
use mathlib.Core.Path.{subst}
use native.Mathlib.Nat.{le-div_iff_mul-le, mul-div_cancel}
use tboot.Minui.{Window}
use tboot.Ui.Settings.{Settings}
use tboot.Ui.Layout.{
  Layout, as_size, tboot_ui_setwindow, tboot_ui_initwindow, set_at, info_window, menu_window,
  bar_window, log_window, adjust_windows,
}
use tboot.Ui.Layout.Stacked.{some_of_bind, some_injective}

module _ (fonts : ℕ → ℕ × ℕ) (settings : Settings) where
  -- Every font has a height, the line that is left free in the info window is no higher than two of
  -- its lines, the log window holds a line, the bar has room inside its border, and the parts of its
  -- window add up to an int.
  pub record RoomGiven (windows : Layout) : Type 0 where
    pub font_heights : (height : ℕ) → 0 < (fonts height).0
    pub info_room : settings.infowin_font_height ≤ 2 * (fonts settings.infowin_font_height).0
    pub log_room : (fonts settings.logwin_font_height).0 ≤ windows.log.height
    pub bar_room : (6 ≤ windows.bar.width) × (2 ≤ settings.progress_bar_height)
    pub bar_sum :
        (fonts settings.barwin_font_height).0
          + settings.component_separator_height
          + settings.progress_bar_height
        < 0x8000_0000

module _ (fonts : ℕ → ℕ × ℕ) (settings : Settings) (screen_width screen_height : ℕ) where
  abbrev made : ℕ → ℕ → Window
  made = tboot_ui_initwindow fonts settings screen_width screen_height

  font_kept :
      (win : Window) (at extent : ℕ) (w : Window)
      → set_at fonts settings screen_width screen_height win at extent ≡ some w
      → (w.font_height ≡ win.font_height) × (w.height ≡ extent)
  unfolding set_at tboot_ui_setwindow
  font_kept win at extent w h = ground arith

  as_size-int : (n : ℕ) → n < 0x8000_0000 → as_size n ≡ n
  unfolding as_size
  as_size-int n h = ground arith

  some_rows : (height font : ℕ) → 0 < font → font ≤ height → 0 < height / font
  some_rows height font some_font le =
      (le-div_iff_mul-le {k = font} {x = 1} {y = height} some_font).1 (omega arith)

  info_fonts :
      (info : Window)
      → info_window fonts settings screen_width screen_height ≡ some info
      → (info.font_height ≡ (fonts settings.infowin_font_height).0)
        × (info.height ≡ 3 * (fonts settings.infowin_font_height).0)
  unfolding info_window tboot_ui_initwindow
  info_fonts info e =
      font_kept (made settings.infowin_color settings.infowin_font_height) 0 _ info e

  menu_fonts :
      (info menu : Window)
      → menu_window fonts settings screen_width screen_height info ≡ some menu
      → (menu.font_height ≡ (fonts settings.menuwin_font_height).0)
        × (menu.height ≡ (7 + 1) * (fonts settings.menuwin_font_height).0)
  unfolding menu_window tboot_ui_initwindow
  menu_fonts info menu e =
      font_kept (made settings.menuwin_color settings.menuwin_font_height) _ _ menu e

  pub bar_fonts :
      (bar : Window)
      → bar_window fonts settings screen_width screen_height ≡ some bar
      → (fonts settings.barwin_font_height).0
          + settings.component_separator_height
          + settings.progress_bar_height
        < 0x8000_0000
      → settings.progress_bar_height ≤ bar.height
  unfolding bar_window tboot_ui_initwindow
  bar_fonts bar e sum =
      let size = (font_kept (made settings.barwin_color settings.barwin_font_height) _ _ bar e).1 in
      omega (arith, size, as_size-int _ sum)

  log_fonts :
      (info menu bar log : Window)
      → log_window fonts settings screen_width screen_height info menu bar ≡ some log
      → log.font_height ≡ (fonts settings.logwin_font_height).0
  unfolding log_window tboot_ui_initwindow
  log_fonts info menu bar log e =
      (font_kept (made settings.logwin_color settings.logwin_font_height) _ _ log e).0

  -- The windows as the code makes them, one after the other.
  abbrev pub MadeFrom : Layout → Type 0
  MadeFrom l =
      (info_window fonts settings screen_width screen_height ≡ some l.info)
      × (menu_window fonts settings screen_width screen_height l.info ≡ some l.menu)
      × (bar_window fonts settings screen_width screen_height ≡ some l.bar)
      × (log_window fonts settings screen_width screen_height l.info l.menu l.bar ≡ some l.log)

  pub layout_made :
      (l : Layout) → adjust_windows fonts settings screen_width screen_height ≡ some l → MadeFrom l
  unfolding adjust_windows
  layout_made l placed =
      let (info, e1, rest1) =
        some_of_bind (info_window fonts settings screen_width screen_height) _ l placed in
      let (menu, e2, rest2) =
        some_of_bind (menu_window fonts settings screen_width screen_height info) _ l rest1 in
      let (bar, e3, rest3) =
        some_of_bind (bar_window fonts settings screen_width screen_height) _ l rest2 in
      let (log, e4, done) =
        some_of_bind (log_window fonts settings screen_width screen_height info menu bar) _ l
          rest3 in
      subst MadeFrom (some_injective done) (e1, e2, e3, e4)

  pub info_rows :
      (l : Layout)
      → MadeFrom l
      → RoomGiven fonts settings l
      → 0 < (l.info.height - settings.infowin_font_height) / l.info.font_height
  info_rows l made_from room =
      let (font, height) = info_fonts l.info made_from.0 in
      let some_font = room.font_heights settings.infowin_font_height in
      some_rows _ l.info.font_height (omega (arith, font, some_font))
        (omega (arith, font, height, room.info_room))

  pub log_rows :
      (l : Layout) → MadeFrom l → RoomGiven fonts settings l → 0 < l.log.height / l.log.font_height
  log_rows l made_from room =
      let font = log_fonts l.info l.menu l.bar l.log made_from.3 in
      let some_font = room.font_heights settings.logwin_font_height in
      some_rows l.log.height l.log.font_height (omega (arith, font, some_font))
        (omega (arith, font, room.log_room))

  pub menu_rows :
      (l : Layout)
      → MadeFrom l
      → RoomGiven fonts settings l
      → l.menu.height / l.menu.font_height ≡ 8
  menu_rows l made_from room =
      let (font, height) = menu_fonts l.info l.menu made_from.1 in
      rw (height, font) (mul-div_cancel 8 (room.font_heights settings.menuwin_font_height))
