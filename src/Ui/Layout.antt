-- ===== src/Ui/Layout.antt =====
-- The windows of the user interface: `tboot_ui_adjust` of src/tboot_ui.c.
pub mod Stacked
use tboot.Base.{
  ℕ, ◌+◌, ◌-◌, ◌>>=◌, ◌*◌, ◌%◌, Bool, ◌||◌, Option, none, some, ltb, ◌==◌, if◌then◌else◌,
}
use tboot.Base.Number.{u32}
use tboot.Minui.{Window, window_init}
use tboot.Ui.Settings.{Settings}

-- INFO_LINES, MENU_LINES
abbrev pub info_lines : ℕ
info_lines = 3

abbrev pub menu_lines : ℕ
menu_lines = 7

-- A sum of unsigned ints that is stored in an int. Where it is negative tboot_ui_setwindow() takes a
-- place for 0 and refuses a size, as it refuses 0: the model has 0 for it.
unfoldable pub as_size : ℕ → ℕ
as_size n = if ltb (n % u32) 0x8000_0000 then n % u32 else 0

-- `tboot_ui_setwindow`, for a window that the window system places as it is asked to. The sizes are
-- positive where the code compares them with 0; `none`: -1.
unfoldable pub tboot_ui_setwindow : Window → ℕ → ℕ → ℕ → ℕ → Option Window
tboot_ui_setwindow win x y width height =
    if width == 0 || height == 0
    then none
    else some (record win { x = x; y = y; width = width; height = height })

-- The windows of the user interface.
pub record Layout : Type 0 where
  pub info : Window
  pub menu : Window
  pub bar : Window
  pub log : Window

-- `fonts height` are the height and the width of the font that DirectFB creates for a height.
module _ (fonts : ℕ → ℕ × ℕ) (settings : Settings) (screen_width screen_height : ℕ) where
  -- `tboot_ui_initwindow`
  unfoldable pub tboot_ui_initwindow : ℕ → ℕ → Window
  tboot_ui_initwindow color height = record (window_init color height) {
    font_height = (fonts height).0;
    font_width = (fonts height).1;
  }

  -- The screen is wider than high: all windows are turned, and stand beside one another.
  abbrev pub rotated : Bool
  rotated = ltb screen_height screen_width

  -- The length of the lines, and the side along which the windows follow one another.
  abbrev pub across : ℕ
  across = if rotated then screen_height else screen_width

  abbrev pub along : ℕ
  along = if rotated then screen_width else screen_height

  -- A window from `start` on, of some extent, along that side.
  unfoldable pub set_at : Window → ℕ → ℕ → Option Window
  unfolding tboot_ui_setwindow
  set_at win start extent =
      if rotated
      then tboot_ui_setwindow win start 0 across extent
      else tboot_ui_setwindow win 0 start across extent

  abbrev pub start_of : Window → ℕ
  start_of win = if rotated then win.x else win.y

  abbrev pub behind : Window → ℕ
  behind win = as_size (start_of win + win.height + settings.window_separator_height)

  -- The log window takes what the others leave, in 32 bits. With no height left its extent is 0.
  unfoldable pub log_extent : Window → Window → Window → ℕ
  unfolding as_size
  log_extent info menu bar =
      let others =
        info.height + settings.window_separator_height + menu.height
        + settings.window_separator_height + bar.height + settings.window_separator_height in
      as_size (along + (u32 - others % u32))

  unfoldable pub info_window : Option Window
  unfolding tboot_ui_initwindow set_at
  info_window =
      let win = tboot_ui_initwindow settings.infowin_color settings.infowin_font_height in
      set_at win 0 (info_lines * win.font_height)

  -- A line more than the menu has, for its title.
  unfoldable pub menu_window : Window → Option Window
  unfolding tboot_ui_initwindow set_at as_size
  menu_window info =
      let win = tboot_ui_initwindow settings.menuwin_color settings.menuwin_font_height in
      set_at win (behind info) ((menu_lines + 1) * win.font_height)

  unfoldable pub bar_window : Option Window
  unfolding tboot_ui_initwindow set_at as_size
  bar_window =
      let win = tboot_ui_initwindow settings.barwin_color settings.barwin_font_height in
      let extent =
        as_size
          (win.font_height + settings.component_separator_height + settings.progress_bar_height) in
      set_at win (along - extent) extent

  unfoldable pub log_window : Window → Window → Window → Option Window
  unfolding tboot_ui_initwindow set_at log_extent as_size
  log_window info menu bar =
      let win = tboot_ui_initwindow settings.logwin_color settings.logwin_font_height in
      set_at win (behind menu) (log_extent info menu bar)

  -- The windows of `tboot_ui_adjust`.
  unfoldable pub adjust_windows : Option Layout
  unfolding info_window menu_window bar_window log_window
  adjust_windows = do
    info ← info_window
    menu ← menu_window info
    bar ← bar_window
    log ← log_window info menu bar
    some (record { info = info; menu = menu; bar = bar; log = log })
