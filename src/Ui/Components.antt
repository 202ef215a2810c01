-- ===== src/Ui/Components.antt =====
-- What the windows of the user interface hold: `tboot_ui_adjust` and the menu of src/tboot_ui.c.
pub mod Items
pub mod Rows
pub mod Parts
pub mod Ready
use tboot.Base.{
  ℕ, ◌-◌, ◌>>=◌, ◌/◌, true, false, ◌&&◌, Option, none, some, List, [], ◌∷◌, Text, codes, length,
  take, ltb, if◌then◌else◌,
}
use tboot.Base.Int.{ℤ, pos, negsuc, is_zero}
use tboot.Minui.{Draw, Window, TextLine}
use tboot.Minui.Textarea.{Textarea, textarea_init}
use tboot.Minui.Menu.{Menu, menu_init, menu_newitem, menu_refresh}
use tboot.Minui.Bar.{Textbar, bar_init, textbar_init}
use tboot.Ui.{line_len_inchar}
use tboot.Ui.Textbar.{color_fg}
use tboot.Ui.Settings.{Settings}
use tboot.Ui.Layout.{Layout, adjust_windows}

-- MENU_HL_FG_COLOR, MENU_HL_BG_COLOR, BAR_BG_COLOR, BAR_FG_COLOR, BAR_BORDER_WIDTH and
-- BAR_BORDER_COLOR
abbrev pub color_bg : ℕ
color_bg = 0x0000_00ff

abbrev pub menu_hl_bg_color : ℕ
menu_hl_bg_color = 0xf165_22ff

abbrev bar_bg_color : ℕ
bar_bg_color = 0x3333_33ff

abbrev bar_fg_color : ℕ
bar_fg_color = 0xe749_22ff

abbrev bar_border_width : ℕ
bar_border_width = 1

-- The windows with what they hold.
pub record Components (H : Type 0) : Type 0 where
  pub windows : Layout
  pub ta_info : Textarea
  pub menu : Menu H
  pub tb : Textbar
  pub ta_log : Textarea

-- strncpy() into a line of LINE_LEN_INCHAR bytes.
abbrev pub item_line : ℕ → Text → TextLine
item_line color name = record {
  text = take line_len_inchar name;
  len = line_len_inchar;
  color = color;
}

module _ {H : Type 0} where
  abbrev new_result : Option (Menu H) → Menu H → ℤ × Menu H
  new_result none menu = (negsuc 0, menu)
  new_result (some menu') menu = (pos 0, menu')

  -- The loop of `tboot_ui_menu`, on the items that are left; `ret` is the variable of that name.
  pub menu_loop : List (Text × H) → ℤ → Menu H → ℤ × Menu H
  menu_loop [] ret menu = (ret, menu)
  menu_loop ((name, handler) ∷ items) ret menu =
      let r = new_result (menu_newitem (item_line menu.color name) (some handler) menu) menu in
      let next = menu_loop items r.0 r.1 in
      if ltb (length menu.items) menu.max_items && is_zero ret then next else (ret, menu)

  -- `ret` has no value before the loop tests it.
  unfoldable pub tboot_ui_menu : ℤ → List (Text × H) → Menu H → ℤ × Menu H
  unfolding menu_loop
  tboot_ui_menu ret items menu =
      let r = menu_loop items ret menu in (r.0, record (r.1) { selected = 0 })

  -- `tboot_ui_menu_item`, once there is a menu: the item if there is room, and what is drawn.
  unfoldable pub tboot_ui_menu_item : Text → H → Menu H → Menu H × List Draw
  tboot_ui_menu_item name handler menu =
      let r = new_result (menu_newitem (item_line menu.color name) (some handler) menu) menu in
      (r.1, menu_refresh r.1)

  unfoldable pub with_items : ℤ × Menu H → Option (Menu H)
  with_items (ret, menu) = if is_zero ret then some menu else none

-- The items that the menu begins with.
abbrev pub first_items : {H : Type 0} → H → H → H → List (Text × H)
first_items poweroff reboot reboot_preos =
    (codes "Power off", poweroff)
    ∷ (codes "Reboot to normal OS", reboot)
    ∷ (codes "Reboot to Pre-OS (why?)", reboot_preos)
    ∷ []

-- The bar at the bottom of its window, in the middle.
unfoldable pub make_textbar : Settings → Window → Textbar
make_textbar settings win =
    let height = settings.progress_bar_height in
    let bar =
      bar_init (win.width / 4) (win.height - height) (win.width / 2) height true true (pos 0)
        bar_bg_color bar_fg_color bar_border_width color_bg in
    textbar_init win 0 0 win.width win.height color_fg settings.component_separator_height bar

module _ {H : Type 0} (fonts : ℕ → ℕ × ℕ) (settings : Settings) (screen_width screen_height : ℕ)
    (heap : ℕ → Text) (ret : ℤ) (items : List (Text × H)) where
  pub make_menu : Window → Option (Menu H)
  make_menu win = do
    menu ← menu_init win 0 win.font_height win.width win.height color_fg menu_hl_bg_color color_bg
    with_items (tboot_ui_menu ret items menu)

  pub make_info : Window → Option Textarea
  make_info win =
      textarea_init heap win 0 0 win.width (win.height - settings.infowin_font_height) true false

  pub make_log : Window → Option Textarea
  make_log win = textarea_init heap win 0 0 win.width win.height false true

  -- `tboot_ui_adjust`; `none`: -1. What `heap` says is in the memory of the lines of both areas.
  unfoldable pub tboot_ui_adjust : Option (Components H)
  unfolding make_menu make_info make_log
  tboot_ui_adjust = do
    windows ← adjust_windows fonts settings screen_width screen_height
    ta_info ← make_info windows.info
    menu ← make_menu windows.menu
    ta_log ← make_log windows.log
    some (record {
      windows = windows;
      ta_info = ta_info;
      menu = menu;
      tb = make_textbar settings windows.bar;
      ta_log = ta_log;
    })
