-- ===== src/Ui/Components/Ready.antt =====
-- What `tboot_ui_adjust` of src/tboot_ui.c makes ready.
use tboot.Base.{ℕ, ◌+◌, ◌/◌, ◌≡◌, sym, ap, ◌∙◌, true, false, some, arith, Text}
use mathlib.Core.Path.{subst}
use tboot.Base.Int.{ℤ}
use tboot.Minui.Textarea.{Textarea}
use tboot.Minui.Textarea.Ring.{IsRing}
use tboot.Minui.Menu.{Menu}
use tboot.Ui.Textbar.{color_fg, FitsBar, Paintable}
use tboot.Ui.Settings.{Settings}
use tboot.Ui.Layout.{Layout, adjust_windows}
use tboot.Ui.Layout.Stacked.{some_of_bind, some_injective}
use tboot.Ui.Components.{
  Components, first_items, make_textbar, make_menu, make_info, make_log, tboot_ui_adjust,
}
use tboot.Ui.Components.Items.{three_items}
use tboot.Ui.Components.Rows.{
  RoomGiven, MadeFrom, bar_fonts, layout_made, info_rows, log_rows, menu_rows,
}
use tboot.Ui.Components.Parts.{textbar-Paintable, area_made, menu_made}

module _ {H : Type 0} (fonts : ℕ → ℕ × ℕ) (settings : Settings) (screen_width screen_height : ℕ)
    (heap : ℕ → Text) (poweroff reboot reboot_preos : H) where
  -- The components are ready for the calls of the program.
  pub record Ready (c : Components H) : Type 0 where
    pub info_ring : IsRing (c.windows.info.width / c.windows.info.font_width + 1) c.ta_info
    pub log_ring : IsRing (c.windows.log.width / c.windows.log.font_width + 1) c.ta_log
    pub sound : (c.ta_info.fault ≡ false) × (c.ta_log.fault ≡ false)
    pub bar_fits : FitsBar c.tb.bar
    pub bar_inside : Paintable c.tb
    pub menu_items : c.menu.items ≡ three_items poweroff reboot reboot_preos color_fg
    pub menu_room : (c.menu.max_items ≡ 8) × (c.menu.selected ≡ 0)

  made-Ready :
      (ret : ℤ) (l : Layout) (ta_info ta_log : Textarea) (menu : Menu H)
      → MadeFrom fonts settings screen_width screen_height l
      → RoomGiven fonts settings l
      → make_info fonts settings screen_width screen_height heap ret
          (first_items poweroff reboot reboot_preos)
          l.info
        ≡ some ta_info
      → make_menu fonts settings screen_width screen_height heap ret
          (first_items poweroff reboot reboot_preos)
          l.menu
        ≡ some menu
      → make_log fonts settings screen_width screen_height heap ret
          (first_items poweroff reboot reboot_preos)
          l.log
        ≡ some ta_log
      → Ready (record {
        windows = l;
        ta_info = ta_info;
        menu = menu;
        tb = make_textbar settings l.bar;
        ta_log = ta_log;
      })
  unfolding make_info make_log
  made-Ready ret l ta_info ta_log menu made_from room e1 e2 e3 =
      let (info_ring, info_sound) =
        area_made heap l.info 0 0 l.info.width _ true false ta_info e1
          (info_rows fonts settings screen_width screen_height l made_from room) in
      let (log_ring, log_sound) =
        area_made heap l.log 0 0 l.log.width _ false true ta_log e3
          (log_rows fonts settings screen_width screen_height l made_from room) in
      let rows = menu_rows fonts settings screen_width screen_height l made_from room in
      let (items, room8, first) =
        menu_made fonts settings screen_width screen_height heap poweroff reboot reboot_preos l.menu
          ret menu e2 (omega (arith, rows)) in
      let (fits, inside) =
        textbar-Paintable settings l.bar room.bar_room.0 room.bar_room.1
          (bar_fonts fonts settings screen_width screen_height l.bar made_from.2 room.bar_sum) in
      record {
        info_ring = info_ring;
        log_ring = log_ring;
        sound = (info_sound, log_sound);
        bar_fits = fits;
        bar_inside = inside;
        menu_items = items;
        menu_room = (room8 ∙ rows, first);
      }

  -- If `tboot_ui_adjust` comes to its end with room for its parts, its two text areas are rings
  -- without a fault, its bar lies in its window with flags that fit its percent, and its menu has the
  -- three first items, with room for eight and the first selected. Room for its parts: every font has
  -- a height; the height configured for the info font is at most twice that of the font made for it;
  -- the log window is at least one line high; the bar window is at least 6 wide, the progress bar at
  -- least 2 high, and the font, separator and bar of that window add up to less than 2 ^ 31.
  pub tboot_ui_adjust-Ready :
      (ret : ℤ) (c : Components H)
      → RoomGiven fonts settings c.windows
      → tboot_ui_adjust fonts settings screen_width screen_height heap ret
          (first_items poweroff reboot reboot_preos)
        ≡ some c
      → Ready c
  unfolding tboot_ui_adjust
  tboot_ui_adjust-Ready ret c room made_it =
      let (l, placed, rest) =
        some_of_bind (adjust_windows fonts settings screen_width screen_height) _ c made_it in
      let (ta_info, e1, rest1) =
        some_of_bind
          (make_info fonts settings screen_width screen_height heap ret
            (first_items poweroff reboot reboot_preos) l.info)
          _ c rest in
      let (menu, e2, rest2) =
        some_of_bind
          (make_menu fonts settings screen_width screen_height heap ret
            (first_items poweroff reboot reboot_preos) l.menu)
          _ c rest1 in
      let (ta_log, e3, done) =
        some_of_bind
          (make_log fonts settings screen_width screen_height heap ret
            (first_items poweroff reboot reboot_preos) l.log)
          _ c rest2 in
      let same = some_injective done in
      let room_here =
        subst (RoomGiven fonts settings) (ap (λ (k : Components H). k.windows) (sym same)) room in
      subst Ready same (
        made-Ready ret l ta_info ta_log menu
          (layout_made fonts settings screen_width screen_height l placed) room_here e1 e2 e3)
