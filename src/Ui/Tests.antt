-- ===== src/Ui/Tests.antt =====
-- Concrete runs of the user interface of src/tboot_ui.c.
use tboot.Base.{
  ℕ, ◌+◌, ◌/◌, ◌<◌, min, ◌≡◌, refl, true, false, none, some, List, [], ◌∷◌, arith, Text, codes,
  ◌==◌, if◌then◌else◌,
}
use tboot.Base.Int.{pos}
use tboot.Base.Number.{strtoul}
use tboot.Config.Parser.{contents}
use tboot.Config.Parser.File.{Entry, WellFormed, print_entries}
use tboot.Minui.{Draw, Window, window_init}
use tboot.Minui.Textarea.{Textarea, Break, Drawn, drawn, out_of_bounds, new_area, textarea_init}
use tboot.Minui.Textarea.Ring.{IsRing, new_area-IsRing}
use tboot.Minui.Textarea.Log.{BreakLaw, HasRoom}
use tboot.Minui.Menu.{Menu, new_menu, menu_refresh, menu_action, menu_init, menu_newitem, calls}
use tboot.Minui.Menu.Keys.{up, down, menu_keys}
use tboot.Minui.Menu.Choice.{Chosen, menu_keys-Chosen}
use tboot.Minui.Bar.{Bar, Paint}
use tboot.Minui.Bar.Inside.{box_of, AllInBox}
use tboot.Minui.Bar.Bounce.{bounce_start, bouncebar_refresh, bouncebar_refresh-AllInBox}
use tboot.Ui.{Message, textline_run}
use tboot.Ui.Log.{Shows, textline_run-Shows}
use tboot.Ui.Components.{
  Components, color_bg, menu_hl_bg_color, first_items, tboot_ui_menu, with_items, make_textbar,
  tboot_ui_adjust,
}
use tboot.Ui.Components.Items.{three_items, tboot_ui_menu_lem}
use tboot.Ui.Components.Rows.{RoomGiven}
use tboot.Ui.Components.Ready.{Ready, tboot_ui_adjust-Ready}
use tboot.Ui.Layout.{Layout, adjust_windows, as_size}
use tboot.Ui.Layout.Stacked.{Stacked, adjust_windows-Stacked}
use tboot.Ui.Textbar.{color_fg}
use tboot.Ui.Textbar.Calls.{AfterCalls}
use tboot.Fastboot.{UiCall, textbar, bouncebar, ui_warn, ui_error}
use tboot.Ui.Server.{
  color_warn, color_error, Board, all_steps, bar_calls, log_messages, ui_run, ui_run-Shows,
}
use tboot.Ui.Settings.{Settings, UiConf, config_loaded, tboot_ui_load_config}
use tboot.Ui.Settings.Loading.{Configured, load_config-Configured}

-- A font of which four bytes fit in a line.
abbrev four_fit : Text → ℕ → Break
four_fit s n = record { fitting = min n 4; next = min n 4 }

four_fit-BreakLaw : BreakLaw four_fit
four_fit-BreakLaw s h = (omega arith, omega arith, refl)

four_fit-HasRoom : HasRoom 6 four_fit
four_fit-HasRoom s = omega arith

abbrev win : Window
win = record {
  color = 0x1111_117f;
  font_height = 20;
  font_width = 10;
  x = 0;
  y = 0;
  width = 50;
  height = 60;
}

abbrev area : Textarea
area = new_area (λ i. []) win 0 0 50 60 false true

area-IsRing : IsRing 6 area
area-IsRing = new_area-IsRing (λ i. []) win 0 0 50 60 false true (omega arith)

area_sound : area.fault ≡ false
unfolding new_area
area_sound = refl

abbrev hello : Message
hello = record { color = 0xffff_ffff; text = codes "flashing" }

abbrev done : Message
done = record { color = 0xf193_1eff; text = codes "done" }

textline_run-Shows_example :
    (ta' : Textarea) × (screen' : Drawn) × (textline_run four_fit
        (hello ∷ done ∷ [])
        area
        out_of_bounds
      ≡ some (ta', screen'))
    × Shows 6 (hello ∷ done ∷ []) area ta' screen'
textline_run-Shows_example =
    textline_run-Shows four_fit 6 four_fit-BreakLaw four_fit-HasRoom hello (done ∷ []) area
      out_of_bounds area-IsRing area_sound ((λ e. cc e), ((λ e. cc e), tt))

abbrev menu : Menu ℕ
menu = record (new_menu win 0 20 50 160 0xffff_ffff 1 2) {
  items = three_items 10 11 12 0xffff_ffff;
}

menu_keys-Chosen_example :
    (menu' : Menu ℕ) × (screen : List Draw) × (menu_keys
        (up ∷ up ∷ down ∷ [])
        menu
        (menu_refresh menu)
      ≡ some (menu', screen))
    × Chosen (up ∷ up ∷ down ∷ []) menu menu' screen
menu_keys-Chosen_example = menu_keys-Chosen (up ∷ up ∷ down ∷ []) menu (omega arith) (omega arith)

-- The last of three items, by a key up from the first.
last_chosen : menu_action (record menu { selected = 2 }) ≡ calls 12
unfolding menu_action
last_chosen = refl

tboot_ui_menu_lem_example :
    with_items (tboot_ui_menu (pos 7) (first_items 10 11 12) (record menu { items = [] })) ≡ none
tboot_ui_menu_lem_example = tboot_ui_menu_lem 10 11 12 (pos 7) menu (omega arith)

abbrev settings : Settings
settings = record {
  window_color = 0x1111_117f;
  infowin_color = 0x1111_117f;
  menuwin_color = 0x1111_117f;
  logwin_color = 0x1111_117f;
  barwin_color = 0x1111_117f;
  default_font_height = 20;
  infowin_font_height = 20;
  menuwin_font_height = 20;
  logwin_font_height = 20;
  barwin_font_height = 20;
  component_separator_height = 5;
  window_separator_height = 20;
  progress_bar_height = 6;
  font_file = codes "font.ttf";
  bg_image = codes "logo.png";
}

-- Fonts that are half as wide as they are high, and a height of 1 for 0.
abbrev fonts : ℕ → ℕ × ℕ
fonts height = (if height == 0 then 1 else height, height / 2)

abbrev place : ℕ → ℕ → Window
place y height = record {
  color = 0x1111_117f;
  font_height = 20;
  font_width = 10;
  x = 0;
  y = y;
  width = 480;
  height = height;
}

-- The windows on a screen of 480 by 800.
abbrev windows : Layout
windows = record { info = place 0 60; menu = place 80 160; bar = place 769 31; log = place 260 489 }

windows_made : adjust_windows fonts settings 480 800 ≡ some windows
unfolding adjust_windows as_size window_init
windows_made = refl

adjust_windows-Stacked_example : Stacked fonts settings 480 800 windows
adjust_windows-Stacked_example =
    adjust_windows-Stacked fonts settings 480 800 windows windows_made
      (omega arith, omega arith, omega arith)

abbrev components : Components ℕ
components = record {
  windows = windows;
  ta_info = new_area (λ i. []) windows.info 0 0 480 40 true false;
  menu = record (new_menu windows.menu 0 20 480 160 color_fg menu_hl_bg_color color_bg) {
    items = three_items 10 11 12 color_fg;
  };
  tb = make_textbar settings windows.bar;
  ta_log = new_area (λ i. []) windows.log 0 0 480 489 false true;
}

components_made :
    tboot_ui_adjust fonts settings 480 800 (λ i. []) (pos 0) (first_items 10 11 12)
    ≡ some components
unfolding tboot_ui_adjust adjust_windows as_size window_init textarea_init menu_init with_items
    tboot_ui_menu menu_newitem
components_made = refl

font_height_pos : (height : ℕ) → 0 < (fonts height).0
font_height_pos height = ground arith

room_given : RoomGiven fonts settings windows
room_given = record {
  font_heights = font_height_pos;
  info_room = omega arith;
  log_room = omega arith;
  bar_room = (omega arith, omega arith);
  bar_sum = omega arith;
}

tboot_ui_adjust-Ready_example : Ready fonts settings 480 800 (λ i. []) 10 11 12 components
tboot_ui_adjust-Ready_example =
    tboot_ui_adjust-Ready fonts settings 480 800 (λ i. []) 10 11 12 (pos 0) components room_given
      components_made

abbrev first_bar : Bar
first_bar = record {
  percent = pos 0;
  border_color = 0xff;
  border_width = 1;
  bg_color = 0x3333_33ff;
  color = 0xe749_22ff;
  x = 120;
  y = 25;
  width = 240;
  height = 6;
  progress = true;
  fill_out = true;
}

bouncebar_refresh-AllInBox_example :
    AllInBox (box_of first_bar) (bouncebar_refresh 100 first_bar (bounce_start first_bar))
bouncebar_refresh-AllInBox_example =
    bouncebar_refresh-AllInBox 100 first_bar (omega arith, omega arith) (omega arith)

-- A flash that fails: the bar, a warning, and an error that hides the bar.
abbrev server_calls : List UiCall
server_calls =
    bouncebar (codes "Flashing system...")
    ∷ textbar 40
    ∷ ui_warn (codes "low memory")
    ∷ ui_error (codes "Flash failed.")
    ∷ []

abbrev percent_label : ℕ → Text
percent_label percent = codes "Flashing..."

abbrev warning : Message
warning = record { color = color_warn; text = codes "low memory" }

abbrev failure : Message
failure = record { color = color_error; text = codes "Flash failed." }

messages_of : log_messages (all_steps percent_label server_calls) ≡ warning ∷ failure ∷ []
unfolding all_steps
messages_of = refl

ui_run-Shows_example :
    (b' : Board) × (pictures : List (List Paint)) × (ui_run four_fit
        (all_steps percent_label server_calls)
        (record { tb = components.tb; ta_log = components.ta_log; log_screen = drawn [] })
      ≡ some (b', pictures))
    × AfterCalls
        (bar_calls (all_steps percent_label server_calls))
        none
        components.tb
        components.tb
        b'.tb
        pictures
    × Shows
        (components.windows.log.width / components.windows.log.font_width + 1)
        (warning ∷ failure ∷ [])
        components.ta_log
        b'.ta_log
        b'.log_screen
ui_run-Shows_example =
    ui_run-Shows fonts settings 480 800 (λ i. []) 10 11 12 four_fit four_fit-BreakLaw percent_label
      (pos 0) components server_calls warning (failure ∷ []) room_given components_made
      (λ s. omega arith) messages_of ((λ e. cc e), ((λ e. cc e), tt))

abbrev entries : List Entry
entries =
    record {
      first = b'f';
      key_rest = codes "ont";
      value_first = b'a';
      value_rest = codes ".ttf";
      comment = [];
    }
    ∷ []

entries-WellFormed : WellFormed entries
entries-WellFormed =
    ((refl, (refl, (refl, (refl, tt)))), (refl, (refl, (refl, (refl, (refl, tt))))), tt, tt)

abbrev at_start : UiConf
at_start = record { cp = none; settings = settings }

load_config-Configured_example :
    (conf' : UiConf) × (tboot_ui_load_config strtoul
        (λ path. contents (print_entries entries))
        (some (codes "/ui"))
        480
        800
        at_start
      ≡ config_loaded conf')
    × Configured strtoul entries 480 800 conf'.settings
load_config-Configured_example =
    load_config-Configured strtoul b'/' (codes "ui") entries
      (λ path. contents (print_entries entries)) 480 800 entries-WellFormed (λ e. cc e) refl
      at_start refl
