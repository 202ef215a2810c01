-- ===== src/Ui/Settings/Loading.antt =====
-- Loading the configuration of the user interface of src/tboot_ui.c from a file.
use tboot.Base.{ℕ, ◌≡◌, ◌≢◌, [], refl, none, some, List, ◌∷◌, ◌++◌, Text, codes, text_eq_refl}
use mathlib.Core.Path.{fun_ext}
use tboot.Config.Parser.{ConfigParser, FileRead, contents}
use tboot.Config.Parser.File.{Entry, WellFormed, print_entries, lookup, config_parser_get-print}
use tboot.Ui.Settings.{
  Settings, UiConf, config_loaded, default_font_file, image_by_size, read_settings, after_parse,
  same_path, tboot_ui_load_config, number_or, text_or, window_def_color, font_height, bar_height,
  inner_separator, outter_separator,
}

-- The font and the image of the theme again.
abbrev pub reset_files : ℕ → ℕ → Settings → Settings
reset_files width height s = record s {
  font_file = default_font_file;
  bg_image = image_by_size width height;
}

-- The four windows, with the names that begin their keys.
pub data Area : Type 0 where
  info_area menu_area log_area bar_area : Area

abbrev pub area_name : Area → Text
area_name info_area = codes "info"
area_name menu_area = codes "menu"
area_name log_area = codes "log"
area_name bar_area = codes "bar"

abbrev pub color_of : Area → Settings → ℕ
color_of info_area s = s.infowin_color
color_of menu_area s = s.menuwin_color
color_of log_area s = s.logwin_color
color_of bar_area s = s.barwin_color

abbrev pub font_of : Area → Settings → ℕ
font_of info_area s = s.infowin_font_height
font_of menu_area s = s.menuwin_font_height
font_of log_area s = s.logwin_font_height
font_of bar_area s = s.barwin_font_height

-- The settings that a file with some entries asks for on a screen of some size: a window has its own
-- color and font, or else the common ones, and all else its own value or its default.
pub record Configured (number : Text → ℕ) (entries : List Entry) (width height : ℕ) (s : Settings)
    : Type 0 where
  pub color :
      (a : Area)
      → color_of a s
        ≡ number_or number
            (lookup (area_name a ++ codes "win_color") entries)
            (number_or number (lookup (codes "window_color") entries) window_def_color)
  pub font :
      (a : Area)
      → font_of a s
        ≡ number_or number
            (lookup (area_name a ++ codes "win_font_height") entries)
            (number_or number (lookup (codes "default_font_height") entries) font_height)
  pub inner_gap :
      s.component_separator_height
      ≡ number_or number (lookup (codes "component_separator_height") entries) inner_separator
  pub outer_gap :
      s.window_separator_height
      ≡ number_or number (lookup (codes "window_separator_height") entries) outter_separator
  pub bar :
      s.progress_bar_height
      ≡ number_or number (lookup (codes "progress_bar_height") entries) bar_height
  pub font_file : s.font_file ≡ text_or number (lookup (codes "font") entries) default_font_file
  pub image :
      s.bg_image ≡ text_or number (lookup (codes "bg_image") entries) (image_by_size width height)

module _ (number : Text → ℕ) (c : ℕ) (path : Text) (entries : List Entry) (files : Text → FileRead)
    (width height : ℕ) (well : WellFormed entries) (some_line : entries ≢ [])
    (there : files (c ∷ path) ≡ contents (print_entries entries)) where
  read_settings-Configured :
      (s : Settings)
      → Configured number entries width height
          (read_settings number (λ key. lookup key entries) (reset_files width height s))
  unfolding read_settings
  read_settings-Configured s = record {
    color = elim [ info_area ↦ refl | menu_area ↦ refl | log_area ↦ refl | bar_area ↦ refl ];
    font = elim [ info_area ↦ refl | menu_area ↦ refl | log_area ↦ refl | bar_area ↦ refl ];
    inner_gap = refl;
    outer_gap = refl;
    bar = refl;
    font_file = refl;
    image = refl;
  }

  loads :
      (conf : UiConf)
      → conf.cp ≡ none
      → (cp : ConfigParser) × (tboot_ui_load_config number files (some (c ∷ path)) width height conf
          ≡ config_loaded (record {
            cp = some (c ∷ path, cp);
            settings =
                read_settings number
                  (λ key. lookup key entries)
                  (reset_files width height conf.settings);
          }))
  unfolding tboot_ui_load_config after_parse same_path
  loads conf fresh =
      let (cp, parsed, gets) = config_parser_get-print c path entries well some_line in
      (cp, rw (fresh, there, parsed, fun_ext gets) refl)

  -- The first load of a file of key=value lines, one at least, each with a comment behind it, succeeds: every color,
  -- height and file name is that of the first line with its key; a window with no line of its own
  -- has the color of window_color and the font of default_font_height, and all else its default.
  pub load_config-Configured :
      (conf : UiConf)
      → conf.cp ≡ none
      → (conf' : UiConf) × (tboot_ui_load_config number files (some (c ∷ path)) width height conf
          ≡ config_loaded conf')
        × Configured number entries width height conf'.settings
  load_config-Configured conf fresh =
      let (cp, loaded) = loads conf fresh in (_, loaded, read_settings-Configured conf.settings)

  again :
      (settings : Settings) (cp : ConfigParser)
      → let conf : UiConf = record { cp = some (c ∷ path, cp); settings = settings } in
        tboot_ui_load_config number files (some (c ∷ path)) width height conf
        ≡ config_loaded
            (record { cp = some (c ∷ path, cp); settings = reset_files width height settings })
  unfolding tboot_ui_load_config same_path
  again settings cp = rw (text_eq_refl (c ∷ path)) refl

  -- Where the file has been loaded once, loading it again succeeds too, but now the font and the image
  -- are the defaults whatever the file says of them; all else is as after the first load.
  second_load-forgets :
      (conf : UiConf)
      → conf.cp ≡ none
      → (conf₁ : UiConf) × (conf₂ : UiConf) × (tboot_ui_load_config number files
            (some (c ∷ path))
            width
            height
            conf
          ≡ config_loaded conf₁)
        × (conf₁.settings.font_file
            ≡ text_or number (lookup (codes "font") entries) default_font_file)
        × (tboot_ui_load_config number files (some (c ∷ path)) width height conf₁
            ≡ config_loaded conf₂)
        × (conf₂ ≡ record conf₁ { settings = reset_files width height conf₁.settings })
  second_load-forgets conf fresh =
      let (cp, loaded) = loads conf fresh in
      (
        _,
        _,
        loaded,
        (read_settings-Configured conf.settings).font_file,
        again
            (read_settings number (λ key. lookup key entries)
              (reset_files width height conf.settings))
            cp,
        refl,
      )
