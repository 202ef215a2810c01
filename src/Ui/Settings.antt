-- ===== src/Ui/Settings.antt =====
-- The configuration of the user interface: `tboot_ui_load_config` of src/tboot_ui.c.
pub mod Loading
use tboot.Base.{ℕ, Bool, false, Option, none, some, ◌++◌, Text, codes, text_eq, if◌then◌else◌}
use tboot.Base.Number.{dec}
use tboot.Config.Parser.{
  ConfigParser, FileRead, Parsed, parser, no_parser, stray_free, config_parser_init,
  config_parser_get,
}

-- The configuration parameters, and the two files.
pub record Settings : Type 0 where
  pub window_color : ℕ
  pub infowin_color : ℕ
  pub menuwin_color : ℕ
  pub logwin_color : ℕ
  pub barwin_color : ℕ
  pub default_font_height : ℕ
  pub infowin_font_height : ℕ
  pub menuwin_font_height : ℕ
  pub logwin_font_height : ℕ
  pub barwin_font_height : ℕ
  pub component_separator_height : ℕ
  pub window_separator_height : ℕ
  pub progress_bar_height : ℕ
  pub font_file : Text
  pub bg_image : Text

-- WINDOW_DEF_COLOR, FONT_HEIGHT, OUTTER_SEPARATOR, INNER_SEPARATOR and BAR_HEIGHT
abbrev pub window_def_color : ℕ
window_def_color = 0x1111_117f

abbrev pub font_height : ℕ
font_height = 20

abbrev pub outter_separator : ℕ
outter_separator = 20

abbrev pub inner_separator : ℕ
inner_separator = 5

abbrev pub bar_height : ℕ
bar_height = 6

-- FONT_FILE, BGIMG_PREFIX "_%d_%d.png" and CONF_PREFIX "_%d_%d.conf"
abbrev pub default_font_file : Text
default_font_file = codes "/etc/preos/fonts/font.ttf"

by_size : Text → ℕ → ℕ → Text → Text
by_size prefix width height suffix =
    prefix ++ (codes "_" ++ (dec width ++ (codes "_" ++ (dec height ++ suffix))))

unfoldable pub image_by_size : ℕ → ℕ → Text
unfolding by_size
image_by_size width height =
    by_size (codes "/etc/preos/imgs/preos-logo") width height (codes ".png")

unfoldable pub conf_by_size : ℕ → ℕ → Text
unfolding by_size
conf_by_size width height = by_size (codes "/etc/preos/confs/tboot-ui") width height (codes ".conf")

-- The parser with its path, `cp`, and the parameters.
pub record UiConf : Type 0 where
  pub cp : Option (Text × ConfigParser)
  pub settings : Settings

-- Return value 0 or -1, or a stray config_parser_free().
pub data Loaded : Type 0 where
  config_loaded : UiConf → Loaded
  config_failed : UiConf → Loaded
  stray : Loaded

-- `number` is strtol(value, NULL, 0) as an unsigned int.
module _ (number : Text → ℕ) where
  abbrev pub number_or : Option Text → ℕ → ℕ
  number_or none default = default
  number_or (some value) default = number value

  abbrev pub text_or : Option Text → Text → Text
  text_or none default = default
  text_or (some value) default = value

  unfoldable pub read_settings : (Text → Option Text) → Settings → Settings
  read_settings get files =
      let window = number_or (get (codes "window_color")) window_def_color in
      let height = number_or (get (codes "default_font_height")) font_height in
      record {
        window_color = window;
        infowin_color = number_or (get (codes "infowin_color")) window;
        menuwin_color = number_or (get (codes "menuwin_color")) window;
        logwin_color = number_or (get (codes "logwin_color")) window;
        barwin_color = number_or (get (codes "barwin_color")) window;
        default_font_height = height;
        infowin_font_height = number_or (get (codes "infowin_font_height")) height;
        menuwin_font_height = number_or (get (codes "menuwin_font_height")) height;
        logwin_font_height = number_or (get (codes "logwin_font_height")) height;
        barwin_font_height = number_or (get (codes "barwin_font_height")) height;
        component_separator_height =
            number_or (get (codes "component_separator_height")) inner_separator;
        window_separator_height =
            number_or (get (codes "window_separator_height")) outter_separator;
        progress_bar_height = number_or (get (codes "progress_bar_height")) bar_height;
        font_file = text_or (get (codes "font")) files.font_file;
        bg_image = text_or (get (codes "bg_image")) files.bg_image;
      }

  after_parse : Text → UiConf → Parsed → Loaded
  unfolding read_settings
  after_parse path conf (parser cp) = config_loaded (record {
    cp = some (path, cp);
    settings = read_settings (config_parser_get cp) conf.settings;
  })
  after_parse path conf no_parser = config_failed (record conf { cp = none })
  after_parse path conf stray_free = stray

  same_path : Text → Option (Text × ConfigParser) → Bool
  same_path path none = false
  same_path path (some (old, cp)) = text_eq path old

  -- `tboot_ui_load_config` for a screen of some size. The two files are set again before the paths
  -- are compared.
  unfoldable pub tboot_ui_load_config : (Text → FileRead) → Option Text → ℕ → ℕ → UiConf → Loaded
  unfolding after_parse same_path
  tboot_ui_load_config files config width height conf =
      let reset = record conf {
        settings = record (conf.settings) {
          font_file = default_font_file;
          bg_image = image_by_size width height;
        };
      } in
      let path = text_or config (conf_by_size width height) in
      if same_path path conf.cp
      then config_loaded reset
      else after_parse path reset (config_parser_init (some path) (files path))
