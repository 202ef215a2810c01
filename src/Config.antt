-- ===== src/Config.antt =====
-- The configuration of src/tboot.c: `tboot_config_get`, `tboot_config_set` and `load_config`. The
-- hash map of libcutils is taken for the finite map that it implements; the parsed file
-- is a parameter, the value that `config_parser_get` finds for a key; the parser is in
-- Config/Parser.antt.
pub mod Lookup
pub mod Parser
pub mod Tests
use tboot.Base.{
  ℕ, zero, suc, ◌+◌, ◌-◌, ◌/◌, ◌*◌, ◌%◌, ◌^◌, ◌≤◌, ◌<◌, min, ◌≡◌, refl, sym, ap, ◌∙◌, ◌≢◌, ◌↔◌, ◌⊎◌,
  inl, inr, Bool, true, false, not, ◌&&◌, ◌||◌, Option, none, some, List, [], ◌∷◌, ◌++◌, map, arith,
  String, Text, codes, text_eq, starts_with, after_char, before_char, text_eq_refl, text_eq-eq,
  text_eq_symm, starts_with-append, length, get_elem?, take, drop, length-append, length-take,
  length-drop, take-append-drop, take_all, take-take, drop-nil, drop-drop, drop_all, ltb, leb, ◌==◌,
  if◌then◌else◌, ltb→lt, lt→ltb, ==_iff, Bool-cases, Option-cases,
}

abbrev pub ui_conf_key : Text
ui_conf_key = codes "ui_conf"

abbrev pub disk_config_key : Text
disk_config_key = codes "disk_conf"

abbrev pub push_dir_key : Text
push_dir_key = codes "push_dir"

abbrev pub rootfs_key : Text
rootfs_key = codes "rootfs"

abbrev pub enable_nfs_key : Text
enable_nfs_key = codes "enable_nfs"

abbrev pub nfsurl_key : Text
nfsurl_key = codes "nfsurl"

abbrev pub disk_force_key : Text
disk_force_key = codes "disk_force"

abbrev pub bat_threshold_key : Text
bat_threshold_key = codes "battery_threshold"

abbrev pub lcd_dim_timeout_key : Text
lcd_dim_timeout_key = codes "lcd_dim_timeout"

abbrev pub lcd_off_timeout_key : Text
lcd_off_timeout_key = codes "lcd_off_timeout"

abbrev pub lcd_dim_brightness_key : Text
lcd_dim_brightness_key = codes "lcd_dim_brightness"

-- `tc_keys` with `tc_values`; `none` is the NULL of UI_CONF_VALUE.
abbrev pub defaults : List (Text × Option Text)
defaults =
    (ui_conf_key, none)
    ∷ (disk_config_key, some (codes "/etc/disk_layout.conf"))
    ∷ (push_dir_key, some (codes "/tmp"))
    ∷ (rootfs_key, some (codes "/dev/mmcblk1"))
    ∷ (enable_nfs_key, some (codes "no"))
    ∷ (nfsurl_key, some (codes "192.168.100.2:/home/nfs"))
    ∷ (disk_force_key, some (codes "yes"))
    ∷ (bat_threshold_key, some (codes "10"))
    ∷ (lcd_dim_timeout_key, some (codes "30"))
    ∷ (lcd_off_timeout_key, some (codes "10"))
    ∷ (lcd_dim_brightness_key, some (codes "10"))
    ∷ []

-- The map `tboot_config`; `none` while it was not created.
abbrev pub Config : Type 0
Config = Option (List (Text × Option Text))

-- hashmapPut and hashmapGet of a finite map.
unfoldable pub map_put : Text → Option Text → List (Text × Option Text) → List (Text × Option Text)
map_put key value [] = (key, value) ∷ []
map_put key value ((k, v) ∷ entries) =
    let rest = map_put key value entries in
    if text_eq k key then (key, value) ∷ entries else (k, v) ∷ rest

unfoldable pub map_get : Text → List (Text × Option Text) → Option Text
map_get key [] = none
map_get key ((k, v) ∷ entries) = let rest = map_get key entries in if text_eq k key then v else rest

-- `none` is NULL: no map, no such key, or a NULL value.
unfoldable pub tboot_config_get : Text → Config → Option Text
unfolding map_get
tboot_config_get key none = none
tboot_config_get key (some entries) = map_get key entries

unfoldable pub is_key : Text → List (Text × Option Text) → Bool
is_key key [] = false
is_key key ((k, v) ∷ entries) = text_eq key k || is_key key entries

-- Only the keywords of `tc_keys` can be set.
unfoldable pub tboot_config_set : Text → Option Text → Config → Config
unfolding map_put is_key
tboot_config_set key value none = none
tboot_config_set key value (some entries) =
    if is_key key defaults then some (map_put key value entries) else some entries

put_all : List (Text × Option Text) → List (Text × Option Text) → List (Text × Option Text)
put_all [] entries = entries
put_all ((k, v) ∷ pairs) entries = put_all pairs (map_put k v entries)

-- What the file says of one keyword, if it says anything.
take_value : (Text → Option Text) → Text → Config → Config
take_value file key config = elim (file key) [
  | none ↦ config
  | some value ↦ tboot_config_set key (some value) config
]

take_values : (Text → Option Text) → List (Text × Option Text) → Config → Config
unfolding take_value
take_values file [] config = config
take_values file ((k, v) ∷ pairs) config = take_values file pairs (take_value file k config)

-- `none`: no parser for the file; then no map is created either. The Boolean is `true` for 0.
unfoldable pub load_config : Option (Text → Option Text) → Bool × Config
unfolding put_all take_values
load_config none = (false, none)
load_config (some file) = (true, take_values file defaults (some (put_all defaults [])))
