-- ===== src/Battery/Tests.antt =====
-- Concrete power supplies of src/battery.c.
use tboot.Base.{
  List, text_eq, ◌≡◌, refl, none, some, [], ◌∷◌, codes, starts_with, ℕ, true, Option, Text,
}
use tboot.Battery.Dirs.{
  Supply, battery_init_dirs, battery_of, batteries, read_supplies, read_supply, add_dir, grown,
  set_free, fresh_slots, supply_dir,
}

-- A power supply that is no battery, and one that is.
abbrev supplies : List Supply
supplies =
    record { name = codes "."; type_line = none }
    ∷ record { name = codes "AC"; type_line = some (codes "Mains") }
    ∷ record { name = codes "BAT0"; type_line = some (codes "Battery") }
    ∷ []

-- What these are.
one_battery_found : batteries supplies ≡ codes "/sys/class/power_supply/BAT0" ∷ []
unfolding battery_of text_eq starts_with
one_battery_found = refl

-- Memory that holds no NULL: the search for a free slot leaves the array.
abbrev no_null : ℕ → Option Text
no_null n = some (codes "?")

search_leaves : (battery_init_dirs no_null (some supplies)).fault ≡ true
unfolding battery_init_dirs read_supplies read_supply add_dir grown set_free fresh_slots supply_dir
    text_eq starts_with
search_leaves = refl
