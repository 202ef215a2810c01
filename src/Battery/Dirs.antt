-- ===== src/Battery/Dirs.antt =====
-- `battery_init_dirs` of src/battery.c: the array of the directories that hold a battery.
pub mod Found
use tboot.Base.{
  ℕ, zero, suc, ◌+◌, ◌-◌, ◌*◌, ◌≤◌, ◌<◌, ◌≡◌, Bool, true, false, ◌||◌, Option, none, some, List, [],
  ◌∷◌, ◌++◌, map, Text, codes, text_eq, starts_with, length, take, if◌then◌else◌,
}

-- POWER_SUPPLY_DIR
abbrev pub power_supply_dir : Text
power_supply_dir = codes "/sys/class/power_supply"

-- An entry of the directory: its name, and the first line of its file `type`, `none` where the file
-- does not open or has no line.
pub record Supply : Type 0 where
  pub name : Text
  pub type_line : Option Text

-- `bat->dirs` with `bat->nr_dirs` slots, `none` for NULL, and the index `i` of the loop. `fault`: the
-- search for a slot has left the array.
pub record Slots : Type 0 where
  pub dirs : List (Option Text)
  pub i : ℕ
  pub fault : Bool

abbrev pub is_battery : Option Text → Bool
is_battery none = false
is_battery (some line) = starts_with (codes "Battery") line

abbrev pub is_dot : Text → Bool
is_dot name = text_eq name (codes ".") || text_eq name (codes "..")

-- The path of the file `type` without its last five characters.
unfoldable pub supply_dir : Text → Text
supply_dir name =
    let path = power_supply_dir ++ codes "/" ++ name ++ codes "/type" in take (length path - 5) path

-- dirs[nr_dirs - 1]
abbrev pub last_is_set : List (Option Text) → Bool
last_is_set [] = true
last_is_set (none ∷ []) = false
last_is_set (some d ∷ []) = true
last_is_set (o ∷ p ∷ dirs) = last_is_set (p ∷ dirs)

-- The slots `n` and on of memory that has just been allocated.
unfoldable pub fresh_slots : (ℕ → Option Text) → ℕ → ℕ → List (Option Text)
fresh_slots heap n zero = []
fresh_slots heap n (suc k) = heap n ∷ fresh_slots heap (suc n) k

-- The first free slot at `i` or behind it gets the directory; `none`: there is none.
unfoldable pub set_free : ℕ → List (Option Text) → Text → Option (List (Option Text) × ℕ)
set_free i [] d = none
set_free zero (none ∷ dirs) d = some (some d ∷ dirs, 0)
set_free zero (some e ∷ dirs) d = elim (set_free zero dirs d) [
  | none ↦ none
  | some (dirs', j) ↦ some (some e ∷ dirs', suc j)
]
set_free (suc i) (o ∷ dirs) d = elim (set_free i dirs d) [
  | none ↦ none
  | some (dirs', j) ↦ some (o ∷ dirs', suc j)
]

abbrev pub after_set : Slots → Option (List (Option Text) × ℕ) → Slots
after_set s none = record s { fault = true }
after_set s (some (dirs, i)) = record s { dirs = dirs; i = i }

module _ (heap : ℕ → Option Text) where
  -- A full array is made twice as long.
  unfoldable pub grown : Slots → Slots
  unfolding fresh_slots
  grown s =
      if last_is_set s.dirs
      then record s { dirs = s.dirs ++ fresh_slots heap (length s.dirs) (length s.dirs) }
      else s

  unfoldable pub add_dir : Text → Slots → Slots
  unfolding grown set_free
  add_dir d s = let s' = grown s in after_set s' (set_free s'.i s'.dirs d)

  unfoldable pub read_supply : Supply → Slots → Slots
  unfolding add_dir supply_dir
  read_supply e s =
      if is_dot e.name
      then s
      else if is_battery e.type_line
      then add_dir (supply_dir e.name) s
      else s

  unfoldable pub read_supplies : List Supply → Slots → Slots
  unfolding read_supply
  read_supplies [] s = s
  read_supplies (e ∷ supplies) s = read_supplies supplies (read_supply e s)

  -- `battery_init_dirs` on the array of `battery_init`; `none`: the directory does not open.
  unfoldable pub battery_init_dirs : Option (List Supply) → Slots
  unfolding read_supplies fresh_slots
  battery_init_dirs none = record { dirs = fresh_slots heap 0 1; i = 0; fault = false }
  battery_init_dirs (some supplies) =
      read_supplies supplies (record { dirs = fresh_slots heap 0 1; i = 0; fault = false })

-- The directories with a battery, each by its path.
unfoldable pub battery_of : Supply → List Text
battery_of e =
    if is_dot e.name
    then []
    else if is_battery e.type_line
    then (power_supply_dir ++ codes "/" ++ e.name) ∷ []
    else []

abbrev pub batteries : List Supply → List Text
batteries [] = []
batteries (e ∷ supplies) = battery_of e ++ batteries supplies

abbrev pub nulls : ℕ → List (Option Text)
nulls zero = []
nulls (suc n) = none ∷ nulls n

-- The array after some directories: they stand at its front and NULLs follow. It has a slot at
-- least, and at most one more than twice as many as directories.
abbrev pub Holds : List Text → ℕ → Slots → Type 0
Holds ds free s =
    (s.dirs ≡ map some ds ++ nulls free)
    × (s.i ≤ length ds)
    × (s.fault ≡ false)
    × (0 < length ds + free)
    × (length ds + free ≤ 1 + 2 * length ds)
