-- ===== src/Config/Lookup.antt =====
-- What the configuration holds after loading and setting.
use tboot.Base.{
  ◌≡◌, refl, ap, ◌∙◌, inl, inr, true, false, ◌&&◌, Option, none, some, List, [], ◌∷◌, arith, Text,
  text_eq, text_eq_iff, if◌then◌else◌, Bool-cases, Option-cases,
}
use tboot.Config.{
  defaults, map_put, map_get, tboot_config_get, tboot_config_set, is_key, put_all, take_value,
  take_values, load_config,
}

get-put :
    (j k : Text) (v : Option Text) (entries : List (Text × Option Text))
    → map_get j (map_put k v entries) ≡ (if text_eq k j then v else map_get j entries)
unfolding map_get map_put
get-put j k v [] = refl
get-put j k v ((i, w) ∷ entries) =
    ground (arith, get-put j k v entries, text_eq_iff i k, text_eq_iff k j, text_eq_iff i j)

-- A keyword that is set reads back as set, and the other keywords as before; what is no keyword
-- cannot be set.
pub config_get-set :
    (j k : Text) (v : Option Text) (entries : List (Text × Option Text))
    → tboot_config_get j (tboot_config_set k v (some entries))
      ≡ (if is_key k defaults && text_eq k j then v else tboot_config_get j (some entries))
unfolding tboot_config_get tboot_config_set
config_get-set j k v entries = elim (Bool-cases (is_key k defaults)) [
  | inl valid ↦ rw (valid, get-put j k v entries) refl
  | inr other ↦ rw other refl
]

abbrev pub file_or : Option Text → Option Text → Option Text
file_or none default = default
file_or (some value) default = some value

abbrev AllKeys : List (Text × Option Text) → Type 0
AllKeys [] = Unit
AllKeys ((k, v) ∷ pairs) = (is_key k defaults ≡ true) × AllKeys pairs

-- One keyword of the file.
take-one :
    (file : Text → Option Text) (j k : Text) (entries : List (Text × Option Text))
    → is_key k defaults ≡ true
    → (entries' : List (Text × Option Text)) × (take_value file k (some entries) ≡ some entries')
      × (map_get j entries'
          ≡ (if text_eq k j then file_or (file k) (map_get j entries) else map_get j entries))
unfolding take_value tboot_config_set
take-one file j k entries valid = elim (Option-cases (file k)) [
  | inl no_value ↦ (entries, rw (no_value, take_value) refl, rw no_value (ground arith))
  | inr (value, e) ↦ (
    map_put k (some value) entries,
    rw (e, take_value) (rw valid refl),
    rw (get-put j k (some value) entries, e),
  )
]

take-all :
    (file : Text → Option Text) (j : Text) (pairs entries : List (Text × Option Text))
    → AllKeys pairs
    → tboot_config_get j (take_values file pairs (some entries))
      ≡ (if is_key j pairs then file_or (file j) (map_get j entries) else map_get j entries)
unfolding take_values tboot_config_get is_key
take-all file j [] entries h = refl
take-all file j ((k, v) ∷ pairs) entries h =
    let (entries', e, g) = take-one file j k entries h.0 in
    rw e (ground (arith, take-all file j pairs entries' h.1, g, text_eq_iff j k, text_eq_iff k j))

absent :
    (j : Text) (pairs : List (Text × Option Text)) → is_key j pairs ≡ false → map_get j pairs ≡ none
unfolding is_key map_get
absent j [] h = refl
absent j ((k, v) ∷ pairs) h = ground (arith, absent j pairs, text_eq_iff j k, text_eq_iff k j)

defaults-put : put_all defaults [] ≡ defaults
unfolding put_all map_put text_eq
defaults-put = refl

defaults-AllKeys : AllKeys defaults
unfolding is_key text_eq
defaults-AllKeys =
    (refl, (refl, (refl, (refl, (refl, (refl, (refl, (refl, (refl, (refl, (refl, tt)))))))))))

-- A keyword has after loading what the file says of it, or else its default value; what is no
-- keyword has no value, whatever the file says.
pub load_config-gets :
    (file : Text → Option Text) (key : Text)
    → tboot_config_get key (load_config (some file)).1
      ≡ (if is_key key defaults then file_or (file key) (map_get key defaults) else none)
unfolding load_config
load_config-gets file key =
    ap (λ entries. tboot_config_get key (take_values file defaults (some entries))) defaults-put
    ∙ take-all file key defaults defaults defaults-AllKeys
    ∙ ground (arith, absent key defaults)
