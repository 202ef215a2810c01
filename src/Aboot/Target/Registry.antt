-- ===== src/Aboot/Target/Registry.antt =====
-- The maps in which src/aboot.c keeps the functions that the plugins register.
use tboot.Base.{
  ◌≡◌, refl, sym, ap, ◌∙◌, ◌≢◌, inl, inr, Bool, true, false, Option, none, some, List, [], ◌∷◌,
  Text, text_eq, text_eq_refl, text_eq-eq, if◌then◌else◌, Bool-cases,
}
use tboot.Aboot.Target.{hashmap_get, register_unless, aboot_register_cmd}

-- All the functions in a map of the plugins keep a law.
unfoldable pub AllOf {ℓ ℓ'} : {A : Type ℓ} → (A → Type ℓ') → List (Text × A) → Type ℓ'
AllOf law [] = Unit
AllOf law ((key, a) ∷ entries) = law a × AllOf law entries

pub found-law {ℓ ℓ'} :
    {A : Type ℓ} (law : A → Type ℓ') (key : Text) (entries : List (Text × A)) (a : A)
    → AllOf law entries
    → hashmap_get key entries ≡ some a
    → law a
unfolding AllOf hashmap_get
found-law law key [] a all e = cc
found-law law key ((k, v) ∷ entries) a all e = elim (Bool-cases (text_eq k key)) [
  | inl same ↦
      let here : (if true then some v else hashmap_get key entries) ≡ some a =
        ap (λ b. if b then some v else hashmap_get key entries) (sym same) ∙ e in
      let found : a ≡ v = cc here in rw found all.0
  | inr other ↦
      found-law law key entries a all.1
        (ap (λ b. if b then some v else hashmap_get key entries) (sym other) ∙ e)
]

different : (key other : Text) → other ≢ key → text_eq key other ≡ false
different key other apart = elim (Bool-cases (text_eq key other)) [
  | inl same ↦ absurd (apart (sym (text_eq-eq key other same)))
  | inr e ↦ e
]

-- What registering under `key` comes to.
Registers {ℓ} :
    {A : Type ℓ} → Text → Text → A → List (Text × A) → Option A → Bool × List (Text × A) → Type ℓ
Registers key other callback entries found (registered, entries') =
    ((found ≡ none) → (registered ≡ true) × (hashmap_get key entries' ≡ some callback))
    × ((found ≢ none) → (registered ≡ false) × (entries' ≡ entries))
    × (other ≢ key → hashmap_get other entries' ≡ hashmap_get other entries)

register_unless-Registers {ℓ} :
    {A : Type ℓ} (key other : Text) (callback : A) (entries : List (Text × A)) (found : Option A)
    → Registers key other callback entries found (register_unless found key callback entries)
unfolding Registers register_unless hashmap_get
register_unless-Registers key other callback entries none = (
  λ _. (refl, rw (text_eq_refl key) refl),
  λ taken. absurd (taken refl),
  λ apart. rw (different key other apart) refl,
)
register_unless-Registers key other callback entries (some a) =
    (λ free. cc free, λ _. (refl, refl), λ _. refl)

-- A new name is registered and found with its function; under a name that is taken registering
-- fails and changes nothing; every other name keeps what it had.
pub aboot_register_cmd-get {ℓ} :
    {A : Type ℓ} (key other : Text) (callback : A) (entries : List (Text × A))
    → let (registered, entries') = aboot_register_cmd key callback entries in
      ((hashmap_get key entries ≡ none)
        → (registered ≡ true) × (hashmap_get key entries' ≡ some callback))
      × ((hashmap_get key entries ≢ none) → (registered ≡ false) × (entries' ≡ entries))
      × (other ≢ key → hashmap_get other entries' ≡ hashmap_get other entries)
unfolding aboot_register_cmd Registers
aboot_register_cmd-get key other callback entries =
    register_unless-Registers key other callback entries (hashmap_get key entries)
