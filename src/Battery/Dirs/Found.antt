-- ===== src/Battery/Dirs/Found.antt =====
-- What `battery_init_dirs` of src/battery.c finds.
use tboot.Base.{
  ℕ, zero, suc, ◌+◌, ◌-◌, ◌≤◌, ◌≡◌, refl, sym, ap, ◌∙◌, inl, inr, true, false, Option, none, some,
  List, [], ◌∷◌, ◌++◌, map, arith, Text, codes, length, length-append, take, take-append,
  Bool-cases,
}
use mathlib.Core.Path.{subst}
use mathlib.Core.List.{append-nil, append_assoc}
use tboot.Battery.Dirs.{
  power_supply_dir, Supply, Slots, is_battery, is_dot, supply_dir, last_is_set, fresh_slots,
  set_free, grown, add_dir, read_supply, read_supplies, battery_init_dirs, battery_of, batteries,
  nulls, Holds,
}

map-some_append :
    (ds : List Text) (d : Text) (rest : List (Option Text))
    → map some (ds ++ d ∷ []) ++ rest ≡ map some ds ++ some d ∷ rest
map-some_append [] d rest = refl
map-some_append (e ∷ ds) d rest = ap (λ l. some e ∷ l) (map-some_append ds d rest)

length-nulls : (n : ℕ) → length (nulls n) ≡ n
length-nulls zero = refl
length-nulls (suc n) = omega (arith, length-nulls n)

length-slots : (ds : List Text) (n : ℕ) → length (map some ds ++ nulls n) ≡ length ds + n
length-slots [] n = omega (arith, length-nulls n)
length-slots (d ∷ ds) n = omega (arith, length-slots ds n)

last-nulls : (n : ℕ) → last_is_set (nulls (suc n)) ≡ false
last-nulls zero = refl
last-nulls (suc n) = last-nulls n

last_free : (ds : List Text) (n : ℕ) → last_is_set (map some ds ++ nulls (suc n)) ≡ false
last_free [] n = last-nulls n
last_free (d ∷ []) n = last-nulls n
last_free (d ∷ e ∷ ds) n = last_free (e ∷ ds) n

last_full : (d : Text) (ds : List Text) → last_is_set (map some (d ∷ ds) ++ []) ≡ true
last_full d [] = refl
last_full d (e ∷ ds) = last_full e ds

set_free-first :
    (i : ℕ) (ds : List Text) (rest : List (Option Text)) (d : Text)
    → i ≤ length ds
    → set_free i (map some ds ++ none ∷ rest) d ≡ some (map some ds ++ some d ∷ rest, length ds)
unfolding set_free
set_free-first zero [] rest d le = refl
set_free-first (suc i) [] rest d le = absurd (omega (arith, le))
set_free-first zero (e ∷ ds) rest d le = rw (set_free-first zero ds rest d (omega arith)) refl
set_free-first (suc i) (e ∷ ds) rest d le = rw (set_free-first i ds rest d (omega arith)) refl

supply_dir_lem : (name : Text) → supply_dir name ≡ power_supply_dir ++ codes "/" ++ name
unfolding supply_dir
supply_dir_lem name =
    let dir = power_supply_dir ++ codes "/" ++ name in
    let shorter : length (dir ++ codes "/type") - 5 ≡ length dir =
      omega (arith, length-append dir (codes "/type")) in
    ap (λ n. take n (dir ++ codes "/type")) shorter ∙ take-append dir (codes "/type")

module _ (heap : ℕ → Option Text) (cleared : (n : ℕ) → heap n ≡ none) where
  fresh-nulls : (n k : ℕ) → fresh_slots heap n k ≡ nulls k
  unfolding fresh_slots
  fresh-nulls n zero = refl
  fresh-nulls n (suc k) = rw (cleared n) (ap (λ l. none ∷ l) (fresh-nulls (suc n) k))

  grown-kept : (s : Slots) → last_is_set s.dirs ≡ false → grown heap s ≡ s
  unfolding grown
  grown-kept s e = rw e refl

  grown-twice :
      (s : Slots)
      → last_is_set s.dirs ≡ true
      → grown heap s ≡ record s { dirs = s.dirs ++ nulls (length s.dirs) }
  unfolding grown
  grown-twice s e = rw (e, fresh-nulls (length s.dirs) (length s.dirs)) refl

  -- There is a free slot behind the directories once a full array has grown.
  grown-Holds :
      (ds : List Text) (free : ℕ) (s : Slots)
      → Holds ds free s
      → (left : ℕ) × Holds ds (suc left) (grown heap s)
  grown-Holds ds (suc left) s holds =
      let kept = grown-kept s (ap last_is_set holds.0 ∙ last_free ds left) in
      (left, subst (Holds ds (suc left)) (sym kept) holds)
  grown-Holds [] zero s (dirs, i, sound, some_slot, few) = absurd (omega (arith, some_slot))
  grown-Holds (d ∷ ds) zero s (dirs, i, sound, some_slot, few) =
      let twice = grown-twice s (ap last_is_set dirs ∙ last_full d ds) in
      let whole = dirs ∙ append-nil (map some (d ∷ ds)) in
      let count : length s.dirs ≡ suc (length ds) =
        ap length dirs ∙ length-slots (d ∷ ds) 0 ∙ omega arith in
      let longer =
        ap (λ l. l ++ nulls (length s.dirs)) whole ∙ ap (λ n. map some (d ∷ ds) ++ nulls n) count in
      (
        length ds,
        subst (Holds (d ∷ ds) (suc (length ds))) (sym twice)
            (longer, i, sound, omega arith, omega arith),
      )

  add_dir-Holds :
      (d : Text) (ds : List Text) (free : ℕ) (s : Slots)
      → Holds ds free s
      → (left : ℕ) × Holds (ds ++ d ∷ []) left (add_dir heap d s)
  unfolding add_dir
  add_dir-Holds d ds free s holds =
      let (left, (dirs, i, sound, some_slot, few)) = grown-Holds ds free s holds in
      let count = length-append ds (d ∷ []) in
      let place =
        ap (λ l. set_free (grown heap s).i l d) dirs ∙ set_free-first _ ds (nulls left) d i in
      (
        left,
        rw place (
          sym (map-some_append ds d (nulls left)),
          omega (arith, count),
          sound,
          omega (arith, count),
          omega (arith, count, few),
        ),
      )

  passed_over :
      (e : Supply) (s : Slots)
      → is_dot e.name ≡ true
      → (read_supply heap e s ≡ s) × (battery_of e ≡ [])
  unfolding read_supply battery_of
  passed_over e s dot = (rw dot refl, rw dot refl)

  no_battery :
      (e : Supply) (s : Slots)
      → is_dot e.name ≡ false
      → is_battery e.type_line ≡ false
      → (read_supply heap e s ≡ s) × (battery_of e ≡ [])
  unfolding read_supply battery_of
  no_battery e s named other = (rw (named, other) refl, rw (named, other) refl)

  one_battery :
      (e : Supply) (s : Slots)
      → is_dot e.name ≡ false
      → is_battery e.type_line ≡ true
      → let dir = power_supply_dir ++ codes "/" ++ e.name in
        (read_supply heap e s ≡ add_dir heap dir s) × (battery_of e ≡ dir ∷ [])
  unfolding read_supply battery_of
  one_battery e s named battery = (
    rw (named, battery) (ap (λ d. add_dir heap d s) (supply_dir_lem e.name)),
    rw (named, battery) refl,
  )

  unchanged :
      (e : Supply) (ds : List Text) (free : ℕ) (s : Slots)
      → (read_supply heap e s ≡ s) × (battery_of e ≡ [])
      → Holds ds free s
      → Holds (ds ++ battery_of e) free (read_supply heap e s)
  unchanged e ds free s (same, none_found) holds =
      subst (Holds (ds ++ battery_of e) free) (sym same)
        (subst (λ l. Holds l free s) (sym (ap (λ l. ds ++ l) none_found ∙ append-nil ds)) holds)

  supply-Holds :
      (e : Supply) (ds : List Text) (free : ℕ) (s : Slots)
      → Holds ds free s
      → (left : ℕ) × Holds (ds ++ battery_of e) left (read_supply heap e s)
  supply-Holds e ds free s holds = elim (Bool-cases (is_dot e.name)) [
    | inl dot ↦ (free, unchanged e ds free s (passed_over e s dot) holds)
    | inr named ↦ elim (Bool-cases (is_battery e.type_line)) [
      | inr other ↦ (free, unchanged e ds free s (no_battery e s named other) holds)
      | inl battery ↦
          let dir = power_supply_dir ++ codes "/" ++ e.name in
          let (step, found) = one_battery e s named battery in
          let (left, added) = add_dir-Holds dir ds free s holds in
          (
            left,
            subst (Holds (ds ++ battery_of e) left) (sym step)
                (subst (λ l. Holds (ds ++ l) left (add_dir heap dir s)) (sym found) added),
          )
    ]
  ]

  read-Holds :
      (supplies : List Supply) (ds : List Text) (free : ℕ) (s : Slots)
      → Holds ds free s
      → (left : ℕ) × Holds (ds ++ batteries supplies) left (read_supplies heap supplies s)
  unfolding read_supplies
  read-Holds [] ds free s holds = (free, subst (λ l. Holds l free s) (sym (append-nil ds)) holds)
  read-Holds (e ∷ supplies) ds free s holds =
      let (left, one) = supply-Holds e ds free s holds in
      let (left', rest) =
        read-Holds supplies (ds ++ battery_of e) left (read_supply heap e s) one in
      (
        left',
        subst (λ l. Holds l left' (read_supplies heap supplies (read_supply heap e s)))
            (append_assoc ds (battery_of e) (batteries supplies)) rest,
      )

  -- If new memory is cleared, the array holds the paths of all power supplies whose type begins with
  -- "Battery", in the order of the directory and no others, followed by NULLs; it has a slot at least
  -- and at most one more than twice as many as there are paths, and the search for a free slot never
  -- leaves it.
  pub battery_init_dirs-Finds :
      (supplies : List Supply)
      → (left : ℕ) × Holds (batteries supplies) left (battery_init_dirs heap (some supplies))
  unfolding battery_init_dirs
  battery_init_dirs-Finds supplies =
      read-Holds supplies [] 1 (record { dirs = fresh_slots heap 0 1; i = 0; fault = false })
        (fresh-nulls 0 1, omega arith, refl, omega arith, omega arith)
