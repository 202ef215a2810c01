-- ===== src/Fstab/Table.antt =====
-- What the table of volumes holds, and what the lookups find.
use tboot.Base.{
  ℕ, ◌≡◌, refl, sym, ◌↔◌, ◌⊎◌, inl, inr, Bool, true, false, Option, none, some, List, [], ◌∷◌, ◌++◌,
  arith, Text, codes, starts_with, length, drop, ◌==◌, Bool-cases,
}
use mathlib.Core.Path.{subst}
use tboot.Base.Int.{pos}
use tboot.Base.Number.{is_space}
use tboot.Base.Tokens.{strtok, NoDelim, strtok-field, strtok-nil}
use tboot.Fstab.{
  Volume, is_blank, parse_options, after_device, volume_of, skip_space, entry, parse_line, ramdisk,
  load_volume_table, at_boundary, is_on, volume_for_path, device_ok, check_devnodes,
}

-- A field of a line: not empty, without white space, and not starting a comment.
abbrev NoBlank : Text → Type 0
NoBlank [] = Unit
NoBlank (c ∷ s) = (is_space c ≡ false) × NoBlank s

NoBlank-NoDelim : (w : Text) → NoBlank w → NoDelim is_blank w
NoBlank-NoDelim [] h = tt
NoBlank-NoDelim (c ∷ w) h = (ground (arith, h.0), NoBlank-NoDelim w h.1)

-- A field and a space or a newline give that field, and then the fields of the rest.
line-field :
    (c : ℕ) (w : Text) (sep : ℕ) (s : Text)
    → NoBlank (c ∷ w)
    → is_blank sep ≡ true
    → strtok is_blank ((c ∷ w) ++ (sep ∷ s)) ≡ (c ∷ w) ∷ strtok is_blank s
line-field c w sep s h e = strtok-field is_blank c w sep s (NoBlank-NoDelim (c ∷ w) h) e

-- A field as a line holds it.
abbrev IsField : Text → Type 0
IsField [] = ⊥
IsField (c ∷ w) = NoBlank (c ∷ w) × ((c == 35) ≡ false)

-- The line that states a volume with one device.
abbrev pub print_line : Text → Text → Text → Text
print_line mount_point fs_type device =
    mount_point ++ (32 ∷ (fs_type ++ (32 ∷ (device ++ (10 ∷ [])))))

-- A line of three fields, separated by a space each, is read as the volume with these fields, no
-- second device and length 0.
pub parse_line-print_line :
    (mount_point fs_type device : Text)
    → IsField mount_point
    → IsField fs_type
    → IsField device
    → parse_line (print_line mount_point fs_type device)
      ≡ some (record {
        mount_point = mount_point;
        fs_type = fs_type;
        device = some device;
        device2 = none;
        length = pos 0;
      })
unfolding parse_line skip_space entry parse_options
parse_line-print_line [] f d h i j = absurd h
parse_line-print_line (m ∷ ms) [] d h i j = absurd i
parse_line-print_line (m ∷ ms) (f ∷ fs) [] h i j = absurd j
parse_line-print_line (m ∷ ms) (f ∷ fs) (d ∷ ds) h i j =
    rw
      (
        h.0.0,
        h.1,
        line-field m ms 32 ((f ∷ fs) ++ (32 ∷ ((d ∷ ds) ++ (10 ∷ [])))) h.0 refl,
        line-field f fs 32 ((d ∷ ds) ++ (10 ∷ [])) i.0 refl,
        line-field d ds 10 [] j.0 refl,
        strtok-nil is_blank,
        volume_of,
        after_device,
      )
      refl

-- Whatever the file says, or if it does not open, paths in /tmp belong to the ramdisk.
pub volume_for_path_tmp :
    (file : Option (List Text)) (rest : Text)
    → at_boundary rest ≡ true
    → volume_for_path (codes "/tmp" ++ rest) (load_volume_table file) ≡ some ramdisk
unfolding volume_for_path load_volume_table starts_with
volume_for_path_tmp file rest h = rw h refl

-- Every node that a volume names exists and can be read and written.
abbrev pub AllUsable : (Text → Bool) → List Volume → Type 0
AllUsable is_rw [] = Unit
AllUsable is_rw (v ∷ volumes) =
    (device_ok is_rw v.device ≡ true) × (device_ok is_rw v.device2 ≡ true) × AllUsable is_rw volumes

-- What the startup check accepts is a table in which every node that a volume names is usable, and
-- it accepts every such table.
pub check_devnodes_iff :
    (is_rw : Text → Bool) (volumes : List Volume)
    → (check_devnodes is_rw volumes ≡ true) ↔ AllUsable is_rw volumes
unfolding check_devnodes
check_devnodes_iff is_rw [] = ground arith
check_devnodes_iff is_rw (v ∷ volumes) = ground (arith, check_devnodes_iff is_rw volumes)

starts_with-drop : (p s : Text) → starts_with p s ≡ true → s ≡ p ++ drop (length p) s
unfolding starts_with
starts_with-drop [] s h = refl
starts_with-drop (x ∷ p) [] h = cc
starts_with-drop (x ∷ p) (y ∷ s) h = ground (arith, starts_with-drop p s)

-- The path is the mount point, followed by nothing or by '/' and more.
abbrev pub LiesOn : Text → Volume → Type 0
LiesOn path v = (rest : Text) × (path ≡ v.mount_point ++ rest) × (at_boundary rest ≡ true)

is_on-LiesOn : (path : Text) (v : Volume) → is_on path v ≡ true → LiesOn path v
is_on-LiesOn path v on = (
  drop (length v.mount_point) path,
  starts_with-drop v.mount_point path (ground arith),
  ground arith,
)

-- The place of a volume in the table, none of whose earlier volumes is on the path.
abbrev pub FirstOn : Text → Volume → List Volume → Type 0
FirstOn path v [] = ⊥
FirstOn path v (w ∷ volumes) = (v ≡ w) ⊎ ((is_on path w ≡ false) × FirstOn path v volumes)

-- A volume that is found for a path is the first of the table that is on it, and the path is the
-- mount point of the volume, followed by nothing or by '/' and more.
volume_for_path-FirstOn :
    (path : Text) (volumes : List Volume) (v : Volume)
    → volume_for_path path volumes ≡ some v
    → FirstOn path v volumes × LiesOn path v
unfolding volume_for_path
volume_for_path-FirstOn path [] v h = cc
volume_for_path-FirstOn path (w ∷ volumes) v h = elim (Bool-cases (is_on path w)) [
  | inl on ↦
      let e : v ≡ w = ground (arith, on) in
      (inl e, subst (LiesOn path) (sym e) (is_on-LiesOn path w on))
  | inr off ↦
      let found = volume_for_path-FirstOn path volumes v (ground arith) in
      (inr (off, found.0), found.1)
]
