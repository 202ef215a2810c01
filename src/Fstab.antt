-- ===== src/Fstab.antt =====
-- src/fstab.c: the table of volumes, read from /etc/preos.fstab, and the lookups in it.
use tboot.Base.{
  ℕ, zero, suc, ◌+◌, ◌-◌, ◌/◌, ◌*◌, ◌%◌, ◌^◌, ◌≤◌, ◌<◌, min, ◌≡◌, refl, sym, ap, ◌∙◌, ◌≢◌, ◌↔◌, ◌⊎◌,
  inl, inr, Bool, true, false, not, ◌&&◌, ◌||◌, Option, none, some, List, [], ◌∷◌, ◌++◌, map, arith,
  String, Text, codes, text_eq, starts_with, after_char, before_char, text_eq_refl, text_eq-eq,
  text_eq_symm, text_eq_iff, starts_with-append, length, get_elem?, take, drop, length-append,
  length-take, length-drop, take-append-drop, take_all, take-take, drop-nil, drop-drop, drop_all,
  ltb, leb, ◌==◌, if◌then◌else◌, ltb→lt, lt→ltb, ==_iff, Bool-cases, Option-cases,
}
pub mod Table
pub mod Tests
use tboot.Base.Int.{ℤ, pos}
use tboot.Base.Number.{is_space, atoi}
use tboot.Base.Tokens.{strtok}

-- Volume of src/fstab.h; `none` is a NULL device.
pub record Volume : Type 0 where
  pub mount_point : Text
  pub fs_type : Text
  pub device : Option Text
  pub device2 : Option Text
  pub length : ℤ

-- " \t\n" and ","
abbrev pub is_blank : ℕ → Bool
is_blank c = c == 32 || c == 9 || c == 10

abbrev is_comma : ℕ → Bool
is_comma c = c == 44

-- The loop of `parse_options`. The length is one that fits in a `long long`; `none` stands for -1.
options_loop : List Text → Volume → Option Volume
options_loop [] v = some v
options_loop (option ∷ options) v =
    let rest = options_loop options (record v { length = atoi (drop 7 option) }) in
    if starts_with (codes "length=") option then rest else none

-- The options may be NULL; strtok() then goes on with a line of which nothing is left.
pub parse_options : Option Text → Volume → Option Volume
unfolding options_loop
parse_options none v = some v
parse_options (some options) v = options_loop (strtok is_comma options) v

-- The optional second device, and the options.
after_device : List Text → Option Text × Option Text
after_device [] = (none, none)
after_device (t ∷ tokens) =
    if starts_with (codes "/") t then (some t, get_elem? tokens 0) else (none, some t)

volume_of : List Text → Option Volume
unfolding after_device
volume_of (mount_point ∷ fs_type ∷ device ∷ tokens) =
    parse_options (after_device tokens).1 (record {
      mount_point = mount_point;
      fs_type = fs_type;
      device = some device;
      device2 = (after_device tokens).0;
      length = pos 0;
    })
volume_of _ = none

skip_space : Text → Text
skip_space [] = []
skip_space (c ∷ s) = let rest = skip_space s in if is_space c then rest else c ∷ s

entry : Text → Option Volume
unfolding volume_of
entry [] = none
entry (c ∷ s) = if c == 35 then none else volume_of (strtok is_blank (c ∷ s))

-- A line as a C string, without a NUL; `none`: the line is skipped.
pub parse_line : Text → Option Volume
unfolding skip_space entry
parse_line line = entry (skip_space line)

add_volume : Option Volume → List Volume → List Volume
add_volume none volumes = volumes
add_volume (some v) volumes = v ∷ volumes

-- A line as fgets() returns it ends at a NUL in it.
volumes_of : List Text → List Volume
unfolding add_volume
volumes_of [] = []
volumes_of (line ∷ lines) = add_volume (parse_line (before_char 0 line)) (volumes_of lines)

abbrev pub ramdisk : Volume
ramdisk = record {
  mount_point = codes "/tmp";
  fs_type = codes "ramdisk";
  device = none;
  device2 = none;
  length = pos 0;
}

file_volumes : Option (List Text) → List Volume
unfolding volumes_of
file_volumes none = []
file_volumes (some lines) = volumes_of lines

-- The table; `none` stands for a file that does not open. Allocation is taken to succeed.
pub load_volume_table : Option (List Text) → List Volume
unfolding file_volumes
load_volume_table file = ramdisk ∷ file_volumes file

-- The end of a path component: path[len] is '\0' or '/'.
abbrev pub at_boundary : Text → Bool
at_boundary [] = true
at_boundary (c ∷ s) = c == 47

abbrev pub is_on : Text → Volume → Bool
is_on path v = starts_with v.mount_point path && at_boundary (drop (length v.mount_point) path)

unfoldable pub volume_for_path : Text → List Volume → Option Volume
volume_for_path path [] = none
volume_for_path path (v ∷ volumes) = if is_on path v then some v else volume_for_path path volumes

abbrev is_null : Option Text → Bool
is_null none = true
is_null (some d) = false

abbrev pub names : Text → Option Text → Bool
names device none = false
names device (some d) = text_eq device d

abbrev has_device : Text → Volume → Bool
has_device device v = not (is_null v.device) && (names device v.device || names device v.device2)

unfoldable pub volume_for_device : Text → List Volume → Option Volume
volume_for_device device [] = none
volume_for_device device (v ∷ volumes) =
    if has_device device v then some v else volume_for_device device volumes

-- `is_rw`: devnode_rw() returns 0 for a path.
abbrev pub device_ok : (Text → Bool) → Option Text → Bool
device_ok is_rw none = true
device_ok is_rw (some []) = true
device_ok is_rw (some (c ∷ d)) = is_rw (c ∷ d)

-- `true` stands for 0.
pub check_devnodes : (Text → Bool) → List Volume → Bool
check_devnodes is_rw [] = true
check_devnodes is_rw (v ∷ volumes) =
    device_ok is_rw v.device && device_ok is_rw v.device2 && check_devnodes is_rw volumes
