-- ===== src/Aboot/Target.antt =====
-- What the commands of src/aboot.c work on: the disk as libdiskconfig describes it, the table of
-- volumes, what the kernel and the programs that are run answer, and the functions that the plugins
-- have registered. All of it is the environment's.
pub mod Registry
use tboot.Base.{
  ℕ, zero, suc, ◌+◌, ◌-◌, ◌/◌, ◌*◌, ◌%◌, ◌^◌, ◌≤◌, ◌<◌, min, ◌≡◌, refl, sym, ap, ◌∙◌, ◌≢◌, ◌↔◌, ◌⊎◌,
  inl, inr, Bool, true, false, not, ◌&&◌, ◌||◌, Option, none, some, List, [], ◌∷◌, ◌++◌, map, arith,
  String, Text, codes, text_eq, starts_with, after_char, before_char, text_eq_refl, text_eq-eq,
  text_eq_symm, text_eq_iff, starts_with-append, length, get_elem?, take, drop, length-append,
  length-take, length-drop, take-append-drop, take_all, take-take, drop-nil, drop-drop, drop_all,
  ltb, leb, ◌==◌, if◌then◌else◌, ltb→lt, lt→ltb, ==_iff, Bool-cases, Option-cases,
}
use tboot.Base.Int.{ℤ, pos, negsuc, is_zero}
use tboot.Fstab.{Volume, volume_for_device}
use tboot.Fastboot.{Session}

-- struct part_info, as far as the commands look at it.
pub record Part : Type 0 where
  pub name : Text
  pub len_kb : ℕ
  pub is_linux : Bool

-- `disk_device` and `part_lst` are fields of `disk_info`; `find_part` and `find_part_device` are
-- libdiskconfig's. `is_valid_blkdev`: stat() finds a block device. `make_ext4fs`: the function of
-- ext4_utils returns 0. `execute`: the exit status of a program. `magic`: the magic number of the
-- superblock of a device, `none` where it does not open, seek or read. A flash function is given the
-- image, an oem function its arguments; each returns its result, and may reply.
pub record Target : Type 0 where
  pub disk_device : Text
  pub part_lst : List Part
  pub find_part : Text → Option Part
  pub find_part_device : Text → Option Text
  pub volumes : List Volume
  pub is_valid_blkdev : Text → Bool
  pub make_ext4fs : Text → ℤ → Bool
  pub execute : Text → ℤ
  pub magic : Text → Option ℕ
  pub flash_cmds : List (Text × (Text → Session → ℤ × Session))
  pub oem_cmds : List (Text × (List Text → Session → ℤ × Session))

-- hashmapGet
unfoldable pub hashmap_get {ℓ} : {A : Type ℓ} → Text → List (Text × A) → Option A
hashmap_get key [] = none
hashmap_get key ((k, v) ∷ entries) = if text_eq k key then some v else hashmap_get key entries

unfoldable pub register_unless {ℓ} :
    {A : Type ℓ} → Option A → Text → A → List (Text × A) → Bool × List (Text × A)
register_unless (some v) key callback entries = (false, entries)
register_unless none key callback entries = (true, (key, callback) ∷ entries)

-- `aboot_register_cmd`; `true` stands for 0. The map is the list of its entries.
unfoldable pub aboot_register_cmd {ℓ} :
    {A : Type ℓ} → Text → A → List (Text × A) → Bool × List (Text × A)
unfolding hashmap_get register_unless
aboot_register_cmd key callback entries =
    register_unless (hashmap_get key entries) key callback entries

-- `ext4_filesystem_checks`; `true` stands for 0.
pub ext4_filesystem_checks : Target → Text → Bool
ext4_filesystem_checks target device =
    is_zero (target.execute (codes "/bin/e2fsck -C 0 -fn " ++ device))
    && is_zero (target.execute (codes "/bin/resize2fs -Ff " ++ device))
    && is_zero (target.execute (codes "/bin/tune2fs -C 1 " ++ device))

is_ext_magic : Option ℕ → Option Bool
is_ext_magic none = none
is_ext_magic (some m) = some (m == 0xEF53)

superblock_of : Target → Option Text → Option Bool
superblock_of target none = none
superblock_of target (some device) = is_ext_magic (target.magic device)

-- `check_ext_superblock`: `none` stands for -1, the Boolean for what is stored at `sb_present`.
pub check_ext_superblock : Target → Part → Option Bool
unfolding is_ext_magic superblock_of
check_ext_superblock target ptn = superblock_of target (target.find_part_device ptn.name)

-- `erase_partition`: 0, -1, or the end of the process in die().
pub data Erased : Type 0 where
  erased not_erased died : Erased

erase_volume : Target → Option Volume → Erased
erase_volume target none = not_erased
erase_volume target (some (v)) =
    if text_eq v.fs_type (codes "ext4")
    then elim v.device [
      | none ↦ not_erased
      | some device ↦ if target.make_ext4fs device v.length then erased else not_erased
    ]
    else not_erased

erase_device : Target → Option Text → Erased
unfolding erase_volume
erase_device target none = died
erase_device target (some device) =
    if target.is_valid_blkdev device
    then erase_volume target (volume_for_device device target.volumes)
    else not_erased

pub erase_partition : Target → Part → Erased
unfolding erase_device
erase_partition target ptn = erase_device target (target.find_part_device ptn.name)
