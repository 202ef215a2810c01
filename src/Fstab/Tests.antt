-- ===== src/Fstab/Tests.antt =====
-- A concrete table of volumes.
use tboot.Base.{◌≡◌, refl, none, some, codes}
use tboot.Base.Int.{pos}
use tboot.Fstab.{Volume, parse_line}
use tboot.Fstab.Table.{print_line, parse_line-print_line}

abbrev cache : Volume
cache = record {
  mount_point = codes "/cache";
  fs_type = codes "ext4";
  device = some (codes "/dev/mmcblk0p6");
  device2 = none;
  length = pos 0;
}

parse_line-print_line_example :
    parse_line (print_line (codes "/cache") (codes "ext4") (codes "/dev/mmcblk0p6")) ≡ some cache
parse_line-print_line_example =
    parse_line-print_line (codes "/cache") (codes "ext4") (codes "/dev/mmcblk0p6")
      ((refl, (refl, (refl, (refl, (refl, (refl, tt)))))), refl)
      ((refl, (refl, (refl, (refl, tt)))), refl)
      (
        (
          refl,
          (
            refl,
            (
              refl,
              (
                refl,
                (refl, (refl, (refl, (refl, (refl, (refl, (refl, (refl, (refl, (refl, tt)))))))))),
              ),
            ),
          ),
        ),
        refl,
      )
