-- ===== src/Util/Tests.antt =====
-- Concrete uses of src/tboot_util.c.
use tboot.Base.{◌≡◌, refl, ◌++◌, true, false, some, List, [], ◌∷◌, arith, codes, length, drop}
use tboot.Base.Int.{pos}
use tboot.Boot.{Boot, parse_cmdline_option}
use tboot.Uevent.{unknown}
use tboot.Util.{
  Write, wrote, named_file_write, write_loop, array_to_string, import_kernel_cmdline, each_option,
}
use tboot.Util.Writing.{named_file_write-whole}
use tboot.Util.Options.{Options, spaced, import_kernel_cmdline-array_to_string}

-- Five bytes, in two writes, over an older and longer file.
abbrev writes : List Write
writes = wrote 3 ∷ wrote 5 ∷ []

writes_succeed : (named_file_write (some (codes "older file")) writes (codes "image")).done ≡ true
unfolding named_file_write write_loop
writes_succeed = refl

named_file_write-whole_example :
    (named_file_write (some (codes "older file")) writes (codes "image")).contents
    ≡ codes "image" ++ drop (length (codes "image")) (codes "older file")
named_file_write-whole_example =
    named_file_write-whole (codes "older file") writes (codes "image") tt writes_succeed

abbrev fresh : Boot
fresh = record {
  use_autoboot = pos 0;
  autoboot_delay_secs = pos 8;
  scratch_size = pos 10;
  bootpart = codes "platform";
  bootdir = codes "boot";
  update_pause = pos 0;
  platform = unknown;
  autoboot_enabled = false;
  power_pressed = false;
  events = [];
}

two-Options : Options (codes "quiet" ∷ codes "tboot.delay=3" ∷ [])
two-Options = (
  tt,
  (refl, (refl, (refl, (refl, (refl, tt))))),
  (
    tt,
    (
      refl,
      (
        refl,
        (refl, (refl, (refl, (refl, (refl, (refl, (refl, (refl, (refl, (refl, (refl, tt))))))))))),
      ),
    ),
    tt,
  ),
)

import_kernel_cmdline-array_to_string_example :
    (array_to_string (codes "quiet" ∷ codes "tboot.delay=3" ∷ []) 32
      ≡ some (spaced (codes "quiet") (codes "tboot.delay=3" ∷ [])))
    × (import_kernel_cmdline
          (some (spaced (codes "quiet") (codes "tboot.delay=3" ∷ []) ++ (10 ∷ [])))
          parse_cmdline_option
          fresh
        ≡ each_option parse_cmdline_option (codes "quiet" ∷ codes "tboot.delay=3" ∷ []) fresh)
import_kernel_cmdline-array_to_string_example =
    import_kernel_cmdline-array_to_string (codes "quiet") (codes "tboot.delay=3" ∷ [])
      parse_cmdline_option fresh two-Options (omega arith)
