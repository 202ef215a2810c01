-- ===== src/Config/Tests.antt =====
-- A concrete configuration file of src/tboot.c.
use tboot.Base.{◌≡◌, refl, Option, none, some, List, [], ◌∷◌, Text, codes, text_eq, if◌then◌else◌}
use tboot.Config.{defaults, is_key, map_get, rootfs_key, tboot_config_get, load_config}
use tboot.Config.Parser.{ConfigParser, parser, contents, config_parser_init, config_parser_get}
use tboot.Config.Parser.File.{Entry, WellFormed, print_entries, lookup, load_config-print}
use tboot.Config.Lookup.{file_or}

-- A file that gives only the root file system.
abbrev file : Text → Option Text
file key = if text_eq key rootfs_key then some (codes "/dev/sda1") else none

-- Two settings, one of them of no keyword.
abbrev entries : List Entry
entries =
    record {
      first = 112;
      key_rest = codes "ush_dir";
      value_first = 47;
      value_rest = codes "data";
      comment = [];
    }
    ∷ record {
      first = 98;
      key_rest = codes "at";
      value_first = 53;
      value_rest = [];
      comment = codes "low # =";
    }
    ∷ []

entries-WellFormed : WellFormed entries
entries-WellFormed = (
  (refl, (refl, (refl, (refl, (refl, (refl, (refl, (refl, tt)))))))),
  (refl, (refl, (refl, (refl, (refl, tt))))),
  tt,
  (
    (refl, (refl, (refl, tt))),
    (refl, tt),
    (refl, (refl, (refl, (refl, (refl, (refl, (refl, tt))))))),
    tt,
  ),
)

load_config-print_example :
    (cp : ConfigParser) × (config_parser_init
        (some (codes "/etc/tboot.conf"))
        (contents (print_entries entries))
      ≡ parser cp)
    × ((key : Text)
        → tboot_config_get key (load_config (some (config_parser_get cp))).1 ≡ (
            if is_key key defaults
            then file_or (lookup key entries) (map_get key defaults)
            else none))
load_config-print_example =
    load_config-print 47 (codes "etc/tboot.conf") entries entries-WellFormed (λ e. cc e)
