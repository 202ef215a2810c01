-- ===== src/Boot/Options.antt =====
-- What an option of the kernel command line sets.
use tboot.Base.{
  ℕ, ◌≡◌, refl, inl, inr, false, [], ◌∷◌, ◌++◌, arith, Text, codes, text_eq, starts_with,
  after_char, before_char, Option-cases,
}
use tboot.Base.Number.{atoi}
use tboot.Uevent.{redhookbay}
use tboot.Boot.{Boot, parse_cmdline_option, option_value, set_option, platform_of}

-- Each of the seven options, the platform option with a value that starts with "redhookbay", sets
-- its own global from its value and nothing else, with one exception: the directory option sets the
-- partition, as the partition option does, and leaves the directory alone.
parse_cmdline_option-sets :
    (value : Text) (b : Boot)
    → (parse_cmdline_option (codes "tboot.bootloader=" ++ value) b
        ≡ record b { use_autoboot = atoi value })
      × (parse_cmdline_option (codes "tboot.delay=" ++ value) b
          ≡ record b { autoboot_delay_secs = atoi value })
      × (parse_cmdline_option (codes "tboot.scratch=" ++ value) b
          ≡ record b { scratch_size = atoi value })
      × (parse_cmdline_option (codes "tboot.bootpart=" ++ value) b ≡ record b { bootpart = value })
      × (parse_cmdline_option (codes "tboot.bootdir=" ++ value) b ≡ record b { bootpart = value })
      × (parse_cmdline_option (codes "tboot.updatepause=" ++ value) b
          ≡ record b { update_pause = atoi value })
      × (parse_cmdline_option (codes "tboot.platform=redhookbay" ++ value) b
          ≡ record b { platform = redhookbay })
unfolding parse_cmdline_option option_value set_option platform_of text_eq starts_with before_char
    after_char
parse_cmdline_option-sets value b = (refl, refl, refl, refl, refl, refl, refl)

starts-before :
    (p s : Text) (c : ℕ) → starts_with p s ≡ false → starts_with p (before_char c s) ≡ false
unfolding starts_with before_char
starts-before [] s c h = cc
starts-before (x ∷ p) [] c h = refl
starts-before (x ∷ p) (y ∷ s) c h = ground (arith, starts-before p s c)

-- An option that does not start with "tboot" changes nothing, whatever it looks like.
pub parse_cmdline_option_ignores :
    (option : Text) (b : Boot)
    → starts_with (codes "tboot") option ≡ false
    → parse_cmdline_option option b ≡ b
unfolding parse_cmdline_option option_value
parse_cmdline_option_ignores option b h = elim (Option-cases (after_char 61 option)) [
  | inl no_value ↦ rw no_value refl
  | inr (value, e) ↦ rw (e, option_value, starts-before (codes "tboot") option 61 h) refl
]
