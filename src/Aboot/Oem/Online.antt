-- ===== src/Aboot/Oem/Online.antt =====
-- `cmd_oem` of src/aboot.c keeps the protocol online.
use tboot.Base.{
  ℕ, ◌≡◌, refl, inl, inr, Option, none, some, List, [], ◌∷◌, Text, codes, text_eq, length, take,
  ◌==◌, Bool-cases,
}
use tboot.Base.Int.{ℤ, is_zero}
use tboot.Base.Tokens.{strtok}
use tboot.Config.{push_dir_key, tboot_config_get}
use tboot.Fastboot.{Session}
use tboot.Fastboot.Online.{Online, fastboot_info-Online, fastboot_fail-Online, fastboot_okay-Online}
use tboot.Device.{Device}
use tboot.Aboot.Target.{Target, hashmap_get}
use tboot.Aboot.Target.Registry.{AllOf, found-law}
use tboot.Aboot.Commands.{show}
use tboot.Aboot.Commands.Online.{list_keys-Online}
use tboot.Aboot.Oem.{
  Storage, is_gap, drop_gaps, max_oem_args, warn_statfs, push_store, push_to, push_path, has_room,
  push_help, push_usage, is_help, oem_push, plugin_result, oem_found, oem_tokens, oem_list,
  oem_command, cmd_oem,
}

abbrev pub OemLaw : ℕ → (List Text → Session → ℤ × Session) → Type 0
OemLaw n callback = (args : List Text) (s : Session) → Online n s → Online n (callback args s).1

module _ (n : ℕ) (target : Target) (storage : Storage) where
  warn-Online : (f : Option (ℕ × ℕ)) (s : Session) → Online n s → Online n (warn_statfs f s)
  unfolding warn_statfs show
  warn-Online none s on = on
  warn-Online (some f) s on = on

  store-Online :
      (saved : Option ℕ) (path name bytes : Text) (d : Device)
      → Online n d.session
      → Online n (push_store saved path name bytes d).session
  unfolding push_store show
  store-Online none path name bytes d on =
      fastboot_fail-Online n (codes "create file failed.") d.session on
  store-Online (some saved) path name bytes d on = elim (Bool-cases (saved == length bytes)) [
    | inl all ↦ rw all (fastboot_okay-Online n path d.session on)
    | inr part ↦ rw part (fastboot_fail-Online n (codes "oem push, fwrite") d.session on)
  ]

  push_to-Online :
      (dir : Option Text) (name bytes : Text) (d : Device)
      → Online n d.session
      → Online n (push_to storage dir name bytes d).session
  unfolding push_to show
  push_to-Online none name bytes d on = on
  push_to-Online (some []) name bytes d on = on
  push_to-Online (some (c ∷ dir)) name bytes d on =
      let warned = warn-Online storage.free d.session on in
      elim (Bool-cases (has_room storage.free (length bytes))) [
        | inl room ↦
            rw room
              (store-Online (storage.stored (push_path (c ∷ dir) name) bytes) _ name bytes _ warned)
        | inr full ↦ rw full (fastboot_fail-Online n (codes "file size is too large.") d.session on)
      ]

  help-Online : (d : Device) → Online n d.session → Online n (push_help d).session
  help-Online d on = fastboot_okay-Online n [] _ (fastboot_info-Online n push_usage d.session on)

  push-Online :
      (args : List Text) (d : Device)
      → Online n d.session
      → Online n (oem_push storage args d).session
  unfolding oem_push
  push-Online [] d on = help-Online d on
  push-Online (name ∷ []) d on = elim (Bool-cases (is_help name)) [
    | inl help ↦ rw help (help-Online d on)
    | inr push ↦ rw push (push_to-Online (tboot_config_get push_dir_key d.config) name _ d on)
  ]
  push-Online (name ∷ other ∷ args) d on = help-Online d on

  plugin-Online : (name : Text) (r : ℤ × Session) → Online n r.1 → Online n (plugin_result name r)
  unfolding plugin_result
  plugin-Online name (ret, s) on = elim (Bool-cases (is_zero ret)) [
    | inl done ↦ rw done (fastboot_okay-Online n [] s on)
    | inr other ↦ rw other (fastboot_fail-Online n name s on)
  ]

  oem_found-Online :
      (found : Option (List Text → Session → ℤ × Session)) (name : Text) (args : List Text)
      (d : Device)
      → AllOf (OemLaw n) target.oem_cmds
      → hashmap_get name target.oem_cmds ≡ found
      → Online n d.session
      → Online n (oem_found found storage name args d).session
  unfolding oem_found
  oem_found-Online (some callback) name args d laws e on =
      let law = found-law (OemLaw n) name target.oem_cmds callback laws e in
      plugin-Online name (callback (name ∷ args) d.session) (law (name ∷ args) d.session on)
  oem_found-Online none name args d laws e on = elim (Bool-cases (text_eq name (codes "push"))) [
    | inl push ↦ rw push (push-Online args d on)
    | inr other ↦ rw other (fastboot_fail-Online n (codes "unknown OEM command") d.session on)
  ]

  tokens-Online :
      (tokens : List Text) (d : Device)
      → AllOf (OemLaw n) target.oem_cmds
      → Online n d.session
      → Online n (oem_tokens target storage tokens d).session
  unfolding oem_tokens
  tokens-Online [] d laws on = on
  tokens-Online (name ∷ args) d laws on =
      oem_found-Online (hashmap_get name target.oem_cmds) name args d laws refl on

  command-Online :
      (arg : Text) (d : Device)
      → AllOf (OemLaw n) target.oem_cmds
      → Online n d.session
      → Online n (oem_command target storage arg d).session
  unfolding oem_command oem_list
  command-Online [] d laws on = fastboot_okay-Online n [] _ (
      fastboot_info-Online n (codes "\n") _
        (list_keys-Online n _ _ (fastboot_info-Online n _ d.session on)))
  command-Online (c ∷ arg) d laws on =
      tokens-Online (take max_oem_args (strtok is_gap (c ∷ arg))) d laws on

  pub cmd_oem-Online :
      (arg : Text) (d : Device)
      → AllOf (OemLaw n) target.oem_cmds
      → Online n d.session
      → Online n (cmd_oem target storage arg d).session
  unfolding cmd_oem
  cmd_oem-Online arg d laws on = command-Online (drop_gaps arg) d laws on
