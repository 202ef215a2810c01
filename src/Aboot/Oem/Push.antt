-- ===== src/Aboot/Oem/Push.antt =====
-- `oem push` of src/aboot.c writes into the push directory only.
use tboot.Base.{
  ℕ, ◌≡◌, refl, ◌⊎◌, inl, inr, Bool, false, Option, none, some, List, [], ◌∷◌, ◌++◌, Text, codes,
  text_eq, length, take, ◌==◌, Bool-cases,
}
use mathlib.Core.Path.{subst}
use mathlib.Core.List.{append_assoc, append-nil}
use tboot.Base.Int.{ℤ}
use tboot.Base.Tokens.{NoDelim, strtok}
use tboot.Fastboot.{Session}
use tboot.Config.{push_dir_key, tboot_config_get}
use tboot.Device.{Device}
use tboot.Aboot.Target.{Target, hashmap_get}
use tboot.Aboot.Oem.{
  Storage, after_slash, last_name, max_oem_args, is_gap, strip_slashes, basename, drop_slash,
  drop_gaps, warn_statfs, push_store, push_to, push_path, has_room, is_help, oem_push, oem_found,
  oem_tokens, oem_list, oem_command, cmd_oem,
}

abbrev is_slash : ℕ → Bool
is_slash c = c == 47

-- A name without a slash, or the root directory.
abbrev pub Plain : Text → Type 0
Plain name = NoDelim is_slash name ⊎ (name ≡ codes "/")

NoDelim-snoc :
    (pre : Text) (c : ℕ)
    → NoDelim is_slash pre
    → is_slash c ≡ false
    → NoDelim is_slash (pre ++ c ∷ [])
NoDelim-snoc [] c h e = (e, tt)
NoDelim-snoc (x ∷ pre) c h e = (h.0, NoDelim-snoc pre c h.1 e)

after_slash-NoDelim :
    (pre s : Text) → NoDelim is_slash pre → NoDelim is_slash (after_slash (pre ++ s) s)
unfolding after_slash
after_slash-NoDelim pre [] h = rw (append-nil pre) h
after_slash-NoDelim pre (c ∷ s) h = elim (Bool-cases (c == 47)) [
  | inl slash ↦ rw slash (after_slash-NoDelim [] s tt)
  | inr other ↦ rw other (
      subst (λ t. NoDelim is_slash (after_slash t s)) (append_assoc pre (c ∷ []) s)
        (after_slash-NoDelim (pre ++ c ∷ []) s (NoDelim-snoc pre c h other)))
]

last_name-Plain : (path : Text) → Plain (last_name path)
unfolding last_name
last_name-Plain [] = inr refl
last_name-Plain (c ∷ s) = inl (after_slash-NoDelim [] (c ∷ s) tt)

basename-Plain : (path : Text) → Plain (basename path)
unfolding basename
basename-Plain path = last_name-Plain (strip_slashes path)

-- What the command may have done to the files: nothing, or one file written, in the push directory,
-- under a plain name, with the first bytes of what was downloaded last.
abbrev pub Pushed : Device → List (Text × Text) → Type 0
Pushed d files =
    (files ≡ d.files)
    ⊎ ((dir name : Text) × (size : ℕ) × (tboot_config_get push_dir_key d.config ≡ some dir)
        × Plain name
        × (files
            ≡ d.files
              ++ (
                drop_slash dir ++ (codes "/" ++ name),
                take size (take d.session.download_size d.session.download_base),
              )
                ∷ []))

module _ (target : Target) (storage : Storage) where
  store-Pushed :
      (saved : Option ℕ) (dir name : Text) (d : Device) (s : Session)
      → tboot_config_get push_dir_key d.config ≡ some dir
      → Pushed d
          (push_store saved
            (push_path dir name)
            name
            (take d.session.download_size d.session.download_base)
            (record d { session = s })).files
  unfolding push_store
  store-Pushed none dir name d s e = inl refl
  store-Pushed (some saved) dir name d s e =
      let bytes = take d.session.download_size d.session.download_base in
      let written = inr (dir, basename name, saved, e, basename-Plain name, refl) in
      elim (Bool-cases (saved == length bytes)) [
        | inl all ↦ rw all written
        | inr part ↦ rw part written
      ]

  push_to-Pushed :
      (dir : Option Text) (name : Text) (d : Device)
      → tboot_config_get push_dir_key d.config ≡ dir
      → Pushed d
          (push_to storage dir name (take d.session.download_size d.session.download_base) d).files
  unfolding push_to warn_statfs
  push_to-Pushed none name d e = inl refl
  push_to-Pushed (some []) name d e = inl refl
  push_to-Pushed (some (c ∷ dir)) name d e =
      let bytes = take d.session.download_size d.session.download_base in
      elim (Bool-cases (has_room storage.free (length bytes))) [
        | inl room ↦
            rw room
              (store-Pushed (storage.stored (push_path (c ∷ dir) name) bytes) (c ∷ dir) name d _ e)
        | inr full ↦ rw full (inl refl)
      ]

  oem_push-Pushed : (args : List Text) (d : Device) → Pushed d (oem_push storage args d).files
  unfolding oem_push
  oem_push-Pushed [] d = inl refl
  oem_push-Pushed (name ∷ []) d = elim (Bool-cases (is_help name)) [
    | inl help ↦ rw help (inl refl)
    | inr push ↦ rw push (push_to-Pushed (tboot_config_get push_dir_key d.config) name d refl)
  ]
  oem_push-Pushed (name ∷ other ∷ args) d = inl refl

  oem_found-Pushed :
      (found : Option (List Text → Session → ℤ × Session)) (name : Text) (args : List Text)
      (d : Device)
      → Pushed d (oem_found found storage name args d).files
  unfolding oem_found
  oem_found-Pushed (some callback) name args d = inl refl
  oem_found-Pushed none name args d = elim (Bool-cases (text_eq name (codes "push"))) [
    | inl push ↦ rw push (oem_push-Pushed args d)
    | inr other ↦ rw other (inl refl)
  ]

  tokens-Pushed :
      (tokens : List Text) (d : Device) → Pushed d (oem_tokens target storage tokens d).files
  unfolding oem_tokens
  tokens-Pushed [] d = inl refl
  tokens-Pushed (name ∷ args) d = oem_found-Pushed (hashmap_get name target.oem_cmds) name args d

  command-Pushed : (arg : Text) (d : Device) → Pushed d (oem_command target storage arg d).files
  unfolding oem_command oem_list
  command-Pushed [] d = inl refl
  command-Pushed (c ∷ arg) d = tokens-Pushed (take max_oem_args (strtok is_gap (c ∷ arg))) d

  -- Whatever the argument of oem is, at most one file is written, and it lies directly in the
  -- configured push directory: its path is that directory without a slash at its end, a slash, and a
  -- name without a slash (or the name "/"); in it are the first bytes of what was downloaded last.
  pub cmd_oem-Pushed : (arg : Text) (d : Device) → Pushed d (cmd_oem target storage arg d).files
  unfolding cmd_oem
  cmd_oem-Pushed arg d = command-Pushed (drop_gaps arg) d
