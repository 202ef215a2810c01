-- ===== src/Aboot/Oem.antt =====
-- `cmd_oem` of src/aboot.c: the commands of the plugins, and `oem push`. No strdup() fails.
pub mod Online
pub mod Push
use tboot.Base.{
  ℕ, zero, suc, ◌+◌, ◌-◌, ◌/◌, ◌*◌, ◌%◌, ◌^◌, ◌≤◌, ◌<◌, min, ◌≡◌, refl, sym, ap, ◌∙◌, ◌≢◌, ◌↔◌, ◌⊎◌,
  inl, inr, Bool, true, false, not, ◌&&◌, ◌||◌, Option, none, some, List, [], ◌∷◌, ◌++◌, map, arith,
  String, Text, codes, text_eq, starts_with, after_char, before_char, text_eq_refl, text_eq-eq,
  text_eq_symm, text_eq_iff, starts_with-append, length, get_elem?, take, drop, length-append,
  length-take, length-drop, take-append-drop, take_all, take-take, drop-nil, drop-drop, drop_all,
  ltb, leb, ◌==◌, if◌then◌else◌, ltb→lt, lt→ltb, ==_iff, Bool-cases, Option-cases,
}
use tboot.Base.Int.{ℤ, is_zero}
use tboot.Base.Number.{u32}
use tboot.Base.Tokens.{strtok}
use tboot.Config.{push_dir_key, tboot_config_get}
use tboot.Fastboot.{UiCall, ui_error, ui_info, ui_warn, Session}
use tboot.Fastboot.Reply.{fastboot_info, fastboot_fail, fastboot_okay}
use tboot.Device.{Device}
use tboot.Aboot.Target.{Target, hashmap_get}
use tboot.Aboot.Commands.{show, list_keys}

-- What statfs() says of the push directory, `none` where it fails: the block size and the free
-- blocks. `stored`: how many bytes of some bytes an fwrite() to a path stores without an error, `none`
-- where the file cannot be created.
pub record Storage : Type 0 where
  pub free : Option (ℕ × ℕ)
  pub stored : Text → Text → Option ℕ

abbrev max_oem_args : ℕ
max_oem_args = 64

-- " \t"
abbrev pub is_gap : ℕ → Bool
is_gap c = c == 32 || c == 9

drop_gaps : Text → Text
drop_gaps [] = []
drop_gaps (c ∷ s) = let rest = drop_gaps s in if c == 32 then rest else c ∷ s

-- The part of a path after its last '/'.
after_slash : Text → Text → Text
after_slash name [] = name
after_slash name (c ∷ s) = if c == 47 then after_slash s s else after_slash name s

-- A path without its trailing slashes.
strip_slashes : Text → Text
strip_slashes [] = []
strip_slashes (c ∷ s) =
    let rest = strip_slashes s in
    elim rest [ [] ↦ (if c == 47 then [] else c ∷ []) | d ∷ t ↦ c ∷ d ∷ t ]

unfoldable pub last_name : Text → Text
unfolding after_slash
last_name [] = codes "/"
last_name (c ∷ s) = after_slash (c ∷ s) (c ∷ s)

-- basename() of <libgen.h>, on a path that is not empty.
unfoldable pub basename : Text → Text
unfolding last_name strip_slashes
basename path = last_name (strip_slashes path)

-- Without one slash at the end.
unfoldable pub drop_slash : Text → Text
drop_slash [] = []
drop_slash (c ∷ []) = if c == 47 then [] else c ∷ []
drop_slash (c ∷ d ∷ s) = c ∷ drop_slash (d ∷ s)

-- f_bsize * f_bfree - (1 << 20), in 32 bits.
abbrev pub max_size : ℕ → ℕ → ℕ
max_size bsize bfree = (bsize * bfree + (u32 - 0x10_0000)) % u32

-- The check for room: `true` where the push goes on.
has_room : Option (ℕ × ℕ) → ℕ → Bool
has_room none sz = true
has_room (some (bsize, bfree)) sz = not (ltb (max_size bsize bfree) sz)

abbrev push_failed : Text → Session → Session
push_failed name s = show (ui_error (codes "Push " ++ (name ++ codes " failed."))) s

abbrev pub push_path : Text → Text → Text
push_path dir name = drop_slash dir ++ (codes "/" ++ basename name)

-- After the file was created: what fwrite() has stored is in it in any case.
push_store : Option ℕ → Text → Text → Text → Device → Device
push_store none path name bytes d = record d {
  session =
      push_failed (strip_slashes name) (fastboot_fail (codes "create file failed.") d.session);
}
push_store (some saved) path name bytes d =
    let kept = record d { files = d.files ++ (path, take saved bytes) ∷ [] } in
    if saved == length bytes
    then record kept {
      session =
          show (ui_info (codes "Saved file to " ++ (path ++ codes ".")))
            (fastboot_okay path d.session);
    }
    else record kept {
      session =
          push_failed (strip_slashes name) (fastboot_fail (codes "oem push, fwrite") d.session);
    }

warn_statfs : Option (ℕ × ℕ) → Session → Session
warn_statfs none s = show (ui_warn (codes "Get filesystem status failed.")) s
warn_statfs (some f) s = s

-- A missing or an empty push directory is a fault: strncpy() from NULL, and a look at push_dir[-1].
-- No path is taken to be longer than PATH_MAX.
push_to : Storage → Option Text → Text → Text → Device → Device
unfolding has_room push_store warn_statfs strip_slashes
push_to storage none name bytes d = record d { session = record (d.session) { fault = true } }
push_to storage (some []) name bytes d = record d { session = record (d.session) { fault = true } }
push_to storage (some (c ∷ dir)) name bytes d =
    let path = push_path (c ∷ dir) name in
    let warned = record d { session = warn_statfs storage.free d.session } in
    if has_room storage.free (length bytes)
    then push_store (storage.stored path bytes) path name bytes warned
    else record d {
      session = push_failed name (fastboot_fail (codes "file size is too large.") d.session);
    }

abbrev pub push_usage : Text
push_usage = codes "Usage:\n    oem push <local-file>    push <local-file> to target\n"

is_help : Text → Bool
is_help arg = text_eq arg (codes "-h") || text_eq arg (codes "--help")

abbrev push_help : Device → Device
push_help d = record d { session = fastboot_okay [] (fastboot_info push_usage d.session) }

-- The arguments after the command; the pushed bytes are what was downloaded last.
oem_push : Storage → List Text → Device → Device
unfolding push_to is_help
oem_push storage (name ∷ []) d =
    let bytes = take d.session.download_size d.session.download_base in
    if is_help name
    then push_help d
    else push_to storage (tboot_config_get push_dir_key d.config) name bytes d
oem_push storage _ d = push_help d

plugin_result : Text → ℤ × Session → Session
plugin_result name (ret, s) = if is_zero ret then fastboot_okay [] s else fastboot_fail name s

oem_found :
    Option (List Text → Session → ℤ × Session) → Storage → Text → List Text → Device → Device
unfolding plugin_result oem_push
oem_found (some callback) storage name args d = record d {
  session = plugin_result name (callback (name ∷ args) d.session);
}
oem_found none storage name args d =
    if text_eq name (codes "push")
    then oem_push storage args d
    else record d { session = fastboot_fail (codes "unknown OEM command") d.session }

-- An argument of nothing but tabs gives no token: a look into the map with a NULL key, a fault.
oem_tokens : Target → Storage → List Text → Device → Device
unfolding oem_found
oem_tokens target storage [] d = record d { session = record (d.session) { fault = true } }
oem_tokens target storage (name ∷ args) d =
    oem_found (hashmap_get name target.oem_cmds) storage name args d

oem_list : Target → Session → Session
oem_list target s = fastboot_okay [] (
    fastboot_info (codes "\n") (
      list_keys (map (λ (e : Text × (List Text → Session → ℤ × Session)). e.0) target.oem_cmds) (
        fastboot_info
          (codes "All available oem commands, call them with '-h|--help' to get help.\n") s)))

oem_command : Target → Storage → Text → Device → Device
unfolding oem_tokens oem_list
oem_command target storage [] d = record d { session = oem_list target d.session }
oem_command target storage (c ∷ arg) d =
    oem_tokens target storage (take max_oem_args (strtok is_gap (c ∷ arg))) d

unfoldable pub cmd_oem : Target → Storage → Text → Device → Device
unfolding drop_gaps oem_command
cmd_oem target storage arg d = oem_command target storage (drop_gaps arg) d
