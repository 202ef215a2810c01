-- ===== src/Aboot/Flash/Command.antt =====
-- `cmd_stream_flash` of src/aboot.c: its argument, where the image goes, and what follows the
-- transfer.
pub mod Streamed
pub mod Ending
pub mod Closing
use tboot.Base.{
  ℕ, zero, suc, ◌+◌, ◌-◌, ◌/◌, ◌*◌, ◌%◌, ◌^◌, ◌≤◌, ◌<◌, min, ◌≡◌, refl, sym, ap, ◌∙◌, ◌≢◌, ◌↔◌, ◌⊎◌,
  inl, inr, Bool, true, false, not, ◌&&◌, ◌||◌, Option, none, some, List, [], ◌∷◌, ◌++◌, map, arith,
  String, Text, codes, text_eq, starts_with, after_char, before_char, text_eq_refl, text_eq-eq,
  text_eq_symm, text_eq_iff, starts_with-append, length, get_elem?, take, drop, length-append,
  length-take, length-drop, take-append-drop, take_all, take-take, drop-nil, drop-drop, drop_all,
  ltb, leb, ◌==◌, if◌then◌else◌, ltb→lt, lt→ltb, ==_iff, Bool-cases, Option-cases,
}
use tboot.Base.Int.{ℤ, is_zero}
use tboot.Base.Number.{strtoul}
use tboot.Fastboot.{bouncebar, ui_error, ui_info, Session}
use tboot.Fastboot.Reply.{fastboot_fail, fastboot_okay}
use tboot.Fastboot.Download.{download_to}
use tboot.Aboot.Target.{Part, Target, hashmap_get, check_ext_superblock, ext4_filesystem_checks}
use tboot.Aboot.Commands.{show, list_partitions}
use tboot.Aboot.Flash.{System, Node, Filled, command_line, partition_node, first_piece, all_pieces}
use tboot.Aboot.Flow.{
  Exit, go, goto_error, hangs, Flow, pure, abort, or_abort, ◌>>=◌, ◌>>◌, guard, tell, crash,
  without_thread,
}

-- A flash that comes to the label `finish`: by a registered function, or a stream, with the command
-- line that was started for it and the bytes that the main thread has received. How much of them the
-- reader thread has passed on to the command is in Aboot/Pipeline.antt.
pub data Flashed : Type 0 where
  by_function : Flashed
  streamed : Text → Text → Flashed

-- The disk itself is opened again, for its new partition table.
unfoldable pub reopen : System → Target → Text → Flow {0} Unit
reopen system target device =
    guard (not (text_eq device target.disk_device) || system.reopens)
      (codes "could not open device node")

unfoldable pub has_superblock : Target → Option Part → Option Bool
has_superblock target none = some false
has_superblock target (some ptn) =
    if ptn.is_linux then check_ext_superblock target ptn else some false

unfoldable pub check_filesystem : Target → Text → Bool → Flow {0} Unit
check_filesystem target device false = pure tt
check_filesystem target device true = do
  tell (bouncebar (codes "File system checking..."))
  guard (ext4_filesystem_checks target device) (codes "ext4 filesystem error")

module _ (system : System) (target : Target) where
  unfoldable pub stream_to : Node → ℕ → Flow Flashed
  unfolding reopen has_superblock check_filesystem
  stream_to node len = do
    bytes ← without_thread (first_piece system len)
    f ← all_pieces system len bytes
    tell (bouncebar (codes "Syncing..."))
    reopen system target node.device
    check ← or_abort (has_superblock target node.ptn) (codes "couldn't check superblock")
    check_filesystem target node.device check
    pure (streamed (command_line (bytes ++ system.heap) node.device) f.image)

  unfoldable pub function_result : ℤ × Session → Exit Flashed × Session
  function_result (ret, s) =
      if is_zero ret then (go by_function, s) else abort (codes "flash failed.") s

  unfoldable pub call_function : Text → (Text → Session → ℤ × Session) → Text → Flow Flashed
  unfolding function_result
  call_function name callback bytes s =
      function_result
        (callback bytes (show (bouncebar (codes "Flashing " ++ (name ++ codes "..."))) s))

  unfoldable pub downloaded_or_abort : Option Text × Session → Exit Text × Session
  downloaded_or_abort (none, s) = abort (codes "download failed.") s
  downloaded_or_abort (some bytes, s) = (go bytes, s)

  -- The reader thread is never created here, and is cancelled all the same.
  unfoldable pub by_registered : Text → (Text → Session → ℤ × Session) → ℕ → Flow Flashed
  unfolding call_function downloaded_or_abort
  by_registered name callback len = do
    bytes ← λ s. downloaded_or_abort (download_to len s)
    call_function name callback bytes

  unfoldable pub to_partition : Text → ℕ → Flow Flashed
  to_partition name len = do node ← without_thread (partition_node target name); stream_to node len

  unfoldable pub flash_other : Text → ℕ → Option (Text → Session → ℤ × Session) → Flow Flashed
  unfolding by_registered to_partition
  flash_other name len none = to_partition name len
  flash_other name len (some callback) =
      λ s. let r = by_registered name callback len s in (r.0, crash r.1)

  unfoldable pub flash_image : Text → ℕ → Flow Flashed
  unfolding flash_other
  flash_image name len =
      if text_eq name (codes "disk")
      then stream_to (record { device = target.disk_device; ptn = none }) len
      else flash_other name len (hashmap_get name target.flash_cmds)

  unfoldable pub flash_error : Text → Session → Session
  flash_error name s = show (ui_error (codes "Flash " ++ (name ++ codes " failed."))) s

  -- From the labels `finish` and `error` on. A transfer that never ends never comes here: what the
  -- model says after it means nothing, as after a fault.
  unfoldable pub finish_flash : Text → Exit Flashed × Session → Session
  unfolding flash_error
  finish_flash name (go flashed, s) =
      fastboot_okay [] (show (ui_info (codes "Flash " ++ (name ++ codes " finished."))) s)
  finish_flash name (goto_error, s) = flash_error name s
  finish_flash name (hangs, s) = crash s

  flash_keys : List Text
  flash_keys = map (λ (e : Text × (Text → Session → ℤ × Session)). e.0) target.flash_cmds

  unfoldable pub flash_named : Text → ℕ → Session → Session
  unfolding finish_flash flash_keys
  flash_named [] len s = list_partitions true flash_keys target s
  flash_named (c ∷ name) len s = finish_flash (c ∷ name) (flash_image (c ∷ name) len s)

  unfoldable pub flash_arg : Text → Option Text → Session → Session
  unfolding flash_named flash_error
  flash_arg cmd none s = crash (flash_error cmd (fastboot_fail (codes "invalid cmd.") s))
  flash_arg cmd (some size) s = flash_named (before_char 58 cmd) (strtoul size) s

  -- strdup() of the argument comes first; printf() shows a NULL name as "(null)".
  unfoldable pub flash_copied : Bool → Text → Session → Session
  unfolding flash_arg flash_error
  flash_copied true cmd s = flash_arg cmd (after_char 58 cmd) s
  flash_copied false cmd s =
      crash (flash_error (codes "(null)") (fastboot_fail (codes "strdup failed.") s))

  unfoldable pub cmd_stream_flash : Text → Session → Session
  unfolding flash_copied
  cmd_stream_flash cmd s = flash_copied system.strdup_ok cmd s
