-- ===== src/Aboot/Flash.antt =====
-- `cmd_stream_flash` of src/aboot.c, up to the end of the transfer, as the main thread goes through
-- it: what it receives, and how it ends. The thread `reader` is seen by its exit value only, which is
-- the environment's choice; how the two threads share the buffers, and what of the image the reader
-- then has written, is in Aboot/Pipeline.antt.
pub mod Command
pub mod Filling
pub mod Outcome
use tboot.Base.{
  ℕ, zero, suc, ◌+◌, ◌-◌, ◌/◌, ◌*◌, ◌%◌, ◌^◌, ◌≤◌, ◌<◌, min, ◌≡◌, refl, sym, ap, ◌∙◌, ◌≢◌, ◌↔◌, ◌⊎◌,
  inl, inr, Bool, true, false, not, ◌&&◌, ◌||◌, Option, none, some, List, [], ◌∷◌, ◌++◌, map, arith,
  String, Text, codes, text_eq, starts_with, after_char, before_char, text_eq_refl, text_eq-eq,
  text_eq_symm, text_eq_iff, starts_with-append, length, get_elem?, take, drop, length-append,
  length-take, length-drop, take-append-drop, take_all, take-take, drop-nil, drop-drop, drop_all,
  ltb, leb, ◌==◌, if◌then◌else◌, ltb→lt, lt→ltb, ==_iff, Bool-cases, Option-cases,
}
use tboot.Base.Number.{u32, strtoul}
use tboot.Fstab.{Volume, volume_for_device}
use tboot.Fastboot.{UiCall, textbar, bouncebar, ui_error, ui_info, ui_warn, Session}
use tboot.Fastboot.Reply.{fastboot_fail, fastboot_okay}
use tboot.Fastboot.Handshake.{streaming_download}
use tboot.Fastboot.Download.{download_to}
use tboot.Aboot.Target.{Part, Target, hashmap_get, check_ext_superblock, ext4_filesystem_checks}
use tboot.Aboot.Commands.{show, list_partitions}
use tboot.Aboot.Flow.{
  Exit, go, goto_error, hangs, Flow, pure, abort, or_abort, hang, ◌>>=◌, ◌>>◌, guard, tell, receive,
  crash, without_thread,
}

-- What the rest of the system answers. `buffers`: how many calls of buffer_init() succeed. `heap`:
-- what the first buffer holds behind a first piece that does not fill it. `breaks_at`: how many
-- pieces are in when the main thread sees `pipe_broken` set, if it ever does. `reader_ok`: the exit
-- value 0 of the reader thread. `reopens`: open() of the disk succeeds after the flash. `percent`:
-- (double)finished / len * 100, as an int.
pub record System : Type 0 where
  pub strdup_ok : Bool
  pub buffers : ℕ
  pub heap : Text
  pub asprintf_ok : Bool
  pub popen_ok : Bool
  pub thread_ok : Bool
  pub breaks_at : Option ℕ
  pub join_ok : Bool
  pub reader_ok : Bool
  pub reopens : Bool
  pub percent : ℕ → ℕ → ℕ

-- SIZE
abbrev pub buffer_size : ℕ
buffer_size = 0x40_0000

-- The programs that unpack the stream, from its first four bytes.
is_gzip : Text → Bool
is_gzip (a ∷ b ∷ _) = a == 0x1f && b == 0x8b
is_gzip _ = false

is_bzip2 : Text → Bool
is_bzip2 (a ∷ b ∷ c ∷ d ∷ _) = a == 66 && b == 90 && (c == 104 || c == 48) && (leb 49 d && leb d 57)
is_bzip2 _ = false

abbrev dd_to : Text → Text
dd_to device = codes "/bin/dd of=" ++ (device ++ codes " bs=8192")

unfoldable pub command_line : Text → Text → Text
unfolding is_gzip is_bzip2
command_line magic device =
    if is_gzip magic
    then codes "/bin/gzip -c -d | " ++ dd_to device
    else if is_bzip2 magic
    then codes "/bin/bzip2 -c -d | " ++ dd_to device
    else dd_to device

unfoldable pub warn_unpacked : Text → Flow {0} Unit
unfolding is_gzip is_bzip2
warn_unpacked magic =
    if is_gzip magic || is_bzip2 magic
    then pure tt
    else tell (ui_warn (codes "Input isn't in gzip or bzip2 format."))

-- Where only the second buffer_init() fails, the first buffer is freed here and again at `out`.
unfoldable pub make_buffers : ℕ → Flow {0} Unit
make_buffers zero = abort (codes "out of memory")
make_buffers (suc zero) = λ s. abort (codes "out of memory") (crash s)
make_buffers _ = pure tt

-- `device`, and `ptn`, which is NULL for the whole disk.
pub record Node : Type 0 where
  pub device : Text
  pub ptn : Option Part

unfoldable pub ext4_volume : Option Volume → Flow {0} Unit
ext4_volume none = abort (codes "invalid fstab or disk layout config")
ext4_volume (some v) = guard (text_eq v.fs_type (codes "ext4")) (codes "unsupport filesystem type")

unfoldable pub partition_node : Target → Text → Flow Node
unfolding ext4_volume
partition_node target name = do
  device ← or_abort (target.find_part_device name) (codes "unknown partition specified")
  ext4_volume (volume_for_device device target.volumes)
  pure (record { device = device; ptn = target.find_part name })

show_percent : ℕ → Session → Session
show_percent p s = if p == 0 then s else show (textbar p) s

unfoldable pub sees_break : Option ℕ → ℕ → Bool
sees_break none count = false
sees_break (some k) count = leb k count

-- The local variables at the end of the loop, and all the bytes that have been received.
pub record Filled : Type 0 where
  pub count : ℕ
  pub size : ℕ
  pub finished : ℕ
  pub image : Text

abbrev pub next_size : ℕ → ℕ → ℕ → ℕ
next_size len size finished = if ltb len ((finished + size) % u32) then len - finished else size

module _ (system : System) (len : ℕ) where
  -- A full buffer is only skipped: the reader empties it.
  pub fill_loop : ℕ → ℕ → ℕ → ℕ → Text → Flow Filled
  unfolding sees_break show_percent
  fill_loop zero count size finished got = hang
  fill_loop (suc fuel) count size finished got =
      let size' = next_size len size finished in
      let finished' = (finished + size') % u32 in
      let round = receive size' false (codes "download failed.") >>= λ bytes s.
      fill_loop fuel (suc count) size' finished' (got ++ bytes)
        (show_percent (system.percent finished' len) s) in
      if ltb finished len && not (sees_break system.breaks_at count)
      then round
      else pure (record { count = count; size = size; finished = finished; image = got })

  -- The rest of the image is read and discarded, up to a read that fails.
  drain_result : (Session → Option Session) → Option Text × Session → Option Session
  drain_result again (none, s) = some s
  drain_result again (some bytes, s) = again s

  -- `none`: out of fuel.
  drain_loop : ℕ → ℕ → ℕ → Session → Option Session
  unfolding drain_result
  drain_loop zero size finished s = none
  drain_loop (suc fuel) size finished s =
      let size' = next_size len size finished in
      let round =
        drain_result (drain_loop fuel size' ((finished + size') % u32))
          (streaming_download size' false s) in
      if ltb finished len then round else some s

  broken : Option Session → Exit Filled × Session → Exit Filled × Session
  broken none (r, s) = (hangs, s)
  broken (some t) (r, s) = abort (codes "broken pipe, image too large?") t

  after_fill : Filled → Flow Filled
  unfolding broken drain_loop sees_break
  after_fill f s =
      let drained = drain_loop (suc len) f.size f.finished s in
      if sees_break system.breaks_at f.count then broken drained (pure f s) else pure f s

  -- The first piece, and the unpacking command for it.
  pub first_piece : Flow Text
  unfolding make_buffers warn_unpacked
  first_piece = do
    receive len true (codes "protocol handshake failed.")
    make_buffers system.buffers
    bytes ← receive (min len buffer_size) false (codes "download failed.")
    warn_unpacked (bytes ++ system.heap)
    guard system.asprintf_ok (codes "asprintf")
    guard system.popen_ok (codes "open for write.")
    guard system.thread_ok (codes "create reader thread failed.")
    pure bytes

  -- The rest of the image is received, with the reader thread at work; the result is what the main
  -- thread has received, whatever the reader has made of it.
  pub all_pieces : Text → Flow Filled
  unfolding fill_loop after_fill
  all_pieces bytes = do
    f ← fill_loop (suc len) 1 (min len buffer_size) (min len buffer_size) bytes
    after_fill f
    guard system.join_ok (codes "join reader thread failed")
    guard (f.finished == len && system.reader_ok) (codes "write to device failed.")
    pure f
