-- ===== src/Fastboot/Download.antt =====
-- The published variables, `getvar:`, `download:`, `download_to` and `pull_file` of src/fastboot.c.
pub mod Outcome
pub mod Vars
pub mod Pull
pub mod Online
use tboot.Base.{
  ℕ, zero, suc, ◌+◌, ◌-◌, ◌/◌, ◌*◌, ◌%◌, ◌^◌, ◌≤◌, ◌<◌, min, ◌≡◌, refl, sym, ap, ◌∙◌, ◌≢◌, ◌↔◌, ◌⊎◌,
  inl, inr, Bool, true, false, not, ◌&&◌, ◌||◌, Option, none, some, List, [], ◌∷◌, ◌++◌, map, arith,
  String, Text, codes, text_eq, starts_with, after_char, before_char, text_eq_refl, text_eq-eq,
  starts_with-append, length, get_elem?, take, drop, length-append, length-take, length-drop,
  take-append-drop, take_all, take-take, drop-nil, drop-drop, drop_all, ltb, leb, ◌==◌,
  if◌then◌else◌, ltb→lt, lt→ltb, ==_iff, Bool-cases, Option-cases,
}
use tboot.Base.Number.{u32, hex_pad, strtoul, length-hex_pad}
use tboot.Fastboot.{command, complete, error, hidebar, ui_error, Session}
use tboot.Fastboot.Usb.{usb_read, usb_write, ReadOutcome, read_failed, read_bytes, usb_read-outcome}
use tboot.Fastboot.Reply.{fastboot_info, fastboot_okay, fastboot_fail}
use tboot.Fastboot.Handshake.{response_data}
use tboot.Fastboot.Progress.{Transfer, received, failed, out_of_fuel, usb_read_progress}

-- A variable published again hides the older value. (malloc() does not fail here.)
pub fastboot_publish : Text → Text → Session → Session
fastboot_publish name value s = record s { varlist = (name, value) ∷ s.varlist }

find_var : Text → List (Text × Text) → Option Text
find_var name [] = none
find_var name ((n, v) ∷ vars) = if text_eq name n then some v else find_var name vars

pub fastboot_getvar : Text → Session → Option Text
unfolding find_var
fastboot_getvar name s = find_var name s.varlist

list_vars : List (Text × Text) → Session → Session
list_vars [] s = s
list_vars ((n, v) ∷ vars) s = list_vars vars (fastboot_info (codes "\n") (fastboot_info n s))

-- The loop of `cmd_getvar` over the variables.
answer_var : Text → List (Text × Text) → Session → Session
answer_var arg [] s = fastboot_okay [] s
answer_var arg ((n, v) ∷ vars) s =
    if text_eq n arg then fastboot_okay v s else answer_var arg vars s

pub cmd_getvar : Text → Session → Session
unfolding list_vars answer_var
cmd_getvar [] s = fastboot_okay [] (
    fastboot_info (codes "\n")
      (list_vars s.varlist (fastboot_info (codes "All available variables:\n") s)))
cmd_getvar (c ∷ arg) s = answer_var (c ∷ arg) s.varlist s

-- The end of `cmd_download`: the transfer must have stored all that was announced. What a failed
-- transfer leaves in the buffer is not kept, since `download_size` is then 0.
store_download : ℕ → Transfer × Session → Session
store_download len (received got, s) =
    if length got == len
    then fastboot_okay []
        (record s { download_base = got; download_size = len; ui = s.ui ++ hidebar ∷ [] })
    else record s { state = error; ui = s.ui ++ ui_error (codes "Download failed.") ∷ [] }
store_download len (failed, s) = record s {
  state = error;
  ui = s.ui ++ ui_error (codes "Download failed.") ∷ [];
}
store_download len (out_of_fuel, s) = s

download_after : ℕ → Bool × Session → Session
download_after len (true, s) = store_download len (usb_read_progress len s)
download_after len (false, s) = s

pub cmd_download : Text → Session → Session
unfolding download_after store_download
cmd_download arg s =
    let len = strtoul arg in
    let s0 = record s { download_size = 0 } in
    if ltb s.download_max len
    then fastboot_fail (codes "data too large") s0
    else download_after len (response_data len s0)

-- The bytes go to the front of the buffer; what it holds behind them stays, and so does download_size.
take_download : ℕ → Transfer × Session → Option Text × Session
take_download len (received got, s) =
    if length got == len
    then (
      some got,
      record s {
        download_base = got ++ drop (length got) s.download_base;
        ui = s.ui ++ hidebar ∷ [];
      },
    )
    else (none, record s { state = error })
take_download len (failed, s) = (none, record s { state = error })
take_download len (out_of_fuel, s) = (none, s)

download_to_after : ℕ → Bool × Session → Option Text × Session
download_to_after size (true, s) = take_download size (usb_read_progress size s)
download_to_after size (false, s) = (none, s)

-- `some` holds what `*data` points to, `none` stands for -1.
unfoldable pub download_to : ℕ → Session → Option Text × Session
unfolding download_to_after take_download
download_to size s =
    if ltb s.download_max size
    then (none, fastboot_fail (codes "data too large") s)
    else download_to_after size (response_data size s)

-- What fstat() and read() on the file give `pull_file`: its size, and the bytes that one read of at
-- most `download_max - 12` of them returns, `none` if it fails.
pub record PulledFile : Type 0 where
  pub size : ℕ
  pub content : Option Text

-- The confirmation of the host: "FILE" and the size again. `stale` is what stood on the stack
-- before the read: -1, compared as an unsigned number, is not below 12, so a failed read passes.
confirmation : Text → Option Text × Session → Option Text × Session
confirmation stale (none, s) = (some stale, s)
confirmation stale (some response, s) =
    if ltb (length response) 12 then (none, s) else (some response, s)

check_confirmation : ℕ → Option Text × Session → Bool × Session
check_confirmation size (none, s) = (false, fastboot_fail (codes "get invalid response") s)
check_confirmation size (some response, s) =
    if strtoul (drop 4 (take 12 response)) == size
    then (true, s)
    else (false, fastboot_fail (codes "saved bytes doesn't equal sent bytes") s)

pull_sent : ℕ → Text → ℕ → Option ℕ × Session → Bool × Session
pull_sent size stale wanted (none, s) = (false, fastboot_fail (codes "usb write failed.") s)
pull_sent size stale wanted (some n, s) =
    if n == wanted
    then check_confirmation size (confirmation stale (usb_read 64 s))
    else (false, fastboot_fail (codes "usb write failed.") s)

abbrev pub file_packet : ℕ → Text → Text
file_packet size content = codes "FILE" ++ hex_pad 8 size ++ content

-- After the header went into the download buffer: the file is read behind it and sent.
pull_read : ℕ → Option Text → Text → Session → Bool × Session
pull_read size none stale s = (
  false,
  fastboot_fail (codes "read file failed.") (record s { download_base = file_packet size [] }),
)
pull_read size (some content) stale s =
    let s' = record s { download_base = file_packet size content } in
    let sent = record s' { download_size = 12 + size } in
    if length content == size
    then pull_sent size stale (12 + size) (usb_write (file_packet size content) sent)
    else (false, fastboot_fail (codes "read file failed.") s')

-- `pull_file`, with `none` for a negative descriptor, `some none` for a failing fstat(). The
-- result `true` stands for 0, `false` for -1.
unfoldable pub pull_file : Option (Option PulledFile) → Text → Session → Bool × Session
unfolding confirmation check_confirmation pull_sent pull_read
pull_file none stale s = (false, fastboot_fail (codes "invalid fd.") s)
pull_file (some none) stale s = (false, fastboot_fail (codes "can't get file size.") s)
pull_file (some (some f)) stale s =
    let room = (s.download_max + u32 - 12) % u32 in
    if ltb room f.size
    then (false, fastboot_fail (codes "file is too large.") s)
    else pull_read f.size f.content stale s
