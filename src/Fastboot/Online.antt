-- ===== src/Fastboot/Online.antt =====
-- What every operation of src/fastboot.c on an open device node keeps: the protocol stays online,
-- and the node is only read, so that no more input is left than there was.
use tboot.Base.{
  ℕ, ◌-◌, ◌≤◌, ◌≢◌, Option, none, some, List, [], ◌∷◌, ◌++◌, arith, Text, codes, length, take, ltb,
  if◌then◌else◌,
}
use tboot.Fastboot.{FastbootState, offline, error, Session}
use tboot.Fastboot.Usb.{
  usb_read, usb_write, usb_read_loop, finish_read, read_in, finish_write, write_in,
}
use tboot.Fastboot.Ack.{fastboot_ack}
use tboot.Fastboot.Ack.Frame.{fastboot_ack-keeps}
use tboot.Fastboot.Reply.{fastboot_info, fastboot_fail, fastboot_okay}
use tboot.Fastboot.Progress.{usb_read_progress}
use tboot.Fastboot.Progress.Frame.{usb_read_progress-keeps}

-- At most \`n\` reads are left, and the protocol is not offline.
abbrev pub Online : ℕ → Session → Type 0
Online n s = (length s.reads ≤ n) × (s.state ≢ offline)

module _ (n : ℕ) where
  finish_write-Online :
      (writes : List (Option ℕ)) (buf : Text) (s : Session)
      → Online n s
      → Online n (finish_write writes buf s).1
  unfolding finish_write
  finish_write-Online [] buf s h = (h.0, λ e. cc e)
  finish_write-Online (none ∷ writes) buf s h = (h.0, λ e. cc e)
  finish_write-Online (some k ∷ writes) buf s h = h

  write_in-Online :
      (st : FastbootState) (buf : Text) (s : Session) → Online n s → Online n (write_in st buf s).1
  unfolding write_in
  write_in-Online error buf s h = h
  write_in-Online _ buf s h = finish_write-Online s.writes buf s h

  pub usb_write-Online : (buf : Text) (s : Session) → Online n s → Online n (usb_write buf s).1
  unfolding usb_write
  usb_write-Online buf s h = write_in-Online s.state buf s h

  pub fastboot_ack-Online :
      (code reason : Text) (s : Session) → Online n s → Online n (fastboot_ack code reason s)
  fastboot_ack-Online = fastboot_ack-keeps (Online n) (λ s h. h) usb_write-Online

  pub fastboot_info-Online : (t : Text) (s : Session) → Online n s → Online n (fastboot_info t s)
  unfolding fastboot_info
  fastboot_info-Online t s h = fastboot_ack-Online (codes "INFO") t s h

  pub fastboot_fail-Online : (t : Text) (s : Session) → Online n s → Online n (fastboot_fail t s)
  unfolding fastboot_fail
  fastboot_fail-Online t s h = ((fastboot_ack-Online (codes "FAIL") t s h).0, λ e. cc e)

  pub fastboot_okay-Online : (t : Text) (s : Session) → Online n s → Online n (fastboot_okay t s)
  unfolding fastboot_okay
  fastboot_okay-Online t s h = ((fastboot_ack-Online (codes "OKAY") t s h).0, λ e. cc e)

  loop-script :
      (reads : List (Option Text)) (len : ℕ) (got : Text)
      → length reads ≤ n
      → length (usb_read_loop reads len got).1 ≤ n
  unfolding usb_read_loop
  loop-script [] len got h = ground arith
  loop-script (none ∷ reads) len got h = ground arith
  loop-script (some x ∷ reads) len got h =
      let chunk = take (if ltb 4096 len then 4096 else len) x in
      ground (arith, loop-script reads (len - length chunk) (got ++ chunk))

  finish_read-Online :
      (r : Option Text × List (Option Text)) (s : Session)
      → length r.1 ≤ n
      → Online n s
      → Online n (finish_read r s).1
  unfolding finish_read
  finish_read-Online (some got, reads) s le h = (le, h.1)
  finish_read-Online (none, reads) s le h = (le, λ e. cc e)

  read_in-Online :
      (st : FastbootState) (len : ℕ) (s : Session) → Online n s → Online n (read_in st len s).1
  unfolding read_in
  read_in-Online error len s h = h
  read_in-Online _ len s h =
      finish_read-Online (usb_read_loop s.reads len []) s (loop-script s.reads len [] h.0) h

  pub usb_read-Online : (len : ℕ) (s : Session) → Online n s → Online n (usb_read len s).1
  unfolding usb_read
  usb_read-Online len s h = read_in-Online s.state len s h

  pub usb_read_progress-Online :
      (len : ℕ) (s : Session) → Online n s → Online n (usb_read_progress len s).1
  usb_read_progress-Online = usb_read_progress-keeps (Online n) usb_read-Online (λ ui s h. h)
