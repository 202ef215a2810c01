-- ===== src/Fastboot/Download/Outcome.antt =====
-- What `download:` leaves of the session.
use tboot.Base.{
  ℕ, ◌≤◌, ◌<◌, ◌≡◌, refl, ◌⊎◌, inl, inr, Bool, true, false, Option, none, some, [], arith, Text,
  codes, length, ltb, ◌==◌, Bool-cases,
}
use tboot.Base.Number.{strtoul}
use tboot.Fastboot.{complete, Session}
use tboot.Fastboot.Usb.{Sends, sends, usb_write, usb_write-Sends}
use tboot.Fastboot.Ack.{fastboot_ack}
use tboot.Fastboot.Ack.Frame.{fastboot_ack-Sends}
use tboot.Fastboot.Reply.{fastboot_okay, fastboot_fail}
use tboot.Fastboot.Handshake.{data_packet, all_written, response_data}
use tboot.Fastboot.Progress.{Transfer, received, failed, out_of_fuel, usb_read_progress}
use tboot.Fastboot.Progress.Frame.{Reads, reads_from, usb_read_progress-Reads}
use tboot.Fastboot.Download.{cmd_download, download_after, store_download}

-- Either nothing counts as downloaded, or all `len` bytes do, they are what the buffer holds, and
-- the command is complete.
abbrev pub Downloaded : ℕ → Session → Type 0
Downloaded len s =
    (s.download_size ≡ 0)
    ⊎ ((s.download_size ≡ len) × (length s.download_base ≡ len) × (s.state ≡ complete))

fail-size : (t : Text) (s : Session) → s.download_size ≡ 0 → (fastboot_fail t s).download_size ≡ 0
unfolding fastboot_fail
fail-size t s h = from (fastboot_ack (codes "FAIL") t s) (fastboot_ack-Sends (codes "FAIL") t s)
  where
    from : (u : Session) → Sends s u → u.download_size ≡ 0
    from _ (sends st ws l f) = h

okay-Downloaded :
    (len : ℕ) (t : Text) (s : Session)
    → s.download_size ≡ len
    → length s.download_base ≡ len
    → Downloaded len (fastboot_okay t s)
unfolding fastboot_okay
okay-Downloaded len t s h g =
    inr (from (fastboot_ack (codes "OKAY") t s) (fastboot_ack-Sends (codes "OKAY") t s))
  where
    from :
        (u : Session)
        → Sends s u
        → (u.download_size ≡ len) × (length u.download_base ≡ len) × (complete ≡ complete)
    from _ (sends st ws l f) = (h, g, refl)

-- The answer to the announcement leaves `download_size` alone.
response-size :
    (len : ℕ) (s : Session) → s.download_size ≡ 0 → (response_data len s).1.download_size ≡ 0
unfolding response_data
response-size len s h =
    written (usb_write (data_packet len) s) (usb_write-Sends (data_packet len) s)
  where
    kept : (t : Session) → Sends s t → t.download_size ≡ 0
    kept _ (sends st ws l f) = h

    written :
        (r : Option ℕ × Session)
        → Sends s r.1
        → (all_written (length (data_packet len)) r).1.download_size ≡ 0
    written (none, t) p = kept t p
    written (some n, t) p = kept t p

stored :
    (len : ℕ) (s : Session) (r : Transfer × Session)
    → s.download_size ≡ 0
    → Reads s r.1
    → Downloaded len (store_download len r)
unfolding store_download
stored len s (received got, t) h p = elim (Bool-cases (length got == len)) [
  | inl all ↦ rw all (okay-Downloaded len [] _ refl (ground arith))
  | inr part ↦ rw part (inl (kept t p))
]
  where
    kept : (t : Session) → Reads s t → t.download_size ≡ 0
    kept _ (reads_from st r ui) = h
stored len s (failed, t) h p = inl (kept t p)
  where
    kept : (t : Session) → Reads s t → t.download_size ≡ 0
    kept _ (reads_from st r ui) = h
stored len s (out_of_fuel, t) h p = inl (kept t p)
  where
    kept : (t : Session) → Reads s t → t.download_size ≡ 0
    kept _ (reads_from st r ui) = h

after-Downloaded :
    (len : ℕ) (r : Bool × Session) → r.1.download_size ≡ 0 → Downloaded len (download_after len r)
unfolding download_after
after-Downloaded len (true, s) h =
    stored len s (usb_read_progress len s) h (usb_read_progress-Reads len s)
after-Downloaded len (false, s) h = inl h

-- What `download:` does with an announcement of `len` bytes: above `download_max` it is refused by
-- one FAIL and nothing is read; otherwise the outcome is `Downloaded`.
abbrev pub DownloadOutcome : Text → Session → Type 0
DownloadOutcome arg s =
    ((s.download_max < strtoul arg)
      × (cmd_download arg s
          ≡ fastboot_fail (codes "data too large") (record s { download_size = 0 })))
    ⊎ ((strtoul arg ≤ s.download_max) × Downloaded (strtoul arg) (cmd_download arg s))

-- `download:` on any session and any environment: an announcement above `download_max` is answered
-- by one FAIL alone; otherwise either nothing counts as downloaded, or the buffer
-- holds exactly as many bytes as were announced, all of them count, and the command is complete.
pub cmd_download-outcome : (arg : Text) (s : Session) → DownloadOutcome arg s
unfolding cmd_download
cmd_download-outcome arg s = elim (Bool-cases (ltb s.download_max (strtoul arg))) [
  | inl large ↦ inl (ground arith, rw large refl)
  | inr fits ↦ inr (
    ground arith,
    rw fits (
        after-Downloaded (strtoul arg) _
          (response-size (strtoul arg) (record s { download_size = 0 }) refl)),
  )
]
