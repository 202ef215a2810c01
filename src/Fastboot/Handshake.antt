-- ===== src/Fastboot/Handshake.antt =====
-- `response_data` and `streaming_download` of src/fastboot.c: the answer to a host that announces
-- data, and the plain download of a piece of a stream.
use tboot.Base.{
  ℕ, ◌≤◌, ◌<◌, ◌≡◌, refl, Bool, true, false, Option, none, some, List, [], ◌∷◌, ◌++◌, arith, Text,
  codes, length, drop, ◌==◌, if◌then◌else◌,
}
use tboot.Base.Number.{u32, hex_pad, strtoul, strtoul-hex_pad, length-hex_pad}
use tboot.Fastboot.{command, Session}
use tboot.Fastboot.Usb.{
  usb_read, usb_write, usb_write_whole, ReadOutcome, read_failed, read_bytes, usb_read-outcome,
}

abbrev pub data_packet : ℕ → Text
data_packet len = codes "DATA" ++ hex_pad 8 len

unfoldable pub all_written : ℕ → Option ℕ × Session → Bool × Session
all_written size (none, s) = (false, s)
all_written size (some n, s) = (n == size, s)

-- `true` stands for the result 0, `false` for -1.
unfoldable pub response_data : ℕ → Session → Bool × Session
unfolding all_written
response_data len s = all_written (length (data_packet len)) (usb_write (data_packet len) s)

unfoldable pub whole_read : ℕ → Option Text × Session → Option Text × Session
whole_read len (none, s) = (none, s)
whole_read len (some bytes, s) = if length bytes == len then (some bytes, s) else (none, s)

unfoldable pub handshake_only : Bool × Session → Option Text × Session
handshake_only (true, s) = (some [], s)
handshake_only (false, s) = (none, s)

-- With `response` only the handshake is made. The bytes stored at `*data`, or `none` for -1.
unfoldable pub streaming_download : ℕ → Bool → Session → Option Text × Session
unfolding whole_read handshake_only
streaming_download len true s = handshake_only (response_data len s)
streaming_download len false s = whole_read len (usb_read len s)

same : (n : ℕ) → (n == n) ≡ true
same n = ground arith

-- The answer to an announcement of `len` bytes is one packet of twelve bytes out of which the host
-- reads `len` again, for every 32-bit length; if the write accepts it, it is on the wire as it is
-- and nothing but the script changes.
pub response_data-announces :
    (len n : ℕ) (s : Session) (writes : List (Option ℕ))
    → len < u32
    → s.state ≡ command
    → s.writes ≡ some n ∷ writes
    → 12 ≤ n
    → (length (data_packet len) ≡ 12)
      × (strtoul (drop 4 (data_packet len)) ≡ len)
      × (response_data len s
          ≡ (true, record s { writes = writes; sent = s.sent ++ data_packet len ∷ [] }))
unfolding response_data
response_data-announces len n s writes small h e full = (
  size,
  strtoul-hex_pad len small,
  rw (usb_write_whole (data_packet len) s n writes h e (omega (arith, size)), all_written)
      (rw (same (length (data_packet len))) refl),
)
  where
    size : length (data_packet len) ≡ 12
    size = omega (arith, length-hex_pad 8 len)

-- A piece of a stream that is accepted is stored whole, with nothing but the script of reads
-- changed.
pub streaming_download-whole :
    (len : ℕ) (s s' : Session) (bytes : Text)
    → streaming_download len false s ≡ (some bytes, s')
    → (length bytes ≡ len) × (reads : List (Option Text)) × (s' ≡ record s { reads = reads })
unfolding streaming_download
streaming_download-whole len s s' bytes h = from (usb_read len s) (usb_read-outcome len s) h
  where
    from :
        (r : Option Text × Session)
        → ReadOutcome len s r
        → whole_read len r ≡ (some bytes, s')
        → (length bytes ≡ len) × (reads : List (Option Text)) × (s' ≡ record s { reads = reads })
    from _ (read_failed st reads e) p = cc
    from _ (read_bytes got reads le) p = (ground arith, reads, ground arith)
