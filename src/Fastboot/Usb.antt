-- ===== src/Fastboot/Usb.antt =====
-- `usb_read` and `usb_write` of src/fastboot.c.
pub mod Sent
use mathlib.Core.Path.{subst}
use tboot.Base.{
  ℕ, ap, Bool, ◌+◌, ◌-◌, ◌≤◌, ◌<◌, min, ◌≡◌, ◌∙◌, refl, Option, none, some, List, [], ◌∷◌, ◌++◌,
  arith, Text, length, take, length-append, take_all, length-take, ltb, ◌==◌, if◌then◌else◌,
}
use tboot.Fastboot.{FastbootState, command, error, Session}

abbrev usb_block : ℕ
usb_block = 4096

-- What the loop of `usb_read` returns: the bytes that it stored (`none` after a failed read), and
-- the script that is left.
abbrev ReadResult : Type 0
ReadResult = Option Text × List (Option Text)

-- The loop of `usb_read`: `len` bytes are still wanted, `got` are stored. A read() returns at most
-- as many bytes as it is asked for; a script that has ended is a failing read().
unfoldable pub usb_read_loop : List (Option Text) → ℕ → Text → ReadResult
usb_read_loop [] len got = if len == 0 then (some got, []) else (none, [])
usb_read_loop (none ∷ reads) len got = if len == 0 then (some got, none ∷ reads) else (none, reads)
usb_read_loop (some bytes ∷ reads) len got =
    let xfer = if ltb usb_block len then usb_block else len in
    let chunk = take xfer bytes in
    let rest = usb_read_loop reads (len - length chunk) (got ++ chunk) in
    if len == 0
    then (some got, some bytes ∷ reads)
    else if length chunk == xfer
    then rest
    else (some (got ++ chunk), reads)

-- `some bytes` stands for the returned count and the bytes stored, `none` for -1.
unfoldable pub finish_read : ReadResult → Session → Option Text × Session
finish_read (some got, reads) s = (some got, record s { reads = reads })
finish_read (none, reads) s = (none, record s { reads = reads; state = error })

unfoldable pub read_in : FastbootState → ℕ → Session → Option Text × Session
read_in error len s = (none, s)
read_in _ len s = finish_read (usb_read_loop s.reads len []) s

unfoldable pub usb_read : ℕ → Session → Option Text × Session
unfolding finish_read read_in
usb_read len s = read_in s.state len s

unfoldable pub finish_write : List (Option ℕ) → Text → Session → Option ℕ × Session
finish_write [] buf s = (none, record s { state = error })
finish_write (none ∷ writes) buf s = (none, record s { writes = writes; state = error })
finish_write (some n ∷ writes) buf s =
    let r = min n (length buf) in
    (some r, record s { writes = writes; sent = s.sent ++ take r buf ∷ [] })

unfoldable pub write_in : FastbootState → Text → Session → Option ℕ × Session
write_in error buf s = (none, s)
write_in _ buf s = finish_write s.writes buf s

-- One write(); it accepts at most `length buf` bytes.
unfoldable pub usb_write : Text → Session → Option ℕ × Session
unfolding finish_write write_in
usb_write buf s = write_in s.state buf s

loop-bound :
    (reads : List (Option Text)) (len : ℕ) (got : Text) (bytes : Text) (rest : List (Option Text))
    → usb_read_loop reads len got ≡ (some bytes, rest)
    → length bytes ≤ length got + len
unfolding usb_read_loop
loop-bound [] len got bytes rest h = ground arith
loop-bound (none ∷ reads) len got bytes rest h = ground arith
loop-bound (some x ∷ reads) len got bytes rest h = ground (
  arith,
  length-append got (take (if ltb usb_block len then usb_block else len) x),
  length-take (if ltb usb_block len then usb_block else len) x,
  loop-bound reads (len - length (take (if ltb usb_block len then usb_block else len) x))
      (got ++ take (if ltb usb_block len then usb_block else len) x) bytes rest,
)

-- In STATE_ERROR nothing is written.
pub usb_write_in_error : (buf : Text) (s : Session) → s.state ≡ error → usb_write buf s ≡ (none, s)
unfolding usb_write
usb_write_in_error buf s h = rw h

pub usb_write_failed :
    (buf : Text) (s : Session) (writes : List (Option ℕ))
    → s.state ≡ command
    → s.writes ≡ none ∷ writes
    → usb_write buf s ≡ (none, record s { writes = writes; state = error })
unfolding usb_write
usb_write_failed buf s writes h e = rw (h, e)

pub usb_write_ended :
    (buf : Text) (s : Session)
    → s.state ≡ command
    → s.writes ≡ []
    → usb_write buf s ≡ (none, record s { state = error })
unfolding usb_write
usb_write_ended buf s h e = rw (h, e)

pub usb_write_done :
    (buf : Text) (s : Session) (n : ℕ) (writes : List (Option ℕ))
    → s.state ≡ command
    → s.writes ≡ some n ∷ writes
    → usb_write buf s ≡ (
      some (min n (length buf)),
      record s { writes = writes; sent = s.sent ++ take (min n (length buf)) buf ∷ [] },
    )
unfolding usb_write
usb_write_done buf s n writes h e = rw (h, e)

-- What `usb_read` leaves: a failure is always STATE_ERROR; a success delivers at most what was
-- asked for and changes nothing but the script.
pub data ReadOutcome (len : ℕ) (s : Session) : Option Text × Session → Type 0 where
  read_failed :
      (state : FastbootState) (reads : List (Option Text))
      → state ≡ error
      → ReadOutcome len s (none, record s { reads = reads; state = state })
  read_bytes :
      (bytes : Text) (reads : List (Option Text))
      → length bytes ≤ len
      → ReadOutcome len s (some bytes, record s { reads = reads })

ReadOutcome-of :
    (len : ℕ) (s : Session) (r : ReadResult)
    → ((bytes : Text) (rest : List (Option Text)) → r ≡ (some bytes, rest) → length bytes ≤ len)
    → ReadOutcome len s (finish_read r s)
unfolding finish_read
ReadOutcome-of len s (some got, reads) h = read_bytes got reads (h got reads refl)
ReadOutcome-of len s (none, reads) h = read_failed error reads refl

loop_outcome :
    (len : ℕ) (s : Session) → ReadOutcome len s (finish_read (usb_read_loop s.reads len []) s)
loop_outcome len s =
    ReadOutcome-of len s (usb_read_loop s.reads len [])
      (λ bytes rest e. omega (arith, loop-bound s.reads len [] bytes rest e))

outcome_in :
    (st : FastbootState) (len : ℕ) (s : Session)
    → s.state ≡ st
    → ReadOutcome len s (read_in st len s)
unfolding read_in
outcome_in error len s e = read_failed s.state s.reads e
outcome_in _ len s e = loop_outcome len s

pub usb_read-outcome : (len : ℕ) (s : Session) → ReadOutcome len s (usb_read len s)
unfolding usb_read
usb_read-outcome len s = outcome_in s.state len s refl

-- A write that accepts all of its buffer.
pub usb_write_whole :
    (buf : Text) (s : Session) (n : ℕ) (writes : List (Option ℕ))
    → s.state ≡ command
    → s.writes ≡ some n ∷ writes
    → length buf ≤ n
    → usb_write buf s ≡ (some (length buf), record s { writes = writes; sent = s.sent ++ buf ∷ [] })
usb_write_whole buf s n writes h e le =
    usb_write_done buf s n writes h e ∙ rw (all, take_all (length buf) buf (omega arith)) refl
  where
    all : min n (length buf) ≡ length buf
    all = omega arith

-- What writing and replying may change of a session.
pub data Sends (s : Session) : Session → Type 0 where
  sends :
      (state : FastbootState) (writes : List (Option ℕ)) (sent : List Text) (fault : Bool)
      → Sends s (record s { state = state; writes = writes; sent = sent; fault = fault })

finish_write-Sends :
    (writes : List (Option ℕ)) (buf : Text) (s : Session) → Sends s (finish_write writes buf s).1
unfolding finish_write
finish_write-Sends [] buf s = sends error s.writes s.sent s.fault
finish_write-Sends (none ∷ writes) buf s = sends error writes s.sent s.fault
finish_write-Sends (some n ∷ writes) buf s =
    sends s.state writes (s.sent ++ take (min n (length buf)) buf ∷ []) s.fault

write_in-Sends : (st : FastbootState) (buf : Text) (s : Session) → Sends s (write_in st buf s).1
unfolding write_in
write_in-Sends error buf s = sends s.state s.writes s.sent s.fault
write_in-Sends _ buf s = finish_write-Sends s.writes buf s

pub usb_write-Sends : (buf : Text) (s : Session) → Sends s (usb_write buf s).1
unfolding usb_write
usb_write-Sends buf s = write_in-Sends s.state buf s

loop-reads-le :
    (reads : List (Option Text)) (len : ℕ) (got bytes : Text) (rest : List (Option Text))
    → usb_read_loop reads len got ≡ (some bytes, rest)
    → length rest ≤ length reads
unfolding usb_read_loop
loop-reads-le [] len got bytes rest h = ground arith
loop-reads-le (none ∷ reads) len got bytes rest h = ground arith
loop-reads-le (some x ∷ reads) len got bytes rest h =
    let chunk = take (if ltb usb_block len then usb_block else len) x in
    ground (arith, loop-reads-le reads (len - length chunk) (got ++ chunk) bytes rest)

loop-reads-lt :
    (reads : List (Option Text)) (len : ℕ) (bytes : Text) (rest : List (Option Text))
    → 0 < len
    → usb_read_loop reads len [] ≡ (some bytes, rest)
    → length rest < length reads
unfolding usb_read_loop
loop-reads-lt [] len bytes rest pos h = ground arith
loop-reads-lt (none ∷ reads) len bytes rest pos h = ground arith
loop-reads-lt (some x ∷ reads) len bytes rest pos h =
    let chunk = take (if ltb usb_block len then usb_block else len) x in
    ground (arith, loop-reads-le reads (len - length chunk) ([] ++ chunk) bytes rest)

read_in-reads :
    (st : FastbootState) (len : ℕ) (s s' : Session) (bytes : Text)
    → 0 < len
    → read_in st len s ≡ (some bytes, s')
    → length s'.reads < length s.reads
unfolding read_in finish_read
read_in-reads error len s s' bytes pos h = cc
read_in-reads _ len s s' bytes pos h = from (usb_read_loop s.reads len []) refl h
  where
    from :
        (r : ReadResult)
        → usb_read_loop s.reads len [] ≡ r
        → finish_read r s ≡ (some bytes, s')
        → length s'.reads < length s.reads
    from (some got, rest) e p =
        let lt = loop-reads-lt s.reads len got rest pos e in
        subst (λ (t : Session). length t.reads < length s.reads)
          (ap (λ (q : Option Text × Session). q.1) p) lt
    from (none, rest) e p = ground arith

-- A successful read of at least one byte uses up an entry of the script.
pub usb_read-reads :
    (len : ℕ) (s s' : Session) (bytes : Text)
    → 0 < len
    → usb_read len s ≡ (some bytes, s')
    → length s'.reads < length s.reads
unfolding usb_read
usb_read-reads len s s' bytes pos h = read_in-reads s.state len s s' bytes pos h
