-- ===== src/Fastboot/Ack.antt =====
-- `_fastboot_ack`, `fastboot_info`, `fastboot_fail` and `fastboot_okay` of src/fastboot.c.
pub mod Ending
pub mod Delivery
pub mod Frame
use tboot.Base.{
  ℕ, zero, suc, ◌+◌, ◌-◌, ◌/◌, ◌*◌, ◌%◌, ◌^◌, ◌≤◌, ◌<◌, min, ◌≡◌, refl, sym, ap, ◌∙◌, ◌≢◌, ◌↔◌, ◌⊎◌,
  inl, inr, Bool, true, false, not, ◌&&◌, ◌||◌, Option, none, some, List, [], ◌∷◌, ◌++◌, map, arith,
  String, Text, codes, text_eq, starts_with, after_char, before_char, text_eq_refl, text_eq-eq,
  starts_with-append, length, get_elem?, take, drop, length-append, length-take, length-drop,
  take-append-drop, take_all, ltb, leb, ◌==◌, if◌then◌else◌, ltb→lt, lt→ltb, ==_iff, Bool-cases,
  Option-cases,
}
use tboot.Fastboot.{FastbootState, offline, command, complete, error, Session}
use tboot.Fastboot.Usb.{usb_write}

-- What `snprintf(buf, MAX_LEN, …)` leaves of a text, beside its NUL.
abbrev pub packet_max : ℕ
packet_max = 63

-- The end of a round: `usb_write` returned r, and the pointer `reason`, the index `pos` into the
-- text that the caller passed, moves by r - strlen(code). A move to before the text is a fault. At
-- the terminating NUL the loop ends; elsewhere it goes on with `again`.
pub ack_advance :
    (ℕ → Session → Option Session) → Text → Text → ℕ → Option ℕ → Session → Option Session
ack_advance again code reason pos none s =
    if ltb pos (length code + 1)
    then some (record s { fault = true })
    else if leb (length reason) (pos - (length code + 1))
    then some s
    else again (pos - (length code + 1)) s
ack_advance again code reason pos (some n) s =
    if ltb (pos + n) (length code)
    then some (record s { fault = true })
    else if leb (length reason) (pos + n - length code)
    then some s
    else again (pos + n - length code) s

-- The loop of `_fastboot_ack`. `none`: the fuel has run out.
pub ack_loop : ℕ → Text → Text → ℕ → Session → Option Session
unfolding ack_advance
ack_loop zero code reason pos s = none
ack_loop (suc fuel) code reason pos s =
    let (r, s') = usb_write (take packet_max (code ++ drop pos reason)) s in
    ack_advance (ack_loop fuel code reason) code reason pos r s'

-- Enough for every script: a round uses up a write, or moves the pointer back by five.
abbrev pub ack_fuel : Text → Session → ℕ
ack_fuel reason s = suc (suc (suc (length s.writes + length reason)))

abbrev or_same : Session → Option Session → Session
or_same s none = s
or_same s (some s') = s'

ack_in : FastbootState → Text → Text → Session → Session
ack_in command code reason s = or_same s (ack_loop (ack_fuel reason s) code reason 0 s)
ack_in _ code reason s = s

-- A reply is sent only in STATE_COMMAND.
pub fastboot_ack : Text → Text → Session → Session
unfolding ack_in
fastboot_ack code reason s = ack_in s.state code reason s

pub fastboot_ack-eq :
    (code reason : Text) (s s' : Session)
    → s.state ≡ command
    → ack_loop (ack_fuel reason s) code reason 0 s ≡ some s'
    → fastboot_ack code reason s ≡ s'
unfolding fastboot_ack
fastboot_ack-eq code reason s s' h e = ground arith

-- Outside STATE_COMMAND a reply sends nothing and changes nothing.
pub fastboot_ack_silent :
    (code reason : Text) (s : Session) → s.state ≢ command → fastboot_ack code reason s ≡ s
unfolding fastboot_ack
fastboot_ack_silent code reason s h = ground arith
