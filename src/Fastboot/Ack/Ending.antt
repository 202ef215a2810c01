-- ===== src/Fastboot/Ack/Ending.antt =====
-- The loop of `_fastboot_ack` ends; after a failed write it ends in a fault.
use tboot.Base.{
  ℕ, zero, suc, ◌+◌, ◌-◌, ◌≤◌, ◌<◌, ◌≡◌, refl, inl, inr, true, Option, none, some, List, [], ◌∷◌,
  ◌++◌, arith, Text, length, take, drop, ltb, leb, Bool-cases,
}
use tboot.Fastboot.{command, error, Session}
use tboot.Fastboot.Usb.{
  usb_write, usb_write_in_error, usb_write_failed, usb_write_ended, usb_write_done,
}
use tboot.Fastboot.Ack.{packet_max, ack_loop, ack_fuel, ack_advance, fastboot_ack, fastboot_ack-eq}

in_error :
    (fuel : ℕ) (code reason : Text) (pos : ℕ) (s : Session)
    → s.state ≡ error
    → pos < fuel
    → pos ≤ length reason
    → ack_loop fuel code reason pos s ≡ some (record s { fault = true })
unfolding ack_loop
in_error zero code reason pos s h lt le = absurd (omega arith)
in_error (suc fuel) code reason pos s h lt le =
    rw (usb_write_in_error (take packet_max (code ++ drop pos reason)) s h, ack_loop)
      (ground (arith, in_error fuel code reason (pos - (length code + 1)) s))

-- A round whose write fails ends the reply, however the write fails.
failed_round :
    (fuel : ℕ) (code reason : Text) (pos : ℕ) (s s' : Session)
    → usb_write (take packet_max (code ++ drop pos reason)) s ≡ (none, s')
    → s'.state ≡ error
    → pos < suc fuel
    → pos ≤ length reason
    → ack_loop (suc fuel) code reason pos s ≡ some (record s' { fault = true })
unfolding ack_loop
failed_round fuel code reason pos s s' w h lt le =
    rw (w, ack_loop) (ground (arith, in_error fuel code reason (pos - (length code + 1)) s'))

done_round :
    (fuel : ℕ) (code reason : Text) (pos n : ℕ) (s s' : Session)
    → usb_write (take packet_max (code ++ drop pos reason)) s ≡ (some n, s')
    → ack_loop (suc fuel) code reason pos s
      ≡ ack_advance (ack_loop fuel code reason) code reason pos (some n) s'
unfolding ack_loop
done_round fuel code reason pos n s s' w = rw (w, ack_loop) refl

advance_ends :
    (again : ℕ → Session → Option Session) (code reason : Text) (pos n : ℕ) (s : Session)
    → ((on : ℕ) → on ≤ length reason → (s' : Session) × (again on s ≡ some s'))
    → (s' : Session) × (ack_advance again code reason pos (some n) s ≡ some s')
unfolding ack_advance
advance_ends again code reason pos n s go = elim (Bool-cases (ltb (pos + n) (length code))) [
  | inl out ↦ (record s { fault = true }, rw out)
  | inr inside ↦ elim (Bool-cases (leb (length reason) (pos + n - length code))) [
    | inl done ↦ (s, rw (inside, done))
    | inr more ↦
        let (s', p) = go (pos + n - length code) (ground arith) in (s', rw (inside, more) p)
  ]
]

-- From any script the loop comes to an end within its fuel.
ends_from :
    (writes : List (Option ℕ)) (fuel : ℕ) (code reason : Text) (pos : ℕ) (s : Session)
    → s.state ≡ command
    → s.writes ≡ writes
    → length writes + length reason + 1 < fuel
    → pos ≤ length reason
    → (s' : Session) × (ack_loop fuel code reason pos s ≡ some s')
ends_from writes zero code reason pos s h e lt le = absurd (omega arith)
ends_from [] (suc fuel) code reason pos s h e lt le =
    (_, failed_round fuel code reason pos s _ (usb_write_ended _ s h e) refl (omega arith) le)
ends_from (none ∷ writes) (suc fuel) code reason pos s h e lt le = (
  _,
  failed_round fuel code reason pos s _ (usb_write_failed _ s writes h e) refl (omega arith) le,
)
ends_from (some n ∷ writes) (suc fuel) code reason pos s h e lt le =
    rw (done_round fuel code reason pos _ s _ (usb_write_done _ s n writes h e)) (
      advance_ends (ack_loop fuel code reason) code reason pos _ _
        (λ on le'. ends_from writes fuel code reason on _ h refl (omega arith) le'))

-- In STATE_COMMAND the loop of `_fastboot_ack` comes to an end, within `ack_fuel` rounds, whatever its write calls
-- return: neither short nor failing writes keep it running.
ack_loop_ends :
    (code reason : Text) (s : Session)
    → s.state ≡ command
    → (s' : Session) × (ack_loop (ack_fuel reason s) code reason 0 s ≡ some s')
ack_loop_ends code reason s h =
    ends_from s.writes (ack_fuel reason s) code reason 0 s h refl (omega arith) (omega arith)

-- If the first write of a reply in STATE_COMMAND fails, the reply ends in a fault: the code adds the -1 that
-- `usb_write` returned to the pointer, which leaves the text of the reply at its front.
ack_write_failure :
    (code reason : Text) (s : Session) (writes : List (Option ℕ))
    → s.state ≡ command
    → s.writes ≡ none ∷ writes
    → fastboot_ack code reason s ≡ record s { state = error; writes = writes; fault = true }
unfolding fastboot_ack
ack_write_failure code reason s writes h e = fastboot_ack-eq code reason s _ h (
    failed_round (suc (suc (length s.writes + length reason))) code reason 0 s _
      (usb_write_failed _ s writes h e) refl (omega arith) (omega arith))
