-- ===== src/Fastboot/Ack/Frame.antt =====
-- What a reply leaves alone: a property of sessions that every write and every fault keep is kept by
-- a reply. In particular a reply changes only the state, the wire and the fault flag of a session.
use tboot.Base.{
  ℕ, zero, suc, ◌+◌, ◌-◌, inl, inr, true, Option, none, some, ◌++◌, Text, length, take, drop, ltb,
  leb, Bool-cases,
}
use tboot.Fastboot.{command, FastbootState, Session}
use tboot.Fastboot.Usb.{usb_write, Sends, sends, usb_write-Sends}
use tboot.Fastboot.Ack.{packet_max, ack_loop, ack_fuel, ack_advance, fastboot_ack, or_same, ack_in}

module _ (P : Session → Type 0) (faults : (s : Session) → P s → P (record s { fault = true }))
    (writes : (buf : Text) (s : Session) → P s → P (usb_write buf s).1) where
  abbrev Some : Option Session → Type 0
  Some none = Unit
  Some (some s) = P s

  advance-keeps :
      (again : ℕ → Session → Option Session) (code reason : Text) (pos : ℕ) (r : Option ℕ)
      (t : Session)
      → P t
      → ((on : ℕ) → Some (again on t))
      → Some (ack_advance again code reason pos r t)
  unfolding ack_advance
  advance-keeps again code reason pos none t p rest =
      elim (Bool-cases (ltb pos (length code + 1))) [
        | inl out ↦ rw out (faults t p)
        | inr inside ↦ elim (Bool-cases (leb (length reason) (pos - (length code + 1)))) [
          | inl done ↦ rw (inside, done) p
          | inr more ↦ rw (inside, more) (rest (pos - (length code + 1)))
        ]
      ]
  advance-keeps again code reason pos (some n) t p rest =
      elim (Bool-cases (ltb (pos + n) (length code))) [
        | inl out ↦ rw out (faults t p)
        | inr inside ↦ elim (Bool-cases (leb (length reason) (pos + n - length code))) [
          | inl done ↦ rw (inside, done) p
          | inr more ↦ rw (inside, more) (rest (pos + n - length code))
        ]
      ]

  loop-keeps :
      (fuel : ℕ) (code reason : Text) (pos : ℕ) (s : Session)
      → P s
      → Some (ack_loop fuel code reason pos s)
  unfolding ack_loop
  loop-keeps zero code reason pos s p = tt
  loop-keeps (suc fuel) code reason pos s p =
      let buf = take packet_max (code ++ drop pos reason) in
      let w = usb_write buf s in
      let kept = writes buf s p in
      advance-keeps (ack_loop fuel code reason) code reason pos w.0 w.1 kept
        (λ on. loop-keeps fuel code reason on w.1 kept)

  or_same-keeps : (s : Session) (r : Option Session) → P s → Some r → P (or_same s r)
  or_same-keeps s none p h = p
  or_same-keeps s (some t) p h = h

  ack_in-keeps :
      (st : FastbootState) (code reason : Text) (s : Session) → P s → P (ack_in st code reason s)
  unfolding ack_in
  ack_in-keeps command code reason s p =
      or_same-keeps s _ p (loop-keeps (ack_fuel reason s) code reason 0 s p)
  ack_in-keeps _ code reason s p = p

  pub fastboot_ack-keeps : (code reason : Text) (s : Session) → P s → P (fastboot_ack code reason s)
  unfolding fastboot_ack
  fastboot_ack-keeps code reason s p = ack_in-keeps s.state code reason s p

Sends-trans : {s t u : Session} → Sends s t → Sends t u → Sends s u
Sends-trans (sends st ws l f) (sends st' ws' l' f') = sends st' ws' l' f'

Sends-fault : {s : Session} (t : Session) → Sends s t → Sends s (record t { fault = true })
Sends-fault _ (sends st ws l f) = sends st ws l true

pub fastboot_ack-Sends : (code reason : Text) (s : Session) → Sends s (fastboot_ack code reason s)
fastboot_ack-Sends code reason s =
    fastboot_ack-keeps (Sends s) (λ t p. Sends-fault t p)
      (λ buf t p. Sends-trans p (usb_write-Sends buf t)) code reason s
      (sends s.state s.writes s.sent s.fault)
