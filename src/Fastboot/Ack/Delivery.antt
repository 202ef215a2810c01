-- ===== src/Fastboot/Ack/Delivery.antt =====
-- What a reply of `_fastboot_ack` puts on the wire when every write makes progress.
use tboot.Base.{
  ℕ, zero, suc, ◌+◌, ◌-◌, ◌≤◌, ◌<◌, min, ◌≡◌, refl, sym, ap, ◌∙◌, inl, inr, true, false, Option,
  none, some, List, [], ◌∷◌, ◌++◌, arith, Text, starts_with, length, take, drop, length-take,
  length-drop, take-append-drop, take-take, drop-drop, drop_all, ltb, leb, Bool-cases,
}
use mathlib.Core.Path.{subst}
use mathlib.Core.List.{append_assoc}
use tboot.Fastboot.{command, Session}
use tboot.Fastboot.Usb.{usb_write_done}
use tboot.Fastboot.Ack.{packet_max, ack_loop, ack_fuel, ack_advance, fastboot_ack, fastboot_ack-eq}

-- Every write() to come accepts at least five bytes: the code of a reply and one more.
abbrev pub AllProgress : List (Option ℕ) → Type 0
AllProgress [] = Unit
AllProgress (none ∷ writes) = ⊥
AllProgress (some n ∷ writes) = (5 ≤ n) × AllProgress writes

-- What the host reads out of the packets of a reply: each without its code of four bytes.
abbrev pub payload : List Text → Text
payload [] = []
payload (p ∷ packets) = drop 4 p ++ payload packets

abbrev pub AllPackets : Text → List Text → Type 0
AllPackets code [] = Unit
AllPackets code (p ∷ packets) =
    (length p ≤ packet_max) × (starts_with code p ≡ true) × AllPackets code packets

module _ (c1 c2 c3 c4 : ℕ) where
  abbrev code4 : Text
  code4 = c1 ∷ c2 ∷ c3 ∷ c4 ∷ []

  packet_payload :
      (rest : Text) (k : ℕ)
      → k ≤ 59
      → drop 4 (take (4 + k) (take packet_max (code4 ++ rest))) ≡ take k rest
  packet_payload rest k h =
      rw (take-take (4 + k) packet_max (code4 ++ rest) (omega arith)) (step (4 + k) (omega arith))
    where
      step : (m : ℕ) → m ≡ suc (suc (suc (suc k))) → drop 4 (take m (code4 ++ rest)) ≡ take k rest
      step m e = rw e refl

  -- One round that writes n bytes: the packet carries the next n - 4 bytes of the text.
  round_payload :
      (reason : Text) (pos n : ℕ)
      → 4 ≤ n
      → n ≤ packet_max
      → drop 4 (take n (take packet_max (code4 ++ drop pos reason))) ++ drop (pos + n - 4) reason
        ≡ drop pos reason
  round_payload reason pos n h le =
      let e : n ≡ 4 + (n - 4) = omega arith in
      let f : pos + n - 4 ≡ pos + (n - 4) = omega arith in
      rw (f, ← drop-drop (n - 4) pos reason)
        (ap
            (λ (m : ℕ).
              drop 4 (take m (take packet_max (code4 ++ drop pos reason)))
              ++ drop (n - 4) (drop pos reason))
            e
          ∙ ap (λ l. l ++ drop (n - 4) (drop pos reason))
              (packet_payload (drop pos reason) (n - 4) (omega arith))
          ∙ take-append-drop (n - 4) (drop pos reason))

  packet_starts :
      (rest : Text) (n : ℕ)
      → 4 ≤ n
      → n ≤ packet_max
      → starts_with code4 (take n (take packet_max (code4 ++ rest))) ≡ true
  unfolding starts_with
  packet_starts rest n h le =
      rw (take-take n packet_max (code4 ++ rest) le) (step n (n - 4) (omega arith))
    where
      step :
          (m k : ℕ)
          → m ≡ suc (suc (suc (suc k)))
          → starts_with code4 (take m (code4 ++ rest)) ≡ true
      step m k e = rw e (ground arith)

  packet_length :
      (rest : Text) (n : ℕ) → length (take n (take packet_max (code4 ++ rest))) ≤ packet_max
  packet_length rest n = omega (
    arith,
    length-take n (take packet_max (code4 ++ rest)),
    length-take packet_max (code4 ++ rest),
  )

  -- What the reply `reason` from `pos` on leaves behind, started in `s`.
  abbrev Delivered : Text → ℕ → Session → Option Session → Type 0
  Delivered reason pos s result =
      (packets : List Text) × (writes : List (Option ℕ)) × (result
        ≡ some (record s { writes = writes; sent = s.sent ++ packets }))
      × (payload packets ≡ drop pos reason)
      × AllPackets code4 packets

  module _ (reason : Text) (pos n : ℕ) (s : Session) (writes : List (Option ℕ)) where
    abbrev buf : Text
    buf = take packet_max (code4 ++ drop pos reason)

    abbrev count : ℕ
    count = min n (length buf)

    abbrev on : ℕ
    on = pos + count - 4

    abbrev sent_once : Session
    sent_once = record s { writes = writes; sent = s.sent ++ take count buf ∷ [] }

    length-buf : length buf ≡ min packet_max (4 + (length reason - pos))
    length-buf =
        omega (arith, length-take packet_max (code4 ++ drop pos reason), length-drop pos reason)

    last_packet : 5 ≤ n → length reason ≤ on → Delivered reason pos s (some sent_once)
    last_packet h le = (
      take count buf ∷ [],
      writes,
      refl,
      ap (λ l. drop 4 (take count buf) ++ l) (sym (drop_all on reason le))
          ∙ round_payload reason pos count (omega (arith, length-buf)) (omega (arith, length-buf)),
      (
        packet_length (drop pos reason) count,
        packet_starts (drop pos reason) count (omega (arith, length-buf))
            (omega (arith, length-buf)),
        tt,
      ),
    )

    next_packet :
        (result : Option Session)
        → 5 ≤ n
        → Delivered reason on sent_once result
        → Delivered reason pos s result
    next_packet result h (packets, left, e, pay, ok) = (
      take count buf ∷ packets,
      left,
      e
          ∙ ap (λ l. some (record s { writes = left; sent = l }))
              (append_assoc s.sent (take count buf ∷ []) packets),
      ap (λ l. drop 4 (take count buf) ++ l) pay
          ∙ round_payload reason pos count (omega (arith, length-buf)) (omega (arith, length-buf)),
      (
        packet_length (drop pos reason) count,
        packet_starts (drop pos reason) count (omega (arith, length-buf))
            (omega (arith, length-buf)),
        ok,
      ),
    )

    -- A round that writes at least five bytes leads from what the next rounds deliver to the whole.
    advance_delivers :
        (again : ℕ → Session → Option Session)
        → 5 ≤ n
        → pos ≤ length reason
        → (on < length reason → Delivered reason on sent_once (again on sent_once))
        → Delivered reason pos s (ack_advance again code4 reason pos (some count) sent_once)
    unfolding ack_advance
    advance_delivers again h le go = elim (Bool-cases (leb (length reason) on)) [
      | inl done ↦ rw (inside, done) (last_packet h (ground arith))
      | inr more ↦ rw (inside, more) (next_packet (again on sent_once) h (go (ground arith)))
    ]
      where
        inside : ltb (pos + count) 4 ≡ false
        inside = ground (arith, length-buf)

    count-progress : 5 ≤ n → pos < length reason → pos < on
    count-progress h lt = omega (arith, length-buf)

    on-le : pos ≤ length reason → on ≤ length reason
    on-le le = omega (arith, length-buf)

  delivers_from :
      (writes : List (Option ℕ)) (fuel : ℕ) (reason : Text) (pos : ℕ) (s : Session)
      → s.state ≡ command
      → s.writes ≡ writes
      → AllProgress writes
      → length reason - pos < length writes
      → length writes ≤ fuel
      → pos ≤ length reason
      → Delivered reason pos s (ack_loop fuel code4 reason pos s)
  unfolding ack_loop
  delivers_from [] fuel reason pos s h e ok enough fuelled le = absurd (omega arith)
  delivers_from (none ∷ writes) fuel reason pos s h e ok enough fuelled le = absurd ok
  delivers_from (some n ∷ writes) zero reason pos s h e ok enough fuelled le = absurd (omega arith)
  delivers_from (some n ∷ writes) (suc fuel) reason pos s h e ok enough fuelled le =
      subst (Delivered reason pos s) (sym round) (
        advance_delivers reason pos n s writes (ack_loop fuel code4 reason) ok.0 le (λ lt.
          delivers_from writes fuel reason (on reason pos n s writes)
            (sent_once reason pos n s writes) h refl ok.1
            (omega (arith, count-progress reason pos n s writes ok.0)) (omega arith) (omega arith)))
    where
      round :
          ack_loop (suc fuel) code4 reason pos s
          ≡ ack_advance
              (ack_loop fuel code4 reason)
              code4
              reason
              pos
              (some (count reason pos n s writes))
              (sent_once reason pos n s writes)
      round =
          rw (usb_write_done (take packet_max (code4 ++ drop pos reason)) s n writes h e, ack_loop)
            refl

  -- If every write() makes progress and there are enough of them, a reply faults nowhere: it sends
  -- packets of at most 63 bytes, each with the code in front, and what they carry behind the code
  -- is, put together, the whole text of the reply. Nothing else of the session changes.
  pub fastboot_ack-delivers :
      (reason : Text) (s : Session)
      → s.state ≡ command
      → AllProgress s.writes
      → length reason < length s.writes
      → (packets : List Text) × (writes : List (Option ℕ)) × (fastboot_ack code4 reason s
          ≡ record s { writes = writes; sent = s.sent ++ packets })
        × (payload packets ≡ reason)
        × AllPackets code4 packets
  fastboot_ack-delivers reason s h ok enough =
      let (packets, writes, e, pay, all) =
        delivers_from s.writes (ack_fuel reason s) reason 0 s h refl ok (omega arith) (omega arith)
          (omega arith) in
      (packets, writes, fastboot_ack-eq code4 reason s _ h e, pay, all)
