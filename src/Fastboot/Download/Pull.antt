-- ===== src/Fastboot/Download/Pull.antt =====
-- What a successful `pull_file` has sent.
use tboot.Base.{
  ℕ, ◌+◌, ◌-◌, ◌%◌, ◌≡◌, refl, ap, ◌∙◌, inl, inr, true, Option, none, some, [], ◌∷◌, ◌++◌, arith,
  Text, codes, length, length-append, ltb, ◌==◌, Bool-cases,
}
use tboot.Base.Number.{u32, hex_pad, length-hex_pad}
use tboot.Fastboot.{Session}
use tboot.Fastboot.Usb.{usb_read, usb_write, ReadOutcome, read_failed, read_bytes, usb_read-outcome}
use tboot.Fastboot.Usb.Sent.{usb_write-sent}
use tboot.Fastboot.Download.{
  PulledFile, file_packet, pull_read, pull_file, pull_sent, check_confirmation, confirmation,
}

-- The wire after a read: unchanged.
read-sent :
    (len : ℕ) (s : Session) (r : Option Text × Session) → ReadOutcome len s r → r.1.sent ≡ s.sent
read-sent len s _ (read_failed st reads e) = refl
read-sent len s _ (read_bytes bytes reads le) = refl

confirmation-sent :
    (stale : Text) (r : Option Text × Session) → (confirmation stale r).1.sent ≡ r.1.sent
unfolding confirmation
confirmation-sent stale (none, s) = refl
confirmation-sent stale (some response, s) = ground arith

check-sent :
    (size : ℕ) (r : Option Text × Session) (s' : Session)
    → check_confirmation size r ≡ (true, s')
    → s'.sent ≡ r.1.sent
unfolding check_confirmation
check-sent size (none, s) s' h = cc
check-sent size (some response, s) s' h = ground arith

pull_sent-sent :
    (size : ℕ) (stale buf : Text) (s : Session) (w : Option ℕ × Session) (s' : Session)
    → usb_write buf s ≡ w
    → pull_sent size stale (length buf) w ≡ (true, s')
    → s'.sent ≡ s.sent ++ buf ∷ []
unfolding pull_sent
pull_sent-sent size stale buf s (none, t) s' e h = cc
pull_sent-sent size stale buf s (some n, t) s' e h = elim (Bool-cases (n == length buf)) [
  | inr part ↦ ground (arith, part)
  | inl whole ↦
      let e' : usb_write buf s ≡ (some (length buf), t) =
        e ∙ ap (λ (k : ℕ). (some k, t)) (ground arith) in
      let r = usb_read 64 t in
      check-sent size (confirmation stale r) s' (ground (arith, whole))
      ∙ confirmation-sent stale r
      ∙ read-sent 64 t r (usb_read-outcome 64 t)
      ∙ usb_write-sent buf s t e'
]

length-file_packet :
    (size : ℕ) (content : Text) → length (file_packet size content) ≡ 12 + length content
length-file_packet size content = omega (
  arith,
  length-append (codes "FILE" ++ hex_pad 8 size) content,
  length-append (codes "FILE") (hex_pad 8 size),
  length-hex_pad 8 size,
)

-- A `pull_file` that succeeds has read the whole file and sent one packet more: "FILE", the size in
-- eight digits, and the contents.
abbrev pub Pulled : Option (Option PulledFile) → Session → Session → Type 0
Pulled none s s' = ⊥
Pulled (some none) s s' = ⊥
Pulled (some (some f)) s s' =
    (content : Text) × (f.content ≡ some content)
    × (length content ≡ f.size)
    × (s'.sent ≡ s.sent ++ file_packet f.size content ∷ [])

read-Pulled :
    (size : ℕ) (c : Option Text) (stale : Text) (s s' : Session)
    → pull_read size c stale s ≡ (true, s')
    → Pulled (some (some (record { size = size; content = c }))) s s'
unfolding pull_read
read-Pulled size none stale s s' h = cc
read-Pulled size (some content) stale s s' h = elim (Bool-cases (length content == size)) [
  | inr part ↦ ground (arith, part)
  | inl whole ↦
      let e : length content ≡ size = ground arith in
      let sent = record s { download_base = file_packet size content; download_size = 12 + size } in
      let n : 12 + size ≡ length (file_packet size content) =
        omega (arith, e, length-file_packet size content) in
      (
        content,
        refl,
        e,
        pull_sent-sent size stale (file_packet size content) sent _ s' refl
            (rw (← n) (ground (arith, whole))),
      )
]

-- A `pull_file` that succeeds was given a file that could be read whole, and has put on the wire one
-- packet more: "FILE", the size of the file in eight digits, and its contents.
pub pull_file-Pulled :
    (file : Option (Option PulledFile)) (stale : Text) (s s' : Session)
    → pull_file file stale s ≡ (true, s')
    → Pulled file s s'
unfolding pull_file
pull_file-Pulled none stale s s' h = cc
pull_file-Pulled (some none) stale s s' h = cc
pull_file-Pulled (some (some f)) stale s s' h =
    elim (Bool-cases (ltb ((s.download_max + u32 - 12) % u32) f.size)) [
      | inl large ↦ ground (arith, large)
      | inr fits ↦ read-Pulled f.size f.content stale s s' (ground (arith, fits))
    ]
