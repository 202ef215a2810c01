-- ===== src/Fastboot/Reply.antt =====
-- `fastboot_info`, `fastboot_fail` and `fastboot_okay` of src/fastboot.c, and the discipline of replies.
use tboot.Base.{
  ℕ, ◌<◌, ◌≡◌, refl, ap, ◌∙◌, ◌≢◌, Option, List, [], ◌∷◌, ◌++◌, arith, Text, codes, length,
}
use tboot.Fastboot.{command, complete, error, Session}
use tboot.Fastboot.Ack.{fastboot_ack, fastboot_ack_silent}
use tboot.Fastboot.Ack.Delivery.{AllProgress, payload, AllPackets, fastboot_ack-delivers}

unfoldable pub fastboot_info : Text → Session → Session
fastboot_info reason s = fastboot_ack (codes "INFO") reason s

unfoldable pub fastboot_fail : Text → Session → Session
fastboot_fail reason s = record (fastboot_ack (codes "FAIL") reason s) { state = complete }

unfoldable pub fastboot_okay : Text → Session → Session
fastboot_okay info s = record (fastboot_ack (codes "OKAY") info s) { state = complete }

-- A command's replies, as calls in a row.
pub data Reply : Type 0 where
  info fail okay : Text → Reply

pub reply : Reply → Session → Session
unfolding fastboot_info fastboot_fail fastboot_okay
reply (info t) s = fastboot_info t s
reply (fail t) s = fastboot_fail t s
reply (okay t) s = fastboot_okay t s

pub reply_all : List Reply → Session → Session
reply_all [] s = s
reply_all (r ∷ replies) s = reply_all replies (reply r s)

abbrev IsFinal : Reply → Type 0
IsFinal (info t) = ⊥
IsFinal (fail t) = Unit
IsFinal (okay t) = Unit

-- A reply outside STATE_COMMAND puts nothing on the wire and faults nowhere.
reply-silent :
    (r : Reply) (s : Session)
    → s.state ≢ command
    → ((reply r s).sent ≡ s.sent) × ((reply r s).fault ≡ s.fault) × ((reply r s).state ≢ command)
unfolding reply fastboot_info
reply-silent (info t) s h = ground (arith, fastboot_ack_silent (codes "INFO") t s h)
reply-silent (fail t) s h = ground (arith, fastboot_ack_silent (codes "FAIL") t s h)
reply-silent (okay t) s h = ground (arith, fastboot_ack_silent (codes "OKAY") t s h)

-- Outside STATE_COMMAND no replies, however many, put anything on the wire.
reply_all-silent :
    (replies : List Reply) (s : Session)
    → s.state ≢ command
    → ((reply_all replies s).sent ≡ s.sent) × ((reply_all replies s).fault ≡ s.fault)
unfolding reply_all
reply_all-silent [] s h = (refl, refl)
reply_all-silent (r ∷ replies) s h =
    let (e, f, g) = reply-silent r s h in
    let (e', f') = reply_all-silent replies (reply r s) g in (e' ∙ e, f' ∙ f)

final_state : (r : Reply) (s : Session) → IsFinal r → (reply r s).state ≡ complete
unfolding reply
final_state (info t) s h = absurd h
final_state (fail t) s h = refl
final_state (okay t) s h = refl

-- Whatever a handler replies after its first OKAY or FAIL, from whatever state, never reaches the
-- wire: a command has at most one final reply.
pub final_once :
    (r : Reply) (replies : List Reply) (s : Session)
    → IsFinal r
    → (reply_all (r ∷ replies) s).sent ≡ (reply r s).sent
unfolding reply_all
final_once r replies s h = (reply_all-silent replies (reply r s) (λ e. cc (final_state r s h, e))).0

-- An OKAY in STATE_COMMAND, when every write() to come accepts at least five bytes and there are
-- more of them than characters in `text`, ends the command without a fault: the host receives OKAY
-- packets of at most 63 bytes, and what they carry is, put together, the whole of `text`.
pub fastboot_okay-delivers :
    (text : Text) (s : Session)
    → s.state ≡ command
    → AllProgress s.writes
    → length text < length s.writes
    → (packets : List Text) × (writes : List (Option ℕ)) × (fastboot_okay text s
        ≡ record s { state = complete; writes = writes; sent = s.sent ++ packets })
      × (payload packets ≡ text)
      × AllPackets (codes "OKAY") packets
unfolding fastboot_okay
fastboot_okay-delivers text s h ok enough =
    let (packets, writes, e, pay, all) = fastboot_ack-delivers _ _ _ _ text s h ok enough in
    (packets, writes, ap (λ (t : Session). record t { state = complete }) e, pay, all)

-- `fastboot_fail` ends in STATE_COMPLETE also where the transport had already failed: STATE_ERROR,
-- on which the command loop gives the device node up, is forgotten, and nothing is sent.
fail_forgets_error :
    (text : Text) (s : Session)
    → s.state ≡ error
    → fastboot_fail text s ≡ record s { state = complete }
unfolding fastboot_fail
fail_forgets_error text s h =
    ap (λ (t : Session). record t { state = complete })
      (fastboot_ack_silent (codes "FAIL") text s (λ e. cc (h, e)))
