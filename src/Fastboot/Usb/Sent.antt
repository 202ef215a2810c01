-- ===== src/Fastboot/Usb/Sent.antt =====
-- What a write that accepts its whole buffer has put on the wire.
use tboot.Base.{
  ℕ, min, ◌≡◌, ap, Option, none, some, List, [], ◌∷◌, ◌++◌, arith, Text, length, take_all,
}
use tboot.Fastboot.{FastbootState, error, Session}
use tboot.Fastboot.Usb.{usb_write, finish_write, write_in}

finish-sent :
    (writes : List (Option ℕ)) (buf : Text) (s s' : Session)
    → finish_write writes buf s ≡ (some (length buf), s')
    → s'.sent ≡ s.sent ++ buf ∷ []
unfolding finish_write
finish-sent [] buf s s' h = cc
finish-sent (none ∷ writes) buf s s' h = cc
finish-sent (some n ∷ writes) buf s s' h = ground (
  arith,
  take_all (min n (length buf)) buf,
  ap (λ (q : Option ℕ × Session). q.1.sent) h,
  ap (λ (q : Option ℕ × Session). q.0) h,
)

write_in-sent :
    (st : FastbootState) (buf : Text) (s s' : Session)
    → write_in st buf s ≡ (some (length buf), s')
    → s'.sent ≡ s.sent ++ buf ∷ []
unfolding write_in
write_in-sent error buf s s' h = cc
write_in-sent _ buf s s' h = finish-sent s.writes buf s s' h

pub usb_write-sent :
    (buf : Text) (s s' : Session)
    → usb_write buf s ≡ (some (length buf), s')
    → s'.sent ≡ s.sent ++ buf ∷ []
unfolding usb_write
usb_write-sent buf s s' h = write_in-sent s.state buf s s' h
