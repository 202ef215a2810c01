-- ===== src/Aboot/Flow/Outcome.antt =====
-- The rules for the steps of `cmd_stream_flash` of src/aboot.c.
use tboot.Base.{ℕ, ◌≡◌, refl, Bool, true, false, Option, none, some, arith, Text, length}
use tboot.Fastboot.{complete, UiCall, Session}
use tboot.Fastboot.Reply.{fastboot_fail}
use tboot.Fastboot.Usb.{usb_read}
use tboot.Fastboot.Online.{Online, fastboot_fail-Online}
use tboot.Fastboot.Handshake.{streaming_download, whole_read}
use tboot.Fastboot.Download.Online.{streaming_download-Online}
use tboot.Aboot.Commands.{show}
use tboot.Aboot.Flow.{
  Exit, go, goto_error, hangs, Flow, abort, or_abort, bind_result, ◌>>=◌, ◌>>◌, guard, tell,
  receive, received_or_abort, without_thread, fault_on_error,
}

-- Whatever is asked of the values, the steps keep the protocol online, and what goes to `error` has
-- left the command complete; a step runs out of fuel only where `stuck` holds.
module _ (n : ℕ) (stuck : Type 0) where
  abbrev pub Outcome {ℓ} : {A : Type ℓ} → (A → Type 0) → Exit A × Session → Type 0
  Outcome good (go a, s) = Online n s × good a
  Outcome good (goto_error, s) = Online n s × (s.state ≡ complete)
  Outcome good (hangs, s) = Online n s × stuck

  abbrev pub Steps {ℓ} : {A : Type ℓ} → (A → Type 0) → Flow A → Type 0
  Steps good m = (s : Session) → Online n s → Outcome good (m s)

  bind_result-Outcome {ℓ ℓ'} :
      {A : Type ℓ} {B : Type ℓ'} (good : A → Type 0) (good' : B → Type 0) (f : A → Flow B)
      (r : Exit A × Session)
      → Outcome good r
      → ((a : A) → good a → Steps good' (f a))
      → Outcome good' (bind_result f r)
  unfolding bind_result
  bind_result-Outcome good good' f (go a, s) h k = k a h.1 s h.0
  bind_result-Outcome good good' f (goto_error, s) h k = h
  bind_result-Outcome good good' f (hangs, s) h k = h

  pub bind-Steps {ℓ ℓ'} :
      {A : Type ℓ} {B : Type ℓ'} (good : A → Type 0) (good' : B → Type 0) (m : Flow A)
      (f : A → Flow B)
      → Steps good m
      → ((a : A) → good a → Steps good' (f a))
      → Steps good' (m >>= f)
  unfolding ◌>>=◌
  bind-Steps good good' m f h k s on = bind_result-Outcome good good' f (m s) (h s on) k

  pub abort-Outcome {ℓ} :
      {A : Type ℓ} (good : A → Type 0) (reason : Text) (s : Session)
      → Online n s
      → Outcome good (abort reason s)
  unfolding fastboot_fail
  abort-Outcome good reason s on = (fastboot_fail-Online n reason s on, refl)

  pub guard-Steps : (b : Bool) (reason : Text) → Steps {0} (λ _. b ≡ true) (guard b reason)
  unfolding guard fastboot_fail
  guard-Steps true reason s on = (on, refl)
  guard-Steps false reason s on = (fastboot_fail-Online n reason s on, refl)

  pub or_abort-Steps :
      {A : Type 0} (o : Option A) (reason : Text) → Steps (λ a. o ≡ some a) (or_abort o reason)
  unfolding or_abort fastboot_fail
  or_abort-Steps none reason s on = (fastboot_fail-Online n reason s on, refl)
  or_abort-Steps (some a) reason s on = (on, refl)

  pub tell-Steps : (call : UiCall) → Steps {0} (λ _. Unit) (tell call)
  unfolding show
  tell-Steps call s on = (on, tt)

  received-Outcome :
      (good : Text → Type 0) (reason : Text) (r : Option Text × Session)
      → Online n r.1
      → ((bytes : Text) → r.0 ≡ some bytes → good bytes)
      → Outcome good (received_or_abort reason r)
  unfolding received_or_abort
  received-Outcome good reason (none, s) on ok = abort-Outcome good reason s on
  received-Outcome good reason (some bytes, s) on ok = (on, ok bytes refl)

  pub handshake-Steps : (len : ℕ) (reason : Text) → Steps (λ _. Unit) (receive len true reason)
  unfolding receive
  handshake-Steps len reason s on =
      received-Outcome (λ _. Unit) reason (streaming_download len true s)
        (streaming_download-Online n len true s on) (λ _ _. tt)

  whole_read-length :
      (len : ℕ) (r : Option Text × Session) (bytes : Text)
      → (whole_read len r).0 ≡ some bytes
      → length bytes ≡ len
  unfolding whole_read
  whole_read-length len (none, s) bytes e = cc
  whole_read-length len (some got, s) bytes e = ground (arith, e)

  pub piece-Steps :
      (len : ℕ) (reason : Text) → Steps (λ bytes. length bytes ≡ len) (receive len false reason)
  unfolding receive streaming_download
  piece-Steps len reason s on =
      received-Outcome (λ bytes. length bytes ≡ len) reason (streaming_download len false s)
        (streaming_download-Online n len false s on)
        (λ bytes e. whole_read-length len (usb_read len s) bytes e)

  fault-Outcome {ℓ} :
      {A : Type ℓ} (good : A → Type 0) (r : Exit A × Session)
      → Outcome good r
      → Outcome good (fault_on_error r)
  unfolding fault_on_error
  fault-Outcome good (go a, s) h = h
  fault-Outcome good (goto_error, s) h = h
  fault-Outcome good (hangs, s) h = h

  pub without_thread-Steps {ℓ} :
      {A : Type ℓ} (good : A → Type 0) (m : Flow A) → Steps good m → Steps good (without_thread m)
  unfolding without_thread
  without_thread-Steps good m h s on = fault-Outcome good (m s) (h s on)

  -- A step without a result that only has to keep the session in order.
  pub then-Steps {ℓ} :
      {B : Type ℓ} (good : B → Type 0) (m : Flow {0} Unit) (k : Flow B)
      → Steps {0} (λ _. Unit) m
      → Steps good k
      → Steps good (m >> k)
  then-Steps good m k h next = bind-Steps {0, ℓ} (λ _. Unit) good m (λ _. k) h (λ _ _. next)

  pub guard-then-Steps {ℓ} :
      {B : Type ℓ} (good : B → Type 0) (b : Bool) (reason : Text) (k : Flow B)
      → (b ≡ true → Steps good k)
      → Steps good (guard b reason >> k)
  guard-then-Steps good b reason k next =
      bind-Steps {0, ℓ} (λ _. b ≡ true) good (guard b reason) (λ _. k) (guard-Steps b reason)
        (λ _. next)

  weaken-Outcome {ℓ} :
      {A : Type ℓ} (good good' : A → Type 0) (r : Exit A × Session)
      → ((a : A) → good a → good' a)
      → Outcome good r
      → Outcome good' r
  weaken-Outcome good good' (go a, s) f h = (h.0, f a h.1)
  weaken-Outcome good good' (goto_error, s) f h = h
  weaken-Outcome good good' (hangs, s) f h = h

  pub weaken-Steps {ℓ} :
      {A : Type ℓ} (good good' : A → Type 0) (m : Flow A)
      → ((a : A) → good a → good' a)
      → Steps good m
      → Steps good' m
  weaken-Steps good good' m f h s on = weaken-Outcome good good' (m s) f (h s on)
