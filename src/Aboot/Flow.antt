-- ===== src/Aboot/Flow.antt =====
-- The steps of `cmd_stream_flash` of src/aboot.c: each changes the session and goes on, or replies
-- with a FAIL and leaves for the label `error`.
pub mod Outcome
use tboot.Base.{
  ℕ, zero, suc, ◌+◌, ◌-◌, ◌/◌, ◌*◌, ◌%◌, ◌^◌, ◌≤◌, ◌<◌, min, ◌≡◌, refl, sym, ap, ◌∙◌, ◌≢◌, ◌↔◌, ◌⊎◌,
  inl, inr, Bool, true, false, not, ◌&&◌, ◌||◌, Option, none, some, List, [], ◌∷◌, ◌++◌, map, arith,
  String, Text, codes, text_eq, starts_with, after_char, before_char, text_eq_refl, text_eq-eq,
  text_eq_symm, text_eq_iff, starts_with-append, length, get_elem?, take, drop, length-append,
  length-take, length-drop, take-append-drop, take_all, take-take, drop-nil, drop-drop, drop_all,
  ltb, leb, ◌==◌, if◌then◌else◌, ltb→lt, lt→ltb, ==_iff, Bool-cases, Option-cases,
}
use tboot.Fastboot.{UiCall, Session}
use tboot.Fastboot.Reply.{fastboot_fail}
use tboot.Fastboot.Handshake.{streaming_download}
use tboot.Aboot.Commands.{show}

-- How a step of the command ends: with a value, at `goto error`, or, in the model alone, out of
-- fuel.
pub data Exit {ℓ} (A : Type ℓ) : Type ℓ where
  go : A → Exit A
  goto_error hangs : Exit A

abbrev pub Flow {ℓ} : Type ℓ → Type ℓ
Flow A = Session → Exit A × Session

module _ {ℓ} {A : Type ℓ} where
  abbrev pub pure : A → Flow A
  pure a s = (go a, s)

  -- fastboot_fail(reason); goto error;
  abbrev pub abort : Text → Flow A
  abort reason s = (goto_error, fastboot_fail reason s)

  unfoldable pub or_abort : Option A → Text → Flow A
  or_abort none reason = abort reason
  or_abort (some a) reason = pure a

  abbrev pub hang : Flow A
  hang s = (hangs, s)

unfoldable pub bind_result {ℓ ℓ'} :
    {A : Type ℓ} {B : Type ℓ'} → (A → Flow B) → Exit A × Session → Exit B × Session
bind_result f (go a, s) = f a s
bind_result f (goto_error, s) = (goto_error, s)
bind_result f (hangs, s) = (hangs, s)

infixl 5 ◌>>=◌ ◌>>◌
unfoldable pub ◌>>=◌ {ℓ ℓ'} : {A : Type ℓ} {B : Type ℓ'} → Flow A → (A → Flow B) → Flow B
unfolding bind_result
(m >>= f) s = bind_result f (m s)

abbrev pub ◌>>◌ {ℓ ℓ'} : {A : Type ℓ} {B : Type ℓ'} → Flow A → Flow B → Flow B
m >> k = m >>= λ _. k

unfoldable pub guard : Bool → Text → Flow {0} Unit
guard true reason s = (go tt, s)
guard false reason s = (goto_error, fastboot_fail reason s)

abbrev pub tell : UiCall → Flow {0} Unit
tell call s = (go tt, show call s)

unfoldable pub received_or_abort : Text → Option Text × Session → Exit Text × Session
received_or_abort reason (none, s) = (goto_error, fastboot_fail reason s)
received_or_abort reason (some bytes, s) = (go bytes, s)

-- streaming_download(), with a FAIL where it does not return 0.
unfoldable pub receive : ℕ → Bool → Text → Flow Text
unfolding received_or_abort
receive len response reason s = received_or_abort reason (streaming_download len response s)

abbrev pub crash : Session → Session
crash s = record s { fault = true }

unfoldable pub fault_on_error {ℓ} : {A : Type ℓ} → Exit A × Session → Exit A × Session
fault_on_error (go a, s) = (go a, s)
fault_on_error (goto_error, s) = (goto_error, crash s)
fault_on_error (hangs, s) = (hangs, s)

-- A `goto error` in here finds no reader thread that its pthread_cancel() could name.
unfoldable pub without_thread {ℓ} : {A : Type ℓ} → Flow A → Flow A
unfolding fault_on_error
without_thread m s = fault_on_error (m s)
