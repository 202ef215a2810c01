-- ===== src/Util.antt =====
-- src/tboot_util.c: `named_file_write`, `array_to_string` and `import_kernel_cmdline`.
pub mod Writing
pub mod Options
pub mod Tests
use tboot.Base.{
  drop_newline, ℕ, zero, suc, ◌+◌, ◌-◌, ◌/◌, ◌*◌, ◌%◌, ◌^◌, ◌≤◌, ◌<◌, min, ◌≡◌, refl, sym, ap, ◌∙◌,
  ◌≢◌, ◌↔◌, ◌⊎◌, inl, inr, Bool, true, false, not, ◌&&◌, ◌||◌, Option, none, some, List, [], ◌∷◌,
  ◌++◌, map, arith, String, Text, codes, text_eq, starts_with, after_char, before_char,
  text_eq_refl, text_eq-eq, text_eq_symm, text_eq_iff, starts_with-append, length, get_elem?, take,
  drop, length-append, length-take, length-drop, take-append-drop, take_all, take-take, drop-nil,
  drop-drop, drop_all, ltb, leb, ◌==◌, if◌then◌else◌, ltb→lt, lt→ltb, ==_iff, Bool-cases,
  Option-cases,
}

-- How one write() ends: so many bytes are written, it is interrupted with EINTR, or it fails.
pub data Write : Type 0 where
  wrote : ℕ → Write
  interrupted write_failed : Write

-- `done`: the result is 0. `contents`: what the file holds. `fault`: the pointer `what` has left the
-- data.
pub record Written : Type 0 where
  pub done : Bool
  pub contents : Text
  pub fault : Bool

-- The file is opened without O_TRUNC: what it held behind the bytes written stays.
abbrev pub over : Text → Text → Text
over written old = written ++ drop (length written) old

unfoldable pub give_up : Text → Text → Written
give_up old written = record { done = false; contents = over written old; fault = false }

-- `pos` is where `what` points into the data, `left` is `sz`. An interrupted write returns -1, and
-- both are moved by it as if by a count.
unfoldable pub write_loop : List Write → Text → Text → ℕ → ℕ → Text → Written
unfolding give_up
write_loop writes old bytes pos zero written = record {
  done = true;
  contents = over written old;
  fault = false;
}
write_loop [] old bytes pos (suc left) written = give_up old written
write_loop (write_failed ∷ writes) old bytes pos (suc left) written = give_up old written
write_loop (wrote n ∷ writes) old bytes pos (suc left) written =
    let k = min n (suc left) in
    let next =
      write_loop writes old bytes (pos + k) (suc left - k) (written ++ take k (drop pos bytes)) in
    if k == 0 then give_up old written else next
write_loop (interrupted ∷ writes) old bytes pos (suc left) written =
    let next = write_loop writes old bytes (pos - 1) (suc (suc left)) written in
    if pos == 0 then record { done = false; contents = over written old; fault = true } else next

-- `old` is what the file holds, `none` where it does not open. The calls of write() that are not
-- listed fail.
unfoldable pub named_file_write : Option Text → List Write → Text → Written
unfolding write_loop
named_file_write none writes bytes = record { done = false; contents = []; fault = false }
named_file_write (some old) writes bytes = write_loop writes old bytes 0 (length bytes) []

-- The members, each with the separator behind it.
unfoldable pub join_all : ℕ → List Text → Text
join_all sep [] = []
join_all sep (a ∷ argv) = a ++ (sep ∷ join_all sep argv)

unfoldable pub drop_last : Text → Text
drop_last [] = []
drop_last (c ∷ []) = []
drop_last (c ∷ d ∷ s) = c ∷ drop_last (d ∷ s)

-- `none`: without a member the byte before the string is written to.
unfoldable pub array_to_string : List Text → ℕ → Option Text
unfolding join_all drop_last
array_to_string [] sep = none
array_to_string (a ∷ argv) sep = some (drop_last (join_all sep (a ∷ argv)))

-- The pieces between single spaces; nothing stands for the end behind a last space.
unfoldable pub options_from : Text → Text → List Text
options_from [] [] = []
options_from (d ∷ cur) [] = (d ∷ cur) ∷ []
options_from cur (c ∷ s) =
    let ended = options_from [] s in
    let on = options_from (cur ++ c ∷ []) s in if c == 32 then cur ∷ ended else on

unfoldable pub each_option {ℓ} : {A : Type ℓ} → (Text → A → A) → List Text → A → A
each_option callback [] a = a
each_option callback (option ∷ options) a = each_option callback options (callback option a)

-- What open() and read() give of /proc/cmdline: `none` where either fails.
unfoldable pub import_kernel_cmdline {ℓ} : {A : Type ℓ} → Option Text → (Text → A → A) → A → A
unfolding each_option options_from drop_newline
import_kernel_cmdline none callback a = a
import_kernel_cmdline (some bytes) callback a =
    each_option callback (options_from [] (before_char 0 (drop_newline (take 1023 bytes)))) a
