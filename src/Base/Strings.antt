-- ===== src/Base/Strings.antt =====
-- C strings as lists of bytes, and what the program uses of <string.h> and <stdlib.h> on them.
use Prim.Native.Nat.{ℕ}
use Prim.Native.Char.{code}
use Prim.Native.String.{String}
use mathlib.Core.Path.{◌≡◌, refl, ap}
use mathlib.Core.Logic.{◌↔◌}
use mathlib.Core.Bool.{Bool, true, false, ◌&&◌}
use mathlib.Core.Option.{Option, none, some}
use mathlib.Core.List.{List, [], ◌∷◌, ◌++◌}
use native.Mathlib.Omega.{arith}
use tboot.Base.Tests.{◌==◌, if◌then◌else◌}

-- A byte string, without its terminating NUL.
abbrev pub Text : Type 0
Text = List ℕ

abbrev pub codes : String → Text
codes String.[] = []
codes (String.◌∷◌ c s) = code c ∷ codes s

-- !strcmp(a, b)
unfoldable pub text_eq : Text → Text → Bool
text_eq [] [] = true
text_eq [] (y ∷ b) = false
text_eq (x ∷ a) [] = false
text_eq (x ∷ a) (y ∷ b) = x == y && text_eq a b

-- !strncmp(p, s, strlen(p)), and !memcmp(s, p, strlen(p)) on a buffer that holds a string.
unfoldable pub starts_with : Text → Text → Bool
starts_with [] s = true
starts_with (x ∷ p) [] = false
starts_with (x ∷ p) (y ∷ s) = x == y && starts_with p s

-- The part of `s` after its first `c`: strchr(s, c) + 1.
unfoldable pub after_char : ℕ → Text → Option Text
after_char c [] = none
after_char c (x ∷ s) = if x == c then some s else after_char c s

-- The part of `s` before its first `c`, or the whole of `s`.
unfoldable pub before_char : ℕ → Text → Text
before_char c [] = []
before_char c (x ∷ s) = if x == c then [] else x ∷ before_char c s

-- A text without a newline at its end.
unfoldable pub drop_newline : Text → Text
drop_newline [] = []
drop_newline (c ∷ []) = if c == 10 then [] else c ∷ []
drop_newline (c ∷ d ∷ s) = c ∷ drop_newline (d ∷ s)

pub drop_newline-end : (s : Text) → drop_newline (s ++ (10 ∷ [])) ≡ s
unfolding drop_newline
drop_newline-end [] = refl
drop_newline-end (c ∷ []) = refl
drop_newline-end (c ∷ d ∷ s) = ap (λ t. c ∷ t) (drop_newline-end (d ∷ s))

pub text_eq_refl : (a : Text) → text_eq a a ≡ true
unfolding text_eq
text_eq_refl [] = refl
text_eq_refl (x ∷ a) = ground (arith, text_eq_refl a)

pub text_eq-eq : (a b : Text) → text_eq a b ≡ true → a ≡ b
unfolding text_eq
text_eq-eq [] [] h = refl
text_eq-eq [] (y ∷ b) h = cc
text_eq-eq (x ∷ a) [] h = cc
text_eq-eq (x ∷ a) (y ∷ b) h = ground (arith, text_eq-eq a b)

pub starts_with-append : (p s : Text) → starts_with p (p ++ s) ≡ true
unfolding starts_with
starts_with-append [] s = refl
starts_with-append (x ∷ p) s = ground (arith, starts_with-append p s)

pub text_eq_symm : (a b : Text) → text_eq a b ≡ text_eq b a
unfolding text_eq
text_eq_symm [] [] = refl
text_eq_symm [] (y ∷ b) = refl
text_eq_symm (x ∷ a) [] = refl
text_eq_symm (x ∷ a) (y ∷ b) = ground (arith, text_eq_symm a b)

pub text_eq_iff : (a b : Text) → (text_eq a b ≡ true) ↔ (a ≡ b)
text_eq_iff a b = (text_eq-eq a b, λ e. rw e (text_eq_refl b))
