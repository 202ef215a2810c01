-- ===== src/Util/Options.antt =====
-- The options of the kernel command line, as src/tboot_util.c takes them apart.
use tboot.Base.{
  drop_newline, drop_newline-end, ℕ, ◌<◌, ◌≡◌, refl, sym, ap, ◌∙◌, Bool, false, ◌||◌, some, List,
  [], ◌∷◌, ◌++◌, arith, Text, before_char, length, length-append, take_all, ◌==◌,
}
use mathlib.Core.List.{append_assoc, append-nil}
use tboot.Base.Tokens.{NoDelim, NoDelim-append, weaken-NoDelim, is_nul, before_nul}
use tboot.Util.{
  join_all, drop_last, array_to_string, options_from, each_option, import_kernel_cmdline,
}

-- No option has a space, a newline or a NUL in it, and none is empty.
abbrev is_separator : ℕ → Bool
is_separator c = c == 32 || c == 10 || c == 0

abbrev pub NonEmpty : Text → Type 0
NonEmpty [] = ⊥
NonEmpty (c ∷ s) = Unit

abbrev pub Options : List Text → Type 0
Options [] = Unit
Options (option ∷ options) = NonEmpty option × NoDelim is_separator option × Options options

-- The options one after the other, a space between two.
abbrev pub spaced : Text → List Text → Text
spaced option [] = option
spaced option (next ∷ options) = option ++ (32 ∷ spaced next options)

drop_last-append : (w : Text) (c : ℕ) (s : Text) → drop_last (w ++ (c ∷ s)) ≡ w ++ drop_last (c ∷ s)
unfolding drop_last
drop_last-append [] c s = refl
drop_last-append (x ∷ []) c s = refl
drop_last-append (x ∷ y ∷ w) c s = ap (λ t. x ∷ t) (drop_last-append (y ∷ w) c s)

drop_last-spaced :
    (option : Text) (options : List Text)
    → drop_last (join_all 32 (option ∷ options)) ≡ spaced option options
unfolding join_all drop_last
drop_last-spaced option [] = drop_last-append option 32 [] ∙ append-nil option
drop_last-spaced option (next ∷ options) =
    let rest = join_all 32 options in
    drop_last-append option 32 (next ++ (32 ∷ rest))
    ∙ ap (λ t. option ++ t)
        (drop_last-append (32 ∷ next) 32 rest
          ∙ ap (λ t. 32 ∷ t) (sym (drop_last-append next 32 rest) ∙ drop_last-spaced next options))

options_from-word :
    (cur w s : Text)
    → NoDelim is_separator w
    → options_from cur (w ++ s) ≡ options_from (cur ++ w) s
unfolding options_from
options_from-word cur [] s h = ap (λ t. options_from t s) (sym (append-nil cur))
options_from-word cur (c ∷ w) s h =
    let inside : (c == 32) ≡ false = ground (arith, h.0) in
    rw inside (
      options_from-word (cur ++ c ∷ []) w s h.1
      ∙ ap (λ t. options_from t s) (append_assoc cur (c ∷ []) w))

options_end : (option : Text) → NonEmpty option → options_from option [] ≡ option ∷ []
unfolding options_from
options_end [] h = absurd h
options_end (c ∷ w) h = refl

options_next : (cur s : Text) → options_from cur (32 ∷ s) ≡ cur ∷ options_from [] s
unfolding options_from
options_next cur s = refl

options_from-spaced :
    (option : Text) (options : List Text)
    → Options (option ∷ options)
    → options_from [] (spaced option options) ≡ option ∷ options
options_from-spaced option [] h =
    ap (options_from []) (sym (append-nil option))
    ∙ options_from-word [] option [] h.1
    ∙ options_end option h.0
options_from-spaced option (next ∷ options) h =
    options_from-word [] option (32 ∷ spaced next options) h.1
    ∙ options_next option (spaced next options)
    ∙ ap (λ t. option ∷ t) (options_from-spaced next options h.2)

spaced-plain :
    (option : Text) (options : List Text)
    → Options (option ∷ options)
    → NoDelim is_nul (spaced option options)
spaced-plain option [] h = weaken-NoDelim is_separator is_nul option (λ c p. ground (arith, p)) h.1
spaced-plain option (next ∷ options) h =
    NoDelim-append is_nul option _
      (weaken-NoDelim is_separator is_nul option (λ c p. ground (arith, p)) h.1)
      (refl, spaced-plain next options h.2)

-- The options that array_to_string joins by spaces are those that import_kernel_cmdline finds in
-- the line, in their order, where the line has less than 1023 characters and no option is empty or
-- has a space, a newline or a NUL in it.
pub import_kernel_cmdline-array_to_string {ℓ} :
    {A : Type ℓ} (option : Text) (options : List Text) (callback : Text → A → A) (a : A)
    → Options (option ∷ options)
    → length (spaced option options) < 1023
    → (array_to_string (option ∷ options) 32 ≡ some (spaced option options))
      × (import_kernel_cmdline (some (spaced option options ++ (10 ∷ []))) callback a
          ≡ each_option callback (option ∷ options) a)
unfolding array_to_string import_kernel_cmdline
import_kernel_cmdline-array_to_string option options callback a h short =
    let line = spaced option options in
    (
      ap some (drop_last-spaced option options),
      ap (λ t. each_option callback t a)
          (ap (λ t. options_from [] (before_char 0 (drop_newline t)))
              (take_all 1023 (line ++ (10 ∷ []))
                (omega (arith, length-append line (10 ∷ []), short)))
            ∙ ap (λ t. options_from [] (before_char 0 t)) (drop_newline-end line)
            ∙ ap (options_from []) (before_nul line (spaced-plain option options h))
            ∙ options_from-spaced option options h),
    )
