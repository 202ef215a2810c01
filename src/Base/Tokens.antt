-- ===== src/Base/Tokens.antt =====
-- strtok() over byte strings: the tokens that its calls on a string return one after the other.
use Prim.Native.Nat.{ℕ}
use mathlib.Core.Path.{◌≡◌, refl, ap}
use mathlib.Core.Bool.{Bool, true, false}
use mathlib.Core.List.{List, [], ◌∷◌, ◌++◌, append_assoc, append-nil}
use tboot.Base.Tests.{◌==◌, if◌then◌else◌}
use tboot.Base.Strings.{Text, before_char}

-- The end of a run of characters: a token, unless the run is empty.
abbrev flush : Text → List Text → List Text
flush [] tokens = tokens
flush (c ∷ cur) tokens = (c ∷ cur) ∷ tokens

tokens_from : (ℕ → Bool) → Text → Text → List Text
tokens_from is_delim cur [] = flush cur []
tokens_from is_delim cur (x ∷ s) =
    let ended = tokens_from is_delim [] s in
    let on = tokens_from is_delim (cur ++ x ∷ []) s in if is_delim x then flush cur ended else on

unfoldable pub strtok : (ℕ → Bool) → Text → List Text
unfolding tokens_from
strtok is_delim s = tokens_from is_delim [] s

-- No character of a text is a delimiter.
abbrev pub NoDelim : (ℕ → Bool) → Text → Type 0
NoDelim is_delim [] = Unit
NoDelim is_delim (c ∷ s) = (is_delim c ≡ false) × NoDelim is_delim s

pub weaken-NoDelim :
    (p q : ℕ → Bool) (w : Text) → ((c : ℕ) → p c ≡ false → q c ≡ false) → NoDelim p w → NoDelim q w
weaken-NoDelim p q [] f h = tt
weaken-NoDelim p q (c ∷ w) f h = (f c h.0, weaken-NoDelim p q w f h.1)

pub NoDelim-append : (p : ℕ → Bool) (w s : Text) → NoDelim p w → NoDelim p s → NoDelim p (w ++ s)
NoDelim-append p [] s hw hs = hs
NoDelim-append p (c ∷ w) s hw hs = (hw.0, NoDelim-append p w s hw.1 hs)

abbrev pub is_nul : ℕ → Bool
is_nul c = c == 0

pub before_nul : (s : Text) → NoDelim is_nul s → before_char 0 s ≡ s
unfolding before_char
before_nul [] h = refl
before_nul (c ∷ s) h = rw (h.0) (ap (λ t. c ∷ t) (before_nul s h.1))

module _ (is_delim : ℕ → Bool) where
  tokens_from-word :
      (w cur s : Text)
      → NoDelim is_delim w
      → tokens_from is_delim cur (w ++ s) ≡ tokens_from is_delim (cur ++ w) s
  unfolding tokens_from
  tokens_from-word [] cur s h = rw (append-nil cur) refl
  tokens_from-word (x ∷ w) cur s h =
      rw (h.0, tokens_from-word w (cur ++ x ∷ []) s h.1, append_assoc cur (x ∷ []) w) refl

  pub strtok-nil : strtok is_delim [] ≡ []
  unfolding strtok tokens_from
  strtok-nil = refl

  -- A word and a delimiter give that word, and then the tokens of the rest.
  pub strtok-field :
      (c : ℕ) (w : Text) (sep : ℕ) (s : Text)
      → NoDelim is_delim (c ∷ w)
      → is_delim sep ≡ true
      → strtok is_delim ((c ∷ w) ++ (sep ∷ s)) ≡ (c ∷ w) ∷ strtok is_delim s
  unfolding strtok tokens_from
  strtok-field c w sep s h e = rw (h.0, tokens_from-word w (c ∷ []) (sep ∷ s) h.1, e) refl

  pub strtok-word :
      (c : ℕ) (w : Text) → NoDelim is_delim (c ∷ w) → strtok is_delim (c ∷ w) ≡ (c ∷ w) ∷ []
  unfolding strtok tokens_from
  strtok-word c w h =
      rw (h.0, ← append-nil w, tokens_from-word w (c ∷ []) [] h.1, append-nil w) refl

  pub strtok-skip :
      (sep : ℕ) (s : Text) → is_delim sep ≡ true → strtok is_delim (sep ∷ s) ≡ strtok is_delim s
  unfolding strtok tokens_from
  strtok-skip sep s e = rw e refl
