-- ===== src/Config/Parser/Lines.antt =====
-- Lines and comments, as libcutils/config_parser.c takes them apart.
use tboot.Base.{
  ℕ, ◌≡◌, refl, ap, ◌∙◌, Bool, true, false, ◌||◌, List, [], ◌∷◌, ◌++◌, arith, Text, ◌==◌,
}
use tboot.Base.Tokens.{NoDelim}
use tboot.Config.Parser.{default_delim, one_of, uncomment, lines_of, first_on}

-- A character of no word: a delimiter, a newline, a '#' or a NUL.
abbrev pub is_special : ℕ → Bool
is_special c = c == 61 || c == 32 || c == 9 || c == 10 || c == 35 || c == 0

-- What ends a comment.
abbrev pub ends_comment : ℕ → Bool
ends_comment c = c == 10 || c == 0

pub plain :
    (c : ℕ)
    → is_special c ≡ false
    → ((c == 35) ≡ false)
      × ((c == 10) ≡ false)
      × ((c == 0) ≡ false)
      × (one_of default_delim c ≡ false)
unfolding one_of
plain c h = ground arith

uncomment-word :
    (w s : Text) → NoDelim is_special w → uncomment false (w ++ s) ≡ w ++ uncomment false s
unfolding uncomment
uncomment-word [] s h = refl
uncomment-word (c ∷ w) s h = rw ((plain c h.0).0) (ap (λ t. c ∷ t) (uncomment-word w s h.1))

plain_step :
    (c : ℕ) (s : Text) → (c == 35) ≡ false → uncomment false (c ∷ s) ≡ c ∷ uncomment false s
unfolding uncomment
plain_step c s h = rw h refl

hash_step : (s : Text) → uncomment false (35 ∷ s) ≡ uncomment true s
unfolding uncomment
hash_step s = refl

uncomment-comment :
    (w s : Text) → NoDelim ends_comment w → uncomment true (w ++ 10 ∷ s) ≡ 10 ∷ uncomment false s
unfolding uncomment
uncomment-comment [] s h = refl
uncomment-comment (c ∷ w) s h =
    let inside : (c == 10) ≡ false = ground (arith, h.0) in rw inside (uncomment-comment w s h.1)

prepend : Text → List Text → List Text
prepend [] lines = lines
prepend (c ∷ w) lines = first_on c (prepend w lines)

prepend-line : (w line : Text) (lines : List Text) → prepend w (line ∷ lines) ≡ (w ++ line) ∷ lines
unfolding prepend first_on
prepend-line [] line lines = refl
prepend-line (c ∷ w) line lines = ap (first_on c) (prepend-line w line lines)

lines-word : (w s : Text) → NoDelim is_special w → lines_of (w ++ s) ≡ prepend w (lines_of s)
unfolding lines_of prepend
lines-word [] s h = refl
lines-word (c ∷ w) s h = rw ((plain c h.0).1) (ap (first_on c) (lines-word w s h.1))

separator : (s : Text) → lines_of (61 ∷ s) ≡ first_on 61 (lines_of s)
unfolding lines_of
separator s = refl

line_end : (s : Text) → lines_of (32 ∷ 10 ∷ s) ≡ (32 ∷ []) ∷ lines_of s
unfolding lines_of first_on
line_end s = refl

pub lines-bare :
    (k v s : Text)
    → NoDelim is_special k
    → NoDelim is_special v
    → lines_of (k ++ (61 ∷ (v ++ (32 ∷ 10 ∷ s)))) ≡ (k ++ (61 ∷ (v ++ (32 ∷ [])))) ∷ lines_of s
unfolding first_on
lines-bare k v s hk hv =
    lines-word k _ hk
    ∙ ap (prepend k) (
        separator _
        ∙ ap (first_on 61) (
            lines-word v _ hv
            ∙ ap (prepend v) (line_end s)
            ∙ prepend-line v (32 ∷ []) (lines_of s)))
    ∙ prepend-line k _ (lines_of s)

pub uncomment-bare :
    (k v c s : Text)
    → NoDelim is_special k
    → NoDelim is_special v
    → NoDelim ends_comment c
    → uncomment false (k ++ (61 ∷ (v ++ (32 ∷ 35 ∷ (c ++ (10 ∷ s))))))
      ≡ k ++ (61 ∷ (v ++ (32 ∷ 10 ∷ uncomment false s)))
uncomment-bare k v c s hk hv hc =
    uncomment-word k _ hk
    ∙ ap (λ t. k ++ t)
        (plain_step 61 _ refl
          ∙ ap (λ t. 61 ∷ t)
              (uncomment-word v _ hv
                ∙ ap (λ t. v ++ t)
                    (plain_step 32 _ refl
                      ∙ ap (λ t. 32 ∷ t) (hash_step _ ∙ uncomment-comment c s hc))))
