-- ===== src/Minui/Textarea/Walk.antt =====
-- The walk of `textarea_refresh` of src/libminui/minui.c over its ring of lines.
use tboot.Base.{
  ℕ, zero, suc, ◌+◌, ◌-◌, ◌≤◌, ◌<◌, ◌≡◌, refl, sym, ◌∙◌, ◌≢◌, false, some, List, [], ◌∷◌, ◌++◌,
  arith, length, get_elem?, take, drop, length-take, get_elem?-lt, get_elem?-take, drop-get_elem?,
  take-get_elem?, drop-append, take_all, drop_all, ◌==◌, ==_iff,
}
use mathlib.Core.Path.{subst}
use mathlib.Core.List.{reverse, reverse-append}
use native.Mathlib.Decide.{dec_lt}
use tboot.Minui.{Draw, TextLine}
use tboot.Minui.Textarea.{Textarea, drawn, draw_lines, draw_line, line_after, next_y}

-- The lines that a walk from index `i` meets, up to the one before `first` comes again.
pub data Visits (next : ℕ → ℕ) (lines : List TextLine) (first : ℕ)
    : ℕ → List TextLine → Type 0 where
  last :
      {i : ℕ} (l : TextLine)
      → get_elem? lines i ≡ some l
      → next i ≡ first
      → Visits next lines first i (l ∷ [])
  more :
      {i : ℕ} {ls : List TextLine} (l : TextLine)
      → get_elem? lines i ≡ some l
      → next i ≢ first
      → Visits next lines first (next i) ls
      → Visits next lines first i (l ∷ ls)

-- The texts of lines below or above one another, from `y` on.
abbrev pub draw_rows : Textarea → List TextLine → ℕ → List Draw
draw_rows ta [] y = []
draw_rows ta (l ∷ ls) y = draw_line ta l y ++ draw_rows ta ls (next_y ta l y)

ne_test : (a b : ℕ) → a ≢ b → (a == b) ≡ false
ne_test a b h = ground arith

pub draw_lines-Visits :
    (ta : Textarea) (fuel first i y : ℕ) (ls : List TextLine)
    → Visits (line_after ta) ta.lines first i ls
    → length ls ≤ fuel
    → draw_lines ta fuel first i y ≡ drawn (draw_rows ta ls y)
unfolding draw_lines
draw_lines-Visits ta zero first i y ls (last l e stop) h = absurd (omega arith)
draw_lines-Visits ta zero first i y ls (more l e go v) h = absurd (omega arith)
draw_lines-Visits ta (suc fuel) first i y ls (last l e stop) h =
    rw (e, draw_lines, (==_iff (line_after ta i) first).1 stop) refl
draw_lines-Visits ta (suc fuel) first i y ls (more {ls = ms} l e go v) h =
    rw
      (
        e,
        draw_lines,
        ne_test (line_after ta i) first go,
        draw_lines-Visits ta fuel first (line_after ta i) (next_y ta l y) ms v (omega arith),
      )
      refl

-- A walk from each line to the next in an array, and round at its end.
module _ (lines : List TextLine) (next : ℕ → ℕ) (f : ℕ) where
  module _ (inside : f < length lines) (step : (i : ℕ) → suc i < length lines → next i ≡ suc i)
      (wrap : (i : ℕ) → suc i ≡ length lines → next i ≡ 0) where
    upto_first : (k i : ℕ) → f ≡ i + suc k → Visits next lines f i (drop i (take f lines))
    upto_first zero i e =
        let (l, got) = get_elem?-lt i lines (omega arith) in
        let here =
          drop-get_elem? i (take f lines) l (get_elem?-take i f lines (omega arith) ∙ got) in
        let none_left = drop_all (suc i) (take f lines) (omega (arith, length-take f lines)) in
        rw (here, none_left) (last l got (step i (omega arith) ∙ omega arith))
    upto_first (suc k) i e =
        let (l, got) = get_elem?-lt i lines (omega arith) in
        let here =
          drop-get_elem? i (take f lines) l (get_elem?-take i f lines (omega arith) ∙ got) in
        let on = step i (omega arith) in
        rw here (more l got (omega (arith, on)) (rw on (upto_first k (suc i) (omega arith))))

    at_end :
        (i : ℕ) (l : TextLine)
        → get_elem? lines i ≡ some l
        → next i ≡ 0
        → Visits next lines f i (l ∷ take f lines)
    at_end i l got over = elim (dec_lt 0 f) [
      | yes p ↦ more l got (omega (arith, over)) (rw over (upto_first (f - 1) 0 (omega arith)))
      | no p ↦
          let zero_first : f ≡ 0 = omega arith in
          subst (λ n. Visits next lines f i (l ∷ take n lines)) (sym zero_first)
            (last l got (over ∙ sym zero_first))
    ]

    pub round_once :
        (k i : ℕ)
        → length lines ≡ i + suc k
        → f ≤ i
        → Visits next lines f i (drop i lines ++ take f lines)
    round_once zero i e le =
        let (l, got) = get_elem?-lt i lines (omega arith) in
        let over = wrap i (omega arith) in
        rw (drop-get_elem? i lines l got, drop_all (suc i) lines (omega arith))
          (at_end i l got over)
    round_once (suc k) i e le =
        let (l, got) = get_elem?-lt i lines (omega arith) in
        let on = step i (omega arith) in
        rw (drop-get_elem? i lines l got) (
          more l got (omega (arith, on)) (rw on (round_once k (suc i) (omega arith) (omega arith))))

  module _ (inside : f < length lines) (step : (i : ℕ) → suc i < length lines → next (suc i) ≡ i)
      (wrap : suc (next 0) ≡ length lines) where
    down_snoc :
        (i : ℕ) (l : TextLine)
        → f < i
        → get_elem? lines i ≡ some l
        → i < length lines
        → reverse (drop (suc f) (take (suc i) lines)) ≡ l ∷ reverse (drop (suc f) (take i lines))
    down_snoc i l h got lt =
        rw
          (
            take-get_elem? i lines l got,
            drop-append (suc f) (take i lines) (l ∷ []) (omega (arith, length-take i lines)),
            reverse-append (drop (suc f) (take i lines)) (l ∷ []),
          )
          refl

    downto_first :
        (k i : ℕ)
        → i ≡ f + suc k
        → i < length lines
        → Visits next lines f i (reverse (drop (suc f) (take (suc i) lines)))
    downto_first k zero e lt = absurd (omega arith)
    downto_first zero (suc i) e lt =
        let (l, got) = get_elem?-lt (suc i) lines lt in
        let rest =
          drop_all (suc f) (take (suc i) lines) (omega (arith, length-take (suc i) lines)) in
        rw (down_snoc (suc i) l (omega arith) got lt, rest) (last l got (step i lt ∙ omega arith))
    downto_first (suc k) (suc i) e lt =
        let (l, got) = get_elem?-lt (suc i) lines lt in
        let on = step i lt in
        rw (down_snoc (suc i) l (omega arith) got lt)
          (more l got (omega (arith, on)) (rw on (downto_first k i (omega arith) (omega arith))))

    pub round_back :
        (i : ℕ)
        → i ≤ f
        → Visits next lines f i (reverse (take (suc i) lines) ++ reverse (drop (suc f) lines))
    round_back zero le =
        let (l, got) = get_elem?-lt 0 lines (omega arith) in
        rw (take-get_elem? 0 lines l got) (elim (dec_lt (suc f) (length lines)) [
          | yes p ↦ more l got (omega (arith, wrap)) (
              subst (λ xs. Visits next lines f (next 0) (reverse (drop (suc f) xs)))
                (take_all (suc (next 0)) lines (omega (arith, wrap)))
                (downto_first (next 0 - suc f) (next 0) (omega (arith, wrap))
                  (omega (arith, wrap))))
          | no p ↦ rw (drop_all (suc f) lines (omega arith)) (last l got (omega (arith, wrap)))
        ])
    round_back (suc i) le =
        let (l, got) = get_elem?-lt (suc i) lines (omega arith) in
        let on = step i (omega arith) in
        rw (take-get_elem? (suc i) lines l got, reverse-append (take (suc i) lines) (l ∷ []))
          (more l got (omega (arith, on)) (rw on (round_back i (omega arith))))
