-- ===== src/Minui/Textarea/Shown.antt =====
-- What `textarea_refresh` of src/libminui/minui.c shows.
use tboot.Base.{
  ℕ, suc, ◌-◌, ◌%◌, ◌≤◌, ◌<◌, ◌≡◌, refl, sym, ap, ◌∙◌, inl, inr, true, false, List, [], ◌∷◌, ◌++◌,
  arith, length, take, drop, length-append, length-reverse, length-take, length-drop, drop-append,
  take_all, drop-drop, drop_all, if◌then◌else◌, Bool-cases,
}
use mathlib.Core.Path.{subst}
use mathlib.Core.List.{append_assoc, append-nil, reverse, reverse-append}
use native.Mathlib.Nat.{mod-eq_of_lt}
use native.Mathlib.Decide.{dec_lt}
use tboot.Base.Int.{pos}
use tboot.Minui.{set_color, fill_rectangle, flip, TextLine}
use tboot.Minui.Textarea.{
  Textarea, drawn, after_cur, draw_from, first_y, line_after, textarea_refresh,
}
use tboot.Minui.Textarea.Walk.{Visits, draw_rows, draw_lines-Visits, round_once, round_back}
use tboot.Minui.Textarea.Ring.{IsRing, oldest_first}

-- A log of a fixed number of lines: new ones at its end push the oldest out.
abbrev pub pushed : List TextLine → List TextLine → List TextLine
pushed view log = drop (length log) (view ++ log)

pub pushed-append : (view a b : List TextLine) → pushed (pushed view a) b ≡ pushed view (a ++ b)
pushed-append view a b =
    rw
      (
        ← drop-append (length a) (view ++ a) b (omega (arith, length-append view a)),
        drop-drop (length b) (length a) ((view ++ a) ++ b),
        append_assoc view a b,
        length-append a b,
      )
      refl

pub pushed-one :
    (view : List TextLine) (l : TextLine)
    → 0 < length view
    → drop 1 view ++ l ∷ [] ≡ pushed view (l ∷ [])
pushed-one view l h = sym (drop-append 1 view (l ∷ []) (omega arith))

pub length-oldest_first :
    (len : ℕ) (ta : Textarea) → IsRing len ta → length (oldest_first ta) ≡ ta.nr_lines
length-oldest_first len ta ring =
    let n = after_cur ta.cur_line in
    omega (
      arith,
      length-append (drop n ta.lines) (take n ta.lines),
      length-drop n ta.lines,
      length-take n ta.lines,
      ring.counted,
      ring.in_range,
    )

-- The order in which the lines are drawn.
abbrev pub draw_order : Textarea → List TextLine
draw_order ta = if ta.lifo then reverse (oldest_first ta) else oldest_first ta

abbrev pub LinesWritten : Textarea → Type 0
LinesWritten ta = (i : ℕ) × (ta.cur_line ≡ pos i)

module _ (len : ℕ) (ta : Textarea) (ring : IsRing len ta) where
  length-reverse_oldest : length (reverse (oldest_first ta)) ≤ ta.nr_lines
  length-reverse_oldest =
      omega (arith, length-reverse (oldest_first ta), length-oldest_first len ta ring)

  -- Towards the newest line, and round behind the last.
  up_step : ta.lifo ≡ false → (i : ℕ) → suc i < length ta.lines → line_after ta i ≡ suc i
  unfolding line_after
  up_step up i lt = rw up (grind (arith, ring.counted))

  up_wrap : ta.lifo ≡ false → (i : ℕ) → suc i ≡ length ta.lines → line_after ta i ≡ 0
  unfolding line_after
  up_wrap up i e = rw up (grind (arith, ring.counted, ring.some_line))

  down_step : ta.lifo ≡ true → (i : ℕ) → suc i < length ta.lines → line_after ta (suc i) ≡ i
  unfolding line_after
  down_step down i lt = rw down (grind (arith, ring.counted))

  down_wrap : ta.lifo ≡ true → suc (line_after ta 0) ≡ length ta.lines
  unfolding line_after
  down_wrap down = rw down (grind (arith, ring.counted, ring.some_line))

  newest-Visits :
      (i : ℕ)
      → ta.lifo ≡ true
      → ta.cur_line ≡ pos i
      → Visits (line_after ta) ta.lines i i (reverse (oldest_first ta))
  unfolding line_after
  newest-Visits i down at =
      let below : i < length ta.lines =
        omega (arith, ring.in_range, ring.counted, ap after_cur at) in
      rw (at, reverse-append (drop (suc i) ta.lines) (take (suc i) ta.lines))
        (round_back ta.lines (line_after ta) i below (down_step down) (down_wrap down) i
          (omega arith))

  oldest-Visits :
      ta.lifo ≡ false
      → let f = after_cur ta.cur_line % ta.nr_lines in
        Visits (line_after ta) ta.lines f f (oldest_first ta)
  oldest-Visits up =
      let n = after_cur ta.cur_line in
      elim (dec_lt n ta.nr_lines) [
        | yes p ↦ rw (mod-eq_of_lt p) (
            round_once ta.lines (line_after ta) n (omega (arith, ring.counted)) (up_step up)
              (up_wrap up) (ta.nr_lines - suc n) n (omega (arith, ring.counted)) (omega arith))
        | no p ↦
            let round : n % ta.nr_lines ≡ 0 = grind (arith, ring.in_range, ring.some_line) in
            let some_line : 0 < length ta.lines = omega (arith, ring.counted, ring.some_line) in
            let turned : oldest_first ta ≡ ta.lines =
              rw
                (
                  drop_all n ta.lines (omega (arith, ring.counted)),
                  take_all n ta.lines (omega (arith, ring.counted, ring.in_range)),
                )
                refl in
            rw round (
              subst (λ xs. Visits (line_after ta) ta.lines 0 0 xs)
                (append-nil ta.lines ∙ sym turned)
                (round_once ta.lines (line_after ta) 0 some_line (up_step up) (up_wrap up)
                  (ta.nr_lines - 1) 0 (omega (arith, ring.counted)) (omega arith)))
      ]

  all_drawn :
      (ta.lifo ≡ true → LinesWritten ta)
      → draw_from ta (if ta.lifo then ta.cur_line else pos (after_cur ta.cur_line % ta.nr_lines))
        ≡ drawn (draw_rows ta (draw_order ta) (first_y ta))
  unfolding draw_from
  all_drawn written = elim (Bool-cases ta.lifo) [
    | inl down ↦
        let (i, at) = written down in
        ap
          (λ b. draw_from ta (if b then ta.cur_line else pos (after_cur ta.cur_line % ta.nr_lines)))
          down
        ∙ ap (λ z. draw_from ta z) at
        ∙ draw_lines-Visits ta ta.nr_lines i i (first_y ta) (reverse (oldest_first ta))
            (newest-Visits i down at) length-reverse_oldest
        ∙ ap
            (λ b. drawn (
              draw_rows ta (if b then reverse (oldest_first ta) else oldest_first ta) (first_y ta)))
            (sym down)
    | inr up ↦
        let f = after_cur ta.cur_line % ta.nr_lines in
        ap (λ b. draw_from ta (if b then ta.cur_line else pos f)) up
        ∙ draw_lines-Visits ta ta.nr_lines f f (first_y ta) (oldest_first ta) (oldest-Visits up)
            (omega (arith, length-oldest_first len ta ring))
        ∙ ap
            (λ b. drawn (
              draw_rows ta (if b then reverse (oldest_first ta) else oldest_first ta) (first_y ta)))
            (sym up)
  ]

-- A refresh clears the area and draws every line once, in the order of the flags.
pub textarea_refresh-draws :
    (len : ℕ) (ta : Textarea)
    → IsRing len ta
    → (ta.lifo ≡ true → LinesWritten ta)
    → textarea_refresh ta
      ≡ drawn (
          set_color ta.win.color
            ∷ fill_rectangle ta.x ta.y ta.width ta.height
            ∷ draw_rows ta (draw_order ta) (first_y ta)
          ++ flip ∷ [])
unfolding textarea_refresh draw_from
textarea_refresh-draws len ta ring written = rw (all_drawn len ta ring written) refl
