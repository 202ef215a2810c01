-- ===== src/Minui/Bar/Inside.antt =====
-- Where the bar of src/libminui/minui.c is painted.
use tboot.Base.{
  ℕ, zero, suc, ◌+◌, ◌-◌, ◌/◌, ◌*◌, ◌≤◌, ◌<◌, ◌≡◌, refl, ◌≢◌, Bool, true, false, List, [], ◌∷◌,
  ◌++◌, arith, ◌==◌, if◌then◌else◌,
}
use native.Mathlib.Nat.{mul-le-mul_right}
use native.Mathlib.Decide.{dec_lt}
use tboot.Base.Int.{ℤ, pos, negsuc, neg_ℕ, ◌+ℤ◌}
use tboot.Minui.{set_color, fill_rectangle, draw_rectangle, draw_string, flip}
use tboot.Minui.Bar.{
  Bar, Paint, paint, fill_signed, create_bounce, inner_width, inner_height, share, progress_width,
  rest_width, paint_progress, paint_inside, paint_bar,
}

-- A part of a window.
pub record Box : Type 0 where
  pub x : ℕ
  pub y : ℕ
  pub width : ℕ
  pub height : ℕ

abbrev pub box_of : Bar → Box
box_of bar = record { x = bar.x; y = bar.y; width = bar.width; height = bar.height }

abbrev pub Spans : Box → ℕ → ℕ → ℕ → ℕ → Type 0
Spans box x y width height =
    (box.x ≤ x) × (x + width ≤ box.x + box.width) × (box.y ≤ y) × (y + height ≤ box.y + box.height)

-- A painted rectangle lies in a box; one that shows a progress is not empty.
abbrev pub InBox : Box → Paint → Type 0
InBox box (paint (fill_rectangle x y width height)) = Spans box x y width height
InBox box (paint (draw_rectangle x y width height)) = Spans box x y width height
InBox box (paint (set_color c)) = Unit
InBox box (paint (draw_string s x y)) = Unit
InBox box (paint flip) = Unit
InBox box (fill_signed x y (pos width) height) = (0 < width) × Spans box x y width height
InBox box (fill_signed x y (negsuc k) height) = ⊥
InBox box create_bounce = Unit

abbrev pub AllInBox : Box → List Paint → Type 0
AllInBox box [] = Unit
AllInBox box (p ∷ ps) = InBox box p × AllInBox box ps

abbrev pub Within : Box → Box → Type 0
Within small large = Spans large small.x small.y small.width small.height

widen : (small large : Box) (p : Paint) → Within small large → InBox small p → InBox large p
widen small large (paint (fill_rectangle x y width height)) le h = omega (arith, le, h)
widen small large (paint (draw_rectangle x y width height)) le h = omega (arith, le, h)
widen small large (paint (set_color c)) le h = tt
widen small large (paint (draw_string s x y)) le h = tt
widen small large (paint flip) le h = tt
widen small large (fill_signed x y (pos width) height) le h = omega (arith, le, h)
widen small large (fill_signed x y (negsuc k) height) le h = h
widen small large create_bounce le h = tt

pub widen_all :
    (small large : Box) (ps : List Paint)
    → Within small large
    → AllInBox small ps
    → AllInBox large ps
widen_all small large [] le h = tt
widen_all small large (p ∷ ps) le h = (widen small large p le h.0, widen_all small large ps le h.1)

pub append-AllInBox :
    (box : Box) (ps qs : List Paint) → AllInBox box ps → AllInBox box qs → AllInBox box (ps ++ qs)
append-AllInBox box [] qs h k = k
append-AllInBox box (p ∷ ps) qs h k = (h.0, append-AllInBox box ps qs h.1 k)

-- The flags of a bar that is not hidden fit its percent: 1 to 100 fill out, -1 to -100 empty out,
-- and all else bounces.
abbrev pub FlagsFit : Bool → Bool → ℤ → Type 0
FlagsFit progress fill_out (pos p) =
    (p ≤ 100 → (progress ≡ true) × (fill_out ≡ true)) × (100 < p → progress ≡ false)
FlagsFit progress fill_out (negsuc k) = (k < 100) × (progress ≡ true) × (fill_out ≡ false)

share_bounds : (p inner : ℕ) → 0 < inner → p ≤ 100 → (0 < share p inner) × (share p inner ≤ inner)
unfolding share
share_bounds p inner room le =
    let most : p * inner / 100 ≤ inner = omega (arith, mul-le-mul_right inner le) in
    ground (arith, most)

rest_bounds :
    (inner w : ℕ)
    → 0 < w
    → w ≤ inner
    → (r : ℕ) × (rest_width inner (neg_ℕ w) ≡ pos r) × (0 < r) × (r ≤ inner)
unfolding rest_width ◌+ℤ◌
rest_bounds inner zero some_full le = absurd (omega arith)
rest_bounds inner (suc k) some_full le =
    (if inner - suc k == 0 then 1 else inner - suc k, ground arith, ground arith, ground arith)

-- The border leaves room.
abbrev pub HasInside : Bar → Type 0
HasInside bar = (2 * bar.border_width < bar.width) × (2 * bar.border_width ≤ bar.height)

module _ (bar : Bar) (inside : HasInside bar) where
  inner_width-Spans :
      (w : ℕ)
      → w ≤ inner_width bar
      → Spans
          (box_of bar)
          (bar.x + bar.border_width)
          (bar.y + bar.border_width)
          w
          (inner_height bar)
  inner_width-Spans w le = omega (arith, inside)

  progress-AllInBox :
      (percent : ℤ) (fill_out : Bool)
      → FlagsFit true fill_out percent
      → percent ≢ pos 0
      → AllInBox (box_of bar) (
          paint_progress fill_out percent bar (bar.x + bar.border_width) (bar.y + bar.border_width))
  unfolding paint_progress progress_width
  progress-AllInBox (pos zero) fill_out flags nonzero = absurd (nonzero refl)
  progress-AllInBox (pos (suc p)) true flags nonzero =
      let small : suc p ≤ 100 = elim (dec_lt 100 (suc p)) [
        | yes h ↦ absurd (cc (flags.1 h))
        | no h ↦ omega arith
      ] in
      let (some_part, le) = share_bounds (suc p) (inner_width bar) (omega (arith, inside)) small in
      (tt, ((some_part, inner_width-Spans (share (suc p) (inner_width bar)) le), tt))
  progress-AllInBox (pos (suc p)) false flags nonzero = elim (dec_lt 100 (suc p)) [
    | yes h ↦ absurd (cc (flags.1 h))
    | no h ↦ absurd (cc ((flags.0 (omega arith)).1))
  ]
  progress-AllInBox (negsuc k) true flags nonzero = absurd (cc flags.2)
  progress-AllInBox (negsuc k) false flags nonzero =
      let inner = inner_width bar in
      let (some_part, le) = share_bounds (suc k) inner (omega (arith, inside)) flags.0 in
      let (r, e, some_rest, fits) = rest_bounds inner (share (suc k) inner) some_part le in
      (
        tt,
        (
          inner_width-Spans inner (omega arith),
          (tt, (rw e (some_rest, inner_width-Spans r fits), tt)),
        ),
      )

  inside-AllInBox :
      (progress : Bool)
      → FlagsFit progress bar.fill_out bar.percent
      → bar.percent ≢ pos 0
      → AllInBox
          (box_of bar)
          (paint_inside progress bar (bar.x + bar.border_width) (bar.y + bar.border_width))
  unfolding paint_inside
  inside-AllInBox true flags nonzero = progress-AllInBox bar.percent bar.fill_out flags nonzero
  inside-AllInBox false flags nonzero = (tt, tt)

  -- Whatever is painted of a bar that is not hidden, with the flags that fit its percent, lies in the
  -- box of the bar, and the part that shows the progress has a width of at least 1.
  pub paint_bar-AllInBox :
      FlagsFit bar.progress bar.fill_out bar.percent
      → bar.percent ≢ pos 0
      → AllInBox (box_of bar) (paint_bar bar)
  unfolding paint_bar
  paint_bar-AllInBox flags nonzero = (
    tt,
    (
      (omega arith, omega arith, omega arith, omega arith),
      (
        tt,
        (
          inner_width-Spans (inner_width bar) (omega arith),
          inside-AllInBox bar.progress flags nonzero,
        ),
      ),
    ),
  )
