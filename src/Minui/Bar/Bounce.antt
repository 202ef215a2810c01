-- ===== src/Minui/Bar/Bounce.antt =====
-- The thread of the bounce bar of src/libminui/minui.c.
use tboot.Base.{
  ℕ, zero, suc, ◌+◌, ◌-◌, ◌/◌, ◌*◌, ◌≤◌, Bool, true, false, ◌||◌, List, [], ◌∷◌, ◌++◌, arith, ltb,
  if◌then◌else◌,
}
use tboot.Minui.{set_color, fill_rectangle, flip}
use tboot.Minui.Bar.{Bar, Paint, paint, inner_width, inner_height}
use tboot.Minui.Bar.Inside.{box_of, AllInBox, HasInside, append-AllInBox}

-- The local variables of `bouncebar_refresh`: where the part in color is, and the sign of its step.
pub record Bounce : Type 0 where
  pub x : ℕ
  pub forward : Bool

-- `pixel_step`
abbrev pixel_step : ℕ
pixel_step = 5

unfoldable pub bounce_start : Bar → Bounce
bounce_start bar = record { x = bar.x + bar.border_width; forward = true }

-- One picture: the background, and a third of the bar in its color.
unfoldable pub bounce_frame : Bar → Bounce → List Paint
bounce_frame bar b =
    let y = bar.y + bar.border_width in
    paint (set_color bar.bg_color)
    ∷ paint (fill_rectangle (bar.x + bar.border_width) y (inner_width bar) (inner_height bar))
    ∷ paint (set_color bar.color)
    ∷ paint (fill_rectangle b.x y (bar.width / 3) (inner_height bar))
    ∷ paint flip
    ∷ []

-- A step over an end is taken back, and the next goes the other way. `x - 5` may be negative, and is
-- compared without that.
unfoldable pub bounce_move : Bar → Bounce → Bounce
bounce_move bar b =
    let first = bar.x + bar.border_width in
    let end = bar.x + bar.width - bar.border_width in
    let third = bar.width / 3 in
    if b.forward
    then if ltb end (b.x + pixel_step + third) || ltb (b.x + pixel_step) first
      then record { x = b.x; forward = false }
      else record { x = b.x + pixel_step; forward = true }
    else if ltb (end + pixel_step) (b.x + third) || ltb b.x (first + pixel_step)
    then record { x = b.x; forward = true }
    else record { x = b.x - pixel_step; forward = false }

-- The pictures of the thread, one more than there are steps at which `percent` is still BAR_BOUNCE.
unfoldable pub bouncebar_refresh : ℕ → Bar → Bounce → List Paint
unfolding bounce_frame bounce_move
bouncebar_refresh zero bar b = bounce_frame bar b
bouncebar_refresh (suc n) bar b = bounce_frame bar b ++ bouncebar_refresh n bar (bounce_move bar b)

abbrev BetweenEnds : Bar → Bounce → Type 0
BetweenEnds bar b =
    (bar.x + bar.border_width ≤ b.x) × (b.x + bar.width / 3 ≤ bar.x + bar.width - bar.border_width)

bounce_move-BetweenEnds :
    (bar : Bar) (b : Bounce) → BetweenEnds bar b → BetweenEnds bar (bounce_move bar b)
unfolding bounce_move
bounce_move-BetweenEnds bar b h = ground arith

frames-AllInBox :
    (n : ℕ) (bar : Bar) (b : Bounce)
    → HasInside bar
    → BetweenEnds bar b
    → AllInBox (box_of bar) (bouncebar_refresh n bar b)
unfolding bouncebar_refresh bounce_frame
frames-AllInBox zero bar b inside h = omega (arith, inside, h)
frames-AllInBox (suc n) bar b inside h =
    append-AllInBox (box_of bar) (bounce_frame bar b) (bouncebar_refresh n bar (bounce_move bar b))
      (omega (arith, inside, h))
      (frames-AllInBox n bar (bounce_move bar b) inside (bounce_move-BetweenEnds bar b h))

-- However often the bounce bar moves, it paints nothing outside the box of the bar, if a third of the
-- bar fits between its borders.
pub bouncebar_refresh-AllInBox :
    (n : ℕ) (bar : Bar)
    → HasInside bar
    → 2 * bar.border_width + bar.width / 3 ≤ bar.width
    → AllInBox (box_of bar) (bouncebar_refresh n bar (bounce_start bar))
unfolding bounce_start
bouncebar_refresh-AllInBox n bar inside fits =
    frames-AllInBox n bar (record { x = bar.x + bar.border_width; forward = true }) inside
      (omega (arith, fits, inside))
