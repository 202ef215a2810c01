-- ===== src/Minui/Bar.antt =====
-- The bar and the text bar of src/libminui/minui.c.
pub mod Inside
pub mod Bounce
use tboot.Base.{
  ℕ, zero, suc, ◌+◌, ◌-◌, ◌/◌, ◌*◌, ◌%◌, Bool, true, false, not, ◌&&◌, ◌||◌, Option, none, some,
  List, [], ◌∷◌, ◌++◌, ◌==◌, if◌then◌else◌,
}
use tboot.Base.Int.{ℤ, pos, negsuc, neg_ℕ, is_zero, ◌+ℤ◌}
use tboot.Minui.{
  Draw, set_color, fill_rectangle, draw_rectangle, draw_string, flip, Window, TextLine,
}

-- BAR_BOUNCE
abbrev pub bar_bounce : ℕ
bar_bounce = 101

-- `struct bar`. The two bits of `flags` are apart.
pub record Bar : Type 0 where
  pub percent : ℤ
  pub border_color : ℕ
  pub border_width : ℕ
  pub bg_color : ℕ
  pub color : ℕ
  pub x : ℕ
  pub y : ℕ
  pub width : ℕ
  pub height : ℕ
  pub progress : Bool
  pub fill_out : Bool

-- `struct textbar`
pub record Textbar : Type 0 where
  pub win : Window
  pub line : Option TextLine
  pub color : ℕ
  pub interval : ℕ
  pub bar : Bar
  pub x : ℕ
  pub y : ℕ
  pub width : ℕ
  pub height : ℕ

unfoldable pub bar_init : ℕ → ℕ → ℕ → ℕ → Bool → Bool → ℤ → ℕ → ℕ → ℕ → ℕ → Bar
bar_init x y width height progress fill_out percent bg_color color border_width border_color =
    record {
      percent = percent;
      border_color = border_color;
      border_width = border_width;
      bg_color = bg_color;
      color = color;
      x = x;
      y = y;
      width = width;
      height = height;
      progress = progress;
      fill_out = fill_out;
    }

unfoldable pub textbar_init : Window → ℕ → ℕ → ℕ → ℕ → ℕ → ℕ → Bar → Textbar
textbar_init win x y width height text_color interval bar = record {
  win = win;
  line = none;
  color = text_color;
  interval = interval;
  bar = bar;
  x = x;
  y = y;
  width = width;
  height = height;
}

-- What a refresh draws, and whether it creates the thread of the bounce bar. The background of a bar
-- that empties out has a width with a sign.
pub data Paint : Type 0 where
  paint : Draw → Paint
  fill_signed : ℕ → ℕ → ℤ → ℕ → Paint
  create_bounce : Paint

-- The width inside the border, of a bar that is wider than its border.
abbrev pub inner_width : Bar → ℕ
inner_width bar = bar.width - 2 * bar.border_width

abbrev pub inner_height : Bar → ℕ
inner_height bar = bar.height - 2 * bar.border_width

-- (int)(percent * inner / 100.0) for a percent of p or -p, without its sign; not 0.
unfoldable pub share : ℕ → ℕ → ℕ
share p inner = let w = p * inner / 100 in if w == 0 then 1 else w

-- With the sign of a percent that is not 0.
unfoldable pub progress_width : ℤ → ℕ → ℤ
unfolding share
progress_width (pos zero) inner = negsuc 0
progress_width (pos (suc k)) inner = pos (share (suc k) inner)
progress_width (negsuc k) inner = neg_ℕ (share (suc k) inner)

-- `inner` less the part that is still full; never 0.
unfoldable pub rest_width : ℕ → ℤ → ℤ
rest_width inner width = let rest = pos inner +ℤ width in if is_zero rest then pos 1 else rest

-- The color of the part that is empty: the blue of `bar->color` in `bar->bg_color`.
unfoldable pub empty_color : Bar → ℕ
empty_color bar =
    let blue = λ (c : ℕ). c / 256 % 256 * 256 in bar.bg_color - blue bar.bg_color + blue bar.color

-- BF_FILLOUT, the percent, and the place inside the border.
unfoldable pub paint_progress : Bool → ℤ → Bar → ℕ → ℕ → List Paint
unfolding progress_width rest_width empty_color
paint_progress true percent bar x y =
    paint (set_color bar.color)
    ∷ fill_signed x y (progress_width percent (inner_width bar)) (inner_height bar)
    ∷ []
paint_progress false percent bar x y =
    let inner = inner_width bar in
    paint (set_color bar.color)
    ∷ paint (fill_rectangle x y inner (inner_height bar))
    ∷ paint (set_color (empty_color bar))
    ∷ fill_signed x y (rest_width inner (progress_width percent inner)) (inner_height bar)
    ∷ []

-- BF_PROGRESS
unfoldable pub paint_inside : Bool → Bar → ℕ → ℕ → List Paint
unfolding paint_progress
paint_inside true bar x y = paint_progress bar.fill_out bar.percent bar x y
paint_inside false bar x y = create_bounce ∷ []

unfoldable pub paint_bar : Bar → List Paint
unfolding paint_inside
paint_bar bar =
    let x = bar.x + bar.border_width in
    let y = bar.y + bar.border_width in
    paint (set_color bar.border_color)
    ∷ paint (draw_rectangle bar.x bar.y bar.width bar.height)
    ∷ paint (set_color bar.bg_color)
    ∷ paint (fill_rectangle x y (inner_width bar) (inner_height bar))
    ∷ paint_inside bar.progress bar x y

-- Where only the text changes the bar is not painted over.
unfoldable pub cleaned_height : Textbar → Bool → ℕ
cleaned_height tb text_only =
    if text_only && not (is_zero tb.bar.percent) then tb.bar.y - tb.y else tb.height

unfoldable pub paint_line : Textbar → TextLine → Bool → List Paint
unfolding cleaned_height paint_bar
paint_line tb line text_only =
    paint (set_color tb.win.color)
      ∷ paint (fill_rectangle tb.x tb.y tb.width (cleaned_height tb text_only))
      ∷ paint (set_color line.color)
      ∷ paint (draw_string line.text (tb.x + tb.width / 2) (tb.bar.y - tb.interval))
      ∷ (if is_zero tb.bar.percent || text_only then [] else paint_bar tb.bar)
    ++ paint flip ∷ []

-- `none`: there is no line.
unfoldable pub textbar_refresh : Textbar → Bool → Option (List Paint)
unfolding paint_line
textbar_refresh tb text_only = elim tb.line [
  | none ↦ none
  | some line ↦ some (paint_line tb line text_only)
]
