-- ===== src/Minui.antt =====
-- The components of src/libminui: what they share. Memory is taken to be there when it is asked for.
-- Positions and sizes are natural numbers: a difference that the source would leave negative is 0,
-- and nothing that such a difference leads to is inside a window.
pub mod Textarea
pub mod Menu
pub mod Bar
use tboot.Base.{ℕ, Bool, true, false, [], ◌∷◌, Text, ltb, if◌then◌else◌}

-- What a component draws on the surface of its window, in order. A text stands with the place of
-- its anchor.
pub data Draw : Type 0 where
  set_color : ℕ → Draw
  fill_rectangle : ℕ → ℕ → ℕ → ℕ → Draw
  draw_rectangle : ℕ → ℕ → ℕ → ℕ → Draw
  draw_string : Text → ℕ → ℕ → Draw
  flip : Draw

-- `struct window` with its surface; the font is known by its measures.
pub record Window : Type 0 where
  pub color : ℕ
  pub font_height : ℕ
  pub font_width : ℕ
  pub x : ℕ
  pub y : ℕ
  pub width : ℕ
  pub height : ℕ

-- DEFAULT_FONT_HEIGHT
abbrev default_font_height : ℕ
default_font_height = 24

unfoldable pub window_init : ℕ → ℕ → Window
window_init color font_height = record {
  color = color;
  font_height = if ltb 0 font_height then font_height else default_font_height;
  font_width = 0;
  x = 0;
  y = 0;
  width = 0;
  height = 0;
}

-- `struct textline`: the text up to its NUL, and the size of its memory.
pub record TextLine : Type 0 where
  pub text : Text
  pub len : ℕ
  pub color : ℕ

-- The memory of a new line is not cleared: `heap` is what it holds.
abbrev pub textline_init : Text → ℕ → TextLine
textline_init heap len = record { text = heap; len = len; color = 0 }

abbrev pub is_empty : Text → Bool
is_empty [] = true
is_empty (c ∷ s) = false
