-- ===== src/Minui/Textarea.antt =====
-- The text area of src/libminui/minui.c: a ring of lines that are shown from the newest or from the
-- oldest on.
pub mod Walk
pub mod Ring
pub mod Shown
pub mod Log
use tboot.Base.{
  ℕ, zero, suc, ◌+◌, ◌-◌, ◌/◌, ◌%◌, min, Bool, true, false, ◌||◌, Option, none, some, List, [], ◌∷◌,
  ◌++◌, Text, length, get_elem?, take, drop, ltb, leb, ◌==◌, if◌then◌else◌,
}
use tboot.Base.Int.{ℤ, pos, negsuc}
use tboot.Minui.{
  Draw, set_color, fill_rectangle, draw_string, flip, Window, TextLine, textline_init, is_empty,
}

-- `struct textarea`. The two bits of `flags` are apart.
pub record Textarea : Type 0 where
  pub win : Window
  pub lines : List TextLine
  pub nr_lines : ℕ
  pub cur_line : ℤ
  pub x : ℕ
  pub y : ℕ
  pub width : ℕ
  pub height : ℕ
  pub top_to_down : Bool
  pub lifo : Bool
  pub fault : Bool

-- Line `i` finds `heap i` in its memory.
pub fresh_lines : (ℕ → Text) → ℕ → ℕ → ℕ → List TextLine
fresh_lines heap len i zero = []
fresh_lines heap len i (suc n) = textline_init (heap i) len ∷ fresh_lines heap len (suc i) n

unfoldable pub new_area : (ℕ → Text) → Window → ℕ → ℕ → ℕ → ℕ → Bool → Bool → Textarea
unfolding fresh_lines
new_area heap win x y width height top_to_down lifo =
    let rows = height / win.font_height in
    record {
      win = win;
      lines = fresh_lines heap (width / win.font_width + 1) 0 rows;
      nr_lines = rows;
      cur_line = negsuc 0;
      x = x;
      y = y;
      width = width;
      height = height;
      top_to_down = top_to_down;
      lifo = lifo;
      fault = false;
    }

-- The width is compared with the height of the font.
unfoldable pub textarea_init : (ℕ → Text) → Window → ℕ → ℕ → ℕ → ℕ → Bool → Bool → Option Textarea
unfolding new_area
textarea_init heap win x y width height top_to_down lifo =
    if width == 0 || ltb width win.font_height
    then none
    else some (new_area heap win x y width height top_to_down lifo)

-- cur_line + 1, of a `cur_line` of at least -1.
abbrev pub after_cur : ℤ → ℕ
after_cur (pos n) = suc n
after_cur (negsuc n) = 0

-- What GetStringBreak() answers for a text and its length: how many of these bytes fit in the width
-- of the area, and where the next line begins.
pub record Break : Type 0 where
  pub fitting : ℕ
  pub next : ℕ

abbrev pub is_newline : Option ℕ → Bool
is_newline none = false
is_newline (some c) = c == 10

-- The last of the first `n` bytes is a newline.
abbrev pub ends_line : Text → ℕ → Bool
ends_line s zero = false
ends_line s (suc k) = is_newline (get_elem? s k)

-- The text of a line that has received the first `n` bytes of `s`; a newline at their end is
-- removed.
unfoldable pub line_text : Text → ℕ → ℕ → Text
line_text s n len = if ends_line s n then take (n - 1) (take (min n len) s) else take (min n len) s

-- The bytes leave no room for the NUL, or it is put behind the memory of the line.
unfoldable pub overruns : Text → ℕ → ℕ → Bool
overruns s n len = if ends_line s n then ltb len n else leb len n

unfoldable pub write_line : Text → ℕ → ℕ → TextLine → TextLine
unfolding line_text
write_line s n color l = record l { text = line_text s n l.len; color = color }

pub set_line : List TextLine → ℕ → (TextLine → TextLine) → List TextLine
set_line [] i f = []
set_line (l ∷ ls) zero f = f l ∷ ls
set_line (l ∷ ls) (suc i) f = l ∷ set_line ls i f

pub line_overruns : Text → ℕ → Option TextLine → Bool
unfolding overruns
line_overruns s n none = true
line_overruns s n (some l) = overruns s n l.len

-- One piece of a line. With no lines at all the index is divided by 0.
unfoldable pub put_piece : Text → ℕ → ℕ → Textarea → Textarea
unfolding set_line write_line line_overruns
put_piece s n color ta =
    let i = after_cur ta.cur_line % ta.nr_lines in
    record ta {
      cur_line = pos i;
      lines = set_line ta.lines i (write_line s n color);
      fault = ta.fault || line_overruns s n (get_elem? ta.lines i);
    }

module _ (breaks : Text → ℕ → Break) (color : ℕ) where
  -- `while (length)`; `none`: out of fuel.
  pub put_loop : ℕ → Text → ℕ → Textarea → Option Textarea
  unfolding put_piece
  put_loop zero s length ta = none
  put_loop (suc fuel) s length ta =
      let b = breaks s length in
      let rest =
        put_loop fuel (drop b.next s) (length - b.fitting) (put_piece s b.fitting color ta) in
      if length == 0 then some ta else rest

  -- `textarea_putline`
  unfoldable pub textarea_putline : Text → Textarea → Option Textarea
  unfolding put_loop
  textarea_putline s ta = if is_empty s then some ta else put_loop (suc (length s)) s (length s) ta

-- How a walk over the lines ends: with what it has drawn, or, in the model alone, out of fuel.
pub data Drawn : Type 0 where
  drawn : List Draw → Drawn
  out_of_bounds out_of_fuel : Drawn

abbrev pub prepend : List Draw → Drawn → Drawn
prepend ds (drawn es) = drawn (ds ++ es)
prepend ds out_of_bounds = out_of_bounds
prepend ds out_of_fuel = out_of_fuel

module _ (ta : Textarea) where
  unfoldable pub draw_line : TextLine → ℕ → List Draw
  draw_line l y = if is_empty l.text then [] else set_color l.color ∷ draw_string l.text ta.x y ∷ []

  unfoldable pub next_y : TextLine → ℕ → ℕ
  next_y l y =
      if is_empty l.text
      then y
      else if ta.top_to_down
      then y + ta.win.font_height
      else y - ta.win.font_height

  unfoldable pub line_after : ℕ → ℕ
  line_after i =
      if ta.lifo then (i + ta.nr_lines - 1) % ta.nr_lines else (i + 1 + ta.nr_lines) % ta.nr_lines

  -- The loop of `textarea_refresh`, from the line at `i` to the one before `first` comes again.
  unfoldable pub draw_lines : ℕ → ℕ → ℕ → ℕ → Drawn
  unfolding draw_line next_y line_after
  draw_lines zero first i y = out_of_fuel
  draw_lines (suc fuel) first i y = elim (get_elem? ta.lines i) [
    | none ↦ out_of_bounds
    | some l ↦
        let rest = draw_lines fuel first (line_after i) (next_y l y) in
        prepend (draw_line l y) (if line_after i == first then drawn [] else rest)
  ]

  abbrev pub first_y : ℕ
  first_y = if ta.top_to_down then ta.y else ta.y + ta.height - ta.win.font_height

  pub draw_from : ℤ → Drawn
  unfolding draw_lines
  draw_from (pos i) = draw_lines ta.nr_lines i i first_y
  draw_from (negsuc i) = out_of_bounds

  -- The newest line first, or the oldest. The newest is before the array as long as there is none.
  unfoldable pub textarea_refresh : Drawn
  unfolding draw_from
  textarea_refresh =
      let first = if ta.lifo then ta.cur_line else pos (after_cur ta.cur_line % ta.nr_lines) in
      let clean = set_color ta.win.color ∷ fill_rectangle ta.x ta.y ta.width ta.height ∷ [] in
      prepend clean (elim (draw_from first) [
        | drawn ds ↦ drawn (ds ++ flip ∷ [])
        | out_of_bounds ↦ out_of_bounds
        | out_of_fuel ↦ out_of_fuel
      ])
