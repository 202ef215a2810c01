-- ===== src/Ui/Textbar.antt =====
-- The text bar of src/tboot_ui.c.
pub mod Pictures
pub mod Calls
use tboot.Base.{
  ℕ, ◌≡◌, refl, ◌≢◌, inl, inr, Bool, true, false, ◌||◌, Option, none, some, List, [], ◌∷◌, ◌++◌,
  arith, Text, ltb, leb, ◌==◌, if◌then◌else◌, Bool-cases,
}
use tboot.Base.Int.{ℤ, pos, negsuc, is_zero}
use tboot.Minui.{TextLine, flip}
use tboot.Minui.Bar.{
  Bar, Textbar, Paint, paint, bar_bounce, paint_bar, paint_line, cleaned_height, textbar_refresh,
}
use tboot.Minui.Bar.Inside.{
  Box, box_of, AllInBox, Within, HasInside, FlagsFit, paint_bar-AllInBox, widen_all,
  append-AllInBox,
}
use tboot.Ui.{formatted, line_len_inchar}

-- COLOR_FG
abbrev pub color_fg : ℕ
color_fg = 0xffff_ffff

-- A percent that is shown: -100 to 100, or BAR_BOUNCE.
unfoldable pub shown_percent : ℤ → Bool
shown_percent (pos p) = leb p bar_bounce
shown_percent (negsuc k) = ltb k 100

unfoldable pub same_percent : ℤ → ℤ → Bool
same_percent (pos p) (pos q) = p == q
same_percent (negsuc p) (negsuc q) = p == q
same_percent (pos p) (negsuc q) = false
same_percent (negsuc p) (pos q) = false

-- The flags and the percent of the bar.
unfoldable pub set_percent : ℤ → Bar → Bar
set_percent (pos p) bar =
    if p == bar_bounce
    then record bar { percent = pos p; progress = false }
    else record bar { percent = pos p; progress = true; fill_out = true }
set_percent (negsuc k) bar = record bar { percent = negsuc k; progress = true; fill_out = false }

-- A call of tboot_ui_textbar(), tboot_ui_bouncebar() or tboot_ui_hidebar().
pub record BarCall : Type 0 where
  pub percent : ℤ
  pub text : Text

abbrev pub call_line : BarCall → TextLine
call_line c = record { text = formatted c.text; len = line_len_inchar; color = color_fg }

-- A text bar and what a call has painted of it, `none` for nothing.
abbrev pub Painted : Type 0
Painted = Textbar × Option (List Paint)

pub show_line : BarCall → Textbar → Painted
show_line c tb =
    let lined = record tb { line = some (call_line c) } in
    let changed = record lined { bar = set_percent c.percent tb.bar } in
    if same_percent c.percent tb.bar.percent
    then (lined, textbar_refresh lined true)
    else (changed, textbar_refresh changed false)

-- `tboot_ui_textbar`, once there is a text bar.
unfoldable pub tboot_ui_textbar : BarCall → Textbar → Painted
unfolding show_line shown_percent
tboot_ui_textbar c tb = if shown_percent c.percent then show_line c tb else (tb, none)

abbrev pub add_picture :
    Option (List Paint) → Textbar × List (List Paint) → Textbar × List (List Paint)
add_picture none (tb, pictures) = (tb, pictures)
add_picture (some ps) (tb, pictures) = (tb, ps ∷ pictures)

-- The pictures of calls, one after the other.
unfoldable pub textbar_run : List BarCall → Textbar → Textbar × List (List Paint)
unfolding tboot_ui_textbar
textbar_run [] tb = (tb, [])
textbar_run (c ∷ calls) tb =
    let r = tboot_ui_textbar c tb in add_picture r.1 (textbar_run calls r.0)

-- The last call with a percent that is shown, if there is one.
abbrev pub last_shown : List BarCall → Option BarCall → Option BarCall
last_shown [] o = o
last_shown (c ∷ calls) o = last_shown calls (if shown_percent c.percent then some c else o)

-- A text bar shows a call: its text, its percent, and flags that fit.
abbrev pub ShowsCall : Option BarCall → Textbar → Textbar → Type 0
ShowsCall none first tb = tb ≡ first
ShowsCall (some c) first tb = (tb.line ≡ some (call_line c)) × (tb.bar.percent ≡ c.percent)

abbrev pub FitsBar : Bar → Type 0
FitsBar bar = FlagsFit bar.progress bar.fill_out bar.percent

abbrev pub area_of : Textbar → Box
area_of tb = record { x = tb.x; y = tb.y; width = tb.width; height = tb.height }

-- The bar of a text bar that can be painted: inside the text bar, with room inside its border.
abbrev pub Paintable : Textbar → Type 0
Paintable tb = Within (box_of tb.bar) (area_of tb) × HasInside tb.bar

pub set_percent-FitsBar : (p : ℤ) (bar : Bar) → shown_percent p ≡ true → FitsBar (set_percent p bar)
unfolding set_percent shown_percent
set_percent-FitsBar (pos p) bar h = ground arith
set_percent-FitsBar (negsuc k) bar h = ground arith

pub same_percent-eq : (p q : ℤ) → same_percent p q ≡ true → p ≡ q
unfolding same_percent
same_percent-eq (pos p) (pos q) h = ground arith
same_percent-eq (negsuc p) (negsuc q) h = ground arith
same_percent-eq (pos p) (negsuc q) h = absurd (cc h)
same_percent-eq (negsuc p) (pos q) h = absurd (cc h)

not_hidden : (p : ℤ) → is_zero p ≡ false → p ≢ pos 0
not_hidden (pos p) h e = ground arith
not_hidden (negsuc k) h e = cc e

pub set_percent-Paintable :
    (p : ℤ) (tb : Textbar) (line : Option TextLine)
    → Paintable tb
    → Paintable (record tb { line = line; bar = set_percent p tb.bar })
unfolding set_percent
set_percent-Paintable (pos p) tb line h = elim (Bool-cases (p == bar_bounce)) [
  | inl e ↦ rw e h
  | inr e ↦ rw e h
]
set_percent-Paintable (negsuc k) tb line h = h

pub set_percent-percent : (p : ℤ) (bar : Bar) → (set_percent p bar).percent ≡ p
unfolding set_percent
set_percent-percent (pos p) bar = ground arith
set_percent-percent (negsuc k) bar = refl

bar_part :
    (tb : Textbar) (hidden : Bool)
    → (hidden ≡ false → tb.bar.percent ≢ pos 0)
    → FitsBar tb.bar
    → Paintable tb
    → AllInBox (area_of tb) ((if hidden then [] else paint_bar tb.bar) ++ paint flip ∷ [])
bar_part tb true shown fits h = (tt, tt)
bar_part tb false shown fits h =
    append-AllInBox (area_of tb) (paint_bar tb.bar) (paint flip ∷ [])
      (widen_all (box_of tb.bar) (area_of tb) (paint_bar tb.bar) h.0
        (paint_bar-AllInBox tb.bar h.1 fits (shown refl)))
      (tt, tt)

or-false : (a b : Bool) → (a || b) ≡ false → a ≡ false
or-false true b e = e
or-false false b e = refl

pub paint_line-AllInBox :
    (tb : Textbar) (line : TextLine) (text_only : Bool)
    → FitsBar tb.bar
    → Paintable tb
    → AllInBox (area_of tb) (paint_line tb line text_only)
unfolding paint_line cleaned_height
paint_line-AllInBox tb line text_only fits h = (
  tt,
  (
    ground (arith, h),
    (
      tt,
      (
        tt,
        bar_part tb (is_zero tb.bar.percent || text_only)
            (λ e. not_hidden tb.bar.percent (or-false (is_zero tb.bar.percent) text_only e)) fits h,
      ),
    ),
  ),
)
