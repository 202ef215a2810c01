-- ===== src/Ui/Textbar/Pictures.antt =====
-- What a picture of the text bar of src/tboot_ui.c holds.
use tboot.Base.{
  ℕ, zero, suc, ◌+◌, ◌-◌, ◌/◌, ◌*◌, ◌≤◌, ◌<◌, ◌≡◌, refl, ◌≢◌, ◌⊎◌, inl, inr, true, false, some,
  ◌||◌, none, List, [], ◌∷◌, ◌++◌, arith, if◌then◌else◌, ◌==◌, Bool-cases,
}
use tboot.Base.Int.{ℤ, pos, negsuc, neg_ℕ, ◌+ℤ◌, is_zero}
use tboot.Minui.{TextLine, fill_rectangle, draw_rectangle, set_color, draw_string, flip}
use tboot.Minui.Bar.{
  Bar, Textbar, Paint, paint, fill_signed, create_bounce, bar_bounce, inner_width, inner_height,
  share, progress_width, rest_width, empty_color, paint_progress, paint_inside, paint_bar,
  cleaned_height, paint_line,
}
use tboot.Ui.{formatted}
use tboot.Ui.Textbar.{BarCall, call_line, color_fg, shown_percent, set_percent, not_hidden}

-- `w` is p hundredths of `inner`, rounded down, but one pixel at least.
abbrev pub Share : ℕ → ℕ → ℕ → Type 0
Share p inner w =
    ((p * inner < 100) × (w ≡ 1))
    ⊎ ((100 ≤ p * inner) × (w * 100 ≤ p * inner) × (p * inner < (w + 1) * 100))

-- What is left of `inner` without `w`, but one pixel where nothing is.
abbrev pub LeftOver : ℕ → ℕ → ℤ → Type 0
LeftOver inner w rest =
    ((pos inner +ℤ neg_ℕ w ≡ pos 0) × (rest ≡ pos 1))
    ⊎ ((pos inner +ℤ neg_ℕ w ≢ pos 0) × (rest ≡ pos inner +ℤ neg_ℕ w))

-- At last a part of the inside of the bar is filled, from its left end.
abbrev pub EndsFilled : Bar → ℤ → List Paint → Type 0
EndsFilled bar width ps =
    (before : List Paint) × (ps
      ≡ before
        ++ fill_signed (bar.x + bar.border_width) (bar.y + bar.border_width) width
            (inner_height bar)
          ∷ paint flip
          ∷ [])

-- Behind the text no bar is drawn at 0; a percent that fills has its share filled, one that empties
-- out what is left of it, and BAR_BOUNCE starts the thread of the bounce bar.
abbrev pub BarDrawn : ℤ → Bar → List Paint → Type 0
BarDrawn (pos zero) bar ps = ps ≡ paint flip ∷ []
BarDrawn (pos (suc k)) bar ps =
    ((suc k ≡ bar_bounce)
      × (before : List Paint) × (ps ≡ before ++ create_bounce ∷ paint flip ∷ []))
    ⊎ ((suc k ≢ bar_bounce)
        × (w : ℕ) × Share (suc k) (inner_width bar) w
        × EndsFilled bar (pos w) ps)
BarDrawn (negsuc k) bar ps =
    (w : ℕ) × (rest : ℤ) × Share (suc k) (inner_width bar) w
    × LeftOver (inner_width bar) w rest
    × EndsFilled bar rest ps

-- The text is drawn on a cleaned ground. Where the percent is still `at` the bar is neither cleaned,
-- unless it is hidden, nor drawn again.
abbrev pub Depicts : BarCall → ℤ → Textbar → List Paint → Type 0
Depicts c at tb ps =
    (height : ℕ) × (after : List Paint) × (ps
      ≡ paint (set_color tb.win.color)
        ∷ paint (fill_rectangle tb.x tb.y tb.width height)
        ∷ paint (set_color color_fg)
        ∷ paint (draw_string (formatted c.text) (tb.x + tb.width / 2) (tb.bar.y - tb.interval))
        ∷ after)
    × (((c.percent ≡ at)
          × (after ≡ paint flip ∷ [])
          × (((at ≡ pos 0) × (height ≡ tb.height)) ⊎ ((at ≢ pos 0) × (height ≡ tb.bar.y - tb.y))))
        ⊎ ((c.percent ≢ at) × (height ≡ tb.height) × BarDrawn c.percent tb.bar after))

-- The pictures of calls on a text bar at the percent `at`: one of each call with a valid percent.
abbrev pub Depicted : List BarCall → ℤ → Textbar → List (List Paint) → Type 0
Depicted [] at tb pictures = pictures ≡ []
Depicted (c ∷ calls) at tb pictures =
    ((shown_percent c.percent ≡ true)
      × (ps : List Paint) × (rest : List (List Paint)) × (pictures ≡ ps ∷ rest)
      × Depicts c at tb ps
      × Depicted calls c.percent tb rest)
    ⊎ ((shown_percent c.percent ≡ false) × Depicted calls at tb pictures)

-- What no call changes.
abbrev blank_bar : Bar → Bar
blank_bar bar = record bar { percent = pos 0; progress = false; fill_out = false }

abbrev pub frame_of : Textbar → Textbar
frame_of tb = record tb { line = none; bar = blank_bar tb.bar }

share-Share : (p inner : ℕ) → Share p inner (share p inner)
unfolding share
share-Share p inner = elim (Bool-cases (p * inner / 100 == 0)) [
  | inl e ↦ let small : p * inner < 100 = ground arith in rw e (inl (small, refl))
  | inr e ↦
      let n = p * inner in
      let large : 100 ≤ n = ground arith in
      let low : n / 100 * 100 ≤ n = omega arith in
      let high : n < (n / 100 + 1) * 100 = omega arith in rw e (inr (large, low, high))
]

pixel_at_least :
    (z : ℤ)
    → ((z ≡ pos 0) × ((if is_zero z then pos 1 else z) ≡ pos 1))
      ⊎ ((z ≢ pos 0) × ((if is_zero z then pos 1 else z) ≡ z))
pixel_at_least (pos zero) = inl (refl, refl)
pixel_at_least (pos (suc n)) =
    let nz : (suc n == 0) ≡ false = ground arith in inr ((λ e. ground arith), rw nz refl)
pixel_at_least (negsuc n) = inr ((λ e. cc e), refl)

rest_width-LeftOver : (inner w : ℕ) → LeftOver inner w (rest_width inner (neg_ℕ w))
unfolding rest_width
rest_width-LeftOver inner w = pixel_at_least (pos inner +ℤ neg_ℕ w)

bar_frame : Bar → List Paint
bar_frame bar =
    paint (set_color bar.border_color)
    ∷ paint (draw_rectangle bar.x bar.y bar.width bar.height)
    ∷ paint (set_color bar.bg_color)
    ∷ paint (
        fill_rectangle (bar.x + bar.border_width) (bar.y + bar.border_width) (inner_width bar)
          (inner_height bar))
    ∷ []

pub bar-BarDrawn :
    (p : ℤ) (bar : Bar)
    → let bar' = set_percent p bar in
      BarDrawn p
        (blank_bar bar)
        ((if is_zero bar'.percent || false then [] else paint_bar bar') ++ paint flip ∷ [])
unfolding set_percent paint_bar paint_inside paint_progress progress_width bar_frame
bar-BarDrawn (pos zero) bar = refl
bar-BarDrawn (pos (suc k)) bar =
    let nz : (suc k == 0) ≡ false = ground arith in
    elim (Bool-cases (suc k == bar_bounce)) [
      | inl e ↦
          let at : suc k ≡ bar_bounce = ground arith in rw (e, nz) (inl (at, bar_frame bar, refl))
      | inr e ↦
          let other : suc k ≢ bar_bounce = ground arith in
          rw (e, nz)
            (inr (
              other,
              share (suc k) (inner_width bar),
              share-Share (suc k) (inner_width bar),
              (bar_frame bar ++ paint (set_color bar.color) ∷ [], refl),
            ))
    ]
bar-BarDrawn (negsuc k) bar =
    let inner = inner_width bar in
    let w = share (suc k) inner in
    (
      w,
      rest_width inner (neg_ℕ w),
      share-Share (suc k) inner,
      rest_width-LeftOver inner w,
      (
        bar_frame bar
            ++ paint (set_color bar.color)
              ∷ paint (
                  fill_rectangle (bar.x + bar.border_width) (bar.y + bar.border_width) inner
                    (inner_height bar))
              ∷ paint (set_color (empty_color bar))
              ∷ [],
        refl,
      ),
    )

is_zero-pos : (z : ℤ) → is_zero z ≡ true → z ≡ pos 0
is_zero-pos (pos n) h = let e : n ≡ 0 = ground arith in rw e refl
is_zero-pos (negsuc n) h = cc

-- A call whose percent the bar has already.
pub same-Depicts :
    (c : BarCall) (tb : Textbar)
    → c.percent ≡ tb.bar.percent
    → Depicts c tb.bar.percent
        (frame_of tb)
        (paint_line (record tb { line = some (call_line c) }) (call_line c) true)
unfolding paint_line cleaned_height
same-Depicts c tb same = elim (Bool-cases (is_zero tb.bar.percent)) [
  | inl z ↦ (
    tb.height,
    paint flip ∷ [],
    rw z refl,
    inl (same, refl, inl (is_zero-pos tb.bar.percent z, refl)),
  )
  | inr n ↦ (
    tb.bar.y - tb.y,
    paint flip ∷ [],
    rw n refl,
    inl (same, refl, inr (not_hidden tb.bar.percent n, refl)),
  )
]

set_percent_y : (p : ℤ) (bar : Bar) → (set_percent p bar).y ≡ bar.y
unfolding set_percent
set_percent_y (pos p) bar = elim (Bool-cases (p == bar_bounce)) [
  | inl e ↦ rw e refl
  | inr e ↦ rw e refl
]
set_percent_y (negsuc k) bar = refl

-- A call with another percent.
pub other-Depicts :
    (c : BarCall) (tb : Textbar)
    → c.percent ≢ tb.bar.percent
    → Depicts c tb.bar.percent (frame_of tb) (
        paint_line
          (record tb { line = some (call_line c); bar = set_percent c.percent tb.bar })
          (call_line c)
          false)
unfolding paint_line cleaned_height
other-Depicts c tb other =
    let bar' = set_percent c.percent tb.bar in
    (
      tb.height,
      (if is_zero bar'.percent || false then [] else paint_bar bar') ++ paint flip ∷ [],
      rw (set_percent_y c.percent tb.bar) refl,
      inr (other, refl, bar-BarDrawn c.percent tb.bar),
    )

-- No call changes the frame.
pub set_percent-frame :
    (p : ℤ) (line : TextLine) (tb : Textbar)
    → frame_of (record tb { line = some line; bar = set_percent p tb.bar }) ≡ frame_of tb
unfolding set_percent
set_percent-frame (pos p) line tb = elim (Bool-cases (p == bar_bounce)) [
  | inl e ↦ rw e refl
  | inr e ↦ rw e refl
]
set_percent-frame (negsuc k) line tb = refl
