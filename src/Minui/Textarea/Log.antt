-- ===== src/Minui/Textarea/Log.antt =====
-- What `textarea_putline` of src/libminui/minui.c makes of a text.
use tboot.Base.{
  ℕ, zero, suc, ◌-◌, ◌%◌, ◌≤◌, ◌<◌, min, ◌≡◌, refl, sym, ap, ◌∙◌, ◌≢◌, ◌⊎◌, inl, inr, false, some,
  List, [], ◌∷◌, ◌++◌, map, arith, Text, length, get_elem?, take, drop, length-take, length-drop,
  take-append-drop, get_elem?-take, ◌==◌, if◌then◌else◌, Bool-cases,
}
use mathlib.Core.List.{append-nil}
use tboot.Base.{drop_newline}
use tboot.Minui.{TextLine}
use tboot.Minui.Textarea.{
  Textarea, after_cur, Break, is_newline, ends_line, overruns, line_text, put_piece, put_loop,
  textarea_putline,
}
use tboot.Minui.Textarea.Ring.{
  IsRing, oldest_first, piece_line, put_piece-oldest_first, put_piece-IsRing, put_piece-fault,
}
use tboot.Minui.Textarea.Shown.{
  pushed, pushed-append, pushed-one, length-oldest_first, LinesWritten,
}

-- What is relied on of GetStringBreak(): of a text with bytes left at least one fits, none that is
-- not there, and the next line begins behind them.
abbrev pub BreakLaw : (Text → ℕ → Break) → Type 0
BreakLaw breaks =
    (s : Text)
    → 0 < length s
    → (0 < (breaks s (length s)).fitting)
      × ((breaks s (length s)).fitting ≤ length s)
      × ((breaks s (length s)).next ≡ (breaks s (length s)).fitting)

-- What fits in the width has room in the memory of a line, with its NUL.
abbrev pub HasRoom : ℕ → (Text → ℕ → Break) → Type 0
HasRoom len breaks = (s : Text) → (breaks s (length s)).fitting < len

abbrev pub joined : List Text → Text
joined [] = []
joined (p ∷ ps) = p ++ joined ps

-- A piece of a text as a line of the area.
abbrev pub shown_line : ℕ → ℕ → Text → TextLine
shown_line len color p = record { text = drop_newline p; len = len; color = color }

-- The place and the flags of an area stay.
abbrev pub SameArea : Textarea → Textarea → Type 0
SameArea ta ta' = record ta' { lines = ta.lines; cur_line = ta.cur_line; fault = ta.fault } ≡ ta

-- A text has been put into an area: cut into pieces, which are its newest lines.
pub record PutText (len color : ℕ) (s : Text) (ta ta' : Textarea) : Type 0 where
  pub ring : IsRing len ta'
  pub sound : ta'.fault ≡ false
  pub area : SameArea ta ta'
  pub pieces : List Text
  pub whole : joined pieces ≡ s
  pub log : oldest_first ta' ≡ pushed (oldest_first ta) (map (shown_line len color) pieces)
  pub written : (s ≢ []) ⊎ LinesWritten ta → LinesWritten ta'

ends_line-take : (s : Text) (n : ℕ) → n ≤ length s → ends_line s n ≡ ends_line (take n s) n
ends_line-take s zero h = refl
ends_line-take s (suc k) h = ap is_newline (sym (get_elem?-take k (suc k) s (omega arith)))

drop_newline-line :
    (p : Text) → (if ends_line p (length p) then take (length p - 1) p else p) ≡ drop_newline p
unfolding drop_newline
drop_newline-line [] = refl
drop_newline-line (c ∷ []) = refl
drop_newline-line (c ∷ d ∷ s) = elim (Bool-cases (is_newline (get_elem? (d ∷ s) (length s)))) [
  | inl e ↦
      let one_less : suc (suc (length s)) - 1 ≡ suc (suc (length s) - 1) = omega arith in
      rw e (
        ap (λ k. take k (c ∷ d ∷ s)) one_less
        ∙ ap (λ t. c ∷ t)
            (ap (λ b. if b then take (suc (length s) - 1) (d ∷ s) else d ∷ s) (sym e)
              ∙ drop_newline-line (d ∷ s)))
  | inr e ↦ rw e (
      ap (λ t. c ∷ t)
        (ap (λ b. if b then take (suc (length s) - 1) (d ∷ s) else d ∷ s) (sym e)
          ∙ drop_newline-line (d ∷ s)))
]

piece_line-shown :
    (len color : ℕ) (s : Text) (n : ℕ)
    → n ≤ length s
    → n < len
    → piece_line len color s n ≡ shown_line len color (take n s)
unfolding line_text
piece_line-shown len color s n le room =
    let p = take n s in
    let count : length p ≡ n = omega (arith, length-take n s) in
    let all : min n len ≡ n = omega arith in
    let text : line_text s n len ≡ drop_newline p =
      ap (λ k. if ends_line s n then take (n - 1) (take k s) else take k s) all
      ∙ ap (λ b. if b then take (n - 1) p else p) (ends_line-take s n le)
      ∙ ap (λ k. if ends_line p k then take (k - 1) p else p) (sym count)
      ∙ drop_newline-line p in
    ap (λ t. record { text = t; len = len; color = color }) text

no_overrun : (s : Text) (n len : ℕ) → n < len → overruns s n len ≡ false
unfolding overruns
no_overrun s n len h = elim (Bool-cases (ends_line s n)) [
  | inl e ↦ rw e (ground arith)
  | inr e ↦ rw e (ground arith)
]

nothing_put : (ta : Textarea) → (◌≢◌ {A = Text} [] []) ⊎ LinesWritten ta → LinesWritten ta
nothing_put ta (inl ne) = absurd (ne refl)
nothing_put ta (inr w) = w

put_piece-LinesWritten :
    (s : Text) (n color : ℕ) (ta : Textarea) → LinesWritten (put_piece s n color ta)
unfolding put_piece
put_piece-LinesWritten s n color ta = (after_cur ta.cur_line % ta.nr_lines, refl)

put_piece-SameArea :
    (s : Text) (n color : ℕ) (ta ta' : Textarea)
    → SameArea (put_piece s n color ta) ta'
    → SameArea ta ta'
unfolding put_piece
put_piece-SameArea s n color ta ta' h =
    ap (λ (t : Textarea). record t { lines = ta.lines; cur_line = ta.cur_line; fault = ta.fault }) h

module _ (len color n : ℕ) (s : Text) (ta : Textarea) (le : n ≤ length s) (room : n < len) where
  -- The first piece, and then the rest.
  first_then :
      (ta' : Textarea)
      → IsRing len ta
      → PutText len color (drop n s) (put_piece s n color ta) ta'
      → PutText len color s ta ta'
  first_then ta' ring rest = record {
    ring = rest.ring;
    sound = rest.sound;
    area = put_piece-SameArea s n color ta ta' rest.area;
    pieces = take n s ∷ rest.pieces;
    whole = rw rest.whole (take-append-drop n s);
    log =
        rest.log
        ∙ ap (λ v. pushed v (map (shown_line len color) rest.pieces))
            (put_piece-oldest_first len color s n ta ring
              ∙ pushed-one (oldest_first ta) (piece_line len color s n)
                  (omega (arith, length-oldest_first len ta ring, ring.some_line))
              ∙ ap (λ l. pushed (oldest_first ta) (l ∷ []))
                  (piece_line-shown len color s n le room))
        ∙ pushed-append (oldest_first ta) (shown_line len color (take n s) ∷ [])
            (map (shown_line len color) rest.pieces);
    written = λ h. rest.written (inr (put_piece-LinesWritten s n color ta));
  }

suc_test : (n : ℕ) → (suc n == 0) ≡ false
suc_test n = ground arith

module _ (breaks : Text → ℕ → Break) (len color : ℕ) (law : BreakLaw breaks)
    (room : HasRoom len breaks) where
  no_text : (ta : Textarea) → IsRing len ta → ta.fault ≡ false → PutText len color [] ta ta
  no_text ta ring sound = record {
    ring = ring;
    sound = sound;
    area = refl;
    pieces = [];
    whole = refl;
    log = sym (append-nil (oldest_first ta));
    written = nothing_put ta;
  }

  put_loop-PutText :
      (fuel : ℕ) (s : Text) (ta : Textarea)
      → length s < fuel
      → IsRing len ta
      → ta.fault ≡ false
      → (ta' : Textarea) × (put_loop breaks color fuel s (length s) ta ≡ some ta')
        × PutText len color s ta ta'
  unfolding put_loop
  put_loop-PutText zero s ta enough ring sound = absurd (omega arith)
  put_loop-PutText (suc fuel) [] ta enough ring sound = (ta, refl, no_text ta ring sound)
  put_loop-PutText (suc fuel) (c ∷ t) ta enough ring sound =
      let s : Text = c ∷ t in
      let b = breaks s (length s) in
      let (some_fit, le, behind) = law s (omega arith) in
      let count : length s - b.fitting ≡ length (drop b.fitting s) =
        sym (length-drop b.fitting s) in
      let tb = put_piece s b.fitting color ta in
      let (ta', done, rest) =
        put_loop-PutText fuel (drop b.fitting s) tb (omega (arith, length-drop b.fitting s))
          (put_piece-IsRing len color s b.fitting ta ring)
          (put_piece-fault len color s b.fitting ta ring sound
            (no_overrun s b.fitting len (room s))) in
      (
        ta',
        rw (suc_test (length t)) (
            ap (λ k. put_loop breaks color fuel (drop k s) (length s - b.fitting) tb) behind
            ∙ ap (λ k. put_loop breaks color fuel (drop b.fitting s) k tb) count
            ∙ done),
        first_then len color b.fitting s ta le (room s) ta' ring rest,
      )

  -- A text always comes to an end in an area with room, and is then its newest lines.
  pub textarea_putline-PutText :
      (s : Text) (ta : Textarea)
      → IsRing len ta
      → ta.fault ≡ false
      → (ta' : Textarea) × (textarea_putline breaks color s ta ≡ some ta')
        × PutText len color s ta ta'
  unfolding textarea_putline
  textarea_putline-PutText [] ta ring sound = (ta, refl, no_text ta ring sound)
  textarea_putline-PutText (c ∷ t) ta ring sound =
      put_loop-PutText (suc (length (c ∷ t))) (c ∷ t) ta (omega arith) ring sound
