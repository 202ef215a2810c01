-- ===== src/Minui/Textarea/Ring.antt =====
-- The lines of a text area of src/libminui/minui.c, from the oldest to the newest.
use tboot.Base.{
  ℕ, zero, suc, ◌+◌, ◌/◌, ◌%◌, ◌≤◌, ◌<◌, ◌≡◌, refl, sym, ap, ◌∙◌, Bool, false, some, List, [], ◌∷◌,
  ◌++◌, arith, Text, length, get_elem?, take, drop, get_elem?-lt, drop-get_elem?, take_all,
  drop_all,
}
use mathlib.Core.List.{append_assoc, append-nil}
use native.Mathlib.Nat.{mod-eq_of_lt}
use native.Mathlib.Decide.{dec_lt}
use tboot.Minui.{TextLine, Window}
use tboot.Minui.Textarea.{
  Textarea, after_cur, new_area, fresh_lines, set_line, write_line, line_text, put_piece, overruns,
  line_overruns,
}

-- Every line has memory of the same size.
abbrev pub SameLen : ℕ → List TextLine → Type 0
SameLen len [] = Unit
SameLen len (l ∷ ls) = (l.len ≡ len) × SameLen len ls

pub record IsRing (len : ℕ) (ta : Textarea) : Type 0 where
  pub counted : ta.nr_lines ≡ length ta.lines
  pub some_line : 0 < ta.nr_lines
  pub in_range : after_cur ta.cur_line ≤ ta.nr_lines
  pub same_len : SameLen len ta.lines

-- The lines from the oldest to the newest; those that are not written yet are the oldest.
abbrev pub oldest_first : Textarea → List TextLine
oldest_first ta = drop (after_cur ta.cur_line) ta.lines ++ take (after_cur ta.cur_line) ta.lines

fresh_lines-SameLen :
    (heap : ℕ → Text) (len i n : ℕ)
    → SameLen len (fresh_lines heap len i n) × (length (fresh_lines heap len i n) ≡ n)
unfolding fresh_lines
fresh_lines-SameLen heap len i zero = (tt, refl)
fresh_lines-SameLen heap len i (suc n) =
    let (same, count) = fresh_lines-SameLen heap len (suc i) n in ((refl, same), ap suc count)

-- A new area is a ring unless its height holds no line.
pub new_area-IsRing :
    (heap : ℕ → Text) (win : Window) (x y width height : ℕ) (top_to_down lifo : Bool)
    → 0 < height / win.font_height
    → IsRing (width / win.font_width + 1) (new_area heap win x y width height top_to_down lifo)
unfolding new_area
new_area-IsRing heap win x y width height top_to_down lifo some_line =
    let rows = height / win.font_height in
    let (same, count) = fresh_lines-SameLen heap (width / win.font_width + 1) 0 rows in
    record { counted = sym count; some_line = some_line; in_range = omega arith; same_len = same }

length-set_line :
    (ls : List TextLine) (i : ℕ) (f : TextLine → TextLine) → length (set_line ls i f) ≡ length ls
unfolding set_line
length-set_line [] i f = refl
length-set_line (l ∷ ls) zero f = refl
length-set_line (l ∷ ls) (suc i) f = ap suc (length-set_line ls i f)

set_line-SameLen :
    (len : ℕ) (ls : List TextLine) (i : ℕ) (f : TextLine → TextLine)
    → ((l : TextLine) → (f l).len ≡ l.len)
    → SameLen len ls
    → SameLen len (set_line ls i f)
unfolding set_line
set_line-SameLen len [] i f keeps h = tt
set_line-SameLen len (l ∷ ls) zero f keeps h = (keeps l ∙ h.0, h.1)
set_line-SameLen len (l ∷ ls) (suc i) f keeps h = (h.0, set_line-SameLen len ls i f keeps h.1)

get_elem?-SameLen :
    (len : ℕ) (ls : List TextLine) (i : ℕ) (l : TextLine)
    → SameLen len ls
    → get_elem? ls i ≡ some l
    → l.len ≡ len
get_elem?-SameLen len [] i l h e = absurd (cc e)
get_elem?-SameLen len (m ∷ ls) zero l h e = cc (e, h.0)
get_elem?-SameLen len (m ∷ ls) (suc i) l h e = get_elem?-SameLen len ls i l h.1 e

-- What a write at `i` leaves behind it, and before it.
split-set_line :
    (ls : List TextLine) (i : ℕ) (l : TextLine) (f : TextLine → TextLine)
    → get_elem? ls i ≡ some l
    → (drop (suc i) (set_line ls i f) ≡ drop (suc i) ls)
      × (take (suc i) (set_line ls i f) ≡ take i ls ++ f l ∷ [])
unfolding set_line
split-set_line [] i l f e = absurd (cc e)
split-set_line (m ∷ ls) zero l f e = (refl, cc e)
split-set_line (m ∷ ls) (suc i) l f e =
    let (behind, before) = split-set_line ls i l f e in (behind, ap (λ t. m ∷ t) before)

-- The index that a new line goes to: that of the oldest.
module _ (lines : List TextLine) (n : ℕ) (some_line : 0 < length lines)
    (le : n ≤ length lines) where
  oldest_at : (l : TextLine) × (get_elem? lines (n % length lines) ≡ some l)
  oldest_at = get_elem?-lt (n % length lines) lines (grind arith)

  without_oldest :
      drop 1 (drop n lines ++ take n lines)
      ≡ drop (suc (n % length lines)) lines ++ take (n % length lines) lines
  without_oldest = elim (dec_lt n (length lines)) [
    | yes p ↦
        let (l, got) = get_elem?-lt n lines p in
        rw (mod-eq_of_lt p, drop-get_elem? n lines l got) refl
    | no p ↦
        let round : n % length lines ≡ 0 = grind arith in
        let (l, got) = get_elem?-lt 0 lines some_line in
        rw (round, drop_all n lines (omega arith), take_all n lines (omega arith))
          (sym (append-nil (drop 1 lines)))
  ]

-- The line that has received the first `n` bytes of `s`.
abbrev pub piece_line : ℕ → ℕ → Text → ℕ → TextLine
piece_line len color s n = record { text = line_text s n len; len = len; color = color }

write_line-eq :
    (len color : ℕ) (s : Text) (n : ℕ) (l : TextLine)
    → l.len ≡ len
    → write_line s n color l ≡ piece_line len color s n
unfolding write_line
write_line-eq len color s n l e = rw (← e) refl

write_line-len : (s : Text) (n color : ℕ) (l : TextLine) → (write_line s n color l).len ≡ l.len
unfolding write_line
write_line-len s n color l = refl

module _ (len color : ℕ) (s : Text) (n : ℕ) (ta : Textarea) (ring : IsRing len ta) where
  abbrev at_index : ℕ
  at_index = after_cur ta.cur_line % length ta.lines

  -- A new line takes the place of the oldest.
  pub put_piece-oldest_first :
      oldest_first (put_piece s n color ta)
      ≡ drop 1 (oldest_first ta) ++ piece_line len color s n ∷ []
  unfolding put_piece
  put_piece-oldest_first =
      let (l, got) =
        oldest_at ta.lines (after_cur ta.cur_line) (omega (arith, ring.counted, ring.some_line))
          (omega (arith, ring.counted, ring.in_range)) in
      let (behind, before) = split-set_line ta.lines at_index l (write_line s n color) got in
      rw
        (
          ring.counted,
          behind,
          before,
          write_line-eq len color s n l
              (get_elem?-SameLen len ta.lines at_index l ring.same_len got),
          without_oldest ta.lines (after_cur ta.cur_line)
              (omega (arith, ring.counted, ring.some_line))
              (omega (arith, ring.counted, ring.in_range)),
        )
        (sym (
          append_assoc (drop (suc at_index) ta.lines) (take at_index ta.lines)
            (piece_line len color s n ∷ [])))

  pub put_piece-IsRing : IsRing len (put_piece s n color ta)
  unfolding put_piece
  put_piece-IsRing = record {
    counted =
        ring.counted
        ∙ sym
            (length-set_line ta.lines (after_cur ta.cur_line % ta.nr_lines) (write_line s n color));
    some_line = ring.some_line;
    in_range = grind (arith, ring.some_line);
    same_len =
        set_line-SameLen len ta.lines (after_cur ta.cur_line % ta.nr_lines) (write_line s n color)
          (write_line-len s n color) ring.same_len;
  }

  pub put_piece-fault :
      ta.fault ≡ false → overruns s n len ≡ false → (put_piece s n color ta).fault ≡ false
  unfolding put_piece line_overruns
  put_piece-fault sound fits =
      let (l, got) =
        oldest_at ta.lines (after_cur ta.cur_line) (omega (arith, ring.counted, ring.some_line))
          (omega (arith, ring.counted, ring.in_range)) in
      rw
        (
          ring.counted,
          sound,
          got,
          get_elem?-SameLen len ta.lines at_index l ring.same_len got,
          fits,
        )
        refl
