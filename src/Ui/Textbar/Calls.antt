-- ===== src/Ui/Textbar/Calls.antt =====
-- The calls that the text bar of src/tboot_ui.c receives, one after the other.
use tboot.Base.{
  ◌≡◌, ◌≢◌, arith, refl, sym, ap, ◌∙◌, inl, inr, true, false, Option, none, some, List, [], ◌∷◌,
  Bool-cases,
}
use mathlib.Core.Path.{subst}
use tboot.Minui.Bar.{Textbar, Paint, paint_line, textbar_refresh}
use tboot.Minui.Bar.Inside.{Box, AllInBox}
use tboot.Base.Int.{ℤ, pos, negsuc}
use tboot.Ui.Textbar.Pictures.{
  Depicts, Depicted, frame_of, same-Depicts, other-Depicts, set_percent-frame,
}
use tboot.Ui.Textbar.{
  BarCall, call_line, Painted, add_picture, shown_percent, same_percent, set_percent, show_line,
  tboot_ui_textbar, textbar_run, last_shown, ShowsCall, FitsBar, Paintable, area_of,
  set_percent-FitsBar, set_percent-Paintable, set_percent-percent, same_percent-eq,
  paint_line-AllInBox,
}

abbrev pub AllPictures : Box → List (List Paint) → Type 0
AllPictures area [] = Unit
AllPictures area (ps ∷ pictures) = AllInBox area ps × AllPictures area pictures

-- A text bar after a call that is shown.
record AfterCall (c : BarCall) (tb tb' : Textbar) (ps : List Paint) : Type 0 where
  call : tboot_ui_textbar c tb ≡ (tb', some ps)
  area : area_of tb' ≡ area_of tb
  fits : FitsBar tb'.bar
  paintable : Paintable tb'
  line : tb'.line ≡ some (call_line c)
  percent : tb'.bar.percent ≡ c.percent
  inside : AllInBox (area_of tb) ps
  frame : frame_of tb' ≡ frame_of tb
  depicts : Depicts c tb.bar.percent (frame_of tb) ps

same_call :
    (c : BarCall) (tb : Textbar)
    → FitsBar tb.bar
    → Paintable tb
    → shown_percent c.percent ≡ true
    → same_percent c.percent tb.bar.percent ≡ true
    → let tb' = record tb { line = some (call_line c) } in
      AfterCall c tb tb' (paint_line tb' (call_line c) true)
unfolding tboot_ui_textbar show_line textbar_refresh
same_call c tb fits h shown same = record {
  call = rw (shown, same) refl;
  area = refl;
  fits = fits;
  paintable = h;
  line = refl;
  percent = sym (same_percent-eq c.percent tb.bar.percent same);
  inside = paint_line-AllInBox (record tb { line = some (call_line c) }) (call_line c) true fits h;
  frame = refl;
  depicts = same-Depicts c tb (same_percent-eq c.percent tb.bar.percent same);
}

same_percent-neq : (p q : ℤ) → same_percent p q ≡ false → p ≢ q
unfolding same_percent
same_percent-neq (pos p) (pos q) h e = ground arith
same_percent-neq (negsuc p) (negsuc q) h e = ground arith
same_percent-neq (pos p) (negsuc q) h e = cc e
same_percent-neq (negsuc p) (pos q) h e = cc e

other_call :
    (c : BarCall) (tb : Textbar)
    → Paintable tb
    → shown_percent c.percent ≡ true
    → same_percent c.percent tb.bar.percent ≡ false
    → let tb' = record tb { line = some (call_line c); bar = set_percent c.percent tb.bar } in
      AfterCall c tb tb' (paint_line tb' (call_line c) false)
unfolding tboot_ui_textbar show_line textbar_refresh
other_call c tb h shown other =
    let tb' = record tb { line = some (call_line c); bar = set_percent c.percent tb.bar } in
    let fits = set_percent-FitsBar c.percent tb.bar shown in
    let room = set_percent-Paintable c.percent tb (some (call_line c)) h in
    record {
      call = rw (shown, other) refl;
      area = refl;
      fits = fits;
      paintable = room;
      line = refl;
      percent = set_percent-percent c.percent tb.bar;
      inside = paint_line-AllInBox tb' (call_line c) false fits room;
      frame = set_percent-frame c.percent (call_line c) tb;
      depicts = other-Depicts c tb (same_percent-neq c.percent tb.bar.percent other);
    }

after_call :
    (c : BarCall) (tb : Textbar)
    → FitsBar tb.bar
    → Paintable tb
    → shown_percent c.percent ≡ true
    → (tb' : Textbar) × (ps : List Paint) × AfterCall c tb tb' ps
after_call c tb fits h shown = elim (Bool-cases (same_percent c.percent tb.bar.percent)) [
  | inl same ↦ (_, _, same_call c tb fits h shown same)
  | inr other ↦ (_, _, other_call c tb h shown other)
]

-- A text bar after calls, and the pictures painted.
pub record AfterCalls (calls : List BarCall) (o : Option BarCall) (first tb tb' : Textbar)
    (pictures : List (List Paint)) : Type 0 where
  pub area : area_of tb' ≡ area_of tb
  pub fits : FitsBar tb'.bar
  pub paintable : Paintable tb'
  pub shows : ShowsCall (last_shown calls o) first tb'
  pub inside : AllPictures (area_of tb) pictures
  pub depicted : Depicted calls tb.bar.percent (frame_of tb) pictures

not_shown :
    (c : BarCall) (tb : Textbar)
    → shown_percent c.percent ≡ false
    → tboot_ui_textbar c tb ≡ (tb, none)
unfolding tboot_ui_textbar
not_shown c tb hidden = rw hidden refl

move_pictures :
    (a b : Box) (pictures : List (List Paint))
    → a ≡ b
    → AllPictures a pictures
    → AllPictures b pictures
move_pictures a b pictures e h = subst (λ area. AllPictures area pictures) e h

move-Depicted :
    (calls : List BarCall) (tb1 tb : Textbar) (p : ℤ) (pictures : List (List Paint))
    → tb1.bar.percent ≡ p
    → frame_of tb1 ≡ frame_of tb
    → Depicted calls tb1.bar.percent (frame_of tb1) pictures
    → Depicted calls p (frame_of tb) pictures
move-Depicted calls tb1 tb p pictures e1 e2 h =
    subst (λ (frame : Textbar). Depicted calls p frame pictures) e2
      (subst (λ (at : ℤ). Depicted calls at (frame_of tb1) pictures) e1 h)

calls_from :
    (calls : List BarCall) (o : Option BarCall) (first tb : Textbar)
    → FitsBar tb.bar
    → Paintable tb
    → ShowsCall o first tb
    → (tb' : Textbar) × (pictures : List (List Paint)) × (textbar_run calls tb ≡ (tb', pictures))
      × AfterCalls calls o first tb tb' pictures
unfolding textbar_run
calls_from [] o first tb fits h shows = (
  tb,
  [],
  refl,
  record { area = refl; fits = fits; paintable = h; shows = shows; inside = tt; depicted = refl },
)
calls_from (c ∷ calls) o first tb fits h shows = elim (Bool-cases (shown_percent c.percent)) [
  | inl shown ↦
      let (tb1, ps, one) = after_call c tb fits h shown in
      let (tb', pictures, ran, rest) =
        calls_from calls (some c) first tb1 one.fits one.paintable (one.line, one.percent) in
      (
        tb',
        ps ∷ pictures,
        ap (λ (r : Painted). add_picture r.1 (textbar_run calls r.0)) one.call
            ∙ ap (add_picture (some ps)) ran,
        record {
          area = rest.area ∙ one.area;
          fits = rest.fits;
          paintable = rest.paintable;
          shows = rw shown (rest.shows);
          inside =
              (one.inside, move_pictures (area_of tb1) (area_of tb) pictures one.area rest.inside);
          depicted = inl (
            shown,
            ps,
            pictures,
            refl,
            one.depicts,
            move-Depicted calls tb1 tb c.percent pictures one.percent one.frame rest.depicted,
          );
        },
      )
  | inr hidden ↦
      let (tb', pictures, ran, rest) = calls_from calls o first tb fits h shows in
      (
        tb',
        pictures,
        ap (λ (r : Painted). add_picture r.1 (textbar_run calls r.0)) (not_shown c tb hidden)
            ∙ ap (add_picture none) ran,
        record {
          area = rest.area;
          fits = rest.fits;
          paintable = rest.paintable;
          shows = rw hidden (rest.shows);
          inside = rest.inside;
          depicted = inr (hidden, rest.depicted);
        },
      )
]

-- Whatever percents are passed, the text bar shows the text and the percent of the last call whose
-- percent is one of -100 to 100 or BAR_BOUNCE, and is as at first if there is none; the flags of the
-- bar fit its percent; each such call has one picture, with its text and, where the percent changes,
-- its part of the bar; and every rectangle painted on the way lies in the text bar, if the bar does
-- and has room inside its border, a progress with a width of at least 1.
pub textbar_run-AfterCalls :
    (calls : List BarCall) (tb : Textbar)
    → FitsBar tb.bar
    → Paintable tb
    → (tb' : Textbar) × (pictures : List (List Paint)) × (textbar_run calls tb ≡ (tb', pictures))
      × AfterCalls calls none tb tb tb' pictures
textbar_run-AfterCalls calls tb fits h = calls_from calls none tb tb fits h refl
