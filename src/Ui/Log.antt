-- ===== src/Ui/Log.antt =====
-- The messages that src/tboot_ui.c sends to a text area, and what is seen of them.
use tboot.Base.{
  ℕ, ◌≡◌, refl, sym, ap, ◌∙◌, ◌≢◌, ◌⊎◌, inl, inr, false, some, List, [], ◌∷◌, ◌++◌, map, Text,
}
use mathlib.Core.List.{append-nil}
use tboot.Minui.{Draw, set_color, fill_rectangle, flip, TextLine}
use tboot.Minui.Textarea.{Textarea, Break, Drawn, drawn, first_y}
use tboot.Minui.Textarea.Walk.{draw_rows}
use tboot.Minui.Textarea.Ring.{IsRing, oldest_first}
use tboot.Minui.Textarea.Shown.{pushed, pushed-append, draw_order, textarea_refresh-draws}
use tboot.Minui.Textarea.Log.{
  BreakLaw, HasRoom, joined, shown_line, SameArea, PutText, textarea_putline-PutText,
}
use tboot.Ui.{Message, formatted, refreshed, tboot_ui_textline, textline_run}

-- What the messages are in the log: each cut into pieces, in order.
abbrev pub Logged : ℕ → List Message → List TextLine → Type 0
Logged len [] log = log ≡ []
Logged len (m ∷ ms) log =
    (pieces : List Text) × (rest : List TextLine) × (joined pieces ≡ formatted m.text)
    × (log ≡ map (shown_line len m.color) pieces ++ rest)
    × Logged len ms rest

-- An area that shows all its lines.
abbrev pub picture : Textarea → List Draw
picture ta =
    set_color ta.win.color
      ∷ fill_rectangle ta.x ta.y ta.width ta.height
      ∷ draw_rows ta (draw_order ta) (first_y ta)
    ++ flip ∷ []

abbrev pub NonEmpty : List Message → Type 0
NonEmpty [] = Unit
NonEmpty (m ∷ ms) = (m.text ≢ []) × NonEmpty ms

-- An area and its screen after messages.
pub record Shows (len : ℕ) (ms : List Message) (ta ta' : Textarea) (screen' : Drawn) : Type 0 where
  pub ring : IsRing len ta'
  pub sound : ta'.fault ≡ false
  pub area : SameArea ta ta'
  pub log : List TextLine
  pub logged : Logged len ms log
  pub lines : oldest_first ta' ≡ pushed (oldest_first ta) log
  pub screen : screen' ≡ drawn (picture ta')

formatted_nonempty : (s : Text) → s ≢ [] → formatted s ≢ []
formatted_nonempty [] h e = h e
formatted_nonempty (c ∷ s) h e = cc e

same_trans : (a b c : Textarea) → SameArea a b → SameArea b c → SameArea a c
same_trans a b c h k =
    ap (λ (t : Textarea). record t { lines = a.lines; cur_line = a.cur_line; fault = a.fault }) k
    ∙ h

module _ (breaks : Text → ℕ → Break) (len : ℕ) (law : BreakLaw breaks)
    (room : HasRoom len breaks) where
  one_message :
      (m : Message) (ta : Textarea)
      → IsRing len ta
      → ta.fault ≡ false
      → m.text ≢ []
      → (ta' : Textarea) × (tboot_ui_textline breaks m ta ≡ some (ta', drawn (picture ta')))
        × PutText len m.color (formatted m.text) ta ta'
  unfolding tboot_ui_textline refreshed
  one_message m ta ring sound some_text =
      let (ta', done, put) =
        textarea_putline-PutText breaks len m.color law room (formatted m.text) ta ring sound in
      (
        ta',
        rw
            (
              done,
              textarea_refresh-draws len ta' put.ring
                  (λ _. put.written (inl (formatted_nonempty m.text some_text))),
            )
            refl,
        put,
      )

  run-Shows :
      (ms : List Message) (ta : Textarea) (screen : Drawn)
      → IsRing len ta
      → ta.fault ≡ false
      → NonEmpty ms
      → (ms ≢ []) ⊎ (screen ≡ drawn (picture ta))
      → (ta' : Textarea) × (screen' : Drawn) × (textline_run breaks ms ta screen
          ≡ some (ta', screen'))
        × Shows len ms ta ta' screen'
  unfolding textline_run
  run-Shows [] ta screen ring sound some_text (inl ne) = absurd (ne refl)
  run-Shows [] ta screen ring sound some_text (inr current) = (
    ta,
    screen,
    refl,
    record {
      ring = ring;
      sound = sound;
      area = refl;
      log = [];
      logged = refl;
      lines = sym (append-nil (oldest_first ta));
      screen = current;
    },
  )
  run-Shows (m ∷ ms) ta screen ring sound some_text shown =
      let (tb, done, put) = one_message m ta ring sound some_text.0 in
      let (ta', screen', ran, rest) =
        run-Shows ms tb (drawn (picture tb)) put.ring put.sound some_text.1 (inr refl) in
      (
        ta',
        screen',
        rw (done, textline_run) ran,
        record {
          ring = rest.ring;
          sound = rest.sound;
          area = same_trans ta tb ta' put.area rest.area;
          log = map (shown_line len m.color) put.pieces ++ rest.log;
          logged = (put.pieces, rest.log, put.whole, refl, rest.logged);
          lines =
              rest.lines
              ∙ ap (λ v. pushed v rest.log) put.log
              ∙ pushed-append (oldest_first ta) (map (shown_line len m.color) put.pieces) rest.log;
          screen = rest.screen;
        },
      )

  -- Messages with a text, one at least, are shown to the end whatever their number: each is cut into
  -- pieces, the area holds the last of all its old and new lines, as many as it has, and the screen
  -- shows these in the order of its flags, with no access outside its memory. What fits in the width
  -- is taken to have room in a line, and GetStringBreak() to obey its law.
  pub textline_run-Shows :
      (m : Message) (ms : List Message) (ta : Textarea) (screen : Drawn)
      → IsRing len ta
      → ta.fault ≡ false
      → NonEmpty (m ∷ ms)
      → (ta' : Textarea) × (screen' : Drawn) × (textline_run breaks (m ∷ ms) ta screen
          ≡ some (ta', screen'))
        × Shows len (m ∷ ms) ta ta' screen'
  textline_run-Shows m ms ta screen ring sound some_text =
      run-Shows (m ∷ ms) ta screen ring sound some_text (inl (λ e. cc e))
