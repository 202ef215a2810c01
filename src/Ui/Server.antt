-- ===== src/Ui/Server.antt =====
-- The calls of src/fastboot.c and src/aboot.c into src/tboot_ui.c, on the components of the user
-- interface: the macros of src/tboot_ui.h.
use tboot.Base.{
  ℕ, ◌≡◌, refl, ap, ◌∙◌, Option, none, some, List, [], ◌∷◌, ◌++◌, Text, ◌/◌, ◌+◌, inl, inr,
  Option-cases,
}
use tboot.Base.Int.{ℤ, pos}
use tboot.Fastboot.{UiCall, textbar, hidebar, ui_error, ui_info, ui_warn, bouncebar}
use tboot.Minui.Textarea.{Textarea, Break, Drawn, drawn}
use tboot.Minui.Textarea.Log.{BreakLaw, HasRoom}
use tboot.Minui.Bar.{Textbar, Paint, bar_bounce}
use tboot.Ui.{Message, tboot_ui_textline, textline_run}
use tboot.Ui.Log.{Shows, NonEmpty, textline_run-Shows}
use tboot.Ui.Textbar.{BarCall, color_fg, add_picture, tboot_ui_textbar, textbar_run}
use tboot.Ui.Settings.{Settings}
use tboot.Ui.Components.{Components, first_items, tboot_ui_adjust}
use tboot.Ui.Components.Rows.{RoomGiven}
use tboot.Ui.Components.Ready.{tboot_ui_adjust-Ready}
use tboot.Ui.Textbar.Calls.{AfterCalls, textbar_run-AfterCalls}

-- COLOR_WARN, COLOR_ERROR; COLOR_INFO is COLOR_FG.
abbrev pub color_warn : ℕ
color_warn = 0xf793_1eff

abbrev pub color_error : ℕ
color_error = 0xf424_14ff

-- What a call comes to: a call of tboot_ui_textbar(), or a line for the log.
pub data UiStep : Type 0 where
  bar_step : BarCall → UiStep
  log_step : Message → UiStep

abbrev hide : UiStep
hide = bar_step (record { percent = pos 0; text = [] })

-- The components that the calls change, and what the log has on its screen.
pub record Board : Type 0 where
  pub tb : Textbar
  pub ta_log : Textarea
  pub log_screen : Drawn

-- The text that the caller formats with a percent, "Downloading...%d%%" or "Flashing...%d%%", is not
-- among what the calls of the model hold: it is `label`.
module _ (label : ℕ → Text) where
  unfoldable pub ui_steps : UiCall → List UiStep
  ui_steps (textbar percent) =
      bar_step (record { percent = pos percent; text = label percent }) ∷ []
  ui_steps hidebar = hide ∷ []
  ui_steps (ui_error text) = hide ∷ log_step (record { color = color_error; text = text }) ∷ []
  ui_steps (ui_info text) = hide ∷ log_step (record { color = color_fg; text = text }) ∷ []
  ui_steps (ui_warn text) = log_step (record { color = color_warn; text = text }) ∷ []
  ui_steps (bouncebar text) = bar_step (record { percent = pos bar_bounce; text = text }) ∷ []

  unfoldable pub all_steps : List UiCall → List UiStep
  unfolding ui_steps
  all_steps [] = []
  all_steps (call ∷ calls) = ui_steps call ++ all_steps calls

abbrev pub bar_calls : List UiStep → List BarCall
bar_calls [] = []
bar_calls (bar_step c ∷ steps) = c ∷ bar_calls steps
bar_calls (log_step m ∷ steps) = bar_calls steps

abbrev pub log_messages : List UiStep → List Message
log_messages [] = []
log_messages (bar_step c ∷ steps) = log_messages steps
log_messages (log_step m ∷ steps) = m ∷ log_messages steps

abbrev pub Pictured : Type 0
Pictured = Board × List (List Paint)

module _ (breaks : Text → ℕ → Break) where
  add_to : Option (List Paint) → Option Pictured → Option Pictured
  add_to o none = none
  add_to none (some (b, pictures)) = some (b, pictures)
  add_to (some ps) (some (b, pictures)) = some (b, ps ∷ pictures)

  -- The steps in their order, with the pictures of the text bar; `none`: out of fuel.
  unfoldable pub ui_run : List UiStep → Board → Option Pictured
  unfolding add_to
  ui_run [] b = some (b, [])
  ui_run (bar_step c ∷ steps) b =
      let r = tboot_ui_textbar c b.tb in add_to r.1 (ui_run steps (record b { tb = r.0 }))
  ui_run (log_step m ∷ steps) b = elim (tboot_ui_textline breaks m b.ta_log) [
    | none ↦ none
    | some (ta', screen') ↦ ui_run steps (record b { ta_log = ta'; log_screen = screen' })
  ]

  -- The text bar and the log at their ends, put together.
  together : Textbar × List (List Paint) → Option (Textarea × Drawn) → Option Pictured
  together r none = none
  together (tb, pictures) (some (ta, screen)) =
      some (record { tb = tb; ta_log = ta; log_screen = screen }, pictures)

  add_to-together :
      (o : Option (List Paint)) (r : Textbar × List (List Paint)) (log : Option (Textarea × Drawn))
      → add_to o (together r log) ≡ together (add_picture o r) log
  unfolding add_to together
  add_to-together o (tb, pictures) none = refl
  add_to-together none (tb, pictures) (some (ta, screen)) = refl
  add_to-together (some ps) (tb, pictures) (some (ta, screen)) = refl

  abbrev log_rest : List Message → Option (Textarea × Drawn) → Option (Textarea × Drawn)
  log_rest ms none = none
  log_rest ms (some (ta, screen)) = textline_run breaks ms ta screen

  -- The bar and the log do not meet: any order of their steps ends as each by itself.
  ui_run-together :
      (steps : List UiStep) (b : Board)
      → ui_run steps b
        ≡ together
            (textbar_run (bar_calls steps) b.tb)
            (textline_run breaks (log_messages steps) b.ta_log b.log_screen)
  unfolding ui_run together textbar_run textline_run
  ui_run-together [] b = refl
  ui_run-together (bar_step c ∷ steps) b =
      let r = tboot_ui_textbar c b.tb in
      let log = textline_run breaks (log_messages steps) b.ta_log b.log_screen in
      ap (add_to r.1) (ui_run-together steps (record b { tb = r.0 }))
      ∙ add_to-together r.1 (textbar_run (bar_calls steps) r.0) log
  ui_run-together (log_step m ∷ steps) b =
      elim (Option-cases (tboot_ui_textline breaks m b.ta_log)) [
        | inl e ↦ rw (ui_run, textline_run, e) refl
        | inr ((ta', screen'), e) ↦
            rw (ui_run, textline_run, e)
              (ui_run-together steps (record b { ta_log = ta'; log_screen = screen' }))
      ]

module _ {H : Type 0} (fonts : ℕ → ℕ × ℕ) (settings : Settings) (screen_width screen_height : ℕ)
    (heap : ℕ → Text) (poweroff reboot reboot_preos : H) (breaks : Text → ℕ → Break)
    (law : BreakLaw breaks) (label : ℕ → Text) where
  -- If the user interface comes up with room for its parts, everything that the server then has to
  -- say is shown, however the calls for the bar and for the log alternate. Each call for the bar with
  -- a valid percent, and no other, makes one picture: its text on a cleaned ground and, where the
  -- percent is a new one, the bar: none at 0, the share of a percent that fills, what is left without
  -- it of one that empties out, and the thread of the bounce bar at BAR_BOUNCE. No picture paints
  -- outside the text bar, which holds the last such call at the end. The log shows the messages, each
  -- with a text and one at least, cut into lines, as many as it has. Room for its parts: every font
  -- has a height; the height configured for the info font is at most twice that of the font made for
  -- it; the log window is at least one line high; the bar window is at least 6 wide, the progress bar
  -- at least 2 high, and the font, separator and bar of that window add up to less than 2 ^ 31.
  -- GetStringBreak() is taken to obey its law, and what fits in the width to have room in a line.
  pub ui_run-Shows :
      (ret : ℤ) (c : Components H) (calls : List UiCall) (m : Message) (ms : List Message)
      → RoomGiven fonts settings c.windows
      → tboot_ui_adjust fonts settings screen_width screen_height heap ret
          (first_items poweroff reboot reboot_preos)
        ≡ some c
      → HasRoom (c.windows.log.width / c.windows.log.font_width + 1) breaks
      → log_messages (all_steps label calls) ≡ m ∷ ms
      → NonEmpty (m ∷ ms)
      → (b' : Board) × (pictures : List (List Paint)) × (ui_run breaks
            (all_steps label calls)
            (record { tb = c.tb; ta_log = c.ta_log; log_screen = drawn [] })
          ≡ some (b', pictures))
        × AfterCalls (bar_calls (all_steps label calls)) none c.tb c.tb b'.tb pictures
        × Shows
            (c.windows.log.width / c.windows.log.font_width + 1)
            (m ∷ ms)
            c.ta_log
            b'.ta_log
            b'.log_screen
  unfolding together
  ui_run-Shows ret c calls m ms room made fits messages some_text =
      let ready =
        tboot_ui_adjust-Ready fonts settings screen_width screen_height heap poweroff reboot
          reboot_preos ret c room made in
      let steps = all_steps label calls in
      let (tb', pictures, bar, after) =
        textbar_run-AfterCalls (bar_calls steps) c.tb ready.bar_fits ready.bar_inside in
      let (ta', screen', log, shows) =
        textline_run-Shows breaks _ law fits m ms c.ta_log (drawn []) ready.log_ring ready.sound.1
          some_text in
      (
        record { tb = tb'; ta_log = ta'; log_screen = screen' },
        pictures,
        ui_run-together breaks steps
              (record { tb = c.tb; ta_log = c.ta_log; log_screen = drawn [] })
            ∙ rw (bar, messages, log) refl,
        after,
        shows,
      )
