-- ===== src/Ui.antt =====
-- The user interface of src/tboot_ui.c: its lines of text.
pub mod Log
pub mod Textbar
pub mod Settings
pub mod Layout
pub mod Components
pub mod Server
pub mod Tests
use tboot.Base.{ℕ, ◌-◌, Option, none, some, List, [], ◌∷◌, Text, take}
use tboot.Minui.Textarea.{Textarea, Break, Drawn, textarea_putline, textarea_refresh}

-- LINE_LEN_INCHAR
abbrev pub line_len_inchar : ℕ
line_len_inchar = 256

-- vsnprintf() into a line of that size.
abbrev pub formatted : Text → Text
formatted s = take (line_len_inchar - 1) s

-- A text in a color, as tboot_ui_info(), tboot_ui_warn(), tboot_ui_error() and tboot_ui_sysinfo()
-- send it to a text area.
pub record Message : Type 0 where
  pub color : ℕ
  pub text : Text

module _ (breaks : Text → ℕ → Break) where
  refreshed : Option Textarea → Option (Textarea × Drawn)
  refreshed none = none
  refreshed (some ta) = some (ta, textarea_refresh ta)

  -- `tboot_ui_textline`, with what the refresh draws; `none`: out of fuel.
  unfoldable pub tboot_ui_textline : Message → Textarea → Option (Textarea × Drawn)
  unfolding refreshed
  tboot_ui_textline m ta = refreshed (textarea_putline breaks m.color (formatted m.text) ta)

  -- One message after the other, from a screen on that may show anything.
  unfoldable pub textline_run : List Message → Textarea → Drawn → Option (Textarea × Drawn)
  unfolding tboot_ui_textline
  textline_run [] ta screen = some (ta, screen)
  textline_run (m ∷ ms) ta screen = elim (tboot_ui_textline m ta) [
    | none ↦ none
    | some (ta', screen') ↦ textline_run ms ta' screen'
  ]
