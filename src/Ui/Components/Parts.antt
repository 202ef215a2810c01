-- ===== src/Ui/Components/Parts.antt =====
-- The parts that `tboot_ui_adjust` of src/tboot_ui.c puts into the windows.
use tboot.Base.{
  ℕ, ◌+◌, ◌/◌, ◌≤◌, ◌<◌, ◌≡◌, refl, sym, ap, ◌∙◌, inl, inr, Bool, false, ◌||◌, none, some, [],
  arith, Text, ltb, ◌==◌, if◌then◌else◌, Bool-cases,
}
use mathlib.Core.Path.{subst}
use tboot.Base.{◌>>=◌}
use tboot.Base.Int.{ℤ, is_zero}
use tboot.Minui.{Window}
use tboot.Minui.Textarea.{Textarea, textarea_init, new_area}
use tboot.Minui.Textarea.Ring.{IsRing, new_area-IsRing}
use tboot.Minui.Menu.{Menu, new_menu, menu_init}
use tboot.Minui.Bar.{bar_init, textbar_init}
use tboot.Ui.Textbar.{color_fg, FitsBar, Paintable}
use tboot.Ui.Settings.{Settings}
use tboot.Ui.Layout.Stacked.{some_injective}
use tboot.Ui.Components.{
  color_bg, menu_hl_bg_color, first_items, with_items, tboot_ui_menu, make_textbar, make_menu,
}
use tboot.Ui.Components.Items.{three_items, tboot_ui_menu_lem}

module _ (settings : Settings) where
  pub textbar-Paintable :
      (win : Window)
      → 6 ≤ win.width
      → 2 ≤ settings.progress_bar_height
      → settings.progress_bar_height ≤ win.height
      → FitsBar (make_textbar settings win).bar × Paintable (make_textbar settings win)
  unfolding make_textbar bar_init textbar_init
  textbar-Paintable win wide high fits = (
    ((λ _. (refl, refl)), λ h. absurd (omega (arith, h))),
    ((omega arith, omega arith, omega arith, omega arith), (omega arith, omega arith)),
  )

module _ (heap : ℕ → Text) where
  area_sound :
      (win : Window) (x y width height : ℕ) (top_to_down lifo : Bool)
      → (new_area heap win x y width height top_to_down lifo).fault ≡ false
  unfolding new_area
  area_sound win x y width height top_to_down lifo = refl

  pub area_made :
      (win : Window) (x y width height : ℕ) (top_to_down lifo : Bool) (ta : Textarea)
      → textarea_init heap win x y width height top_to_down lifo ≡ some ta
      → 0 < height / win.font_height
      → IsRing (width / win.font_width + 1) ta × (ta.fault ≡ false)
  unfolding textarea_init
  area_made win x y width height top_to_down lifo ta e rows =
      elim (Bool-cases (width == 0 || ltb width win.font_height)) [
        | inl none_made ↦ absurd (
            cc (
              e,
              ap
                  (λ b.
                    if b then none else some (new_area heap win x y width height top_to_down lifo))
                  none_made,
            ))
        | inr fits ↦
            let same : new_area heap win x y width height top_to_down lifo ≡ ta = some_injective (
              sym (
                ap
                  (λ b.
                    if b then none else some (new_area heap win x y width height top_to_down lifo))
                  fits)
              ∙ e) in
            subst (λ t. IsRing (width / win.font_width + 1) t × (t.fault ≡ false)) same
              (
                new_area-IsRing heap win x y width height top_to_down lifo rows,
                area_sound win x y width height top_to_down lifo,
              )
      ]

module _ {H : Type 0} (fonts : ℕ → ℕ × ℕ) (settings : Settings) (screen_width screen_height : ℕ)
    (heap : ℕ → Text) (poweroff reboot reboot_preos : H) where
  items_made :
      (ret : ℤ) (start menu : Menu H)
      → with_items (
          tboot_ui_menu ret
            (first_items poweroff reboot reboot_preos)
            (record start { items = [] }))
        ≡ some menu
      → 2 < start.max_items
      → (menu.items ≡ three_items poweroff reboot reboot_preos start.color)
        × (menu.max_items ≡ start.max_items)
        × (menu.selected ≡ 0)
  items_made ret start menu e room =
      let lem = tboot_ui_menu_lem poweroff reboot reboot_preos ret start room in
      let three : Menu H = record start {
        items = three_items poweroff reboot reboot_preos start.color;
        selected = 0;
      } in
      elim (Bool-cases (is_zero ret)) [
        | inl zero_there ↦
            let same : three ≡ menu =
              some_injective
                (sym (lem ∙ ap (λ b. if b then some three else none) zero_there) ∙ e) in
            (
              ap (λ (m : Menu H). m.items) (sym same),
              ap (λ (m : Menu H). m.max_items) (sym same),
              ap (λ (m : Menu H). m.selected) (sym same),
            )
        | inr garbage ↦
            absurd (cc (sym (lem ∙ ap (λ b. if b then some three else none) garbage) ∙ e))
      ]

  pub menu_made :
      (win : Window) (ret : ℤ) (menu : Menu H)
      → make_menu fonts settings screen_width screen_height heap ret
          (first_items poweroff reboot reboot_preos)
          win
        ≡ some menu
      → 2 < win.height / win.font_height
      → (menu.items ≡ three_items poweroff reboot reboot_preos color_fg)
        × (menu.max_items ≡ win.height / win.font_height)
        × (menu.selected ≡ 0)
  unfolding make_menu menu_init
  menu_made win ret menu e room =
      let start : Menu H =
        new_menu win 0 win.font_height win.width win.height color_fg menu_hl_bg_color color_bg in
      let items = first_items poweroff reboot reboot_preos in
      let fill = λ (b : Bool).
        (if b then none else some start) >>= λ m. with_items (tboot_ui_menu ret items m) in
      elim (Bool-cases (win.width == 0 || win.height == 0)) [
        | inl no_size ↦ absurd (cc (sym (ap fill no_size) ∙ e))
        | inr sized ↦ items_made ret start menu (sym (ap fill sized) ∙ e) room
      ]
