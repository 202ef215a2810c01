-- ===== src/Ui/Components/Items.antt =====
-- The items of the menu of src/tboot_ui.c.
use tboot.Base.{
  ℕ, ◌<◌, ◌≡◌, refl, ap, inl, inr, true, false, none, some, List, [], ◌∷◌, arith, Text, codes,
  length, ltb, ◌==◌, if◌then◌else◌, lt→ltb, ==_iff, Bool-cases,
}
use tboot.Base.Int.{ℤ, pos, negsuc, is_zero}
use tboot.Minui.Menu.{Menu, MenuItem, menu_newitem}
use tboot.Ui.Components.{item_line, first_items, menu_loop, tboot_ui_menu, with_items}

-- The item with a name and a handler, as it stands in a menu.
abbrev pub item_of : {H : Type 0} → ℕ → Text → H → MenuItem H
item_of color name handler = record { line = item_line color name; handler = some handler }

room_for : (n max : ℕ) → n < max → (n == max) ≡ false
room_for n max h = ground arith

module _ {H : Type 0} (poweroff reboot reboot_preos : H) where
  -- The three items of a menu in their order.
  abbrev pub three_items : ℕ → List (MenuItem H)
  three_items color =
      item_of color (codes "Power off") poweroff
      ∷ item_of color (codes "Reboot to normal OS") reboot
      ∷ item_of color (codes "Reboot to Pre-OS (why?)") reboot_preos
      ∷ []

  menu_full :
      (menu : Menu H)
      → 2 < menu.max_items
      → menu_loop (first_items poweroff reboot reboot_preos) (pos 0) (record menu { items = [] })
        ≡ (pos 0, record menu { items = three_items menu.color })
  unfolding menu_loop menu_newitem
  menu_full menu room =
      rw
        (
          lt→ltb 0 menu.max_items (omega arith),
          room_for 0 menu.max_items (omega arith),
          lt→ltb 1 menu.max_items (omega arith),
          room_for 1 menu.max_items (omega arith),
          lt→ltb 2 menu.max_items (omega arith),
          room_for 2 menu.max_items (omega arith),
        )
        refl

  menu_garbage :
      (ret : ℤ) (menu : Menu H)
      → is_zero ret ≡ false
      → (menu_loop (first_items poweroff reboot reboot_preos) ret menu).0 ≡ ret
  unfolding menu_loop
  menu_garbage ret menu garbage = elim (Bool-cases (ltb (length menu.items) menu.max_items)) [
    | inl room ↦ rw (room, garbage) refl
    | inr full ↦ rw full refl
  ]

  zero_is : (ret : ℤ) → is_zero ret ≡ true → ret ≡ pos 0
  zero_is (pos n) h = ap pos ((==_iff n 0).0 h)
  zero_is (negsuc n) h = absurd (cc h)

  -- What is in the memory of `ret` decides: at 0 an empty menu with room gets its three items, and
  -- the first is selected; at all else the user interface is given up.
  pub tboot_ui_menu_lem :
      (ret : ℤ) (menu : Menu H)
      → 2 < menu.max_items
      → with_items (
          tboot_ui_menu ret (first_items poweroff reboot reboot_preos) (record menu { items = [] }))
        ≡ (if is_zero ret
            then some (record menu { items = three_items menu.color; selected = 0 })
            else none)
  unfolding with_items tboot_ui_menu
  tboot_ui_menu_lem ret menu room = elim (Bool-cases (is_zero ret)) [
    | inl zero_there ↦ rw (zero_is ret zero_there, menu_full menu room) refl
    | inr garbage ↦ rw (menu_garbage ret (record menu { items = [] }) garbage, garbage) refl
  ]
