-- ===== src/Minui/Menu/Keys.antt =====
-- The keys on a menu of src/libminui/minui.c.
use tboot.Base.{
  ℕ, suc, ◌+◌, ◌-◌, ◌%◌, ◌<◌, ◌≡◌, refl, sym, ap, ◌∙◌, ◌≢◌, false, Option, none, some, List, [],
  ◌∷◌, ◌++◌, arith, length, leb, ◌==◌, ==_iff,
}
use native.Mathlib.Nat.{mod-lt, mod-add-mod, add-mod_right, suc-mod}
use tboot.Base.Int.{ℤ, pos, negsuc, ◌+ℤ◌}
use tboot.Minui.{Draw, set_color, fill_rectangle, draw_string}
use tboot.Minui.Menu.{
  MenuItem, Menu, Selection, invalid, divides_by_zero, selects, select_index, menu_update,
  menu_refresh, draw_items,
}

pub data MenuKey : Type 0 where
  up down : MenuKey

-- tboot_ui_menu_up() and tboot_ui_menu_down()
abbrev pub key_step : MenuKey → ℤ
key_step up = negsuc 0
key_step down = pos 1

abbrev pub ups : List MenuKey → ℕ
ups [] = 0
ups (up ∷ keys) = suc (ups keys)
ups (down ∷ keys) = ups keys

abbrev pub downs : List MenuKey → ℕ
downs [] = 0
downs (up ∷ keys) = downs keys
downs (down ∷ keys) = suc (downs keys)

down_index : (s n : ℕ) → (pos s +ℤ pos 1) +ℤ pos n ≡ pos (s + 1 + n)
unfolding ◌+ℤ◌
down_index s n = ground arith

up_index : (s n : ℕ) → 0 < n → (pos s +ℤ negsuc 0) +ℤ pos n ≡ pos (s + n - 1)
unfolding ◌+ℤ◌
up_index s n h = ground arith

not_zero : (n : ℕ) → 0 < n → (n == 0) ≡ false
not_zero n h = ground arith

abbrev pub moved : MenuKey → ℕ → ℕ → ℕ
moved up s n = (s + n - 1) % n
moved down s n = (s + 1 + n) % n

not_equal : (i s : ℕ) → i ≢ s → (i == s) ≡ false
not_equal i s h = ground arith

pub below : (m s : ℕ) → s < m → leb m s ≡ false
below m s h = ground arith

pub moved-lt : (key : MenuKey) (s n : ℕ) → 0 < n → moved key s n < n
moved-lt up s n h = mod-lt (s + n - 1) h
moved-lt down s n h = mod-lt (s + 1 + n) h

-- A key and `k` more places down, against `j` places.
moved_up-mod : (s n k : ℕ) → 0 < n → (moved up s n + suc k) % n ≡ (s + k) % n
moved_up-mod s n k h =
    mod-add-mod (s + n - 1) n (suc k) ∙ ap (λ t. t % n) (omega arith) ∙ add-mod_right (s + k) n

moved_down-mod : (s n k : ℕ) → (moved down s n + k) % n ≡ (s + suc k) % n
moved_down-mod s n k =
    mod-add-mod (s + 1 + n) n k ∙ ap (λ t. t % n) (omega arith) ∙ add-mod_right (s + suc k) n

one_more : (a b n : ℕ) → a % n ≡ b % n → suc a % n ≡ suc b % n
one_more a b n h = suc-mod a n ∙ ap (λ t. suc t % n) h ∙ sym (suc-mod b n)

pub keys_on :
    (key : MenuKey) (keys : List MenuKey) (s s' n : ℕ)
    → 0 < n
    → (s' + ups keys) % n ≡ (moved key s n + downs keys) % n
    → (s' + ups (key ∷ keys)) % n ≡ (s + downs (key ∷ keys)) % n
keys_on up keys s s' n h e =
    ap (λ t. t % n) (omega arith)
    ∙ one_more (s' + ups keys) (moved up s n + downs keys) n e
    ∙ ap (λ t. t % n) (omega arith)
    ∙ moved_up-mod s n (downs keys) h
keys_on down keys s s' n h e = e ∙ moved_down-mod s n (downs keys)

module _ {H : Type 0} where
  unfoldable pub after_selection : Selection H → List Draw → Option (Menu H × List Draw)
  after_selection invalid screen = none
  after_selection divides_by_zero screen = none
  after_selection (selects menu screen') screen = some (menu, screen')

  -- Keys one after the other, from a menu and what is drawn of it; `none`: a selection has failed.
  unfoldable pub menu_keys : List MenuKey → Menu H → List Draw → Option (Menu H × List Draw)
  unfolding after_selection
  menu_keys [] menu screen = some (menu, screen)
  menu_keys (key ∷ keys) menu screen =
      elim (after_selection (menu_update menu (key_step key)) screen) [
        | none ↦ none
        | some (menu', screen') ↦ menu_keys keys menu' screen'
      ]

  abbrev Selectable : Menu H → Type 0
  Selectable menu = menu.selected < length menu.items

  pub update-eq :
      (key : MenuKey) (menu : Menu H)
      → 0 < length menu.items
      → let menu' = record menu { selected = moved key menu.selected (length menu.items) } in
        menu_update menu (key_step key) ≡ selects menu' (menu_refresh menu')
  unfolding menu_update select_index
  update-eq up menu some_item =
      rw
        (
          up_index menu.selected (length menu.items) some_item,
          select_index,
          not_zero (length menu.items) some_item,
        )
        refl
  update-eq down menu some_item =
      rw
        (
          down_index menu.selected (length menu.items),
          select_index,
          not_zero (length menu.items) some_item,
        )
        refl

  -- Items that are not high-lighted, below one another.
  abbrev pub plain_items : Menu H → ℕ → List (MenuItem H) → List Draw
  plain_items menu y [] = []
  plain_items menu y (item ∷ items) =
      set_color item.line.color
      ∷ draw_string item.line.text 0 y
      ∷ plain_items menu (y + menu.win.font_height) items

  -- The place below some items.
  abbrev pub below_items : Menu H → ℕ → List (MenuItem H) → ℕ
  below_items menu y [] = y
  below_items menu y (item ∷ items) = below_items menu (y + menu.win.font_height) items

  -- A menu with one item high-lighted, between others.
  abbrev pub lit_between :
      Menu H → ℕ → List (MenuItem H) → MenuItem H → List (MenuItem H) → List Draw
  lit_between menu y before item after =
      let at = below_items menu y before in
      plain_items menu y before
      ++ set_color menu.hl_bg_color
        ∷ fill_rectangle menu.x at menu.width menu.win.font_height
        ∷ set_color menu.hl_fg_color
        ∷ draw_string item.line.text 0 at
        ∷ plain_items menu (at + menu.win.font_height) after

  draw_items-after :
      (menu : Menu H) (i y : ℕ) (items : List (MenuItem H))
      → menu.selected < i
      → draw_items menu i y items ≡ plain_items menu y items
  unfolding draw_items
  draw_items-after menu i y [] h = refl
  draw_items-after menu i y (item ∷ items) h =
      rw
        (
          not_equal i menu.selected (omega arith),
          draw_items-after menu (suc i) (y + menu.win.font_height) items (omega arith),
        )
        refl

  pub draw_items-lit :
      (menu : Menu H) (i y : ℕ) (before : List (MenuItem H)) (item : MenuItem H)
      (after : List (MenuItem H))
      → i + length before ≡ menu.selected
      → draw_items menu i y (before ++ item ∷ after) ≡ lit_between menu y before item after
  unfolding draw_items
  draw_items-lit menu i y [] item after h =
      rw
        (
          (==_iff i menu.selected).1 (omega arith),
          draw_items-after menu (suc i) (y + menu.win.font_height) after (omega arith),
        )
        refl
  draw_items-lit menu i y (b ∷ before) item after h =
      rw
        (
          not_equal i menu.selected (omega arith),
          draw_items-lit menu (suc i) (y + menu.win.font_height) before item after (omega arith),
        )
        refl
