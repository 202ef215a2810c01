-- ===== src/Minui/Menu.antt =====
-- The menu of src/libminui/minui.c.
pub mod Keys
pub mod Choice
use tboot.Base.{
  ℕ, suc, ◌+◌, ◌-◌, ◌/◌, ◌%◌, ◌||◌, Option, none, some, List, [], ◌∷◌, ◌++◌, length, get_elem?, leb,
  ◌==◌, if◌then◌else◌,
}
use tboot.Base.Int.{ℤ, pos, negsuc, ◌+ℤ◌}
use tboot.Minui.{Draw, set_color, fill_rectangle, draw_string, flip, Window, TextLine, is_empty}

-- `struct menu_item`; a handler of type `H` may be missing.
pub record MenuItem (H : Type 0) : Type 0 where
  pub line : TextLine
  pub handler : Option H

-- `struct menu`: `items` are the slots that are filled, so that `nr_items` is their number.
pub record Menu (H : Type 0) : Type 0 where
  pub win : Window
  pub items : List (MenuItem H)
  pub max_items : ℕ
  pub color : ℕ
  pub hl_fg_color : ℕ
  pub hl_bg_color : ℕ
  pub selected : ℕ
  pub x : ℕ
  pub y : ℕ
  pub width : ℕ
  pub height : ℕ

-- What a selection does: it returns -1, divides by a number of items that is 0, or selects an item
-- and draws the menu.
pub data Selection (H : Type 0) : Type 0 where
  invalid divides_by_zero : Selection H
  selects : Menu H → List Draw → Selection H

-- -1, a slot that is not filled, or the call of a handler.
pub data Action (H : Type 0) : Type 0 where
  refused crashes : Action H
  calls : H → Action H

module _ {H : Type 0} where
  abbrev pub new_menu : Window → ℕ → ℕ → ℕ → ℕ → ℕ → ℕ → ℕ → Menu H
  new_menu win x y width height color hl_bg_color hl_fg_color = record {
    win = win;
    items = [];
    max_items = height / win.font_height;
    color = color;
    hl_fg_color = hl_fg_color;
    hl_bg_color = hl_bg_color;
    selected = 0;
    x = x;
    y = y;
    width = width;
    height = height;
  }

  unfoldable pub menu_init : Window → ℕ → ℕ → ℕ → ℕ → ℕ → ℕ → ℕ → Option (Menu H)
  menu_init win x y width height color hl_bg_color hl_fg_color =
      if width == 0 || height == 0
      then none
      else some (new_menu win x y width height color hl_bg_color hl_fg_color)

  -- `none`: -1.
  unfoldable pub menu_newitem : TextLine → Option H → Menu H → Option (Menu H)
  menu_newitem line handler menu =
      if is_empty line.text || length menu.items == menu.max_items
      then none
      else some
          (record menu { items = menu.items ++ record { line = line; handler = handler } ∷ [] })

  unfoldable pub item_color : Menu H → ℕ → MenuItem H → ℕ
  item_color menu i item = if i == menu.selected then menu.hl_fg_color else item.line.color

  unfoldable pub high_light : Menu H → ℕ → ℕ → List Draw
  high_light menu i y =
      if i == menu.selected
      then set_color menu.hl_bg_color ∷ fill_rectangle menu.x y menu.width menu.win.font_height ∷ []
      else []

  unfoldable pub draw_items : Menu H → ℕ → ℕ → List (MenuItem H) → List Draw
  unfolding item_color high_light
  draw_items menu i y [] = []
  draw_items menu i y (item ∷ items) =
      high_light menu i y
      ++ set_color (item_color menu i item)
        ∷ draw_string item.line.text 0 y
        ∷ draw_items menu (suc i) (y + menu.win.font_height) items

  unfoldable pub menu_refresh : Menu H → List Draw
  unfolding draw_items
  menu_refresh menu =
      set_color menu.win.color
        ∷ fill_rectangle menu.x menu.y menu.width (menu.height - menu.win.font_height)
        ∷ draw_items menu 0 menu.y menu.items
      ++ flip ∷ []

  select_index : Menu H → ℤ → Selection H
  unfolding menu_refresh
  select_index menu (negsuc k) = invalid
  select_index menu (pos k) =
      let menu' = record menu { selected = k % length menu.items } in
      if length menu.items == 0 then divides_by_zero else selects menu' (menu_refresh menu')

  unfoldable pub menu_selected : Menu H → ℤ → Selection H
  unfolding select_index
  menu_selected menu selected = select_index menu (selected +ℤ pos (length menu.items))

  unfoldable pub menu_update : Menu H → ℤ → Selection H
  unfolding menu_selected
  menu_update menu next = menu_selected menu (pos menu.selected +ℤ next)

  item_action : Option (MenuItem H) → Action H
  item_action none = crashes
  item_action (some item) = elim item.handler [ none ↦ refused | some h ↦ calls h ]

  unfoldable pub menu_action : Menu H → Action H
  unfolding item_action
  menu_action menu =
      if leb menu.max_items menu.selected
      then refused
      else item_action (get_elem? menu.items menu.selected)
