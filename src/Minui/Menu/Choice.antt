-- ===== src/Minui/Menu/Choice.antt =====
-- What the keys choose in a menu of src/libminui/minui.c, and what is seen of it.
use tboot.Base.{
  ℕ, suc, ◌+◌, ◌-◌, ◌%◌, ◌≤◌, ◌<◌, ◌≡◌, refl, sym, ap, ◌∙◌, none, some, List, [], ◌∷◌, ◌++◌, arith,
  length, get_elem?, take, drop, length-take, take-append-drop, get_elem?-lt, drop-get_elem?,
}
use tboot.Minui.{Draw, set_color, fill_rectangle, flip}
use tboot.Minui.Menu.{
  MenuItem, Menu, Action, refused, calls, menu_refresh, menu_action, item_action, draw_items,
}
use tboot.Minui.Menu.Keys.{
  MenuKey, ups, downs, after_selection, menu_keys, moved, moved-lt, keys_on, update-eq, lit_between,
  draw_items-lit, below,
}

module _ {H : Type 0} where
  -- What the item calls, -1 where it has no handler.
  abbrev pub item_call : MenuItem H → Action H
  item_call item = elim item.handler [ none ↦ refused | some h ↦ calls h ]

  -- A menu after keys, and what is drawn of it.
  pub record Chosen (keys : List MenuKey) (menu menu' : Menu H) (screen : List Draw) : Type 0 where
    pub kept : record menu' { selected = menu.selected } ≡ menu
    pub place :
        (menu'.selected + ups keys) % length menu.items
        ≡ (menu.selected + downs keys) % length menu.items
    pub before : List (MenuItem H)
    pub item : MenuItem H
    pub after : List (MenuItem H)
    pub split : menu.items ≡ before ++ item ∷ after
    pub at : length before ≡ menu'.selected
    pub action : menu_action menu' ≡ item_call item
    pub drawn :
        screen
        ≡ set_color menu'.win.color
            ∷ fill_rectangle menu'.x menu'.y menu'.width (menu'.height - menu'.win.font_height)
            ∷ lit_between menu' menu'.y before item after
          ++ flip ∷ []

  moved_keys :
      (keys : List MenuKey) (menu : Menu H) (screen : List Draw)
      → menu.selected < length menu.items
      → screen ≡ menu_refresh menu
      → (s : ℕ) × (menu_keys keys menu screen
          ≡ some (record menu { selected = s }, menu_refresh (record menu { selected = s })))
        × (s < length menu.items)
        × ((s + ups keys) % length menu.items ≡ (menu.selected + downs keys) % length menu.items)
  unfolding menu_keys after_selection
  moved_keys [] menu screen in_range current = (menu.selected, rw current refl, in_range, refl)
  moved_keys (key ∷ keys) menu screen in_range current =
      let n = length menu.items in
      let menu' = record menu { selected = moved key menu.selected n } in
      let (s, ran, below, place) =
        moved_keys keys menu' (menu_refresh menu') (moved-lt key menu.selected n (omega arith))
          refl in
      (
        s,
        rw (update-eq key menu (omega arith), menu_keys) ran,
        below,
        keys_on key keys menu.selected s n (omega arith) place,
      )

  list_split :
      (items : List (MenuItem H)) (i : ℕ)
      → i < length items
      → (before : List (MenuItem H)) × (item : MenuItem H) × (after : List (MenuItem H)) × (items
          ≡ before ++ item ∷ after)
        × (length before ≡ i)
        × (get_elem? items i ≡ some item)
  list_split items i h =
      let (item, got) = get_elem?-lt i items h in
      (
        take i items,
        item,
        drop (suc i) items,
        sym (take-append-drop i items)
            ∙ ap (λ t. take i items ++ t) (drop-get_elem? i items item got),
        omega (arith, length-take i items),
        got,
      )

  chosen_action :
      (menu : Menu H) (s : ℕ) (item : MenuItem H)
      → s < menu.max_items
      → get_elem? menu.items s ≡ some item
      → menu_action (record menu { selected = s }) ≡ item_call item
  unfolding menu_action item_action
  chosen_action menu s item h got = rw (below menu.max_items s h, got) refl

  refresh-lit :
      (menu : Menu H) (before : List (MenuItem H)) (item : MenuItem H) (after : List (MenuItem H))
      → menu.items ≡ before ++ item ∷ after
      → length before ≡ menu.selected
      → menu_refresh menu
        ≡ set_color menu.win.color
            ∷ fill_rectangle menu.x menu.y menu.width (menu.height - menu.win.font_height)
            ∷ lit_between menu menu.y before item after
          ++ flip ∷ []
  unfolding menu_refresh
  refresh-lit menu before item after split at =
      ap
        (λ items.
          set_color menu.win.color
            ∷ fill_rectangle menu.x menu.y menu.width (menu.height - menu.win.font_height)
            ∷ draw_items menu 0 menu.y items
          ++ flip ∷ [])
        split
      ∙ ap
          (λ ds.
            set_color menu.win.color
              ∷ fill_rectangle menu.x menu.y menu.width (menu.height - menu.win.font_height)
              ∷ ds
            ++ flip ∷ [])
          (draw_items-lit menu 0 menu.y before item after (omega arith))

  -- In a menu with an item selected and no more items than it has room for, no key is refused: from
  -- there every `down` goes one item on and every `up` one back, round the number of items; all else
  -- in the menu stays; the action is that of the item reached; and the screen shows all items in
  -- their order, below one another, with that item and no other high-lighted.
  pub menu_keys-Chosen :
      (keys : List MenuKey) (menu : Menu H)
      → menu.selected < length menu.items
      → length menu.items ≤ menu.max_items
      → (menu' : Menu H) × (screen : List Draw) × (menu_keys keys menu (menu_refresh menu)
          ≡ some (menu', screen))
        × Chosen keys menu menu' screen
  menu_keys-Chosen keys menu in_range room =
      let (s, ran, below_end, place) = moved_keys keys menu (menu_refresh menu) in_range refl in
      let (before, item, after, split, at, got) = list_split menu.items s below_end in
      let menu' : Menu H = record menu { selected = s } in
      (
        menu',
        menu_refresh menu',
        ran,
        record {
          kept = refl;
          place = place;
          before = before;
          item = item;
          after = after;
          split = split;
          at = at;
          action = chosen_action menu s item (omega arith) got;
          drawn = refresh-lit menu' before item after split at;
        },
      )
