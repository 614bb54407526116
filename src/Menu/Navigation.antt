-- ===== src/Menu/Navigation.antt =====
-- A menu of server/menu.c: the list of its items, the selected one, and what a key does to them.
-- What is in a submenu or an IP item, and the contents of an item that a menu only enters, are its
-- own.
use lcdproc.Prelude.{
  ℕ, zero, suc, ◌+◌, ◌-◌, ◌%◌, Bool, true, Option, none, some, List, [], ◌∷◌, ◌++◌, ltb,
  if◌then◌else◌, Bytes, length, ◌>>=◌, str_eq,
}
use mathlib.Core.Option
use lcdproc.Prelude.Int.{ℤ, pos, negsuc, ◌+ℤ◌, ◌-ℤ◌, ltb_ℤ}
use lcdproc.Menu.{
  MenuToken, menutoken_menu, menutoken_enter, menutoken_up, menutoken_down, menutoken_left,
  menutoken_right, menuresult_error, menuresult_none, menuresult_enter, menuresult_close,
  menuevent_select, menuevent_update, Links, menuitem_predecessor2menuresult,
  menuitem_successor2menuresult, Reaction, answer, inform, Press,
}
use lcdproc.Menu.Slider.{Slider}
use lcdproc.Menu.Numeric.{Numeric}
use lcdproc.Menu.Alpha.{Alpha}

-- The type of an item with the data of that type. The value of a checkbox is that of its `enum`.
pub data Content : Type 0 where
  menuitem_menu : Content
  menuitem_action : Content
  menuitem_checkbox : (allow_gray : Bool) (value : ℕ) → Content
  menuitem_ring : (strings : List Bytes) (value : ℕ) → Content
  menuitem_slider : Slider → Content
  menuitem_numeric : Numeric → Content
  menuitem_alpha : Alpha → Content
  menuitem_ip : Content

pub record MenuItem : Type 0 where
  pub id : Bytes
  pub links : Links
  pub is_hidden : Bool
  pub content : Content

pub record Menu : Type 0 where
  pub links : Links
  pub contents : List MenuItem
  pub selector_pos : ℤ
  pub scroll : ℤ

unfoldable pub menu_visible_item_count : List MenuItem → ℕ
menu_visible_item_count [] = 0
menu_visible_item_count (x ∷ xs) =
    if x.is_hidden then menu_visible_item_count xs else suc (menu_visible_item_count xs)

-- The item at an index that does not count the hidden ones; NULL if there is none.
unfoldable pub visible_at : List MenuItem → ℕ → Option MenuItem
visible_at [] i = none
visible_at (x ∷ xs) zero = if x.is_hidden then visible_at xs zero else some x
visible_at (x ∷ xs) (suc i) = if x.is_hidden then visible_at xs (suc i) else visible_at xs i

unfoldable pub menu_get_subitem : Menu → ℤ → Option MenuItem
menu_get_subitem menu (pos i) = visible_at menu.contents i
menu_get_subitem menu (negsuc i) = none

-- The index of an item, without the hidden ones; -1 if there is no such item.
unfoldable pub visible_index : ℕ → Bytes → List MenuItem → ℤ
visible_index i item_id [] = negsuc 0
visible_index i item_id (x ∷ xs) =
    if x.is_hidden
    then visible_index i item_id xs
    else if str_eq item_id x.id
    then pos i
    else visible_index (suc i) item_id xs

unfoldable pub menu_get_index_of : Menu → Bytes → ℤ
menu_get_index_of menu item_id = visible_index 0 item_id menu.contents

unfoldable pub menu_reset : Menu → Menu
menu_reset menu = record menu { selector_pos = pos 0; scroll = pos 0 }

unfoldable pub menu_add_item : MenuItem → Menu → Menu
menu_add_item item menu = record menu { contents = menu.contents ++ item ∷ [] }

unfoldable pub menu_select_subitem : Bytes → Menu → Menu
menu_select_subitem subitem_id menu =
    let position = menu_get_index_of menu subitem_id in
    if ltb_ℤ position (pos 0)
    then menu
    else record menu { selector_pos = position; scroll = position }

-- The visible item at an index is replaced, as a write through its address does.
unfoldable pub replace_at : MenuItem → List MenuItem → ℕ → List MenuItem
replace_at y [] i = []
replace_at y (x ∷ xs) zero = if x.is_hidden then x ∷ replace_at y xs zero else y ∷ xs
replace_at y (x ∷ xs) (suc i) =
    if x.is_hidden then x ∷ replace_at y xs (suc i) else x ∷ replace_at y xs i

unfoldable pub put_subitem : MenuItem → Menu → ℤ → Menu
put_subitem y menu (pos i) = record menu { contents = replace_at y menu.contents i }
put_subitem y menu (negsuc i) = menu

-- An item that has no screen of its own stands for itself if it has a predecessor.
unfoldable pub own_links : Links → Links → Option Bytes → Links
own_links menu_links l none = menu_links
own_links menu_links l (some id) = l

unfoldable pub predecessor_links : Links → MenuItem → Content → Links
predecessor_links menu_links item menuitem_action =
    own_links menu_links item.links item.links.predecessor_id
predecessor_links menu_links item (menuitem_checkbox _ _) =
    own_links menu_links item.links item.links.predecessor_id
predecessor_links menu_links item (menuitem_ring _ _) =
    own_links menu_links item.links item.links.predecessor_id
predecessor_links menu_links item _ = menu_links

-- The links of the item that the function returns; NULL where nothing is selected.
unfoldable pub menu_get_item_for_predecessor_check : Menu → Option Links
menu_get_item_for_predecessor_check menu =
    Option.map (λ item. predecessor_links menu.links item item.content)
      (menu_get_subitem menu menu.selector_pos)

-- `value + 1` and `value - 1` for the `enum`, whose numbers have 32 bits and no sign.
unfoldable pub checkbox_up : Bool → ℕ → ℕ
checkbox_up allow_gray value = (value + 1) % 4294967296 % (if allow_gray then 3 else 2)

unfoldable pub checkbox_down : Bool → ℕ → ℕ
checkbox_down allow_gray value = (value + 4294967295) % 4294967296 % (if allow_gray then 3 else 2)

-- `% 0` is a fault.
unfoldable pub ring_up : List Bytes → ℕ → Option ℕ
ring_up [] value = none
ring_up (s ∷ strings) value = some ((value + 1) % length (s ∷ strings))

unfoldable pub ring_down : List Bytes → ℕ → Option ℕ
ring_down [] value = none
ring_down (s ∷ strings) value =
    if ltb value 1
    then some (length (s ∷ strings) - 1)
    else some ((value - 1) % length (s ∷ strings))

-- The selected item, for ENTER, LEFT and RIGHT.
unfoldable pub enter_item : MenuItem → Content → Reaction MenuItem
enter_item item menuitem_action =
    inform item menuevent_select
      (menuitem_successor2menuresult item.links.successor_id menuresult_none)
enter_item item (menuitem_checkbox gray value) =
    inform (record item { content = menuitem_checkbox gray (checkbox_up gray value) })
      menuevent_update (menuitem_successor2menuresult item.links.successor_id menuresult_none)
enter_item item (menuitem_ring strings value) = ring_up strings value >>= λ v.
    inform (record item { content = menuitem_ring strings v }) menuevent_update
      (menuitem_successor2menuresult item.links.successor_id menuresult_none)
enter_item item _ = answer item menuresult_enter

unfoldable pub left_item : MenuItem → Content → Reaction MenuItem
left_item item (menuitem_checkbox gray value) =
    inform (record item { content = menuitem_checkbox gray (checkbox_down gray value) })
      menuevent_update menuresult_none
left_item item (menuitem_ring strings value) = ring_down strings value >>= λ v.
    inform (record item { content = menuitem_ring strings v }) menuevent_update menuresult_none
left_item item _ = answer item menuresult_none

unfoldable pub right_item : MenuItem → Content → Reaction MenuItem
right_item item (menuitem_checkbox gray value) =
    inform (record item { content = menuitem_checkbox gray (checkbox_up gray value) })
      menuevent_update menuresult_none
right_item item (menuitem_ring strings value) = ring_up strings value >>= λ v.
    inform (record item { content = menuitem_ring strings v }) menuevent_update menuresult_none
right_item item menuitem_menu = answer item menuresult_enter
right_item item _ = answer item menuresult_none

-- `p` is where the item was found.
unfoldable pub change_subitem :
    (MenuItem → Content → Reaction MenuItem) → Menu → ℤ → Option MenuItem → Reaction Menu
change_subitem f menu p none = answer menu menuresult_error
change_subitem f menu p (some item) =
    f item item.content >>= λ r. some (put_subitem r.0 menu p, r.1, r.2)

unfoldable pub with_selected : (MenuItem → Content → Reaction MenuItem) → Menu → Reaction Menu
with_selected f menu =
    change_subitem f menu menu.selector_pos (menu_get_subitem menu menu.selector_pos)

unfoldable pub select_up : ℕ → Menu → Menu
select_up height menu =
    let count = pos (menu_visible_item_count menu.contents) in
    if ltb_ℤ (pos 0) menu.selector_pos
    then record menu {
      selector_pos = menu.selector_pos -ℤ pos 1;
      scroll =
          if ltb_ℤ (menu.selector_pos -ℤ pos 1 +ℤ pos 1) menu.scroll
          then menu.scroll -ℤ pos 1
          else menu.scroll;
    }
    else if ltb_ℤ menu.selector_pos (pos 0)
    then menu
    else record menu {
      selector_pos = count -ℤ pos 1;
      scroll = count -ℤ pos 1 +ℤ pos 2 -ℤ pos height;
    }

unfoldable pub select_down : ℕ → Menu → Menu
select_down height menu =
    let count = pos (menu_visible_item_count menu.contents) in
    if ltb_ℤ menu.selector_pos (count -ℤ pos 1)
    then record menu {
      selector_pos = menu.selector_pos +ℤ pos 1;
      scroll =
          if ltb_ℤ (pos height) (menu.selector_pos +ℤ pos 1 -ℤ menu.scroll +ℤ pos 2)
          then menu.scroll +ℤ pos 1
          else menu.scroll;
    }
    else record menu { selector_pos = pos 0; scroll = pos 0 }

unfoldable pub leave_menu : Menu → Option Links → Reaction Menu
leave_menu menu none = answer menu menuresult_error
leave_menu menu (some l) =
    answer menu (menuitem_predecessor2menuresult l.predecessor_id menuresult_close)

unfoldable pub menu_token : ℕ → MenuToken → Bool → Menu → Reaction Menu
menu_token height menutoken_menu extended menu =
    leave_menu menu (menu_get_item_for_predecessor_check menu)
menu_token height menutoken_enter extended menu = with_selected enter_item menu
menu_token height menutoken_up extended menu = answer (select_up height menu) menuresult_none
menu_token height menutoken_down extended menu = answer (select_down height menu) menuresult_none
menu_token height menutoken_left true menu = with_selected left_item menu
menu_token height menutoken_right true menu = with_selected right_item menu
menu_token height _ _ menu = answer menu menuresult_none

unfoldable pub menu_process_input : ℕ → Press → Menu → Reaction Menu
menu_process_input height p menu = menu_token height p.token p.extended menu
