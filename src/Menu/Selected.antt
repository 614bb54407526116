-- ===== src/Menu/Selected.antt =====
-- The selected item of a menu of server/menu.c, and the values of checkboxes and rings in it.
use lcdproc.Prelude.{
  ℕ, ◌<◌, ◌≡◌, refl, inl, inr, Bool, true, false, Option, none, some, List, [], All, Bool-cases,
  arith, ◌∙◌, sym, subst,
}
use lcdproc.Prelude.Int.{ℤ, pos, negsuc, ◌+ℤ◌, ◌-ℤ◌, ◌≤ℤ◌, ltb_ℤ}
use lcdproc.Menu.{
  MenuToken, menutoken_menu, menutoken_enter, menutoken_up, menutoken_down, menutoken_left,
  menutoken_right, menutoken_other, Links, menuresult_none, menuresult_error, Reaction, Press,
}
use lcdproc.Menu.Navigation.{
  Content, MenuItem, Menu, menu_visible_item_count, menu_get_subitem, replace_at, put_subitem,
  menu_get_item_for_predecessor_check, enter_item, left_item, right_item, with_selected,
  change_subitem, leave_menu, menu_reset, select_up, select_down, menu_token, menu_process_input,
}
use lcdproc.Menu.Presses.{press_all, Keeps, press_all-keeps}
use lcdproc.Menu.Values.{
  HasValue, Shows, enter_item-Shows, left_item-Shows, right_item-Shows, visible_at_lem,
  replace_at-count, All-replace_at,
}
use lcdproc.Menu.Rows.{OnDisplay, one_up, one_down, to_last, to_first}

-- So many items are visible; the selected one is among them, and its row on the display, counted
-- from 1, is one of the rows that the display has; every checkbox and ring has a value.
pub record Selected (height count : ℕ) (menu : Menu) : Type 0 where
  pub counted : menu_visible_item_count menu.contents ≡ count
  pub not_before : pos 0 ≤ℤ menu.selector_pos
  pub not_behind : menu.selector_pos +ℤ pos 1 ≤ℤ pos count
  pub not_above : menu.scroll ≤ℤ menu.selector_pos +ℤ pos 1
  pub not_below : menu.selector_pos +ℤ pos 2 ≤ℤ menu.scroll +ℤ pos height
  pub values : All (λ x. HasValue x.content) menu.contents

pub selection_within :
    (height count : ℕ) (menu : Menu)
    → Selected height count menu
    → (i : ℕ) × (menu.selector_pos ≡ pos i) × (i < count)
unfolding ◌+ℤ◌
selection_within height count menu s = go menu.selector_pos s.not_before s.not_behind
  where
    go : (p : ℤ) → pos 0 ≤ℤ p → p +ℤ pos 1 ≤ℤ pos count → (i : ℕ) × (p ≡ pos i) × (i < count)
    go (pos i) h k = (i, refl, ground (arith, k))
    go (negsuc i) h k = absurd (omega arith)

module _ (height count : ℕ) (rows : 1 < height) (item_there : 0 < count) (menu : Menu)
    (s : Selected height count menu) where
  moved-Selected :
      (p t : ℤ)
      → OnDisplay height count p t
      → Selected height count (record menu { selector_pos = p; scroll = t })
  moved-Selected p t (a, b, c, d) = record {
    counted = s.counted;
    not_before = a;
    not_behind = b;
    not_above = c;
    not_below = d;
    values = s.values;
  }

  display : OnDisplay height count menu.selector_pos menu.scroll
  display = (s.not_before, s.not_behind, s.not_above, s.not_below)

  select_up-Selected : Selected height count (select_up height menu)
  unfolding select_up
  select_up-Selected = elim (Bool-cases (ltb_ℤ (pos 0) menu.selector_pos)) [
    | inl y ↦
        rw y (moved-Selected _ _ (one_up height count menu.selector_pos menu.scroll display y))
    | inr n ↦
        let before : ltb_ℤ menu.selector_pos (pos 0) ≡ false = ground (arith, s.not_before) in
        rw (n, before, s.counted)
          (moved-Selected _ _ (to_last height count (omega arith) item_there))
  ]

  select_down-Selected : Selected height count (select_down height menu)
  unfolding select_down
  select_down-Selected =
      rw s.counted (elim (Bool-cases (ltb_ℤ menu.selector_pos (pos count -ℤ pos 1))) [
        | inl y ↦
            rw y
              (moved-Selected _ _ (one_down height count menu.selector_pos menu.scroll display y))
        | inr n ↦ rw n (moved-Selected _ _ (to_first height count rows item_there))
      ])

  with_selected-Selected :
      (f : MenuItem → Content → Reaction MenuItem)
      → ((item : MenuItem) (c : Content)
          → item.is_hidden ≡ false
          → item.content ≡ c
          → HasValue c
          → Keeps Shows (f item c))
      → Keeps (Selected height count) (with_selected f menu)
  unfolding with_selected change_subitem menu_get_subitem put_subitem
  with_selected-Selected f keeps =
      let (i, e, lt) = selection_within height count menu s in
      let (x, at, (vis, h)) = visible_at_lem menu.contents i (omega (arith, s.counted)) s.values in
      let (y, events, result, r, (shown, v)) = keeps x x.content vis refl h in
      subst (λ p. Keeps (Selected height count) (change_subitem f menu p (menu_get_subitem menu p)))
        (sym e)
        (rw (at, r)
          (
            record menu { contents = replace_at y menu.contents i },
            events,
            result,
            refl,
            record {
              counted = replace_at-count y menu.contents i shown ∙ s.counted;
              not_before = s.not_before;
              not_behind = s.not_behind;
              not_above = s.not_above;
              not_below = s.not_below;
              values = All-replace_at y menu.contents i v s.values;
            },
          ))

  left_menu : (o : Option Links) → Keeps (Selected height count) (leave_menu menu o)
  unfolding leave_menu
  left_menu none = (menu, [], menuresult_error, refl, s)
  left_menu (some l) = (menu, [], _, refl, s)

  token-Selected :
      (token : MenuToken) (extended : Bool)
      → Keeps (Selected height count) (menu_token height token extended menu)
  unfolding menu_token
  token-Selected menutoken_menu extended = left_menu (menu_get_item_for_predecessor_check menu)
  token-Selected menutoken_enter extended = with_selected-Selected enter_item enter_item-Shows
  token-Selected menutoken_up extended =
      (select_up height menu, [], menuresult_none, refl, select_up-Selected)
  token-Selected menutoken_down extended =
      (select_down height menu, [], menuresult_none, refl, select_down-Selected)
  token-Selected menutoken_left true = with_selected-Selected left_item left_item-Shows
  token-Selected menutoken_left false = (menu, [], menuresult_none, refl, s)
  token-Selected menutoken_right true = with_selected-Selected right_item right_item-Shows
  token-Selected menutoken_right false = (menu, [], menuresult_none, refl, s)
  token-Selected menutoken_other extended = (menu, [], menuresult_none, refl, s)

-- After any keys in a menu that was just reset, on a display of at least two lines, with at
-- least one item that is not hidden, and with a value that it can have in every checkbox and
-- ring: no key divides by 0, as many items as before are visible, the selected one is among
-- them, its row is one of the rows of the display, and every checkbox and ring has a value that
-- it can have.
pub press_all-Selected :
    (height : ℕ) (menu : Menu) (ps : List Press)
    → 1 < height
    → 0 < menu_visible_item_count menu.contents
    → All (λ x. HasValue x.content) menu.contents
    → (m : Menu) × (press_all (menu_process_input height) ps (menu_reset menu) ≡ some m)
      × Selected height (menu_visible_item_count menu.contents) m
unfolding menu_process_input menu_reset
press_all-Selected height menu ps rows item_there values =
    let count = menu_visible_item_count menu.contents in
    let (a, b, c, d) = to_first height count rows item_there in
    press_all-keeps (Selected height count) (menu_process_input height)
      (λ p m s. token-Selected height count rows item_there m s p.token p.extended) ps _
      record {
        counted = refl;
        not_before = a;
        not_behind = b;
        not_above = c;
        not_below = d;
        values = values;
      }
