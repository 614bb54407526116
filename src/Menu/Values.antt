-- ===== src/Menu/Values.antt =====
-- The values of checkboxes and rings in a menu of server/menu.c, and the visible items.
use lcdproc.Prelude.{
  ℕ, zero, suc, ◌-◌, ◌%◌, ◌<◌, ◌≡◌, refl, inl, inr, Bool, true, false, some, List, [], ◌∷◌, ltb,
  if◌then◌else◌, Bytes, length, All, Bool-cases, arith, if_false,
}
use lcdproc.Menu.Navigation.{
  Content, menuitem_menu, menuitem_action, menuitem_checkbox, menuitem_ring, menuitem_slider,
  menuitem_numeric, menuitem_alpha, menuitem_ip, MenuItem, menu_visible_item_count, visible_at,
  replace_at, checkbox_up, checkbox_down, ring_up, ring_down, enter_item, left_item, right_item,
}
use lcdproc.Menu.Presses.{Keeps}

-- The value of a checkbox is one that it can have, the value of a ring the index of a string.
abbrev pub HasValue : Content → Type 0
HasValue (menuitem_checkbox allow_gray value) = value < (if allow_gray then 3 else 2)
HasValue (menuitem_ring strings value) = value < length strings
HasValue _ = Unit

pub checkbox_up_lem : (gray : Bool) (v : ℕ) → checkbox_up gray v < (if gray then 3 else 2)
unfolding checkbox_up
checkbox_up_lem true v = omega arith
checkbox_up_lem false v = omega arith

pub checkbox_down_lem : (gray : Bool) (v : ℕ) → checkbox_down gray v < (if gray then 3 else 2)
unfolding checkbox_down
checkbox_down_lem true v = omega arith
checkbox_down_lem false v = omega arith

pub ring_up_lem :
    (strings : List Bytes) (v : ℕ)
    → v < length strings
    → (w : ℕ) × (ring_up strings v ≡ some w) × (w < length strings)
unfolding ring_up
ring_up_lem [] v h = absurd (omega arith)
ring_up_lem (s ∷ strings) v h = (_, refl, omega arith)

pub ring_down_lem :
    (strings : List Bytes) (v : ℕ)
    → v < length strings
    → (w : ℕ) × (ring_down strings v ≡ some w) × (w < length strings)
unfolding ring_down
ring_down_lem [] v h = absurd (omega arith)
ring_down_lem (s ∷ strings) v h = elim (Bool-cases (ltb v 1)) [
  | inl y ↦ (length (s ∷ strings) - 1, rw y refl, omega arith)
  | inr n ↦ ((v - 1) % length (s ∷ strings), rw n refl, omega arith)
]

-- The item stays visible and has a value.
abbrev pub Shows : MenuItem → Type 0
Shows y = (y.is_hidden ≡ false) × HasValue y.content

pub enter_item-Shows :
    (item : MenuItem) (c : Content)
    → item.is_hidden ≡ false
    → item.content ≡ c
    → HasValue c
    → Keeps Shows (enter_item item c)
unfolding enter_item
enter_item-Shows item (menuitem_checkbox g v) vis e h = (_, _, _, refl, (vis, checkbox_up_lem g v))
enter_item-Shows item (menuitem_ring strings v) vis e h =
    let (w, r, k) = ring_up_lem strings v h in rw r (_, _, _, refl, (vis, k))
enter_item-Shows item menuitem_action vis e h = (item, _, _, refl, (vis, rw e tt))
enter_item-Shows item menuitem_menu vis e h = (item, _, _, refl, (vis, rw e tt))
enter_item-Shows item (menuitem_slider s) vis e h = (item, _, _, refl, (vis, rw e tt))
enter_item-Shows item (menuitem_numeric s) vis e h = (item, _, _, refl, (vis, rw e tt))
enter_item-Shows item (menuitem_alpha s) vis e h = (item, _, _, refl, (vis, rw e tt))
enter_item-Shows item menuitem_ip vis e h = (item, _, _, refl, (vis, rw e tt))

pub left_item-Shows :
    (item : MenuItem) (c : Content)
    → item.is_hidden ≡ false
    → item.content ≡ c
    → HasValue c
    → Keeps Shows (left_item item c)
unfolding left_item
left_item-Shows item (menuitem_checkbox g v) vis e h = (_, _, _, refl, (vis, checkbox_down_lem g v))
left_item-Shows item (menuitem_ring strings v) vis e h =
    let (w, r, k) = ring_down_lem strings v h in rw r (_, _, _, refl, (vis, k))
left_item-Shows item menuitem_action vis e h = (item, _, _, refl, (vis, rw e tt))
left_item-Shows item menuitem_menu vis e h = (item, _, _, refl, (vis, rw e tt))
left_item-Shows item (menuitem_slider s) vis e h = (item, _, _, refl, (vis, rw e tt))
left_item-Shows item (menuitem_numeric s) vis e h = (item, _, _, refl, (vis, rw e tt))
left_item-Shows item (menuitem_alpha s) vis e h = (item, _, _, refl, (vis, rw e tt))
left_item-Shows item menuitem_ip vis e h = (item, _, _, refl, (vis, rw e tt))

pub right_item-Shows :
    (item : MenuItem) (c : Content)
    → item.is_hidden ≡ false
    → item.content ≡ c
    → HasValue c
    → Keeps Shows (right_item item c)
unfolding right_item
right_item-Shows item (menuitem_checkbox g v) vis e h = (_, _, _, refl, (vis, checkbox_up_lem g v))
right_item-Shows item (menuitem_ring strings v) vis e h =
    let (w, r, k) = ring_up_lem strings v h in rw r (_, _, _, refl, (vis, k))
right_item-Shows item menuitem_action vis e h = (item, _, _, refl, (vis, rw e tt))
right_item-Shows item menuitem_menu vis e h = (item, _, _, refl, (vis, rw e tt))
right_item-Shows item (menuitem_slider s) vis e h = (item, _, _, refl, (vis, rw e tt))
right_item-Shows item (menuitem_numeric s) vis e h = (item, _, _, refl, (vis, rw e tt))
right_item-Shows item (menuitem_alpha s) vis e h = (item, _, _, refl, (vis, rw e tt))
right_item-Shows item menuitem_ip vis e h = (item, _, _, refl, (vis, rw e tt))

pub visible_at_lem :
    (xs : List MenuItem) (i : ℕ)
    → i < menu_visible_item_count xs
    → All (λ x. HasValue x.content) xs
    → (x : MenuItem) × (visible_at xs i ≡ some x) × Shows x
unfolding menu_visible_item_count visible_at
visible_at_lem [] i h a = absurd (omega arith)
visible_at_lem (x ∷ xs) zero h a = elim (Bool-cases x.is_hidden) [
  | inl y ↦ rw y (visible_at_lem xs zero (ground (arith, h, y)) a.1)
  | inr n ↦ (x, if_false x.is_hidden _ _ n, (n, a.0))
]
visible_at_lem (x ∷ xs) (suc i) h a = elim (Bool-cases x.is_hidden) [
  | inl y ↦ rw y (visible_at_lem xs (suc i) (ground (arith, h, y)) a.1)
  | inr n ↦ rw n (visible_at_lem xs i (ground (arith, h, n)) a.1)
]

pub replace_at-count :
    (y : MenuItem) (xs : List MenuItem) (i : ℕ)
    → y.is_hidden ≡ false
    → menu_visible_item_count (replace_at y xs i) ≡ menu_visible_item_count xs
unfolding menu_visible_item_count replace_at
replace_at-count y [] i h = refl
replace_at-count y (x ∷ xs) zero h = ground (arith, h, replace_at-count y xs zero h)
replace_at-count y (x ∷ xs) (suc i) h =
    ground (arith, replace_at-count y xs (suc i) h, replace_at-count y xs i h)

pub All-replace_at :
    (y : MenuItem) (xs : List MenuItem) (i : ℕ)
    → HasValue y.content
    → All (λ x. HasValue x.content) xs
    → All (λ x. HasValue x.content) (replace_at y xs i)
unfolding replace_at
All-replace_at y [] i h a = tt
All-replace_at y (x ∷ xs) zero h a = elim (Bool-cases x.is_hidden) [
  | inl z ↦ rw z (a.0, All-replace_at y xs zero h a.1)
  | inr n ↦ rw n (h, a.1)
]
All-replace_at y (x ∷ xs) (suc i) h a = elim (Bool-cases x.is_hidden) [
  | inl z ↦ rw z (a.0, All-replace_at y xs (suc i) h a.1)
  | inr n ↦ rw n (a.0, All-replace_at y xs i h a.1)
]
