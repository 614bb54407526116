-- ===== src/Widgets/Names.antt =====
-- The names of the types of widgets and of the icons, in server/widget.c.
use lcdproc.Prelude.{
  ℕ, ◌+◌, ◌≡◌, refl, sym, Bool, ◌&&◌, Option, none, some, List, [], ◌∷◌, map, leb, ◌==◌,
  if◌then◌else◌, arith, All, subst, ◌∙◌, some_inj, Bool-cases, inl, inr, Bytes, codes, str_eq,
}
use lcdproc.Prelude.Int.{ℤ, pos, negsuc}
use lcdproc.Widgets.{
  WidgetType, wid_none, wid_string, wid_hbar, wid_vbar, wid_icon, wid_title, wid_scroller,
  wid_frame, wid_num,
}

-- `typenames`, with the numbers of the enumeration.
abbrev pub typenames : List (Bytes × WidgetType)
typenames =
    (codes "none", wid_none)
    ∷ (codes "string", wid_string)
    ∷ (codes "hbar", wid_hbar)
    ∷ (codes "vbar", wid_vbar)
    ∷ (codes "icon", wid_icon)
    ∷ (codes "title", wid_title)
    ∷ (codes "scroller", wid_scroller)
    ∷ (codes "frame", wid_frame)
    ∷ (codes "num", wid_num)
    ∷ []

unfoldable pub type_named : Bytes → List (Bytes × WidgetType) → WidgetType
type_named name [] = wid_none
type_named name ((typename, type) ∷ rest) =
    if str_eq typename name then type else type_named name rest

-- `wid_none` for an unknown name.
unfoldable pub widget_typename_to_type : Bytes → WidgetType
widget_typename_to_type name = type_named name typenames

unfoldable pub widget_type_to_typename : WidgetType → Bytes
widget_type_to_typename wid_none = codes "none"
widget_type_to_typename wid_string = codes "string"
widget_type_to_typename wid_hbar = codes "hbar"
widget_type_to_typename wid_vbar = codes "vbar"
widget_type_to_typename wid_icon = codes "icon"
widget_type_to_typename wid_title = codes "title"
widget_type_to_typename wid_scroller = codes "scroller"
widget_type_to_typename wid_frame = codes "frame"
widget_type_to_typename wid_num = codes "num"

-- The numbers of the icons are those of server/drivers/lcd.h.
abbrev pub icontable : List (ℕ × Bytes)
icontable =
    (256, codes "BLOCK_FILLED")
    ∷ (264, codes "HEART_OPEN")
    ∷ (265, codes "HEART_FILLED")
    ∷ (272, codes "ARROW_UP")
    ∷ (273, codes "ARROW_DOWN")
    ∷ (274, codes "ARROW_LEFT")
    ∷ (275, codes "ARROW_RIGHT")
    ∷ (288, codes "CHECKBOX_OFF")
    ∷ (289, codes "CHECKBOX_ON")
    ∷ (290, codes "CHECKBOX_GRAY")
    ∷ (296, codes "SELECTOR_AT_LEFT")
    ∷ (297, codes "SELECTOR_AT_RIGHT")
    ∷ (304, codes "ELLIPSIS")
    ∷ (512, codes "STOP")
    ∷ (513, codes "PAUSE")
    ∷ (514, codes "PLAY")
    ∷ (515, codes "PLAYR")
    ∷ (516, codes "FF")
    ∷ (517, codes "FR")
    ∷ (518, codes "NEXT")
    ∷ (519, codes "PREV")
    ∷ (520, codes "REC")
    ∷ []

-- `tolower` in the C locale.
unfoldable pub to_lower : ℕ → ℕ
to_lower c = if leb b'A' c && leb c b'Z' then c + 32 else c

-- `strcasecmp(a, b) == 0`
abbrev pub same_letters : Bytes → Bytes → Bool
same_letters a b = str_eq (map to_lower a) (map to_lower b)

unfoldable pub iconname_in : List (ℕ × Bytes) → ℤ → Option Bytes
iconname_in [] icon = none
iconname_in ((number, iconname) ∷ rest) (negsuc n) = iconname_in rest (negsuc n)
iconname_in ((number, iconname) ∷ rest) (pos n) =
    if number == n then some iconname else iconname_in rest (pos n)

-- NULL for an unknown number.
unfoldable pub widget_icon_to_iconname : ℤ → Option Bytes
widget_icon_to_iconname icon = iconname_in icontable icon

unfoldable pub icon_in : List (ℕ × Bytes) → Bytes → ℤ
icon_in [] name = negsuc 0
icon_in ((number, iconname) ∷ rest) name =
    if same_letters iconname name then pos number else icon_in rest name

-- -1 for an unknown name.
unfoldable pub widget_iconname_to_icon : Bytes → ℤ
widget_iconname_to_icon name = icon_in icontable name

-- property
pub widget_typename_to_type-widget_type_to_typename :
    (type : WidgetType) → widget_typename_to_type (widget_type_to_typename type) ≡ type
unfolding widget_typename_to_type widget_type_to_typename type_named str_eq
widget_typename_to_type-widget_type_to_typename wid_frame = refl
widget_typename_to_type-widget_type_to_typename _ = refl

-- One name leads from each number back to it.
abbrev Returns : ℕ × Bytes → Type 0
Returns (number, name) =
    (widget_icon_to_iconname (pos number) ≡ some name) × (widget_iconname_to_icon name ≡ pos number)

icons-Returns : All Returns icontable
unfolding widget_icon_to_iconname iconname_in widget_iconname_to_icon icon_in str_eq to_lower
icons-Returns = ground arith

iconname_in-All :
    (P : ℕ × Bytes → Type 0) (table : List (ℕ × Bytes)) (icon : ℤ) (name : Bytes)
    → All P table
    → iconname_in table icon ≡ some name
    → (n : ℕ) × (icon ≡ pos n) × P (n, name)
unfolding iconname_in
iconname_in-All P [] icon name h e = cc
iconname_in-All P ((number, iconname) ∷ table) (negsuc n) name h e =
    iconname_in-All P table (negsuc n) name h.1 e
iconname_in-All P ((number, iconname) ∷ table) (pos n) name h e = elim (Bool-cases (number == n)) [
  | inl y ↦
      let same : iconname ≡ name = some_inj (rw y at e) in
      (number, ground (arith, y), subst (λ t. P (number, t)) same h.0)
  | inr m ↦ iconname_in-All P table (pos n) name h.1 (rw m at e)
]

-- If an icon has a name, the name leads back to the icon.
pub widget_iconname_to_icon-widget_icon_to_iconname :
    (icon : ℤ) (name : Bytes)
    → widget_icon_to_iconname icon ≡ some name
    → widget_iconname_to_icon name ≡ icon
unfolding widget_icon_to_iconname
widget_iconname_to_icon-widget_icon_to_iconname icon name e =
    let (n, same, (_, back)) = iconname_in-All Returns icontable icon name icons-Returns e in
    back ∙ sym same
