-- ===== src/Widgets.antt =====
-- server/widget.c and the widgets of server/screen.c. A widget belongs to one list, so the list of
-- a screen is kept by value, and a pointer to a widget is the way to it: `i ∷ []` is the widget
-- with the number i of the list, and `i ∷ p` is the one at p in the list of that frame.
-- `Widget.screen`, which nothing reads, is left out.
pub mod Added
pub mod Names
pub mod Search
pub mod Written
mod Tests
use lcdproc.Prelude.{
  ℕ, zero, suc, ◌+◌, Bool, true, false, not, Option, none, some, List, [], ◌∷◌, ◌++◌, ◌==◌, ◌&&◌,
  if◌then◌else◌, Bytes, codes, str_eq,
}
use lcdproc.Prelude.Int.{ℤ, pos, negsuc}

-- server/widget.h
pub data WidgetType : Type 0 where
  wid_none wid_string wid_hbar wid_vbar wid_icon wid_title wid_scroller wid_frame wid_num :
      WidgetType

-- A widget but for its frame_screen.
pub record Widget : Type 0 where
  pub id : Bytes
  pub type : WidgetType
  pub x : ℤ
  pub y : ℤ
  pub width : ℤ
  pub height : ℤ
  pub left : ℤ
  pub top : ℤ
  pub right : ℤ
  pub bottom : ℤ
  pub length : ℤ
  pub speed : ℤ
  pub text : Option Bytes

-- A list of widgets: the first one is a frame, with the widgets of its frame_screen, or it is
-- something else, whose frame_screen is never set.
pub data Widgets : Type 0 where
  empty : Widgets
  plain : Widget → Widgets → Widgets
  framed : Widget → Widgets → Widgets → Widgets

abbrev pub Place : Type 0
Place = List ℕ

-- `widget_create`, but for the screen of a frame.
abbrev pub widget_create : Bytes → WidgetType → Widget
widget_create id type = record {
  id = id;
  type = type;
  x = pos 1;
  y = pos 1;
  width = pos 0;
  height = pos 0;
  left = pos 1;
  top = pos 1;
  right = pos 0;
  bottom = pos 0;
  length = pos 1;
  speed = pos 1;
  text = none;
}

-- A new widget alone; a frame has a screen without widgets.
abbrev pub created : Widget → WidgetType → Widgets → Widgets
created w wid_frame ws = framed w empty ws
created w _ ws = plain w ws

-- The next widget of the same list.
abbrev pub further : Place → Place
further [] = []
further (i ∷ p) = suc i ∷ p

abbrev pub over : (Place → Place) → Option Place → Option Place
over f none = none
over f (some p) = some (f p)

abbrev pub or_else : Option Place → Option Place → Option Place
or_else none q = q
or_else (some p) q = some p

-- `screen_find_widget`, with `widget_search_subs` for the frames.
unfoldable pub find_widget : Bytes → Widgets → Option Place
find_widget id empty = none
find_widget id (plain w ws) =
    let rest = find_widget id ws in if str_eq w.id id then some (0 ∷ []) else over further rest
find_widget id (framed w subs ws) =
    let found = find_widget id subs in
    let rest = find_widget id ws in
    if str_eq w.id id then some (0 ∷ []) else or_else (over (◌∷◌ 0) found) (over further rest)

-- `*w`
unfoldable pub widget_at : Place → Widgets → Option Widget
widget_at [] ws = none
widget_at (i ∷ p) empty = none
widget_at (zero ∷ []) (plain w ws) = some w
widget_at (zero ∷ j ∷ p) (plain w ws) = none
widget_at (suc i ∷ p) (plain w ws) = widget_at (i ∷ p) ws
widget_at (zero ∷ []) (framed w subs ws) = some w
widget_at (zero ∷ j ∷ p) (framed w subs ws) = widget_at (j ∷ p) subs
widget_at (suc i ∷ p) (framed w subs ws) = widget_at (i ∷ p) ws

-- `*w = v`
unfoldable pub set_at : Place → Widget → Widgets → Widgets
set_at [] v ws = ws
set_at (i ∷ p) v empty = empty
set_at (zero ∷ []) v (plain w ws) = plain v ws
set_at (zero ∷ j ∷ p) v (plain w ws) = plain w ws
set_at (suc i ∷ p) v (plain w ws) = plain w (set_at (i ∷ p) v ws)
set_at (zero ∷ []) v (framed w subs ws) = framed v subs ws
set_at (zero ∷ j ∷ p) v (framed w subs ws) = framed w (set_at (j ∷ p) v subs) ws
set_at (suc i ∷ p) v (framed w subs ws) = framed w subs (set_at (i ∷ p) v ws)

-- `screen_add_widget`: a new widget goes to the end of the list.
unfoldable pub add_widget : Widget → WidgetType → Widgets → Widgets
add_widget w type empty = created w type empty
add_widget w type (plain v ws) = plain v (add_widget w type ws)
add_widget w type (framed v subs ws) = framed v subs (add_widget w type ws)

abbrev pub behind : Widget → Option Widgets → Option Widgets
behind w none = none
behind w (some ws) = some (plain w ws)

abbrev pub behind_frame : Widget → Widgets → Option Widgets → Option Widgets
behind_frame w subs none = none
behind_frame w subs (some ws) = some (framed w subs ws)

abbrev pub in_frame : Widget → Widgets → Option Widgets → Option Widgets
in_frame w ws none = none
in_frame w ws (some subs) = some (framed w subs ws)

-- `screen_add_widget(frame->frame_screen, w)`: a fault where the frame_screen was never set.
unfoldable pub add_in_frame : Place → Widget → WidgetType → Widgets → Option Widgets
add_in_frame [] w type ws = none
add_in_frame (i ∷ p) w type empty = none
add_in_frame (zero ∷ p) w type (plain v ws) = none
add_in_frame (suc i ∷ p) w type (plain v ws) = behind v (add_in_frame (i ∷ p) w type ws)
add_in_frame (zero ∷ []) w type (framed v subs ws) = some (framed v (add_widget w type subs) ws)
add_in_frame (zero ∷ j ∷ p) w type (framed v subs ws) =
    in_frame v ws (add_in_frame (j ∷ p) w type subs)
add_in_frame (suc i ∷ p) w type (framed v subs ws) =
    behind_frame v subs (add_in_frame (i ∷ p) w type ws)

-- Whether two pointers to widgets are the same.
unfoldable pub same_place : Place → Place → Bool
same_place [] [] = true
same_place (i ∷ p) (j ∷ q) = i == j && same_place p q
same_place _ _ = false

-- `LL_Remove` from the list of the screen, whose widgets are at `n`, `n + 1` and so on: the first
-- widget to which the pointer leads is taken out.
unfoldable pub remove_from : ℕ → Place → Widgets → Widgets
remove_from n p empty = empty
remove_from n p (plain w ws) =
    if same_place p (n ∷ []) then ws else plain w (remove_from (suc n) p ws)
remove_from n p (framed w subs ws) =
    if same_place p (n ∷ []) then ws else framed w subs (remove_from (suc n) p ws)

-- `screen_remove_widget`.
unfoldable pub remove_widget : Place → Widgets → Widgets
remove_widget p ws = remove_from 0 p ws
