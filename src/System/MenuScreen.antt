-- ===== src/System/MenuScreen.antt =====
-- The screen of the menu and the keys that the server reserves for it, of server/menuscreens.c. The
-- keys are read from the configuration; which item of the menu is active, and what it draws, is an
-- argument.
use lcdproc.Prelude.{
  ℕ, Bool, true, false, Option, none, some, List, ◌==◌, if◌then◌else◌, Bytes, codes,
}
use lcdproc.Prelude.Int.{ℤ}
use lcdproc.Widgets.{Widgets}
use lcdproc.ScreenList.{
  Ptr, null, Screen, Rotation, rank, hidden, input, screen_create, screenlist_add,
}
use lcdproc.Input.{KeyReservation, reserve_key}
use lcdproc.Commands.{Setup}

-- NULL for a key that the configuration does not name; the others have a default.
pub record MenuKeys : Type 0 where
  pub menu_key : Bytes
  pub enter_key : Bytes
  pub up_key : Bytes
  pub down_key : Bytes
  pub left_key : Option Bytes
  pub right_key : Option Bytes

-- `if (key) input_reserve_key(key, false, NULL);`
unfoldable pub reserve_optional : Option Bytes → List KeyReservation → List KeyReservation
reserve_optional none keylist = keylist
reserve_optional (some key) keylist = (reserve_key key false null keylist).1

-- The reservations of `menuscreens_init`, in its order.
unfoldable pub reserve_menu_keys : MenuKeys → List KeyReservation → List KeyReservation
reserve_menu_keys k keylist = reserve_optional k.right_key (
    reserve_optional k.left_key
      (reserve_key k.down_key false null
        (reserve_key k.up_key false null
          (reserve_key k.enter_key false null (reserve_key k.menu_key true null keylist).1).1).1).1)

abbrev pub menu_screen : Setup → Screen
menu_screen setup =
    record (screen_create setup.display setup.default_duration setup.default_timeout
      (codes "_menu_screen") null) { priority = rank hidden }

-- The screen part of `menuscreens_init`, with the screen at the address `p`, which `malloc` gives.
unfoldable pub menuscreens_init : Setup → Ptr → Rotation → Rotation
menuscreens_init setup p r =
    (screenlist_add p
      (record r { screens = λ q. if q == p then some (menu_screen setup) else r.screens q })).1

-- What the active item puts on the screen of the menu.
pub record Drawing : Type 0 where
  pub widgets : Widgets
  pub cursor : ℕ
  pub cursor_x : ℤ
  pub cursor_y : ℤ

abbrev pub draw : Drawing → Screen → Screen
draw d x = record x {
  widgets = d.widgets;
  cursor = d.cursor;
  cursor_x = d.cursor_x;
  cursor_y = d.cursor_y;
}

-- Whether an item was active, and whether one is.
unfoldable pub menuscreen_switch_item : Drawing → Bool → Bool → Screen → Screen
menuscreen_switch_item d false false x = x
menuscreen_switch_item d true false x = record x { priority = rank hidden }
menuscreen_switch_item d false true x = record (draw d x) { priority = rank input }
menuscreen_switch_item d true true x = draw d x
