-- ===== src/Menu.antt =====
-- Menu items of server/menuitem.c and server/menuitem.h: the tokens that a key stands for, what an
-- item answers, and the items with a screen of their own, a slider and the editors of a number and
-- of a text, one child module for each. A function that is called with an item for NULL, the
-- addresses and the visible text of an item are left out.
mod Tests
pub mod Allowed
pub mod Alpha
pub mod Characters
pub mod Editor
pub mod InRange
pub mod Overflow
pub mod Presses
pub mod Printed
pub mod Refilled
pub mod Rows
pub mod Ip
pub mod Navigation
pub mod Numeric
pub mod Shown
pub mod Slider
pub mod Selected
pub mod Sliding
pub mod Values
use lcdproc.Prelude.{
  ℕ, Bool, Option, none, some, List, [], ◌∷◌, if◌then◌else◌, Bytes, codes, str_eq,
}

pub data MenuToken : Type 0 where
  menutoken_menu : MenuToken
  menutoken_enter : MenuToken
  menutoken_up : MenuToken
  menutoken_down : MenuToken
  menutoken_left : MenuToken
  menutoken_right : MenuToken
  menutoken_other : MenuToken

pub data MenuResult : Type 0 where
  menuresult_error : MenuResult
  menuresult_none : MenuResult
  menuresult_enter : MenuResult
  menuresult_close : MenuResult
  menuresult_quit : MenuResult
  menuresult_predecessor : MenuResult
  menuresult_successor : MenuResult

pub data MenuEventType : Type 0 where
  menuevent_select : MenuEventType
  menuevent_update : MenuEventType
  menuevent_plus : MenuEventType
  menuevent_minus : MenuEventType
  menuevent_enter : MenuEventType
  menuevent_leave : MenuEventType

-- What every item has: where it leads, NULL for nothing said.
pub record Links : Type 0 where
  pub predecessor_id : Option Bytes
  pub successor_id : Option Bytes

unfoldable pub menuitem_predecessor2menuresult : Option Bytes → MenuResult → MenuResult
menuitem_predecessor2menuresult none default_result = default_result
menuitem_predecessor2menuresult (some id) default_result =
    if str_eq (codes "_quit_") id
    then menuresult_quit
    else if str_eq (codes "_close_") id
    then menuresult_close
    else if str_eq (codes "_none_") id
    then menuresult_none
    else menuresult_predecessor

unfoldable pub menuitem_successor2menuresult : Option Bytes → MenuResult → MenuResult
menuitem_successor2menuresult none default_result = default_result
menuitem_successor2menuresult (some id) default_result =
    if str_eq (codes "_quit_") id
    then menuresult_quit
    else if str_eq (codes "_close_") id
    then menuresult_close
    else if str_eq (codes "_none_") id
    then menuresult_none
    else menuresult_successor

-- What a key does to an item: the item afterwards, the events its client is told of, and the
-- answer; `none` is an access outside an array or an overflow.
abbrev pub Reaction : Type 0 → Type 0
Reaction A = Option (A × List MenuEventType × MenuResult)

abbrev pub answer : {A : Type 0} → A → MenuResult → Reaction A
answer item result = some (item, [], result)

abbrev pub inform : {A : Type 0} → A → MenuEventType → MenuResult → Reaction A
inform item event result = some (item, event ∷ [], result)

-- A key as the menu gets it: its token, its name, and whether the extended keys are in use.
pub record Press : Type 0 where
  pub token : MenuToken
  pub key : Bytes
  pub extended : Bool
