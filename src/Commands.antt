-- ===== src/Commands.antt =====
-- The state that the command functions of server/commands work on, and what they share: how a
-- client is answered (`sock_send_string`, `sock_send_error`), `atoi`, and `client_find_screen` of
-- server/client.c. Answers are not cut to the size of a buffer here.
pub mod Adding
pub mod ClientCommands
pub mod Deleting
pub mod Dispatch
pub mod Finding
pub mod Guards
pub mod Meaning
pub mod Options
pub mod Rules
pub mod Setting
pub mod Sound
pub mod Stored
pub mod ScreenCommands
pub mod WidgetAdding
pub mod WidgetCommands
pub mod WidgetSetting
pub mod ServerCommands
mod Tests
mod WidgetTests
use lcdproc.Prelude.{
  ℕ, zero, suc, ◌+◌, ◌-◌, ◌*◌, ◌/◌, ◌%◌, Bool, true, false, not, ◌&&◌, ◌||◌, Option, none, some,
  List, [], ◌∷◌, ◌++◌, ltb, leb, ◌==◌, if◌then◌else◌, ◌>>=◌, ◌>>◌, Bytes, codes, str_eq,
}
use lcdproc.Prelude.Int.{ℤ, pos, negsuc, ◌-ℤ◌}
use lcdproc.ScreenList.{Ptr, null, Rotation, Display, get_screen}
use lcdproc.Input.{KeyReservation}

-- server/client.h; the messages are in `Clients`, the screens in the rotation.
pub record Client : Type 0 where
  pub name : Option Bytes
  pub ack : Bool
  pub backlight : ℕ
  pub heartbeat : ℕ

-- `output_state` is the variable of server/render.c. `replies` is what was sent to clients, the
-- last line first.
pub record Server : Type 0 where
  pub rotation : Rotation
  pub clients : Ptr → Option Client
  pub keylist : List KeyReservation
  pub output_state : ℤ
  pub replies : List (Ptr × Bytes)

-- What the server was started with: the display, and the defaults of a screen.
pub record Setup : Type 0 where
  pub display : Display
  pub default_duration : ℕ
  pub default_timeout : ℤ

-- A command function returns an error code (whether it is not 0) and the new state.
abbrev pub Outcome : Type 0
Outcome = Option (Bool × Server)

unfoldable pub send_string : Ptr → Bytes → Server → Server
send_string c text s = record s { replies = (c, text) ∷ s.replies }

unfoldable pub send_error : Ptr → Bytes → Server → Server
send_error c text s = record s { replies = (c, codes "huh? " ++ text) ∷ s.replies }

-- The answer with which a command function returns 0.
abbrev pub say : Ptr → Bytes → Server → Outcome
say c text s = some (false, send_string c text s)

abbrev pub complain : Ptr → Bytes → Server → Outcome
complain c text s = some (false, send_error c text s)

abbrev pub success : Bytes
success = codes "success\n"

-- `if (!c->ack) return 1;` in front of a command's body.
unfoldable pub when_ack : Ptr → Server → (Client → Outcome) → Outcome
when_ack c s body = do x ← s.clients c; if not x.ack then some (true, s) else body x

abbrev pub update_client : Ptr → Client → Server → Server
update_client c x s = record s { clients = λ d. if d == c then some x else s.clients d }

unfoldable pub is_space : ℕ → Bool
is_space c = c == 32 || leb 9 c && leb c 13

unfoldable pub digits_value : ℕ → Bytes → ℕ
digits_value n [] = n
digits_value n (d ∷ ds) =
    if leb b'0' d && leb d b'9' then digits_value (10 * n + (d - b'0')) ds else n

-- `atoi`, for numbers that fit an `int`.
unfoldable pub atoi : Bytes → ℤ
atoi [] = pos 0
atoi (c ∷ cs) =
    if is_space c
    then atoi cs
    else if c == b'-'
    then pos 0 -ℤ pos (digits_value 0 cs)
    else if c == b'+'
    then pos (digits_value 0 cs)
    else pos (digits_value 0 (c ∷ cs))

-- `%d`: at most `fuel` digits, in front of `text`; an `int` has ten at most.
unfoldable pub decimal : ℕ → ℕ → Bytes → Bytes
decimal zero n text = text
decimal (suc fuel) n text =
    if ltb n 10 then (b'0' + n) ∷ text else decimal fuel (n / 10) ((b'0' + n % 10) ∷ text)

abbrev pub show_int : ℤ → Bytes → Bytes
show_int (pos n) text = decimal 10 n text
show_int (negsuc n) text = b'-' ∷ decimal 10 (n + 1) text

-- A single leading `-` is ignored.
unfoldable pub strip_dash : Bytes → Bytes
strip_dash [] = []
strip_dash (c ∷ cs) = if c == b'-' then cs else c ∷ cs

-- `|= bit`, for a power of two.
unfoldable pub or_bit : ℕ → ℕ → ℕ
or_bit bit n = if (n / bit) % 2 == 1 then n else n + bit

-- The loop of `client_find_screen`; NULL if no screen has the name.
unfoldable pub find_screen_in : Rotation → List Ptr → Bytes → Option Ptr
find_screen_in r [] id = some null
find_screen_in r (s ∷ screens) id =
    let rest = find_screen_in r screens id in
    (do x ← get_screen r s; if str_eq x.id id then some s else rest)

unfoldable pub client_find_screen : Ptr → Bytes → Rotation → Option Ptr
client_find_screen c id r =
    if c == null then some null else find_screen_in r (r.client_screens c) id
