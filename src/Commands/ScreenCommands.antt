-- ===== src/Commands/ScreenCommands.antt =====
-- server/commands/screen_commands.c (`screen_add_key` and `screen_del_key` are not in the table of
-- commands), with `screen_pri_name_to_pri` of server/screen.c.
use lcdproc.Prelude.{
  ℕ, ◌+◌, ◌%◌, Bool, true, false, not, ◌&&◌, Option, none, some, List, [], ◌∷◌, ◌++◌, ltb, leb,
  ◌==◌, if◌then◌else◌, ◌>>=◌, Bytes, codes, str_eq,
}
use lcdproc.Prelude.Int.{ℤ, pos, negsuc, ◌-ℤ◌}
use lcdproc.ScreenList.{
  Ptr, null, rank, foreground, info, background, Screen, screen_create, Rotation, get_screen,
}
use lcdproc.ScreenList.Process.{client_add_screen, client_remove_screen, screen_destroy}
use lcdproc.Commands.{
  Client, Server, Setup, Outcome, send_string, send_error, say, complain, success, when_ack,
  strip_dash, or_bit, atoi, client_find_screen,
}

-- `screen_create` in the memory at `fresh`, which `malloc` gives.
abbrev pub create_at : Setup → Ptr → Bytes → Ptr → Rotation → Rotation
create_at setup fresh id c r = record r {
  screens = λ p.
      if p == fresh
      then some (screen_create setup.display setup.default_duration setup.default_timeout id c)
      else r.screens p;
}

-- Behind the test of `ack`.
unfoldable pub add_screen : Setup → Ptr → Ptr → List Bytes → Server → Outcome
add_screen setup fresh c (name ∷ id ∷ []) s = do
  found ← client_find_screen c id s.rotation
  if not (found == null)
      then complain c (codes "Screen already exists\n") s
      else if fresh == null
      then complain c (codes "failed to create screen\n") s
      else (let (added, r) = client_add_screen c fresh (create_at setup fresh id c s.rotation) in
          let s' = record s { rotation = r } in
          if added then say c success s' else complain c (codes "failed to add screen\n") s')
add_screen setup fresh c argv s = complain c (codes "Usage: screen_add <screenid>\n") s

unfoldable pub screen_add_func : Setup → Ptr → Ptr → List Bytes → Server → Outcome
screen_add_func setup fresh c argv s = when_ack c s λ x. add_screen setup fresh c argv s

unfoldable pub delete_screen : Ptr → List Bytes → Server → Outcome
delete_screen c (name ∷ id ∷ []) s = do
  found ← client_find_screen c id s.rotation
  if found == null then complain c (codes "Unknown screen id\n") s else (do
    (removed, r) ← client_remove_screen c found s.rotation
    let s1 =
        if removed
        then send_string c success s
        else send_error c (codes "failed to remove screen\n") s
    r' ← screen_destroy found r
    some (false, record s1 { rotation = r' }))
delete_screen c argv s = complain c (codes "Usage: screen_del <screenid>\n") s

unfoldable pub screen_del_func : Ptr → List Bytes → Server → Outcome
screen_del_func c argv s = when_ack c s λ x. delete_screen c argv s

unfoldable pub index_of : Bytes → List Bytes → ℕ → ℕ
index_of name [] i = 0
index_of name (p ∷ names) i = if str_eq p name then i else index_of name names (i + 1)

-- The number of a priority's name; 0, the one of "hidden", for any other name.
unfoldable pub pri_name_to_pri : Bytes → ℕ
unfolding index_of
pri_name_to_pri name =
    index_of name
      (codes "hidden"
        ∷ codes "background"
        ∷ codes "info"
        ∷ codes "foreground"
        ∷ codes "alert"
        ∷ codes "input"
        ∷ [])
      0

-- The options of `screen_set`.
pub data Field : Type 0 where
  name priority duration heartbeat wid hgt timeout backlight cursor cursor_x cursor_y : Field

unfoldable pub field_named : Bytes → Option Field
field_named p =
    if str_eq p (codes "name")
    then some name
    else if str_eq p (codes "priority")
    then some priority
    else if str_eq p (codes "duration")
    then some duration
    else if str_eq p (codes "heartbeat")
    then some heartbeat
    else if str_eq p (codes "wid")
    then some wid
    else if str_eq p (codes "hgt")
    then some hgt
    else if str_eq p (codes "timeout")
    then some timeout
    else if str_eq p (codes "backlight")
    then some backlight
    else if str_eq p (codes "cursor")
    then some cursor
    else if str_eq p (codes "cursor_x")
    then some cursor_x
    else if str_eq p (codes "cursor_y")
    then some cursor_y
    else none

-- A number that is greater than 0, or else 0.
abbrev pub positive : ℤ → ℕ
positive (pos n) = n
positive (negsuc n) = 0

-- Assigned to a `short`.
unfoldable pub to_short : ℕ → ℤ
to_short n = if ltb (n % 65536) 32768 then pos (n % 65536) else pos (n % 65536) -ℤ pos 65536

-- A number becomes a class of priorities, and that is overwritten by the number itself.
unfoldable pub set_priority : ℕ → Bytes → Screen → Screen
set_priority number word x =
    if ltb 0 number
    then (let class =
          if leb number 64
          then rank foreground
          else if ltb number 192
          then rank info
          else rank background in
        let x' : Screen = record x { priority = class } in record x' { priority = number })
    else record x { priority = pri_name_to_pri word }

unfoldable pub set_heartbeat : Bytes → Screen → Screen
set_heartbeat word x =
    if str_eq word (codes "on")
    then record x { heartbeat = 1 }
    else if str_eq word (codes "off")
    then record x { heartbeat = 0 }
    else if str_eq word (codes "open")
    then record x { heartbeat = 2 }
    else x

-- The state of a client whose backlight is open is the screen's own. `toggle` compares an address
-- with 0 where the state is not on, so nothing happens.
unfoldable pub set_backlight : ℕ → Bytes → Screen → Screen
set_backlight client_backlight word x =
    if not (client_backlight == 2)
    then record x { backlight = client_backlight }
    else if str_eq (codes "on") word
    then record x { backlight = 1 }
    else if str_eq (codes "off") word
    then record x { backlight = 0 }
    else if str_eq (codes "toggle") word
    then (if x.backlight == 1 then record x { backlight = 0 } else x)
    else if str_eq (codes "blink") word
    then record x { backlight = or_bit 256 x.backlight }
    else if str_eq (codes "flash") word
    then record x { backlight = or_bit 512 x.backlight }
    else x

unfoldable pub set_cursor : Bytes → Screen → Screen
set_cursor word x =
    if str_eq word (codes "off")
    then record x { cursor = 0 }
    else if str_eq word (codes "on")
    then record x { cursor = 1 }
    else if str_eq word (codes "under")
    then record x { cursor = 5 }
    else if str_eq word (codes "block")
    then record x { cursor = 4 }
    else x

-- One option with its parameter: whether it succeeds, and the screen.
unfoldable pub set_field : ℕ → Field → Bytes → Screen → Bool × Screen
set_field client_backlight name word x = (true, record x { name = some word })
set_field client_backlight priority word x = (true, set_priority (positive (atoi word)) word x)
set_field client_backlight duration word x =
    let n = positive (atoi word) in (true, if ltb 0 n then record x { duration = n } else x)
set_field client_backlight heartbeat word x = (true, set_heartbeat word x)
set_field client_backlight wid word x =
    let n = positive (atoi word) in (true, if ltb 0 n then record x { width = n } else x)
set_field client_backlight hgt word x =
    let n = positive (atoi word) in (true, if ltb 0 n then record x { height = n } else x)
set_field client_backlight timeout word x =
    let n = positive (atoi word) in (true, if ltb 0 n then record x { timeout = pos n } else x)
set_field client_backlight backlight word x = (true, set_backlight client_backlight word x)
set_field client_backlight cursor word x = (true, set_cursor word x)
set_field client_backlight cursor_x word x =
    let n = positive (atoi word) in
    if ltb 0 n && leb n x.width then (true, record x { cursor_x = to_short n }) else (false, x)
set_field client_backlight cursor_y word x =
    let n = positive (atoi word) in
    if ltb 0 n && leb n x.height then (true, record x { cursor_y = to_short n }) else (false, x)

-- `*s = x`
unfoldable pub store_screen : Ptr → Screen → Server → Server
store_screen p x s = record s {
  rotation = record s.rotation { screens = λ q. if q == p then some x else s.rotation.screens q };
}

-- An option and its parameter, on the screen at `p`.
unfoldable pub set_option : Ptr → Client → Ptr → Field → Bytes → Server → Option Server
set_option c client p f word s = do
  x ← get_screen s.rotation p
  let (ok, x') = set_field client.backlight f word x
  let s' = store_screen p x' s
  some (
      if ok
      then send_string c success s'
      else send_error c (codes "Cursor position outside screen\n") s')

abbrev pub field_name : Field → Bytes
field_name name = codes "name"
field_name priority = codes "priority"
field_name duration = codes "duration"
field_name heartbeat = codes "heartbeat"
field_name wid = codes "wid"
field_name hgt = codes "hgt"
field_name timeout = codes "timeout"
field_name backlight = codes "backlight"
field_name cursor = codes "cursor"
field_name cursor_x = codes "cursor_x"
field_name cursor_y = codes "cursor_y"

-- The last argument: an option lacks its parameter.
abbrev pub last_option : Ptr → Option Field → Server → Server
last_option c none s = send_error c (codes "invalid parameter\n") s
last_option c (some f) s =
    send_error c (codes "-" ++ (field_name f ++ codes " requires a parameter\n")) s

unfoldable pub set_options : Ptr → Client → Ptr → List Bytes → Server → Option Server
set_options c client p [] s = some s
set_options c client p (a ∷ []) s = some (last_option c (field_named (strip_dash a)) s)
set_options c client p (a ∷ word ∷ rest) s = elim (field_named (strip_dash a)) [
  | none ↦ set_options c client p (word ∷ rest) (send_error c (codes "invalid parameter\n") s)
  | some f ↦ set_option c client p f word s >>= λ s'. set_options c client p rest s'
]

unfoldable pub set_screen : Ptr → Client → List Bytes → Server → Outcome
set_screen c client (cmd ∷ id ∷ a ∷ rest) s = do
  p ← client_find_screen c id s.rotation
  if p == null
      then complain c (codes "Unknown screen id\n") s
      else (do s' ← set_options c client p (a ∷ rest) s; some (false, s'))
set_screen c client (cmd ∷ id ∷ []) s = complain c (codes "What do you want to set?\n") s
set_screen c client argv s =
    complain c
      (codes
        "Usage: screen_set <id> [-name <name>] [-wid <width>] [-hgt <height>] [-priority <int>] [-duration <int>] [-timeout <int>] [-heartbeat <type>] [-backlight <type>] [-cursor <type>] [-cursor_x <xpos>] [-cursor_y <ypos>]\n")
      s

unfoldable pub screen_set_func : Ptr → List Bytes → Server → Outcome
screen_set_func c argv s = when_ack c s λ client. set_screen c client argv s
