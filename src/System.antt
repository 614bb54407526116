-- ===== src/System.antt =====
-- The server as a whole: the start in server/menuscreens.c and server/serverscreens.c, and what
-- happens in the loop of server/main.c, one event after the other. Clients come, send lines and
-- go, keys come in, the menu is entered and left, and a frame is drawn. An event that faults is no
-- step: these are the lines that `SafeLine` leaves out, and a frame in which the current screen
-- expires, which reads the screen that it has freed (`process_faults` of ScreenList.Expiry), so C
-- says nothing of what follows.
pub mod ClientLines
pub mod Clients
pub mod Display
pub mod Events
pub mod Destroyed
pub mod Frames
pub mod Housed
pub mod Keys
pub mod Leaving
pub mod Lines
pub mod Live
pub mod MenuScreen
pub mod Progress
pub mod Safety
pub mod ScreenLines
pub mod ServerScreen
pub mod Sorted
mod Tests
use lcdproc.Prelude.{
  ℕ, ◌+◌, ◌≡◌, ◌≢◌, Bool, true, false, Option, none, some, List, [], ◌∷◌, ◌==◌, if◌then◌else◌,
  ◌>>=◌, Bytes,
}
use lcdproc.Prelude.Int.{pos}
use lcdproc.Parser.{Parsed, arguments, refused, parse_line}
use lcdproc.ScreenList.{Ptr, null, Rotation, get_screen}
use lcdproc.ScreenList.Process.{screenlist_process}
use lcdproc.Input.{Input, handle_key}
use lcdproc.Commands.{Client, Server, Setup}
use lcdproc.Commands.Adding.{IsFree}
use lcdproc.Commands.Dispatch.{Command, Surroundings, get_command_function, parse_message}
use lcdproc.Clients.Lifetime.{client_create, client_destroy}
use lcdproc.Commands.ScreenCommands.{store_screen}
use lcdproc.System.MenuScreen.{
  MenuKeys, Drawing, reserve_menu_keys, menuscreens_init, menuscreen_switch_item,
}
use lcdproc.System.ServerScreen.{server_screen_init, no_screens}
use lcdproc.System.Safety.{SafeLine}

-- The rotation and the reservations of `input` are those of `server`; its own are not used.
-- `active` says whether `active_menuitem` of server/menuscreens.c is not NULL.
pub record System : Type 0 where
  pub server : Server
  pub input : Input
  pub active : Bool

-- What server/input.c works on, and the server behind it.
abbrev pub input_of : System → Input
input_of s = record s.input { rotation = s.server.rotation; keylist = s.server.keylist }

abbrev pub after_input : System → Input → System
after_input s i = record s {
  server = record s.server { rotation = i.rotation; keylist = i.keylist };
  input = i;
}

-- One key in the loop of `handle_input`; `d` is the client of the screen that was current before
-- the first of the keys that came in together.
unfoldable pub do_key : Bytes → Ptr → System → Option System
do_key key d s = handle_key key d (input_of s) >>= λ i. some (after_input s i)

-- The menu goes to another item, or to none, or draws the same one again: at a key that it was
-- given, at a command of a client, or when a client goes with the item.
unfoldable pub do_menu : Drawing → Bool → System → Option System
do_menu drawing active s = get_screen s.server.rotation s.input.menuscreen >>= λ x. some (record s {
  server =
      store_screen s.input.menuscreen (menuscreen_switch_item drawing s.active active x) s.server;
  active = active;
})

-- `timer++; screenlist_process();`
unfoldable pub do_frame : System → Option System
do_frame s =
    screenlist_process (record s.server.rotation { timer = s.server.rotation.timer + 1 }) >>= λ r.
    some (record s { server = record s.server { rotation = r } })

-- The server when it starts: `menuscreens_init` and then `server_screen_init`; `m` and `p` are the
-- addresses of the screens that they make.
abbrev pub started : Setup → MenuKeys → Bool → Ptr → Ptr → Input → System
started setup menu_keys rotates m p input = record {
  server = record {
    rotation = server_screen_init setup rotates p (menuscreens_init setup m no_screens);
    clients = λ c. none;
    keylist = reserve_menu_keys menu_keys [];
    output_state = pos 0;
    replies = [];
  };
  input = record input { menu_key = some menu_keys.menu_key; menuscreen = m };
  active = false;
}

-- One event. Lines that run into a known fault are left out by `SafeLine`, with the commands on
-- menus. What the menu does comes between the keys, as often as it likes.
pub data Event : System → System → Type 0 where
  connect :
      {s : System} (c : Ptr)
      → c ≢ null
      → s.server.clients c ≡ none
      → Event s (record s { server = client_create c s.server })
  line :
      {s : System} {server : Server} (e : Surroundings) (c : Ptr) (str : Bytes)
      → (x : Client) × (s.server.clients c ≡ some x)
      → IsFree s.server.rotation e.fresh
      → SafeLine c str s.server
      → parse_message e str c s.server ≡ some server
      → Event s (record s { server = server })
  key_pressed :
      {s s' : System} (pressed : Bytes) (d : Ptr) → do_key pressed d s ≡ some s' → Event s s'
  menu_changed :
      {s s' : System} (drawing : Drawing) (active : Bool)
      → do_menu drawing active s ≡ some s'
      → Event s s'
  frame : {s s' : System} → do_frame s ≡ some s' → Event s s'
  disconnect :
      {s : System} {server : Server} (c : Ptr)
      → (x : Client) × (s.server.clients c ≡ some x)
      → client_destroy c s.server ≡ some (true, server)
      → Event s (record s { server = server })

-- The states that the server can be in.
pub data Reachable : System → Type 0 where
  start :
      (setup : Setup) (menu_keys : MenuKeys) (rotates : Bool) (m p : Ptr) (input : Input)
      → m ≢ null
      → p ≢ null
      → p ≢ m
      → Reachable (started setup menu_keys rotates m p input)
  next : {s s' : System} → Reachable s → Event s s' → Reachable s'
