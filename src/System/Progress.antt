-- ===== src/System/Progress.antt =====
-- From every state that the server can be in, the next event is handled.
use lcdproc.Prelude.{◌≡◌, ◌≢◌, refl, true, some, Bytes}
use lcdproc.ScreenList.{Ptr, null, Rotation}
use lcdproc.ScreenList.Top.{IsReadable, Shows}
use lcdproc.Input.Total.{handle_key-Handles}
use lcdproc.Commands.{Server}
use lcdproc.Commands.Adding.{IsFree}
use lcdproc.Commands.Dispatch.{Surroundings, parse_message}
use lcdproc.Clients.Lifetime.{client_destroy}
use lcdproc.System.{
  System, input_of, after_input, do_key, line, key_pressed, disconnect, Reachable, next,
}
use lcdproc.System.Safety.{SafeLine}
use lcdproc.System.Live.{Connected}
use lcdproc.System.Lines.{parse_message-Live}
use lcdproc.System.Clients.{LeftNothing, client_destroy-LeftNothing}
use lcdproc.System.Events.{Reachable-Live}

-- In every state that the server can reach, its start and its events being those of
-- Reachable-Live, a line from a client that is there is handled without a fault, and leads to a
-- state that the server can reach, if there is a free address for a screen, and the line has no
-- command on menus, no name behind -in that is not the name of a frame, and no number that is
-- out of range for output and sleep.
pub Reachable-parse_message :
    (s : System) (e : Surroundings) (c : Ptr) (str : Bytes)
    → Reachable s
    → IsFree s.server.rotation e.fresh
    → Connected s.server c
    → SafeLine c str s.server
    → (server : Server) × (parse_message e str c s.server ≡ some server)
      × Reachable (record s { server = server })
Reachable-parse_message s e c str r free at safe =
    let (server, go, _) = parse_message-Live e c str s.server free at safe (Reachable-Live r) in
    (server, go, next r (line e c str at free safe go))

-- In every state that the server can reach, its start and its events being those of
-- Reachable-Live, client_destroy of a client that is there ends in a state that the server can
-- reach, in which every screen of the list can be read, and no screen of it and no reservation
-- of a key names the client.
pub Reachable-client_destroy :
    (s : System) (c : Ptr)
    → Reachable s
    → Connected s.server c
    → (server : Server) × (client_destroy c s.server ≡ some (true, server))
      × Reachable (record s { server = server })
      × LeftNothing c server
Reachable-client_destroy s c r at =
    let (server, go, _, left) = client_destroy-LeftNothing c s.server (Reachable-Live r) at in
    (server, go, next r (disconnect c at go), left)

pub Reachable-do_key :
    (s : System) (pressed : Bytes) (d : Ptr)
    → Reachable s
    → (s' : System) × (do_key pressed d s ≡ some s') × Reachable s'
unfolding do_key
Reachable-do_key s pressed d r =
    let (i, go, _) =
      handle_key-Handles pressed d (input_of s) (Reachable-Live r).housed.sound.well_formed in
    let e : do_key pressed d s ≡ some (after_input s i) = rw go refl in
    (_, e, next r (key_pressed pressed d e))

-- What is on display: a screen that can be read, and no screen of the list has a higher priority.
pub record Displays (r : Rotation) : Type 0 where
  pub screen : r.current_screen ≢ null
  pub readable : IsReadable r r.current_screen
  pub top : Shows r
