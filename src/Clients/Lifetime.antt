-- ===== src/Clients/Lifetime.antt =====
-- How clients come and go: `client_create` and `client_destroy` of server/client.c. The queue of a
-- client and its socket go with it; its menu, which only the commands on menus make, is left out.
use lcdproc.Prelude.{
  Bool, true, false, Option, none, some, List, [], ◌∷◌, ◌==◌, if◌then◌else◌, ◌>>=◌,
}
use lcdproc.ScreenList.{Ptr, null, Rotation}
use lcdproc.ScreenList.Process.{screen_destroy}
use lcdproc.Input.{release_client_keys}
use lcdproc.Commands.{Client, Server}

abbrev pub new_client : Client
new_client = record { name = none; ack = false; backlight = 2; heartbeat = 2 }

-- The list of the screens of a client.
abbrev pub with_list : Ptr → List Ptr → Rotation → Rotation
with_list c xs r = record r { client_screens = λ d. if d == c then xs else r.client_screens d }

-- `client_create` in the memory at `c`, which `malloc` gives.
unfoldable pub client_create : Ptr → Server → Server
client_create c s = record s {
  clients = λ d. if d == c then some new_client else s.clients d;
  rotation = with_list c [] s.rotation;
}

unfoldable pub destroy_screens : List Ptr → Rotation → Option Rotation
destroy_screens [] r = some r
destroy_screens (s ∷ screens) r = screen_destroy s r >>= λ r'. destroy_screens screens r'

-- `client_destroy`: whether it did something.
unfoldable pub client_destroy : Ptr → Server → Option (Bool × Server)
client_destroy c s = if c == null then some (false, s) else (do
  _ ← s.clients c
  r ← destroy_screens (s.rotation.client_screens c) s.rotation
  some (
    true,
    record s {
      clients = λ d. if d == c then none else s.clients d;
      rotation = with_list c [] r;
      keylist = release_client_keys c s.keylist;
    },
  ))
