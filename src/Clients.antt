-- ===== src/Clients.antt =====
-- server/clients.c, the message queue of server/client.c, and `parse_all_client_messages` of
-- server/parse.c. A queue is a list of lines; `strtok` splits at newlines and carriage returns.
pub mod Lifetime
pub mod Queue
pub mod Sending
mod Tests
use lcdproc.Prelude.{
  ℕ, ◌+◌, Bool, true, false, not, ◌||◌, Option, none, some, List, [], ◌∷◌, ◌++◌, ◌==◌,
  if◌then◌else◌, ◌>>=◌, ◌>>◌, length, Bytes,
}
use lcdproc.ScreenList.{Ptr, null, erase}
use lcdproc.Commands.{Server}
use lcdproc.Commands.Dispatch.{Surroundings, parse_message}

unfoldable pub is_delimiter : ℕ → Bool
is_delimiter c = c == b'\n' || c == b'\r'

-- The tokens of a text, `token` being the one begun: a token is never empty.
unfoldable pub tokens : Bytes → Bytes → List Bytes
tokens [] [] = []
tokens (t ∷ ts) [] = (t ∷ ts) ∷ []
tokens [] (c ∷ cs) = if is_delimiter c then tokens [] cs else tokens (c ∷ []) cs
tokens (t ∷ ts) (c ∷ cs) =
    if is_delimiter c then (t ∷ ts) ∷ tokens [] cs else tokens ((t ∷ ts) ++ c ∷ []) cs

-- `client_add_message`: each line is put at the end of the queue.
unfoldable pub add_message : Bytes → List Bytes → List Bytes
add_message message queue = queue ++ tokens [] message

-- `client_get_message`; NULL when there is none.
unfoldable pub get_message : List Bytes → Option Bytes × List Bytes
get_message [] = (none, [])
get_message (str ∷ queue) = (some str, queue)

-- The list of clients, their queues and sockets, and the state that their commands work on.
pub record Clients : Type 0 where
  pub clientlist : List Ptr
  pub messages : Ptr → List Bytes
  pub sock : Ptr → ℕ
  pub server : Server

unfoldable pub add_client : Ptr → Clients → Bool × Clients
add_client c s =
    if c == null then (false, s) else (true, record s { clientlist = s.clientlist ++ c ∷ [] })

unfoldable pub remove_client : Ptr → Clients → Bool × Clients
remove_client c s =
    let (found, rest) = erase c s.clientlist in (found, record s { clientlist = rest })

-- `clients_find_client_by_sock`; NULL if no client has the socket.
unfoldable pub find_by_sock : ℕ → (Ptr → ℕ) → List Ptr → Ptr
find_by_sock sock socks [] = null
find_by_sock sock socks (c ∷ clients) =
    if socks c == sock then c else find_by_sock sock socks clients

module _ (e : Surroundings) where
  -- The inner loop: a client's messages, until there are none. A command adds no message.
  unfoldable pub parse_messages : Ptr → List Bytes → Server → Option Server
  parse_messages c [] s = some s
  parse_messages c (str ∷ queue) s = parse_message e str c s >>= λ s'. parse_messages c queue s'

  unfoldable pub parse_client : Ptr → Clients → Option Clients
  parse_client c s = parse_messages c (s.messages c) s.server >>= λ server.
      some (record s { messages = λ d. if d == c then [] else s.messages d; server = server })

  unfoldable pub parse_clients : List Ptr → Clients → Option Clients
  parse_clients [] s = some s
  parse_clients (c ∷ clients) s = parse_client c s >>= λ s'. parse_clients clients s'

  unfoldable pub parse_all_client_messages : Clients → Option Clients
  parse_all_client_messages s = parse_clients s.clientlist s
