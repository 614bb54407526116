-- ===== src/Clients/Queue.antt =====
-- `parse_all_client_messages` of server/parse.c, for all clients at once.
use lcdproc.Prelude.{
  ◌≡◌, ◌≢◌, refl, ◌∙◌, fun_ext, Bool, false, ◌||◌, Option, some, List, [], ◌∷◌, ◌++◌, map, ◌==◌,
  if◌then◌else◌, ◌>>=◌, Option-cases, inl, inr, arith, All, Bytes,
}
use lcdproc.ScreenList.{Ptr}
use lcdproc.Commands.{Server}
use lcdproc.Commands.Sound.{NoRepeat}
use lcdproc.Commands.Dispatch.{Surroundings, parse_message}
use lcdproc.Clients.{
  Clients, parse_messages, parse_client, parse_clients, parse_all_client_messages,
}

-- All lines that wait, each with its client: the clients in the order of the list, and the lines of
-- one client in the order in which they came.
abbrev pub pending : List Ptr → (Ptr → List Bytes) → List (Ptr × Bytes)
pending [] messages = []
pending (c ∷ clients) messages = map (λ str. (c, str)) (messages c) ++ pending clients messages

abbrev pub is_listed : Ptr → List Ptr → Bool
is_listed d [] = false
is_listed d (c ∷ clients) = d == c || is_listed d clients

-- The queues of the clients in the list are empty.
abbrev pub emptied : List Ptr → (Ptr → List Bytes) → Ptr → List Bytes
emptied clients messages d = if is_listed d clients then [] else messages d

module _ (e : Surroundings) where
  -- The lines are handled one after the other.
  abbrev pub run_lines : List (Ptr × Bytes) → Server → Option Server
  run_lines [] s = some s
  run_lines ((c, str) ∷ lines) s = parse_message e str c s >>= λ s'. run_lines lines s'

  run_lines-client :
      (c : Ptr) (queue : List Bytes) (lines : List (Ptr × Bytes)) (s : Server)
      → run_lines (map (λ str. (c, str)) queue ++ lines) s
        ≡ (parse_messages e c queue s >>= λ s'. run_lines lines s')
  unfolding parse_messages
  run_lines-client c [] lines s = refl
  run_lines-client c (str ∷ queue) lines s = elim (Option-cases (parse_message e str c s)) [
    | inl n ↦ rw n refl
    | inr (s', y) ↦ rw y (run_lines-client c queue lines s')
  ]

pending-other :
    (c : Ptr) (clients : List Ptr) (messages : Ptr → List Bytes)
    → All (λ y. y ≢ c) clients
    → pending clients (λ d. if d == c then [] else messages d) ≡ pending clients messages
pending-other c [] messages h = refl
pending-other c (d ∷ clients) messages h =
    let other : (d == c) ≡ false = ground (arith, h.0) in
    rw (other, pending-other c clients messages h.1)

emptied-cons :
    (c : Ptr) (clients : List Ptr) (messages : Ptr → List Bytes)
    → emptied clients (λ d. if d == c then [] else messages d) ≡ emptied (c ∷ clients) messages
emptied-cons c clients messages = fun_ext (λ d. ground arith)

parse_clients-run_lines :
    (e : Surroundings) (clients : List Ptr) (s : Clients)
    → NoRepeat clients
    → parse_clients e clients s ≡ (
        run_lines e (pending clients s.messages) s.server >>= λ server.
        some (record s { messages = emptied clients s.messages; server = server }))
unfolding parse_clients parse_client
parse_clients-run_lines e [] s h = refl
parse_clients-run_lines e (c ∷ clients) s h =
    elim (Option-cases (parse_messages e c (s.messages c) s.server)) [
      | inl n ↦
          rw (n, run_lines-client e c (s.messages c) (pending clients s.messages) s.server, n) refl
      | inr (server, y) ↦
          let s1 : Clients = record s {
            messages = λ d. if d == c then [] else s.messages d;
            server = server;
          } in
          rw (y, run_lines-client e c (s.messages c) (pending clients s.messages) s.server, y)
            (parse_clients-run_lines e clients s1 h.1
              ∙ rw (pending-other c clients s.messages h.0, emptied-cons c clients s.messages))
    ]

-- For a list of clients without repetitions, parse_all_client_messages handles every waiting
-- line once, client after client and the lines of a client in the order in which they came,
-- stops where a line faults, and leaves the queues of the listed clients empty and the others as
-- they were.
pub parse_all-run_lines :
    (e : Surroundings) (s : Clients)
    → NoRepeat s.clientlist
    → parse_all_client_messages e s ≡ (
        run_lines e (pending s.clientlist s.messages) s.server >>= λ server.
        some (record s { messages = emptied s.clientlist s.messages; server = server }))
unfolding parse_all_client_messages
parse_all-run_lines e s h = parse_clients-run_lines e s.clientlist s h
