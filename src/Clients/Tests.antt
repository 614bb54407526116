-- ===== src/Clients/Tests.antt =====
-- Two clients of LCDd, for server/clients.c and the message queue of server/client.c.
use lcdproc.Prelude.{
  ◌≡◌, true, false, none, some, List, [], ◌∷◌, ◌++◌, map, ◌==◌, if◌then◌else◌, ◌>>=◌, arith, codes,
}
use lcdproc.Prelude.Int.{pos, negsuc}
use lcdproc.Parser.{parse_line}
use lcdproc.Commands.Dispatch.{Surroundings}
use lcdproc.Clients.{Clients, add_message, parse_all_client_messages}
use lcdproc.Clients.Queue.{pending, emptied, run_lines, parse_all-run_lines}
use lcdproc.Clients.Sending.{Command, sent, received, parse_line-add_message}

abbrev surroundings : Surroundings
surroundings = record {
  setup = record {
    display = record { width = 20; height = 4 };
    default_duration = 32;
    default_timeout = negsuc 0;
  };
  greeting = codes "connect\n";
  driver_info = [];
  fresh = 40;
  other = λ command c argv s. some (false, s);
}

abbrev two_clients : Clients
two_clients = record {
  clientlist = 8 ∷ 9 ∷ [];
  messages = λ c.
      if c == 8
      then codes "hello" ∷ codes "noop" ∷ []
      else if c == 9
      then codes "hello" ∷ []
      else [];
  sock = λ c. c;
  server = record {
    rotation = record {
      autorotate = true;
      screenlist = [];
      current_screen = 0;
      start_time = 0;
      screens = λ p. none;
      client_screens = λ c. [];
      timer = 0;
      sent = [];
    };
    clients = λ c. some (record { name = none; ack = false; backlight = 2; heartbeat = 2 });
    keylist = [];
    output_state = pos 0;
    replies = [];
  };
}

parse_all-run_lines_example : parse_all_client_messages surroundings two_clients ≡ (
    run_lines surroundings (pending (8 ∷ 9 ∷ []) two_clients.messages) two_clients.server
    >>= λ server. some (record two_clients {
      messages = emptied (8 ∷ 9 ∷ []) two_clients.messages;
      server = server;
    }))
parse_all-run_lines_example =
    parse_all-run_lines surroundings two_clients (((λ e. ground (arith, e)), tt), (tt, tt))

abbrev commands : List Command
commands = (codes "screen_add", codes "my \"clock\"" ∷ []) ∷ (codes "noop", []) ∷ []

parse_line-add_message_example :
    map parse_line (add_message (sent commands) (codes "hello" ∷ []))
    ≡ map parse_line (codes "hello" ∷ []) ++ map received commands
parse_line-add_message_example = parse_line-add_message commands (codes "hello" ∷ []) (ground arith)
