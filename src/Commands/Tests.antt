-- ===== src/Commands/Tests.antt =====
-- Commands of two clients of LCDd, 8 without and 9 with a hello, for server/commands.
use mathlib.Core.List.{mem-cons_self, mem-cons_of_mem}
use lcdproc.Prelude.{
  ◌≡◌, refl, true, false, none, some, List, [], Bytes, ◌∷◌, ◌==◌, if◌then◌else◌, arith, codes,
  str_eq, Bool-cases, inl, inr,
}
use lcdproc.Prelude.Int.{pos, negsuc}
use lcdproc.Parser.{translate, is_whitespace, is_final, is_opening_quote, is_closing_quote}
use lcdproc.Parser.Grammar.{meaning, scan, kind}
use lcdproc.ScreenList.{Screen, screen_create, get_screen}
use lcdproc.Commands.{Client, Server, Setup, send_error}
use lcdproc.Commands.ScreenCommands.{screen_add_func, screen_del_func}
use lcdproc.Commands.Dispatch.{Command, Surroundings, parse_message, get_command_function, lookup}
use lcdproc.Commands.Guards.{add_screen, parse_message-IsGuarded}
use lcdproc.Commands.Adding.{HasScreen, screen_add-HasScreen}
use lcdproc.Commands.Sound.{Sound}
use lcdproc.Commands.Deleting.{screen_del-Sound}

abbrev setup : Setup
setup = record {
  display = record { width = 20; height = 4 };
  default_duration = 32;
  default_timeout = negsuc 0;
}

abbrev surroundings : Surroundings
surroundings = record {
  setup = setup;
  greeting = codes "connect\n";
  driver_info = [];
  fresh = 40;
  other = λ command c argv s. some (false, s);
}

abbrev clock : Screen
clock = screen_create setup.display 32 (negsuc 0) (codes "clock") 9

abbrev own_screen : Screen
own_screen = screen_create setup.display 32 (negsuc 0) (codes "_server") 0

abbrev newcomer : Client
newcomer = record { name = none; ack = false; backlight = 2; heartbeat = 2 }

abbrev known : Client
known = record { name = none; ack = true; backlight = 2; heartbeat = 2 }

-- Client 9 has one screen, at 30, and the server one, at 20; none is shown.
abbrev server : Server
server = record {
  rotation = record {
    autorotate = true;
    screenlist = 30 ∷ 20 ∷ [];
    current_screen = 0;
    start_time = 0;
    screens = λ p. if p == 30 then some clock else if p == 20 then some own_screen else none;
    client_screens = λ c. if c == 9 then 30 ∷ [] else [];
    timer = 0;
    sent = [];
  };
  clients = λ c. if c == 8 then some newcomer else if c == 9 then some known else none;
  keylist = [];
  output_state = pos 0;
  replies = [];
}

server-Sound : Sound server.rotation
unfolding get_screen
server-Sound = record {
  well_formed = record {
    readable = ((clock, refl), ((own_screen, refl), tt));
    listed = λ ne. absurd (ne refl);
    in_touch = record { in_turn = tt; readable = λ ne. absurd (ne refl); current_is = refl };
  };
  once = (((λ e. ground (arith, e)), tt), (tt, tt));
  owned = λ c. elim (Bool-cases (c == 9)) [
    | inl y ↦ rw y ((clock, refl, ground (arith, y)), tt)
    | inr n ↦ rw n tt
  ];
  each_once = λ c. elim (Bool-cases (c == 9)) [ inl y ↦ rw y (tt, tt) | inr n ↦ rw n tt ];
}

parse_message-IsGuarded_example :
    parse_message surroundings (codes "screen_add clock\n") 8 server
    ≡ some (send_error 8 (codes "Function returned error \"screen_add\"\n") server)
unfolding meaning scan kind translate is_whitespace is_final is_opening_quote is_closing_quote
    get_command_function lookup str_eq
parse_message-IsGuarded_example =
    parse_message-IsGuarded surroundings Command.screen_add 8 (codes "screen_add clock\n")
      (codes "screen_add" ∷ codes "clock" ∷ []) server newcomer refl refl refl refl add_screen

screen_add-HasScreen_example :
    (s' : Server) × (screen_add_func setup 40 9 (codes "screen_add" ∷ codes "mail" ∷ []) server
      ≡ some (false, s'))
    × Sound s'.rotation
    × HasScreen 9 (codes "mail") s'.rotation
screen_add-HasScreen_example =
    screen_add-HasScreen setup 40 9 (codes "screen_add") (codes "mail") server known refl refl
      server-Sound (record { not_null = λ e. ground (arith, e); unused = refl })
      (λ e. ground (arith, e))

abbrev settings : List Bytes
settings = codes "alert" ∷ codes "-wid" ∷ codes "16" ∷ codes "-cursor_x" ∷ codes "21" ∷ []

screen_del-Sound_example :
    (s' : Server) × (screen_del_func 9 (codes "screen_del" ∷ codes "clock" ∷ []) server
      ≡ some (false, s'))
    × Sound s'.rotation
unfolding get_screen
screen_del-Sound_example =
    screen_del-Sound 9 (codes "screen_del") (codes "clock") server known refl refl server-Sound
      (λ e. ground (arith, e))
      (record {
        screen = 20;
        value = own_screen;
        listed = mem-cons_of_mem 30 mem-cons_self;
        readable = refl;
        not_own = λ e. ground (arith, e);
      })
