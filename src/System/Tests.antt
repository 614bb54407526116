-- ===== src/System/Tests.antt =====
-- A server with one client, 9, that has sent nothing yet, for server/main.c.
use lcdproc.Prelude.{◌≡◌, refl, true, false, none, some, [], arith, codes, str_eq}
use lcdproc.Prelude.Int.{pos, negsuc}
use lcdproc.Parser.{translate, is_whitespace, is_final, is_opening_quote, is_closing_quote}
use lcdproc.Parser.Grammar.{meaning, scan, kind}
use lcdproc.ScreenList.{screenlist_add}
use lcdproc.Input.{Input}
use lcdproc.Commands.{Server, Setup}
use lcdproc.Commands.Dispatch.{Surroundings, parse_message, get_command_function, lookup}
use lcdproc.Clients.Lifetime.{new_client, client_create, client_destroy}
use lcdproc.System.{System, started, connect, Reachable, start, next}
use lcdproc.Widgets.{empty}
use lcdproc.Commands.ScreenCommands.{store_screen}
use lcdproc.System.MenuScreen.{
  MenuKeys, Drawing, menu_screen, menuscreens_init, menuscreen_switch_item,
}
use lcdproc.System.ServerScreen.{no_screens, server_screen_init}
use lcdproc.System.Live.{Live}
use lcdproc.System.Clients.{LeftNothing}
use lcdproc.System.Events.{Reachable-Live}
use lcdproc.System.Progress.{Reachable-parse_message, Reachable-client_destroy}

abbrev setup : Setup
setup = record {
  display = record { width = 20; height = 4 };
  default_duration = 32;
  default_timeout = negsuc 0;
}

abbrev surroundings : Surroundings
surroundings = record {
  setup = setup;
  greeting = codes "connect\n";
  driver_info = [];
  fresh = 40;
  other = λ command c argv s. some (false, s);
}

abbrev input : Input
input = record {
  keylist = [];
  toggle_rotate_key = codes "Enter";
  prev_screen_key = codes "Left";
  next_screen_key = codes "Right";
  scroll_up_key = codes "Up";
  scroll_down_key = codes "Down";
  menu_key = some (codes "Menu");
  menuscreen = 50;
  rotation = no_screens;
  server_msg_text = [];
  server_msg_expire = 0;
  key_lines = [];
  menu_keys = [];
}

abbrev menu_keys : MenuKeys
menu_keys = record {
  menu_key = codes "Menu";
  enter_key = codes "Enter";
  up_key = codes "Up";
  down_key = codes "Down";
  left_key = none;
  right_key = some (codes "Right");
}

-- The screen of the menu is at 50, that of the server at 20.
abbrev begun : System
begun = started setup menu_keys true 50 20 input

begun-Reachable : Reachable begun
begun-Reachable =
    start setup menu_keys true 50 20 input (λ e. ground (arith, e)) (λ e. ground (arith, e))
      (λ e. ground (arith, e))

-- The menu is open.
abbrev drawing : Drawing
drawing = record { widgets = empty; cursor = 0; cursor_x = pos 1; cursor_y = pos 1 }

abbrev opened : System
opened = record begun {
  server =
      store_screen 50 (menuscreen_switch_item drawing false true (menu_screen setup)) begun.server;
  active = true;
}

abbrev one_client : System
one_client = record begun { server = client_create 9 begun.server }

one_client-Reachable : Reachable one_client
one_client-Reachable = next begun-Reachable (connect 9 (λ e. ground (arith, e)) refl)

Reachable-Live_example : Live one_client.server
Reachable-Live_example = Reachable-Live one_client-Reachable

Reachable-parse_message_example :
    (server : Server) × (parse_message surroundings (codes "hello\n") 9 one_client.server
      ≡ some server)
    × Reachable (record one_client { server = server })
unfolding client_create server_screen_init screenlist_add meaning scan kind translate is_whitespace
    is_final is_opening_quote is_closing_quote menuscreens_init get_command_function lookup str_eq
Reachable-parse_message_example =
    Reachable-parse_message one_client surroundings 9 (codes "hello\n") one_client-Reachable
      (record { not_null = λ e. ground (arith, e); unused = refl }) (new_client, refl) tt

Reachable-client_destroy_example :
    (server : Server) × (client_destroy 9 one_client.server ≡ some (true, server))
    × Reachable (record one_client { server = server })
    × LeftNothing 9 server
unfolding client_create
Reachable-client_destroy_example =
    Reachable-client_destroy one_client 9 one_client-Reachable (new_client, refl)
