-- ===== src/Commands/Dispatch.antt =====
-- server/commands/command_list.c, and the end of `parse_message` of server/parse.c, where a command
-- is called. The functions of menu_commands.c are the argument `other`.
use lcdproc.Prelude.{
  Bool, Option, none, some, List, [], ◌∷◌, ◌++◌, if◌then◌else◌, ◌>>=◌, take, Bytes, codes, str_eq,
}
use lcdproc.Parser.{Parsed, arguments, refused, parse_line}
use lcdproc.ScreenList.{Ptr}
use lcdproc.Commands.{Server, Setup, Outcome, send_error}
use lcdproc.Commands.ClientCommands.{
  hello_func, bye_func, noop_func, client_set_func, client_add_key_func, client_del_key_func,
  backlight_func, test_func_func, info_func,
}
use lcdproc.Commands.ScreenCommands.{screen_add_func, screen_del_func, screen_set_func}
use lcdproc.Commands.WidgetCommands.{widget_add_func, widget_del_func, widget_set_func}
use lcdproc.Commands.ServerCommands.{output_func, sleep_func}

pub data Command : Type 0 where
  test_func hello client_set client_add_key client_del_key screen_add screen_del screen_set :
      Command
  widget_add widget_del widget_set menu_add_item menu_del_item menu_set_item menu_goto : Command
  menu_set_main backlight output noop info sleep bye : Command

-- The array `commands`.
abbrev pub commands : List (Bytes × Command)
commands =
    (codes "test_func", test_func)
    ∷ (codes "hello", hello)
    ∷ (codes "client_set", client_set)
    ∷ (codes "client_add_key", client_add_key)
    ∷ (codes "client_del_key", client_del_key)
    ∷ (codes "screen_add", screen_add)
    ∷ (codes "screen_del", screen_del)
    ∷ (codes "screen_set", screen_set)
    ∷ (codes "widget_add", widget_add)
    ∷ (codes "widget_del", widget_del)
    ∷ (codes "widget_set", widget_set)
    ∷ (codes "menu_add_item", menu_add_item)
    ∷ (codes "menu_del_item", menu_del_item)
    ∷ (codes "menu_set_item", menu_set_item)
    ∷ (codes "menu_goto", menu_goto)
    ∷ (codes "menu_set_main", menu_set_main)
    ∷ (codes "backlight", backlight)
    ∷ (codes "output", output)
    ∷ (codes "noop", noop)
    ∷ (codes "info", info)
    ∷ (codes "sleep", sleep)
    ∷ (codes "bye", bye)
    ∷ []

unfoldable pub lookup : Bytes → List (Bytes × Command) → Option Command
lookup cmd [] = none
lookup cmd ((keyword, function) ∷ rest) =
    if str_eq cmd keyword then some function else lookup cmd rest

-- `argv[0]` is NULL when there are no arguments.
unfoldable pub get_command_function : List Bytes → Option Command
get_command_function [] = none
get_command_function (cmd ∷ args) = lookup cmd commands

-- `argv[0]` as `%.40s` prints it; the GNU C library prints `(null)` for NULL.
abbrev pub shown : List Bytes → Bytes
shown [] = codes "(null)"
shown (cmd ∷ args) = take 40 cmd

-- What the functions need of their surroundings: the greeting that `hello` sends, the text of the
-- drivers that `info` sends, and the address that `malloc` gives to a new screen.
pub record Surroundings : Type 0 where
  pub setup : Setup
  pub greeting : Bytes
  pub driver_info : Bytes
  pub fresh : Ptr
  pub other : Command → Ptr → List Bytes → Server → Outcome

module _ (e : Surroundings) where
  unfoldable pub perform : Command → Ptr → List Bytes → Server → Outcome
  perform test_func c argv s = test_func_func c argv s
  perform hello c argv s = hello_func e.greeting c argv s
  perform client_set c argv s = client_set_func c argv s
  perform client_add_key c argv s = client_add_key_func c argv s
  perform client_del_key c argv s = client_del_key_func c argv s
  perform screen_add c argv s = screen_add_func e.setup e.fresh c argv s
  perform screen_del c argv s = screen_del_func c argv s
  perform screen_set c argv s = screen_set_func c argv s
  perform widget_add c argv s = widget_add_func c argv s
  perform widget_del c argv s = widget_del_func c argv s
  perform widget_set c argv s = widget_set_func e.setup.display c argv s
  perform backlight c argv s = backlight_func c argv s
  perform output c argv s = output_func c argv s
  perform noop c argv s = noop_func c argv s
  perform info c argv s = info_func e.driver_info c argv s
  perform sleep c argv s = sleep_func c argv s
  perform bye c argv s = bye_func c argv s
  perform command c argv s = e.other command c argv s

  unfoldable pub report_error : Ptr → List Bytes → Bool × Server → Server
  report_error c argv (error, s) =
      if error
      then send_error c (codes "Function returned error \"" ++ (shown argv ++ codes "\"\n")) s
      else s

  unfoldable pub call_function : Option Command → Ptr → List Bytes → Server → Option Server
  call_function none c argv s =
      some (send_error c (codes "Invalid command \"" ++ (shown argv ++ codes "\"\n")) s)
  call_function (some function) c argv s =
      perform function c argv s >>= λ r. some (report_error c argv r)

  unfoldable pub after_parse : Parsed → Ptr → Server → Option Server
  after_parse refused c s = some (send_error c (codes "Could not parse command\n") s)
  after_parse (arguments argv) c s = call_function (get_command_function argv) c argv s

  unfoldable pub parse_message : Bytes → Ptr → Server → Option Server
  parse_message str c s = parse_line str >>= λ parsed. after_parse parsed c s
