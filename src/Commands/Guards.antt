-- ===== src/Commands/Guards.antt =====
-- Commands of server/commands from a client that has not said hello.
use lcdproc.Prelude.{◌≡◌, true, false, some, List, ◌++◌, Bytes, codes}
use lcdproc.Parser.{arguments}
use lcdproc.Parser.Grammar.{meaning}
use lcdproc.Parser.Correct.{parse_line-meaning}
use lcdproc.ScreenList.{Ptr}
use lcdproc.Commands.{Client, Server, Outcome, when_ack, send_error}
use lcdproc.Commands.ClientCommands.{
  client_set_func, client_add_key_func, client_del_key_func, backlight_func,
}
use lcdproc.Commands.ScreenCommands.{screen_add_func, screen_del_func, screen_set_func}
use lcdproc.Commands.WidgetCommands.{widget_add_func, widget_del_func, widget_set_func}
use lcdproc.Commands.Dispatch.{
  Command, Surroundings, perform, get_command_function, call_function, report_error, after_parse,
  parse_message, shown, client_set, client_add_key, client_del_key, screen_add, screen_del,
  screen_set, backlight, widget_add, widget_del, widget_set,
}

-- The commands of a client that has said hello, but for those on menus.
pub data IsGuarded : Command → Type 0 where
  set_client : IsGuarded client_set
  add_key : IsGuarded client_add_key
  del_key : IsGuarded client_del_key
  add_screen : IsGuarded screen_add
  del_screen : IsGuarded screen_del
  set_screen : IsGuarded screen_set
  set_backlight : IsGuarded backlight
  add_widget : IsGuarded widget_add
  del_widget : IsGuarded widget_del
  set_widget : IsGuarded widget_set

when_ack-none :
    (c : Ptr) (s : Server) (x : Client) (body : Client → Outcome)
    → s.clients c ≡ some x
    → x.ack ≡ false
    → when_ack c s body ≡ some (true, s)
unfolding when_ack
when_ack-none c s x body e n = rw (e, n)

perform-IsGuarded :
    (e : Surroundings) (command : Command) (c : Ptr) (argv : List Bytes) (s : Server) (x : Client)
    → IsGuarded command
    → s.clients c ≡ some x
    → x.ack ≡ false
    → perform e command c argv s ≡ some (true, s)
unfolding perform client_set_func client_add_key_func client_del_key_func screen_add_func
    screen_del_func screen_set_func backlight_func widget_add_func widget_del_func widget_set_func
perform-IsGuarded e command c argv s x set_client h n = when_ack-none c s x _ h n
perform-IsGuarded e command c argv s x add_key h n = when_ack-none c s x _ h n
perform-IsGuarded e command c argv s x del_key h n = when_ack-none c s x _ h n
perform-IsGuarded e command c argv s x add_screen h n = when_ack-none c s x _ h n
perform-IsGuarded e command c argv s x del_screen h n = when_ack-none c s x _ h n
perform-IsGuarded e command c argv s x set_screen h n = when_ack-none c s x _ h n
perform-IsGuarded e command c argv s x set_backlight h n = when_ack-none c s x _ h n
perform-IsGuarded e command c argv s x add_widget h n = when_ack-none c s x _ h n
perform-IsGuarded e command c argv s x del_widget h n = when_ack-none c s x _ h n
perform-IsGuarded e command c argv s x set_widget h n = when_ack-none c s x _ h n

-- When a client that has not said hello sends a line that the grammar reads as one of
-- client_set, client_add_key, client_del_key, screen_add, screen_del, screen_set, widget_add,
-- widget_del, widget_set and backlight, parse_message changes nothing but the answer, which
-- reports an error.
pub parse_message-IsGuarded :
    (e : Surroundings) (command : Command) (c : Ptr) (str : Bytes) (argv : List Bytes) (s : Server)
    (x : Client)
    → s.clients c ≡ some x
    → x.ack ≡ false
    → meaning str ≡ arguments argv
    → get_command_function argv ≡ some command
    → IsGuarded command
    → parse_message e str c s
      ≡ some (send_error c (codes "Function returned error \"" ++ (shown argv ++ codes "\"\n")) s)
unfolding parse_message after_parse call_function report_error
parse_message-IsGuarded e command c str argv s x h n m f g =
    rw (parse_line-meaning str, m, f, perform-IsGuarded e command c argv s x g h n)
