-- ===== src/System/Lines.antt =====
-- A line of a client: `parse_message` of server/parse.c in a live state.
use lcdproc.Prelude.{◌≡◌, refl, Bool, true, false, Option, none, some, List, Bytes}
use lcdproc.Parser.{Parsed, arguments, refused}
use lcdproc.Parser.Grammar.{meaning}
use lcdproc.Parser.Correct.{parse_line-meaning}
use lcdproc.ScreenList.{Ptr}
use lcdproc.Commands.{Server}
use lcdproc.Commands.Adding.{IsFree}
use lcdproc.Commands.Dispatch.{
  Command, test_func, hello, client_set, client_add_key, client_del_key, screen_add, screen_del,
  screen_set, widget_add, widget_del, widget_set, menu_add_item, menu_del_item, menu_set_item,
  menu_goto, menu_set_main, backlight, output, noop, info, sleep, bye, Surroundings, perform,
  report_error, call_function, after_parse, parse_message, get_command_function,
}
use lcdproc.System.Live.{Connected, Live, Fine, Live-send_error}
use lcdproc.System.Safety.{Safe, SafeCall, SafeParsed, SafeLine}
use lcdproc.System.ClientLines.{
  hello-Fine, test_func-Fine, info-Fine, bye-Fine, noop-Fine, client_set-Fine, client_add_key-Fine,
  client_del_key-Fine, backlight-Fine, output-Fine, sleep-Fine,
}
use lcdproc.System.ScreenLines.{
  screen_add-Fine, screen_del-Fine, screen_set-Fine, widget_add-Fine, widget_del-Fine,
  widget_set-Fine,
}

module _ (e : Surroundings) (c : Ptr) (s : Server) (free : IsFree s.rotation e.fresh)
    (at : Connected s c) (l : Live s) where
  perform-Fine :
      (command : Command) (argv : List Bytes)
      → Safe command c argv s
      → Fine (perform e command c argv s)
  unfolding perform
  perform-Fine test_func argv h = test_func-Fine c argv s l
  perform-Fine hello argv h = hello-Fine c e.greeting argv s at l
  perform-Fine client_set argv h = client_set-Fine c argv s at l
  perform-Fine client_add_key argv h = client_add_key-Fine c argv s at l
  perform-Fine client_del_key argv h = client_del_key-Fine c argv s at l
  perform-Fine screen_add argv h = screen_add-Fine c e.setup e.fresh argv s free at l
  perform-Fine screen_del argv h = screen_del-Fine c argv s at l
  perform-Fine screen_set argv h = screen_set-Fine c argv s at l
  perform-Fine widget_add argv h = widget_add-Fine c argv s h at l
  perform-Fine widget_del argv h = widget_del-Fine c argv s at l
  perform-Fine widget_set argv h = widget_set-Fine c e.setup.display argv s at l
  perform-Fine menu_add_item argv h = absurd h
  perform-Fine menu_del_item argv h = absurd h
  perform-Fine menu_set_item argv h = absurd h
  perform-Fine menu_goto argv h = absurd h
  perform-Fine menu_set_main argv h = absurd h
  perform-Fine backlight argv h = backlight-Fine c argv s at l
  perform-Fine output argv h = output-Fine c argv s h l
  perform-Fine noop argv h = noop-Fine c argv s l
  perform-Fine info argv h = info-Fine c e.driver_info argv s at l
  perform-Fine sleep argv h = sleep-Fine c argv s h l
  perform-Fine bye argv h = bye-Fine c argv s l

  -- A call that ends in a live state.
  abbrev Handles : Option Server → Type 0
  Handles result = (s' : Server) × (result ≡ some s') × Live s'

  report_error-Live :
      (argv : List Bytes) (b : Bool) (s' : Server) → Live s' → Live (report_error e c argv (b, s'))
  unfolding report_error
  report_error-Live argv true s' l' = Live-send_error c _ s' l'
  report_error-Live argv false s' l' = l'

  call_function-Handles :
      (function : Option Command) (argv : List Bytes)
      → SafeCall function c argv s
      → Handles (call_function e function c argv s)
  unfolding call_function
  call_function-Handles none argv h = (_, refl, Live-send_error c _ s l)
  call_function-Handles (some function) argv h =
      let (b, s', go, l') = perform-Fine function argv h in
      rw go (_, refl, report_error-Live argv b s' l')

  after_parse-Handles :
      (parsed : Parsed) → SafeParsed parsed c s → Handles (after_parse e parsed c s)
  unfolding after_parse
  after_parse-Handles refused h = (_, refl, Live-send_error c _ s l)
  after_parse-Handles (arguments argv) h = call_function-Handles (get_command_function argv) argv h

  pub parse_message-Handles : (str : Bytes) → SafeLine c str s → Handles (parse_message e str c s)
  unfolding parse_message
  parse_message-Handles str h = rw (parse_line-meaning str) (after_parse-Handles (meaning str) h)

-- property
pub parse_message-Live :
    (e : Surroundings) (c : Ptr) (str : Bytes) (s : Server)
    → IsFree s.rotation e.fresh
    → Connected s c
    → SafeLine c str s
    → Live s
    → (s' : Server) × (parse_message e str c s ≡ some s') × Live s'
parse_message-Live e c str s free at h l = parse_message-Handles e c s free at l str h
