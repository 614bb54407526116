-- ===== src/System/ServerScreen.antt =====
-- The screen of the server itself, of server/serverscreens.c. The text of a line is a buffer of 41
-- bytes there.
use lcdproc.Prelude.{ℕ, Bool, true, none, some, [], ◌==◌, if◌then◌else◌, Bytes, codes}
use lcdproc.Prelude.Int.{pos}
use lcdproc.Widgets.{
  Widget, Widgets, WidgetType, wid_string, wid_title, empty, widget_create, add_widget,
}
use lcdproc.ScreenList.{
  Ptr, null, Screen, Rotation, rank, info, background, screen_create, screenlist_add,
}
use lcdproc.Commands.{Setup}

-- The widget of a line; `type` is what the first line is changed to.
abbrev pub server_line : Bytes → ℕ → WidgetType → Bytes → Widget
server_line id line type text = record (widget_create id wid_string) {
  y = pos line;
  type = type;
  text = some text;
}

-- The loop over the lines, each of which goes to the end of the list.
unfoldable pub server_widgets : Widgets
unfolding add_widget
server_widgets = add_widget (server_line (codes "line4") 4 wid_string []) wid_string (
    add_widget (server_line (codes "line3") 3 wid_string []) wid_string (
      add_widget (server_line (codes "line2") 2 wid_string []) wid_string (
        add_widget (server_line (codes "line1") 1 wid_title (codes "LCDproc Server")) wid_string
          empty)))

-- `rotates` says whether the option ServerScreen is unset or 1.
abbrev pub server_screen : Setup → Bool → Screen
server_screen setup rotates =
    record (screen_create setup.display setup.default_duration setup.default_timeout
      (codes "_server_screen") null) {
        name = some (codes "Server screen");
        duration = 8;
        priority = if rotates then rank info else rank background;
        widgets = server_widgets;
      }

-- `server_screen_init`, with the screen at the address `p`, which `malloc` gives.
unfoldable pub server_screen_init : Setup → Bool → Ptr → Rotation → Rotation
server_screen_init setup rotates p r =
    (screenlist_add p (record r {
      screens = λ q. if q == p then some (server_screen setup rotates) else r.screens q;
    })).1

-- Before there is a screen.
abbrev pub no_screens : Rotation
no_screens = record {
  autorotate = true;
  screenlist = [];
  current_screen = null;
  start_time = 0;
  screens = λ p. none;
  client_screens = λ c. [];
  timer = 0;
  sent = [];
}
