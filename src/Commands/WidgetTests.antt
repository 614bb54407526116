-- ===== src/Commands/WidgetTests.antt =====
-- Commands on the widgets of one screen, for server/commands/widget_commands.c.
use lcdproc.Prelude.{
  ◌≡◌, ◌⊎◌, refl, true, false, none, some, List, [], ◌∷◌, ◌==◌, if◌then◌else◌, arith, Bytes, codes,
  Bool-cases, inl, inr,
}
use lcdproc.Prelude.Int.{pos, negsuc}
use lcdproc.Widgets.{Widgets, wid_string, wid_frame, empty, plain, framed, widget_create}
use lcdproc.ScreenList.{Screen, Display, screen_create, get_screen}
use lcdproc.Commands.{Client, Server}
use lcdproc.Commands.Sound.{Sound}
use lcdproc.Commands.Stored.{Refused}
use lcdproc.Commands.WidgetCommands.{widget_set_func}
use lcdproc.Commands.WidgetSetting.{Unwritable, Writes, widget_set-Writes}

abbrev display : Display
display = record { width = 20; height = 4 }

-- A string, and a frame with a string in it.
abbrev clock : Screen
clock = record (screen_create display 32 (negsuc 0) (codes "clock") 9) {
  widgets = plain (widget_create (codes "text") wid_string) (
      framed (widget_create (codes "box") wid_frame)
        (plain (widget_create (codes "inner") wid_string) empty) empty);
}

abbrev known : Client
known = record { name = none; ack = true; backlight = 2; heartbeat = 2 }

abbrev server : Server
server = record {
  rotation = record {
    autorotate = true;
    screenlist = 30 ∷ [];
    current_screen = 0;
    start_time = 0;
    screens = λ p. if p == 30 then some clock else none;
    client_screens = λ c. if c == 9 then 30 ∷ [] else [];
    timer = 0;
    sent = [];
  };
  clients = λ c. if c == 9 then some known else none;
  keylist = [];
  output_state = pos 0;
  replies = [];
}

server-Sound : Sound server.rotation
unfolding get_screen
server-Sound = record {
  well_formed = record {
    readable = ((clock, refl), tt);
    listed = λ ne. absurd (ne refl);
    in_touch = record { in_turn = tt; readable = λ ne. absurd (ne refl); current_is = refl };
  };
  once = (tt, tt);
  owned = λ c. elim (Bool-cases (c == 9)) [
    | inl y ↦ rw y ((clock, refl, ground (arith, y)), tt)
    | inr n ↦ rw n tt
  ];
  each_once = λ c. elim (Bool-cases (c == 9)) [ inl y ↦ rw y (tt, tt) | inr n ↦ rw n tt ];
}

widget_set-Writes_example :
    (s' : Server) × (widget_set_func display 9
        (codes "widget_set"
          ∷ codes "clock"
          ∷ codes "inner"
          ∷ codes "1"
          ∷ codes "2"
          ∷ codes "noon"
          ∷ [])
        server
      ≡ some (false, s'))
    × Sound s'.rotation
    × ((Refused 9 server s' × Unwritable 9 (codes "clock") (codes "inner") server)
        ⊎ Writes display 9
            (codes "clock")
            (codes "inner")
            (codes "1" ∷ codes "2" ∷ codes "noon" ∷ [])
            server
            s')
widget_set-Writes_example =
    widget_set-Writes display 9 (codes "widget_set") (codes "clock") (codes "inner") (codes "1")
      (codes "2" ∷ codes "noon" ∷ []) server known refl refl server-Sound (λ e. ground (arith, e))

abbrev flags : List Bytes
flags = codes "-in" ∷ codes "box" ∷ []
