-- ===== src/Commands/WidgetCommands.antt =====
-- server/commands/widget_commands.c. A failed allocation is left out.
use lcdproc.Prelude.{
  ℕ, Bool, true, false, not, ◌&&◌, ◌||◌, Option, none, some, List, [], ◌∷◌, ◌==◌, leb,
  if◌then◌else◌, ◌>>=◌, Bytes, codes, str_eq,
}
use lcdproc.Prelude.Int.{ℤ, pos, negsuc}
use lcdproc.Widgets.{
  WidgetType, wid_none, wid_string, wid_hbar, wid_vbar, wid_icon, wid_title, wid_scroller,
  wid_frame, wid_num, Widget, Widgets, Place, widget_create, find_widget, widget_at, set_at,
  add_widget, add_in_frame, remove_widget,
}
use lcdproc.Widgets.Names.{widget_typename_to_type, widget_iconname_to_icon}
use lcdproc.ScreenList.{Ptr, null, Screen, Display, get_screen}
use lcdproc.Commands.{
  Server, Outcome, send_string, send_error, say, complain, success, when_ack, strip_dash, atoi,
  client_find_screen,
}
use lcdproc.Commands.ScreenCommands.{store_screen}

-- The screen with other widgets.
abbrev pub with_widgets : Screen → Widgets → Screen
with_widgets x ws = record x { widgets = ws }

abbrev pub is_none : WidgetType → Bool
is_none wid_none = true
is_none _ = false

-- `widget_create` and `screen_add_widget`, on the screen or in the frame named.
unfoldable pub place_widget : Ptr → Ptr → Screen → Bytes → WidgetType → Server → Outcome
place_widget c p x wid type s =
    say c success
      (store_screen p (with_widgets x (add_widget (widget_create wid type) type x.widgets)) s)

-- `frame` is what `screen_find_widget` returns.
unfoldable pub place_in_frame :
    Ptr → Ptr → Screen → Bytes → WidgetType → Option Place → Server → Outcome
place_in_frame c p x wid type none s = complain c (codes "Error finding frame\n") s
place_in_frame c p x wid type (some frame) s = do
  ws ← add_in_frame frame (widget_create wid type) type x.widgets
  say c success (store_screen p (with_widgets x ws) s)

-- The arguments behind the type: `-in` and the name of a frame; another flag is ignored.
unfoldable pub add_with_flags :
    Ptr → Ptr → Screen → Bytes → WidgetType → List Bytes → Server → Outcome
add_with_flags c p x wid type [] s = place_widget c p x wid type s
add_with_flags c p x wid type (flag ∷ []) s =
    if str_eq (strip_dash flag) (codes "in")
    then complain c (codes "Specify a frame to place widget in\n") s
    else place_widget c p x wid type s
add_with_flags c p x wid type (flag ∷ frame ∷ rest) s =
    if str_eq (strip_dash flag) (codes "in")
    then place_in_frame c p x wid type (find_widget frame x.widgets) s
    else place_widget c p x wid type s

abbrev pub add_usage : Bytes
add_usage = codes "Usage: widget_add <screenid> <widgetid> <widgettype> [-in <id>]\n"

unfoldable pub add_checked : Ptr → Bytes → Bytes → Bytes → List Bytes → Server → Outcome
add_checked c sid wid typename flags s = do
  p ← client_find_screen c sid s.rotation
  if p == null
      then complain c (codes "Invalid screen id\n") s
      else (let type = widget_typename_to_type typename in
          if is_none type
          then complain c (codes "Invalid widget type\n") s
          else get_screen s.rotation p >>= λ x. add_with_flags c p x wid type flags s)

-- Four to six arguments, with the name of the command.
unfoldable pub add_to_screen : Ptr → List Bytes → Server → Outcome
add_to_screen c (cmd ∷ sid ∷ wid ∷ typename ∷ []) s = add_checked c sid wid typename [] s
add_to_screen c (cmd ∷ sid ∷ wid ∷ typename ∷ flag ∷ []) s =
    add_checked c sid wid typename (flag ∷ []) s
add_to_screen c (cmd ∷ sid ∷ wid ∷ typename ∷ flag ∷ frame ∷ []) s =
    add_checked c sid wid typename (flag ∷ frame ∷ []) s
add_to_screen c argv s = complain c add_usage s

unfoldable pub widget_add_func : Ptr → List Bytes → Server → Outcome
widget_add_func c argv s = when_ack c s λ client. add_to_screen c argv s

-- `screen_remove_widget` never fails.
unfoldable pub delete_found : Ptr → Ptr → Screen → Option Place → Server → Outcome
delete_found c p x none s = complain c (codes "Invalid widget id\n") s
delete_found c p x (some place) s =
    say c success (store_screen p (with_widgets x (remove_widget place x.widgets)) s)

unfoldable pub delete_widget : Ptr → List Bytes → Server → Outcome
delete_widget c (cmd ∷ sid ∷ wid ∷ []) s = do
  p ← client_find_screen c sid s.rotation
  if p == null
      then complain c (codes "Invalid screen id\n") s
      else (do x ← get_screen s.rotation p; delete_found c p x (find_widget wid x.widgets) s)
delete_widget c argv s = complain c (codes "Usage: widget_del <screenid> <widgetid>\n") s

unfoldable pub widget_del_func : Ptr → List Bytes → Server → Outcome
widget_del_func c argv s = when_ack c s λ client. delete_widget c argv s

-- What a client is told: an error or a line.
pub data Answer : Type 0 where
  huh : Bytes → Answer
  line : Bytes → Answer

unfoldable pub send_all : Ptr → List Answer → Server → Server
send_all c [] s = s
send_all c (huh text ∷ answers) s = send_all c answers (send_error c text s)
send_all c (line text ∷ answers) s = send_all c answers (send_string c text s)

-- `isdigit(argv[i][0])`; the string may be empty.
unfoldable pub starts_with_digit : Bytes → Bool
starts_with_digit [] = false
starts_with_digit (c ∷ cs) = leb b'0' c && leb c b'9'

-- `argv[i][0]`
abbrev pub first_char : Bytes → ℕ
first_char [] = 0
first_char (c ∷ cs) = c

abbrev pub Change : Type 0
Change = Widget × List Answer

abbrev pub refuse : Widget → Bytes → Change
refuse w text = (w, huh text ∷ [])

abbrev pub accept : Widget → Change
accept w = (w, line success ∷ [])

abbrev pub wrong_number : Widget → Change
wrong_number w = refuse w (codes "Wrong number of arguments\n")

abbrev pub bad_coordinates : Widget → Change
bad_coordinates w = refuse w (codes "Invalid coordinates\n")

unfoldable pub set_string : Widget → List Bytes → Change
set_string w (x ∷ y ∷ text ∷ []) =
    if not (starts_with_digit x) || not (starts_with_digit y)
    then bad_coordinates w
    else accept (record w { x = atoi x; y = atoi y; text = some text })
set_string w args = wrong_number w

-- Success is reported whatever the coordinates are.
unfoldable pub set_bar : Widget → List Bytes → Change
set_bar w (x ∷ y ∷ length ∷ []) =
    if not (starts_with_digit x) || not (starts_with_digit y)
    then (w, huh (codes "Invalid coordinates\n") ∷ line success ∷ [])
    else accept (record w { x = atoi x; y = atoi y; length = atoi length })
set_bar w args = wrong_number w

-- An icon's number, -1 for an unknown name.
abbrev pub set_icon_number : Widget → Bytes → Bytes → ℤ → Change
set_icon_number w x y (pos icon) = accept (record w { x = atoi x; y = atoi y; length = pos icon })
set_icon_number w x y (negsuc n) = refuse w (codes "Invalid icon name\n")

unfoldable pub set_icon : Widget → List Bytes → Change
set_icon w (x ∷ y ∷ icon ∷ []) =
    if not (starts_with_digit x) || not (starts_with_digit y)
    then bad_coordinates w
    else set_icon_number w x y (widget_iconname_to_icon icon)
set_icon w args = wrong_number w

unfoldable pub set_title : Display → Widget → List Bytes → Change
set_title display w (text ∷ []) = accept (record w { text = some text; width = pos display.width })
set_title display w args = wrong_number w

unfoldable pub set_scroller : Widget → List Bytes → Change
set_scroller w (left ∷ top ∷ right ∷ bottom ∷ direction ∷ speed ∷ text ∷ []) =
    if not (starts_with_digit left)
      || not (starts_with_digit top)
      || not (starts_with_digit right)
      || not (starts_with_digit bottom)
    then bad_coordinates w
    else if not (first_char direction == b'h')
        && not (first_char direction == b'v')
        && not (first_char direction == b'm')
    then refuse w (codes "Invalid direction\n")
    else accept (record w {
      left = atoi left;
      top = atoi top;
      right = atoi right;
      bottom = atoi bottom;
      length = pos (first_char direction);
      speed = atoi speed;
      text = some text;
    })
set_scroller w args = wrong_number w

unfoldable pub set_frame : Widget → List Bytes → Change
set_frame w (left ∷ top ∷ right ∷ bottom ∷ width ∷ height ∷ direction ∷ speed ∷ []) =
    if not (starts_with_digit left)
      || not (starts_with_digit top)
      || not (starts_with_digit right)
      || not (starts_with_digit bottom)
      || not (starts_with_digit width)
      || not (starts_with_digit height)
    then bad_coordinates w
    else if not (first_char direction == b'h') && not (first_char direction == b'v')
    then refuse w (codes "Invalid direction\n")
    else accept (record w {
      left = atoi left;
      top = atoi top;
      right = atoi right;
      bottom = atoi bottom;
      width = atoi width;
      height = atoi height;
      length = pos (first_char direction);
      speed = atoi speed;
    })
set_frame w args = wrong_number w

-- Success is reported whatever the arguments are.
unfoldable pub set_num : Widget → List Bytes → Change
set_num w (x ∷ number ∷ []) =
    if not (starts_with_digit x)
    then (w, huh (codes "Invalid coordinates\n") ∷ line success ∷ [])
    else if not (starts_with_digit number)
    then (w, huh (codes "Invalid number\n") ∷ line success ∷ [])
    else accept (record w { x = atoi x; y = atoi number })
set_num w args = wrong_number w

unfoldable pub change_widget : Display → WidgetType → Widget → List Bytes → Change
change_widget display wid_none w args = refuse w (codes "Widget has no type\n")
change_widget display wid_string w args = set_string w args
change_widget display wid_hbar w args = set_bar w args
change_widget display wid_vbar w args = set_bar w args
change_widget display wid_icon w args = set_icon w args
change_widget display wid_title w args = set_title display w args
change_widget display wid_scroller w args = set_scroller w args
change_widget display wid_frame w args = set_frame w args
change_widget display wid_num w args = set_num w args

unfoldable pub set_found :
    Display → Ptr → Ptr → Screen → List Bytes → Option Place → Server → Outcome
set_found display c p x args none s = complain c (codes "Unknown widget id\n") s
set_found display c p x args (some place) s = do
  w ← widget_at place x.widgets
  let (w', answers) = change_widget display w.type w args
  let x' = with_widgets x (set_at place w' x.widgets)
  some (false, send_all c answers (store_screen p x' s))

unfoldable pub set_widget : Display → Ptr → List Bytes → Server → Outcome
set_widget display c (cmd ∷ sid ∷ wid ∷ arg ∷ args) s = do
  p ← client_find_screen c sid s.rotation
  if p == null then complain c (codes "Unknown screen id\n") s else (do
    x ← get_screen s.rotation p
    set_found display c p x (arg ∷ args) (find_widget wid x.widgets) s)
set_widget display c argv s =
    complain c (codes "Usage: widget_set <screenid> <widgetid> <widget-SPECIFIC-data>\n") s

unfoldable pub widget_set_func : Display → Ptr → List Bytes → Server → Outcome
widget_set_func display c argv s = when_ack c s λ client. set_widget display c argv s
