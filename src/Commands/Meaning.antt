-- ===== src/Commands/Meaning.antt =====
-- The arguments of `widget_set`, for server/commands/widget_commands.c: a table of what each type
-- of widget takes, and one reading of all its rows. The code has a case for each type instead.
use lcdproc.Prelude.{
  ℕ, ◌≡◌, refl, Bool, true, false, ◌||◌, Option, none, some, List, [], ◌∷◌, ◌==◌, Bool-cases, inl,
  inr, if◌then◌else◌, ◌>>=◌, Bytes,
}
use lcdproc.Prelude.Int.{ℤ, pos, negsuc}
use lcdproc.ScreenList.{Display}
use lcdproc.Widgets.{
  WidgetType, wid_none, wid_string, wid_hbar, wid_vbar, wid_icon, wid_title, wid_scroller,
  wid_frame, wid_num, Widget,
}
use lcdproc.Widgets.Names.{widget_iconname_to_icon}
use lcdproc.Commands.{atoi}
use lcdproc.Commands.WidgetCommands.{
  Answer, huh, Change, accept, first_char, starts_with_digit, set_icon_number, set_string, set_bar,
  set_icon, set_title, set_scroller, set_frame, set_num, change_widget,
}

-- What an argument stands for: a number that must start with a digit, any number, a text, an icon's
-- name, or one of some letters.
data Slot : Type 0 where
  coordinate : (ℤ → Widget → Widget) → Slot
  number : (ℤ → Widget → Widget) → Slot
  words : Slot
  icon : Slot
  direction : List ℕ → Slot

abbrev to_x : ℤ → Widget → Widget
to_x n w = record w { x = n }

abbrev to_y : ℤ → Widget → Widget
to_y n w = record w { y = n }

abbrev to_length : ℤ → Widget → Widget
to_length n w = record w { length = n }

abbrev to_speed : ℤ → Widget → Widget
to_speed n w = record w { speed = n }

abbrev corners : List Slot → List Slot
corners more =
    coordinate (λ n w. record w { left = n })
    ∷ coordinate (λ n w. record w { top = n })
    ∷ coordinate (λ n w. record w { right = n })
    ∷ coordinate (λ n w. record w { bottom = n })
    ∷ more

-- What the arguments of each type are.
slots : WidgetType → List Slot
slots wid_none = []
slots wid_string = coordinate to_x ∷ coordinate to_y ∷ words ∷ []
slots wid_hbar = coordinate to_x ∷ coordinate to_y ∷ number to_length ∷ []
slots wid_vbar = coordinate to_x ∷ coordinate to_y ∷ number to_length ∷ []
slots wid_icon = coordinate to_x ∷ coordinate to_y ∷ icon ∷ []
slots wid_title = words ∷ []
slots wid_scroller = corners (direction (b'h' ∷ b'v' ∷ b'm' ∷ []) ∷ number to_speed ∷ words ∷ [])
slots wid_frame = corners (
    coordinate (λ n w. record w { width = n })
    ∷ coordinate (λ n w. record w { height = n })
    ∷ direction (b'h' ∷ b'v' ∷ [])
    ∷ number to_speed
    ∷ [])
slots wid_num = coordinate to_x ∷ coordinate to_y ∷ []

among : ℕ → List ℕ → Bool
among c [] = false
among c (a ∷ rest) = c == a || among c rest

icon_to : ℤ → Widget → Option Widget
icon_to (pos n) w = some (to_length (pos n) w)
icon_to (negsuc n) w = none

put : Slot → Bytes → Widget → Option Widget
put (coordinate to) arg w = if starts_with_digit arg then some (to (atoi arg) w) else none
put (number to) arg w = some (to (atoi arg) w)
put words arg w = some (record w { text = some arg })
put icon arg w = icon_to (widget_iconname_to_icon arg) w
put (direction letters) arg w =
    if among (first_char arg) letters then some (to_length (pos (first_char arg)) w) else none

fill : List Slot → List Bytes → Widget → Option Widget
fill (slot ∷ more) (arg ∷ args) w = put slot arg w >>= λ v. fill more args v
fill _ _ w = some w

as_many : List Slot → List Bytes → Bool
as_many [] [] = true
as_many (slot ∷ more) (arg ∷ args) = as_many more args
as_many _ _ = false

-- A title is as wide as the display.
widened : Display → WidgetType → Widget → Widget
widened display wid_title w = record w { width = pos display.width }
widened display _ w = w

-- What the arguments make of a widget: none unless there are as many as its type takes and each is
-- right.
pub meaning : Display → WidgetType → List Bytes → Widget → Option Widget
meaning display type args w =
    if as_many (slots type) args then fill (slots type) args (widened display type w) else none

-- A change makes what the arguments mean and reports success alone; or they mean nothing, the
-- widget stays as it was and the first thing reported is an error.
abbrev pub Makes : Option Widget → Widget → Change → Type 0
Makes (some v) w r = r ≡ accept v
Makes none w r = (text : Bytes) × (rest : List Answer) × (r ≡ (w, huh text ∷ rest))

module _ (display : Display) (w : Widget) where
  abbrev Good : WidgetType → List Bytes → Type 0
  Good type args = Makes (meaning display type args w) w (change_widget display type w args)

  string-Makes : (x y text : Bytes) → Good wid_string (x ∷ y ∷ text ∷ [])
  unfolding meaning slots as_many fill put widened change_widget set_string
  string-Makes x y text = elim (Bool-cases (starts_with_digit x)) [
    | inr n ↦ rw n (_, _, refl)
    | inl a ↦ elim (Bool-cases (starts_with_digit y)) [
      | inr n ↦ rw (a, n) (_, _, refl)
      | inl b ↦ rw (a, b) refl
    ]
  ]

  hbar-Makes : (x y amount : Bytes) → Good wid_hbar (x ∷ y ∷ amount ∷ [])
  unfolding meaning slots as_many fill put widened change_widget set_bar
  hbar-Makes x y amount = elim (Bool-cases (starts_with_digit x)) [
    | inr n ↦ rw (n) (_, _, refl)
    | inl a ↦ elim (Bool-cases (starts_with_digit y)) [
      | inr n ↦ rw (a, n) (_, _, refl)
      | inl b ↦ rw (a, b) refl
    ]
  ]

  vbar-Makes : (x y amount : Bytes) → Good wid_vbar (x ∷ y ∷ amount ∷ [])
  unfolding meaning slots as_many fill put widened change_widget set_bar
  vbar-Makes x y amount = elim (Bool-cases (starts_with_digit x)) [
    | inr n ↦ rw (n) (_, _, refl)
    | inl a ↦ elim (Bool-cases (starts_with_digit y)) [
      | inr n ↦ rw (a, n) (_, _, refl)
      | inl b ↦ rw (a, b) refl
    ]
  ]

  num-Makes : (x digit : Bytes) → Good wid_num (x ∷ digit ∷ [])
  unfolding meaning slots as_many fill put widened change_widget set_num
  num-Makes x digit = elim (Bool-cases (starts_with_digit x)) [
    | inr n ↦ rw (n) (_, _, refl)
    | inl a ↦ elim (Bool-cases (starts_with_digit digit)) [
      | inr n ↦ rw (a, n) (_, _, refl)
      | inl b ↦ rw (a, b) refl
    ]
  ]

  scroller-Makes :
      (left top right bottom way speed text : Bytes)
      → Good wid_scroller (left ∷ top ∷ right ∷ bottom ∷ way ∷ speed ∷ text ∷ [])
  unfolding meaning slots as_many fill put widened change_widget set_scroller among
  scroller-Makes left top right bottom way speed text = elim (Bool-cases (starts_with_digit left)) [
    | inr n ↦ rw (n) (_, _, refl)
    | inl a ↦ elim (Bool-cases (starts_with_digit top)) [
      | inr n ↦ rw (a, n) (_, _, refl)
      | inl b ↦ elim (Bool-cases (starts_with_digit right)) [
        | inr n ↦ rw (a, b, n) (_, _, refl)
        | inl c ↦ elim (Bool-cases (starts_with_digit bottom)) [
          | inr n ↦ rw (a, b, c, n) (_, _, refl)
          | inl d ↦ elim (Bool-cases (first_char way == b'h')) [
            | inl y ↦ rw (a, b, c, d, y) refl
            | inr n ↦ elim (Bool-cases (first_char way == b'v')) [
              | inl y ↦ rw (a, b, c, d, n, y) refl
              | inr o ↦ elim (Bool-cases (first_char way == b'm')) [
                | inl y ↦ rw (a, b, c, d, n, o, y) refl
                | inr p ↦ rw (a, b, c, d, n, o, p) (_, _, refl)
              ]
            ]
          ]
        ]
      ]
    ]
  ]

  frame-Makes :
      (left top right bottom width height way speed : Bytes)
      → Good wid_frame (left ∷ top ∷ right ∷ bottom ∷ width ∷ height ∷ way ∷ speed ∷ [])
  unfolding meaning slots as_many fill put widened change_widget set_frame among
  frame-Makes left top right bottom width height way speed =
      elim (Bool-cases (starts_with_digit left)) [
        | inr n ↦ rw (n) (_, _, refl)
        | inl a ↦ elim (Bool-cases (starts_with_digit top)) [
          | inr n ↦ rw (a, n) (_, _, refl)
          | inl b ↦ elim (Bool-cases (starts_with_digit right)) [
            | inr n ↦ rw (a, b, n) (_, _, refl)
            | inl c ↦ elim (Bool-cases (starts_with_digit bottom)) [
              | inr n ↦ rw (a, b, c, n) (_, _, refl)
              | inl d ↦ elim (Bool-cases (starts_with_digit width)) [
                | inr n ↦ rw (a, b, c, d, n) (_, _, refl)
                | inl e ↦ elim (Bool-cases (starts_with_digit height)) [
                  | inr n ↦ rw (a, b, c, d, e, n) (_, _, refl)
                  | inl f ↦ elim (Bool-cases (first_char way == b'h')) [
                    | inl y ↦ rw (a, b, c, d, e, f, y) refl
                    | inr n ↦ elim (Bool-cases (first_char way == b'v')) [
                      | inl y ↦ rw (a, b, c, d, e, f, n, y) refl
                      | inr o ↦ rw (a, b, c, d, e, f, n, o) (_, _, refl)
                    ]
                  ]
                ]
              ]
            ]
          ]
        ]
      ]

  icon_to-Makes :
      (x y : Bytes) (icon : ℤ)
      → Makes
          (icon_to icon (to_y (atoi y) (to_x (atoi x) w)) >>= λ v. some v)
          w
          (set_icon_number w x y icon)
  unfolding icon_to
  icon_to-Makes x y (pos n) = refl
  icon_to-Makes x y (negsuc n) = (_, _, refl)

  icon-Makes : (x y name : Bytes) → Good wid_icon (x ∷ y ∷ name ∷ [])
  unfolding meaning slots as_many fill put widened change_widget set_icon
  icon-Makes x y name = elim (Bool-cases (starts_with_digit x)) [
    | inr n ↦ rw n (_, _, refl)
    | inl a ↦ elim (Bool-cases (starts_with_digit y)) [
      | inr n ↦ rw (a, n) (_, _, refl)
      | inl b ↦ rw (a, b) (icon_to-Makes x y (widget_iconname_to_icon name))
    ]
  ]

-- `widget_set` changes a widget as its arguments mean, for every type and any arguments.
pub change_widget-Makes :
    (display : Display) (type : WidgetType) (w : Widget) (arg : Bytes) (args : List Bytes)
    → Makes (meaning display type (arg ∷ args) w) w (change_widget display type w (arg ∷ args))
unfolding meaning slots as_many fill put widened change_widget set_string set_bar set_icon set_title
    set_scroller set_frame set_num
change_widget-Makes display wid_string w x (y ∷ text ∷ []) = string-Makes display w x y text
change_widget-Makes display wid_hbar w x (y ∷ amount ∷ []) = hbar-Makes display w x y amount
change_widget-Makes display wid_vbar w x (y ∷ amount ∷ []) = vbar-Makes display w x y amount
change_widget-Makes display wid_icon w x (y ∷ name ∷ []) = icon-Makes display w x y name
change_widget-Makes display wid_title w text [] = refl
change_widget-Makes display wid_scroller w l (t ∷ r ∷ b ∷ way ∷ speed ∷ text ∷ []) =
    scroller-Makes display w l t r b way speed text
change_widget-Makes display wid_frame w l (t ∷ r ∷ b ∷ x ∷ y ∷ way ∷ speed ∷ []) =
    frame-Makes display w l t r b x y way speed
change_widget-Makes display wid_num w x (digit ∷ []) = num-Makes display w x digit
change_widget-Makes display _ w arg _ = (_, _, refl)
