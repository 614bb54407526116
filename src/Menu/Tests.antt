-- ===== src/Menu/Tests.antt =====
-- Keys for the items of server/menuitem.c and a menu of server/menu.c.
use lcdproc.Prelude.{
  ◌+◌, ◌≤◌, ◌⊎◌, ◌>>=◌, ◌++◌, ℕ, ◌≡◌, refl, Bool, true, false, none, some, List, [], ◌∷◌, arith,
  codes,
}
use Prim.Native.String.{String}
use mathlib.Core.Option
use lcdproc.Prelude.Int.{pos, ◌+ℤ◌, ◌-ℤ◌}
use lcdproc.Menu.{
  MenuToken, menutoken_enter, menutoken_up, menutoken_down, menutoken_left, menutoken_right,
  menutoken_other, menuitem_successor2menuresult, Links, Press,
}
use lcdproc.Menu.Slider.{Slider, menuitem_create_slider, menuitem_process_input_slider}
use lcdproc.Parser.{c_string}
use lcdproc.Menu.Editor.{Editor, completed, write_char, go_right}
use lcdproc.Commands.{decimal, digits_value, is_space}
use lcdproc.Commands.ServerCommands.{to_int, digits, digit_of}
use lcdproc.Menu.Numeric.{
  numeric_token, typed_numeric, enter_numeric, store_numeric, max_len, allow_signed, format,
  snprintf, is_digit, scan_int, scan_digits, Numeric, menuitem_create_numeric,
  menuitem_reset_numeric, menuitem_process_input_numeric,
}
use lcdproc.Menu.Alpha.{
  Alpha, chars, contains, menuitem_create_alpha, menuitem_reset_alpha, menuitem_process_input_alpha,
}
use lcdproc.Menu.Ip.{
  show_position, Ip, menuitem_reset_ip, menuitem_process_input_ip, ip_token, turn_ip, ip_right,
  place_ip, digit_value, copy_in, group_start, raise, lower, int_in, unsigned_in, skip_prefix,
  format_group, pad, show_in, digit_char, groups, joined, behind_sep, at_last,
}
use lcdproc.Menu.Shown.{place_ip-ends}
use lcdproc.Menu.Overflow.{separators, menuitem_reset_ip-overflows}
use lcdproc.Menu.Navigation.{
  MenuItem, Menu, Content, menuitem_checkbox, menuitem_ring, menuitem_action, menu_process_input,
  menu_reset, menu_visible_item_count, checkbox_down,
}
use lcdproc.Menu.Presses.{press_all}
use lcdproc.Menu.Refilled.{InRange, Allowed}
use lcdproc.Menu.InRange.{press_all-InRange}
use lcdproc.Menu.Allowed.{press_all-Allowed}
use lcdproc.Menu.Sliding.{Between, press_all-Between}
use lcdproc.Menu.Selected.{Selected, press_all-Selected}

abbrev no_links : Links
no_links = record { predecessor_id = none; successor_id = none }

abbrev press : MenuToken → Press
press token = record { token = token; key = []; extended = false }

abbrev type_key : ℕ → Press
type_key c = record { token = menutoken_other; key = c ∷ []; extended = false }

-- The value 25, over a 7 that is there.
abbrev number_keys : List Press
number_keys = type_key b'2' ∷ type_key b'5' ∷ press menutoken_enter ∷ []

press_all-InRange_example :
    (item : Numeric) × (press_all
        (λ p. menuitem_process_input_numeric 20 p no_links)
        number_keys
        (menuitem_reset_numeric (menuitem_create_numeric [] (pos 0) (pos 100) (pos 7)))
      ≡ some item)
    × InRange (pos 0) (pos 100) item
press_all-InRange_example =
    press_all-InRange [] (pos 0) (pos 100) (pos 7) 20 no_links number_keys (omega arith)
      (omega arith)

number_is_taken :
    Option.map
      (λ (item : Numeric). item.value)
      (press_all
        (λ p. menuitem_process_input_numeric 20 p no_links)
        number_keys
        (menuitem_reset_numeric (menuitem_create_numeric [] (pos 0) (pos 100) (pos 7))))
    ≡ some (pos 25)
unfolding press_all menuitem_process_input_numeric menuitem_reset_numeric menuitem_create_numeric
    numeric_token typed_numeric enter_numeric store_numeric completed c_string write_char go_right
    max_len allow_signed format snprintf is_digit scan_int scan_digits decimal digits_value is_space
    to_int menuitem_successor2menuresult
number_is_taken = refl

abbrev name_item : Alpha
name_item = menuitem_create_alpha [] 0 2 8 true false false [] (codes "LCD")

abbrev name_keys : List Press
name_keys =
    press menutoken_down
    ∷ press menutoken_right
    ∷ type_key b'A'
    ∷ press menutoken_up
    ∷ press menutoken_enter
    ∷ []

press_all-Allowed_example :
    (start item : Alpha) × (menuitem_reset_alpha name_item ≡ some start)
    × (press_all (λ p. menuitem_process_input_alpha 20 p no_links) name_keys start ≡ some item)
    × Allowed (chars name_item) name_item.value name_item.minlength name_item.maxlength item
unfolding chars contains menuitem_create_alpha
press_all-Allowed_example =
    press_all-Allowed name_item 20 no_links name_keys (λ e. cc) (omega arith)
      (refl, (refl, (refl, tt)))

abbrev slider_keys : List Press
slider_keys = press menutoken_up ∷ press menutoken_up ∷ press menutoken_left ∷ []

press_all-Between_example :
    (s : Slider) × (press_all
        (λ p. menuitem_process_input_slider p no_links)
        slider_keys
        (menuitem_create_slider
          (codes "dark")
          (codes "bright")
          (pos 0)
          (pos 1000)
          (pos 25)
          (pos 990))
      ≡ some s)
    × Between (pos 0) (pos 1000) (pos 25) s
unfolding ◌+ℤ◌ ◌-ℤ◌
press_all-Between_example =
    press_all-Between (codes "dark") (codes "bright") (pos 0) (pos 1000) (pos 25) (pos 990) no_links
      slider_keys
      record {
        forward = omega arith;
        ordered = omega arith;
        above = omega arith;
        below = omega arith;
      }
      (omega arith) (omega arith)

abbrev item_of : String → Bool → Content → MenuItem
item_of id hidden content = record {
  id = codes id;
  links = no_links;
  is_hidden = hidden;
  content = content;
}

-- Three items can be seen.
abbrev screens : Menu
screens = record {
  links = no_links;
  contents =
      item_of "rotate" false (menuitem_checkbox true 0)
      ∷ item_of "secret" true menuitem_action
      ∷ item_of "priority" false (menuitem_ring (codes "info" ∷ codes "alert" ∷ []) 1)
      ∷ item_of "leave" false menuitem_action
      ∷ [];
  selector_pos = pos 0;
  scroll = pos 0;
}

abbrev menu_keys : List Press
menu_keys =
    press menutoken_enter
    ∷ press menutoken_down
    ∷ press menutoken_enter
    ∷ press menutoken_up
    ∷ press menutoken_up
    ∷ []

press_all-Selected_example :
    (m : Menu) × (press_all (menu_process_input 2) menu_keys (menu_reset screens) ≡ some m)
    × Selected 2 (menu_visible_item_count screens.contents) m
unfolding menu_visible_item_count
press_all-Selected_example =
    press_all-Selected 2 screens menu_keys (omega arith) (omega arith)
      (omega arith, (tt, (omega arith, (tt, tt))))

-- LEFT on a checkbox that is off does not lead to gray.
off_stays_off : checkbox_down true 0 ≡ 0
unfolding checkbox_down
off_stays_off = refl

abbrev eight_ones : Ip
eight_ones = record {
  value = codes "1.1.1.1.1.1.1.1";
  v6 = false;
  editor = record { edit_str = []; edit_pos = 0; edit_offs = 0; error_code = 0 };
}

menuitem_reset_ip-overflows_example : menuitem_reset_ip eight_ones ≡ none
unfolding separators
menuitem_reset_ip-overflows_example = menuitem_reset_ip-overflows eight_ones (omega arith)

-- UP on the first digit of 010.000.000.001, and DOWN on the first of the second group.
abbrev address : Ip
address = record {
  value = codes "10.0.0.1";
  v6 = false;
  editor = record { edit_str = []; edit_pos = 0; edit_offs = 0; error_code = 0 };
}

address_goes_up :
    (menuitem_reset_ip address >>= λ item.
    press_all
      (λ p. menuitem_process_input_ip (λ _. true) 20 p no_links)
      (press menutoken_up
        ∷ press menutoken_right
        ∷ press menutoken_right
        ∷ press menutoken_right
        ∷ press menutoken_down
        ∷ [])
      item
    >>= λ item. some item.editor.edit_str)
    ≡ some (codes "110.255.000.001" ++ 0 ∷ [])
unfolding menuitem_reset_ip press_all menuitem_process_input_ip ip_token turn_ip ip_right place_ip
    c_string digit_value copy_in group_start raise lower int_in unsigned_in skip_prefix digits
    digit_of to_int format_group pad show_in digit_char groups joined behind_sep at_last is_space
    ◌+ℤ◌ ◌-ℤ◌
address_goes_up = refl

abbrev in_the_middle : Editor
in_the_middle = record {
  edit_str = codes "010.000.000.001" ++ 0 ∷ [];
  edit_pos = 8;
  edit_offs = 0;
  error_code = 0;
}

place_ip-ends_example :
    (show_position 21 10 9 0 ≡ (place_ip 10 9 in_the_middle).edit_offs)
    × (11 ≤ 10 + (place_ip 10 9 in_the_middle).edit_offs)
    × (((place_ip 10 9 in_the_middle).edit_offs ≡ 0)
        ⊎ (11 ≡ 10 + (place_ip 10 9 in_the_middle).edit_offs))
place_ip-ends_example = place_ip-ends 10 9 in_the_middle 10
