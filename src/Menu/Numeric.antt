-- ===== src/Menu/Numeric.antt =====
-- The numeric item of server/menuitem.c, with `printf` and `scanf` of an `int`. A number that is
-- out of the range of `int` is scanned as the C library does it, which keeps the low 32 bits.
use lcdproc.Prelude.{
  ℕ, ◌+◌, ◌-◌, max, Bool, true, false, ◌&&◌, Option, none, some, [], ◌∷◌, ◌++◌, ltb, leb, ◌==◌,
  if◌then◌else◌, Bytes, length, get_elem?, take, replicate, ◌>>=◌,
}
use lcdproc.Prelude.Int.{ℤ, pos, negsuc, ◌-ℤ◌, ltb_ℤ}
use lcdproc.Commands.{show_int, is_space, digits_value}
use lcdproc.Commands.ServerCommands.{to_int}
use lcdproc.Menu.{
  MenuToken, menutoken_menu, menutoken_enter, menutoken_up, menutoken_down, menutoken_left,
  menutoken_right, menutoken_other, menuresult_error, menuresult_none, menuresult_close,
  menuevent_update, Links, menuitem_predecessor2menuresult, menuitem_successor2menuresult, Reaction,
  answer, inform, Press,
}
use lcdproc.Parser.{c_string}
use lcdproc.Menu.Editor.{Editor, go_right, go_left, start_over, completed, write_char}

abbrev pub max_numeric_len : ℕ
max_numeric_len = 40

pub record Numeric : Type 0 where
  pub maxvalue : ℤ
  pub minvalue : ℤ
  pub value : ℤ
  pub editor : Editor

unfoldable pub allow_signed : Numeric → Bool
allow_signed item = ltb_ℤ item.minvalue (pos 0)

-- "%+d" if signs are allowed, else "%d".
unfoldable pub format : Bool → ℤ → Bytes
format true (pos n) = b'+' ∷ show_int (pos n) []
format true (negsuc n) = show_int (negsuc n) []
format false v = show_int v []

-- What `snprintf` puts before the terminator of an array of the constant size.
unfoldable pub snprintf : Bytes → Bytes
snprintf text = take (max_numeric_len - 1) text

-- `buffer` is what the new array holds.
unfoldable pub menuitem_create_numeric : Bytes → ℤ → ℤ → ℤ → Numeric
menuitem_create_numeric buffer minvalue maxvalue value = record {
  maxvalue = maxvalue;
  minvalue = minvalue;
  value = value;
  editor = record { edit_str = buffer; edit_pos = 0; edit_offs = 0; error_code = 0 };
}

unfoldable pub menuitem_reset_numeric : Numeric → Numeric
menuitem_reset_numeric item =
    let text = snprintf (format (allow_signed item) item.value) in
    record item {
      editor = record {
        edit_str = text ++ replicate (max_numeric_len - length text) 0;
        edit_pos = 0;
        edit_offs = 0;
        error_code = item.editor.error_code;
      };
    }

unfoldable pub max_len : Numeric → ℕ
max_len item =
    max (length (snprintf (format (allow_signed item) item.minvalue)))
      (length (snprintf (format (allow_signed item) item.maxvalue)))

unfoldable pub is_digit : ℕ → Bool
is_digit c = leb b'0' c && leb c b'9'

unfoldable pub scan_digits : Bytes → Option ℕ
scan_digits [] = none
scan_digits (c ∷ cs) = if is_digit c then some (digits_value 0 (c ∷ cs)) else none

-- `sscanf(str, "%d", &value)`, NULL unless it returns 1.
unfoldable pub scan_int : Bytes → Option ℤ
scan_int [] = none
scan_int (c ∷ cs) =
    if is_space c
    then scan_int cs
    else if c == b'-'
    then (scan_digits cs >>= λ n. some (to_int (pos 0 -ℤ pos n)))
    else if c == b'+'
    then (scan_digits cs >>= λ n. some (to_int (pos n)))
    else (scan_digits (c ∷ cs) >>= λ n. some (to_int (pos n)))

unfoldable pub toggle_sign : ℕ → ℕ
toggle_sign c = if c == b'-' then b'+' else b'-'

unfoldable pub next_digit : ℕ → ℕ
next_digit c =
    if leb b'0' c && ltb c b'9' then c + 1 else if c == b'9' then 0 else if c == 0 then b'0' else c

unfoldable pub previous_digit : ℕ → ℕ
previous_digit c =
    if ltb b'0' c && leb c b'9' then c - 1 else if c == b'0' then 0 else if c == 0 then b'9' else c

-- The character at the position becomes another, unless there is no room for one.
unfoldable pub turn_numeric : (ℕ → ℕ) → Numeric → Reaction Numeric
turn_numeric next item =
    let e = item.editor in
    if leb (max_len item) e.edit_pos
    then answer (record item { editor = start_over 2 e }) menuresult_none
    else if allow_signed item && e.edit_pos == 0
    then (get_elem? e.edit_str 0 >>= λ c.
        write_char (toggle_sign c) e >>= λ w. answer (record item { editor = w }) menuresult_none)
    else (get_elem? e.edit_str e.edit_pos >>= λ c.
        write_char (next c) e >>= λ w. answer (record item { editor = w }) menuresult_none)

-- The number that was typed is taken if it is in the range of the item.
unfoldable pub store_numeric : Links → Option ℤ → Numeric → Reaction Numeric
store_numeric l none item = answer item menuresult_error
store_numeric l (some v) item =
    if ltb_ℤ v item.minvalue
    then answer (record item { editor = start_over 1 item.editor }) menuresult_none
    else if ltb_ℤ item.maxvalue v
    then answer (record item { editor = start_over 1 item.editor }) menuresult_none
    else inform (record item { value = v }) menuevent_update
        (menuitem_successor2menuresult l.successor_id menuresult_close)

unfoldable pub enter_numeric : ℕ → Bool → Links → Numeric → Reaction Numeric
enter_numeric width true l item =
    c_string item.editor.edit_str >>= λ str. store_numeric l (scan_int str) item
enter_numeric width false l item =
    answer
      (record item {
        editor =
            if ltb item.editor.edit_pos (max_len item)
            then go_right width item.editor
            else item.editor;
      })
      menuresult_none

-- `strlen(key) == 1 && isdigit(key[0])`
unfoldable pub typed_numeric : ℕ → Bytes → Editor → Option Editor
typed_numeric width (c ∷ []) e =
    if is_digit c then (write_char c e >>= λ w. some (go_right width w)) else some e
typed_numeric width key e = some e

unfoldable pub numeric_token : ℕ → MenuToken → Press → Links → Numeric → Reaction Numeric
numeric_token width menutoken_menu p l item =
    if item.editor.edit_pos == 0
    then answer item (menuitem_predecessor2menuresult l.predecessor_id menuresult_close)
    else answer (menuitem_reset_numeric item) menuresult_none
numeric_token width menutoken_enter p l item =
    completed p.extended item.editor >>= λ all. enter_numeric width all l item
numeric_token width menutoken_up p l item = turn_numeric next_digit item
numeric_token width menutoken_down p l item = turn_numeric previous_digit item
numeric_token width menutoken_right p l item =
    get_elem? item.editor.edit_str item.editor.edit_pos >>= λ c.
    answer
      (record item {
        editor =
            if c == 0
            then item.editor
            else if ltb item.editor.edit_pos (max_len item)
            then go_right width item.editor
            else item.editor;
      })
      menuresult_none
numeric_token width menutoken_left p l item =
    answer (record item { editor = go_left item.editor }) menuresult_none
numeric_token width menutoken_other p l item =
    if leb (max_len item) item.editor.edit_pos
    then answer (record item { editor = start_over 2 item.editor }) menuresult_none
    else (typed_numeric width p.key item.editor >>= λ e.
        answer (record item { editor = e }) menuresult_none)

-- The error is cleared first.
unfoldable pub menuitem_process_input_numeric : ℕ → Press → Links → Numeric → Reaction Numeric
menuitem_process_input_numeric width p l item =
    numeric_token width p.token p l (record item { editor = record item.editor { error_code = 0 } })
