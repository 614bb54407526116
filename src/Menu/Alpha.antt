-- ===== src/Menu/Alpha.antt =====
-- The alphanumeric item of server/menuitem.c, for lengths that are not negative. The read of the
-- last allowed character where there is none is a fault, since it lies before the array.
use lcdproc.Prelude.{
  ℕ, suc, ◌+◌, ◌-◌, Bool, true, false, ◌&&◌, Option, none, some, [], ◌∷◌, ◌++◌, ltb, leb, ◌==◌,
  if◌then◌else◌, Bytes, codes, length, get_elem?, take, replicate, ◌>>=◌,
}
use lcdproc.Menu.{
  MenuToken, menutoken_menu, menutoken_enter, menutoken_up, menutoken_down, menutoken_left,
  menutoken_right, menutoken_other, menuresult_none, menuresult_close, menuevent_update, Links,
  menuitem_predecessor2menuresult, menuitem_successor2menuresult, Reaction, answer, inform, Press,
}
use lcdproc.Parser.{c_string}
use lcdproc.Menu.Editor.{Editor, go_right, go_left, start_over, completed, write_char}

pub record Alpha : Type 0 where
  pub password_char : ℕ
  pub minlength : ℕ
  pub maxlength : ℕ
  pub allow_caps : Bool
  pub allow_noncaps : Bool
  pub allow_numbers : Bool
  pub allowed_extra : Bytes
  pub value : Bytes
  pub editor : Editor

-- The characters that are allowed, in the order in which they turn up.
unfoldable pub chars : Alpha → Bytes
chars item =
    (if item.allow_caps then codes "ABCDEFGHIJKLMNOPQRSTUVWXYZ" else [])
    ++ (if item.allow_noncaps then codes "abcdefghijklmnopqrstuvwxyz" else [])
    ++ (if item.allow_numbers then codes "0123456789" else [])
    ++ item.allowed_extra

-- `buffer` is what the new array holds.
unfoldable pub menuitem_create_alpha :
    Bytes → ℕ → ℕ → ℕ → Bool → Bool → Bool → Bytes → Bytes → Alpha
menuitem_create_alpha buffer password minlength maxlength caps noncaps numbers extra value =
    record {
      password_char = password;
      minlength = minlength;
      maxlength = maxlength;
      allow_caps = caps;
      allow_noncaps = noncaps;
      allow_numbers = numbers;
      allowed_extra = extra;
      value = take maxlength value;
      editor = record { edit_str = buffer; edit_pos = 0; edit_offs = 0; error_code = 0 };
    }

-- `memset` and `strcpy` into the array.
unfoldable pub menuitem_reset_alpha : Alpha → Option Alpha
menuitem_reset_alpha item =
    if leb (length item.value) item.maxlength
    then some (record item {
      editor = record {
        edit_str = item.value ++ replicate (suc (item.maxlength - length item.value)) 0;
        edit_pos = 0;
        edit_offs = 0;
        error_code = item.editor.error_code;
      };
    })
    else none

-- `strchr(chars, c) != NULL`
unfoldable pub contains : ℕ → Bytes → Bool
contains c [] = false
contains c (x ∷ xs) = if x == c then true else contains c xs

unfoldable pub head_char : Bytes → ℕ
head_char [] = 0
head_char (x ∷ xs) = x

unfoldable pub last_char : Bytes → Option ℕ
last_char [] = none
last_char (x ∷ []) = some x
last_char (x ∷ y ∷ ys) = last_char (y ∷ ys)

-- The character behind the first `c`: the terminator if there is none.
unfoldable pub char_after : ℕ → Bytes → ℕ
char_after c [] = 0
char_after c (x ∷ xs) = if x == c then head_char xs else char_after c xs

-- The character before the first `c`, `p` where it is the first of all.
unfoldable pub char_before : ℕ → ℕ → Bytes → ℕ
char_before p c [] = 0
char_before p c (x ∷ xs) = if x == c then p else char_before x c xs

unfoldable pub next_char : Bytes → ℕ → Option ℕ
next_char chars c = if c == 0 then some (head_char chars) else some (char_after c chars)

unfoldable pub previous_char : Bytes → ℕ → Option ℕ
previous_char chars c = if c == 0 then last_char chars else some (char_before 0 c chars)

unfoldable pub turn_alpha : (ℕ → Option ℕ) → Alpha → Reaction Alpha
turn_alpha next item =
    let e = item.editor in
    if leb item.maxlength e.edit_pos
    then answer (record item { editor = start_over 2 e }) menuresult_none
    else (get_elem? e.edit_str e.edit_pos >>= λ c.
        next c >>= λ d. write_char d e >>= λ w. answer (record item { editor = w }) menuresult_none)

-- The text that was typed is taken if it is not too short; `strcpy` into the array of the value.
unfoldable pub store_alpha : Links → Bytes → Alpha → Reaction Alpha
store_alpha l str item =
    if ltb (length str) item.minlength
    then answer (record item { editor = record item.editor { error_code = 3 } }) menuresult_none
    else if leb (length str) item.maxlength
    then inform (record item { value = str }) menuevent_update
        (menuitem_successor2menuresult l.successor_id menuresult_close)
    else none

unfoldable pub enter_alpha : ℕ → Bool → Links → Alpha → Reaction Alpha
enter_alpha width true l item = c_string item.editor.edit_str >>= λ str. store_alpha l str item
enter_alpha width false l item =
    answer
      (record item {
        editor =
            if ltb item.editor.edit_pos item.maxlength
            then go_right width item.editor
            else item.editor;
      })
      menuresult_none

-- `strlen(key) == 1 && key[0] >= ' ' && strchr(chars, key[0]) != NULL`, where a `char` is signed.
unfoldable pub typed_alpha : ℕ → Bytes → Bytes → Editor → Option Editor
typed_alpha width chars (c ∷ []) e =
    if leb b' ' c && ltb c 128 && contains c chars
    then (write_char c e >>= λ w. some (go_right width w))
    else some e
typed_alpha width chars key e = some e

unfoldable pub alpha_token : ℕ → MenuToken → Press → Links → Alpha → Reaction Alpha
alpha_token width menutoken_menu p l item =
    if item.editor.edit_pos == 0
    then answer item (menuitem_predecessor2menuresult l.predecessor_id menuresult_close)
    else (menuitem_reset_alpha item >>= λ r. answer r menuresult_none)
alpha_token width menutoken_enter p l item =
    completed p.extended item.editor >>= λ all. enter_alpha width all l item
alpha_token width menutoken_up p l item = turn_alpha (next_char (chars item)) item
alpha_token width menutoken_down p l item = turn_alpha (previous_char (chars item)) item
alpha_token width menutoken_right p l item =
    get_elem? item.editor.edit_str item.editor.edit_pos >>= λ c.
    answer
      (record item {
        editor =
            if c == 0
            then item.editor
            else if ltb (item.editor.edit_pos + 1) item.maxlength
            then go_right width item.editor
            else item.editor;
      })
      menuresult_none
alpha_token width menutoken_left p l item =
    answer (record item { editor = go_left item.editor }) menuresult_none
alpha_token width menutoken_other p l item =
    if leb item.maxlength item.editor.edit_pos
    then answer (record item { editor = start_over 2 item.editor }) menuresult_none
    else (typed_alpha width (chars item) p.key item.editor >>= λ e.
        answer (record item { editor = e }) menuresult_none)

-- The error is cleared first.
unfoldable pub menuitem_process_input_alpha : ℕ → Press → Links → Alpha → Reaction Alpha
menuitem_process_input_alpha width p l item =
    alpha_token width p.token p l (record item { editor = record item.editor { error_code = 0 } })
