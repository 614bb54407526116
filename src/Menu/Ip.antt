-- ===== src/Menu/Ip.antt =====
-- The IP item of server/menuitem.c. Whether a text is an address is asked of the system, so the
-- answer is an argument, `verify`. A number is read for values that fit a `long`; a position
-- before the array is a fault.
use lcdproc.Prelude.{
  ℕ, zero, suc, ◌+◌, ◌-◌, ◌/◌, ◌%◌, Bool, true, false, not, ◌&&◌, ◌||◌, Option, none, some, List,
  [], ◌∷◌, ◌++◌, ltb, leb, ◌==◌, if◌then◌else◌, Bytes, length, get_elem?, take, drop, replicate,
  ◌>>=◌,
}
use lcdproc.Prelude.Int.{ℤ, pos, negsuc, ◌+ℤ◌, ◌-ℤ◌, ltb_ℤ}
use lcdproc.Commands.{is_space}
use lcdproc.Commands.ServerCommands.{digits, digit_of, to_int}
use lcdproc.Parser.{c_string}
use lcdproc.Menu.{
  MenuToken, menutoken_menu, menutoken_enter, menutoken_up, menutoken_down, menutoken_left,
  menutoken_right, menutoken_other, menuresult_none, menuresult_close, menuevent_update, Links,
  menuitem_predecessor2menuresult, menuitem_successor2menuresult, Reaction, answer, inform, Press,
}
use lcdproc.Menu.Editor.{Editor, write_char}
use lcdproc.Menu.Numeric.{is_digit}

pub record IpStringProperties : Type 0 where
  pub maxlen : ℕ
  pub sep : ℕ
  pub base : ℕ
  pub width : ℕ
  pub limit : ℕ
  pub pos_value : List ℕ

abbrev pub ip_info : Bool → IpStringProperties
ip_info false = record {
  maxlen = 15;
  sep = b'.';
  base = 10;
  width = 3;
  limit = 255;
  pos_value = 100 ∷ 10 ∷ 1 ∷ 0 ∷ 0 ∷ [];
}
ip_info true = record {
  maxlen = 39;
  sep = b':';
  base = 16;
  width = 4;
  limit = 65535;
  pos_value = 4096 ∷ 256 ∷ 16 ∷ 1 ∷ 0 ∷ [];
}

-- The maximal length is that of the kind of address.
pub record Ip : Type 0 where
  pub value : Bytes
  pub v6 : Bool
  pub editor : Editor

-- `0x` in front of a hexadecimal digit.
unfoldable pub skip_prefix : ℕ → Bytes → Bytes
skip_prefix base (z ∷ x ∷ d ∷ cs) =
    if base == 16 && z == b'0' && (x == b'x' || x == b'X') && ltb (digit_of d) 16
    then d ∷ cs
    else z ∷ x ∷ d ∷ cs
skip_prefix base cs = cs

unfoldable pub unsigned_in : ℕ → Bytes → ℕ
unsigned_in base cs = (digits base 0 (skip_prefix base cs)).0

-- `(int) strtol(str, NULL, base)`
unfoldable pub int_in : ℕ → Bytes → ℤ
int_in base [] = pos 0
int_in base (c ∷ cs) =
    if is_space c
    then int_in base cs
    else if c == b'-'
    then to_int (pos 0 -ℤ pos (unsigned_in base cs))
    else if c == b'+'
    then to_int (pos (unsigned_in base cs))
    else to_int (pos (unsigned_in base (c ∷ cs)))

unfoldable pub digit_char : ℕ → ℕ
digit_char d = if ltb d 10 then b'0' + d else b'a' + (d - 10)

-- At most `fuel` digits, in front of `text`; an `int` has ten in either base at most.
unfoldable pub show_in : ℕ → ℕ → ℕ → Bytes → Bytes
show_in zero base n text = text
show_in (suc fuel) base n text =
    if ltb n base
    then digit_char n ∷ text
    else show_in fuel base (n / base) (digit_char (n % base) ∷ text)

unfoldable pub pad : ℕ → Bytes → Bytes
pad width text = replicate (width - length text) b'0' ++ text

-- "%03d" and "%04x" into an array of five characters.
unfoldable pub format_group : Bool → ℤ → Bytes
format_group false (pos n) = take 4 (pad 3 (show_in 10 10 n []))
format_group false (negsuc n) = take 4 (b'-' ∷ pad 2 (show_in 10 10 (suc n) []))
format_group true (pos n) = take 4 (pad 4 (show_in 10 16 n []))
format_group true (negsuc n) = take 4 (pad 4 (show_in 10 16 (4294967295 - n) []))

-- What is behind the next separator; NULL if there is none.
unfoldable pub behind_sep : ℕ → Bytes → Option Bytes
behind_sep sep [] = none
behind_sep sep (c ∷ cs) = if c == sep then some cs else behind_sep sep cs

-- A separator and the rest are put behind a group if a group follows.
unfoldable pub joined : ℕ → Bytes → Bytes → Option Bytes → Bytes
joined sep text rest none = text
joined sep text rest (some next) = text ++ sep ∷ rest

-- One group after the other, by fuel; a text has fewer groups than two more than its characters.
unfoldable pub groups : ℕ → Bool → Option Bytes → Bytes
groups zero v6 start = []
groups (suc fuel) v6 none = []
groups (suc fuel) v6 (some start) =
    joined (ip_info v6).sep (format_group v6 (int_in (ip_info v6).base start))
      (groups fuel v6 (behind_sep (ip_info v6).sep start)) (behind_sep (ip_info v6).sep start)

-- `strcat` behind the end of the array is a fault.
unfoldable pub menuitem_reset_ip : Ip → Option Ip
menuitem_reset_ip item =
    let size = (ip_info item.v6).maxlen in
    let text = groups (length item.value + 2) item.v6 (some item.value) in
    if leb (length text) size
    then some (record item {
      editor = record {
        edit_str = text ++ replicate (suc size - length text) 0;
        edit_pos = 0;
        edit_offs = 0;
        error_code = item.editor.error_code;
      };
    })
    else none

-- A space, or a zero that is not the last of its group.
unfoldable pub is_padding : ℕ → ℕ → Bytes → Bool
is_padding sep c [] = c == b' '
is_padding sep c (d ∷ cs) = c == b' ' || c == b'0' && not (d == sep)

-- Without the padding of each group.
unfoldable pub unpad : ℕ → Bool → Bytes → Bytes
unpad sep at_start [] = []
unpad sep false (c ∷ cs) = c ∷ unpad sep (c == sep) cs
unpad sep true (c ∷ cs) =
    if is_padding sep c cs then unpad sep true cs else c ∷ unpad sep (c == sep) cs

-- `while (edit_pos - edit_offs > width - 2) edit_offs++`, by fuel.
unfoldable pub show_position : ℕ → ℕ → ℕ → ℕ → ℕ
show_position zero width p offs = offs
show_position (suc fuel) width p offs =
    let rest = show_position fuel width p (offs + 1) in
    if ltb (width + offs) (p + 2) then rest else offs

unfoldable pub place_ip : ℕ → ℕ → Editor → Editor
place_ip width p e = record e {
  edit_pos = p;
  edit_offs = show_position (p + 2) width p e.edit_offs;
}

unfoldable pub ip_right : ℕ → ℕ → Editor → Option Editor
ip_right width sep e = get_elem? e.edit_str (e.edit_pos + 1) >>= λ c.
    some (place_ip width (if c == sep then e.edit_pos + 2 else e.edit_pos + 1) e)

-- The offset follows the position.
unfoldable pub back_to : ℕ → Editor → Editor
back_to p e = record e { edit_pos = p; edit_offs = if ltb p e.edit_offs then p else e.edit_offs }

unfoldable pub ip_left : ℕ → ℕ → Editor → Option Editor
ip_left sep zero e = some e
ip_left sep (suc p) e = get_elem? e.edit_str p >>= λ c.
    if c == sep then elim p [ zero ↦ none | suc q ↦ some (back_to q e) ] else some (back_to p e)

-- `memcpy` of characters into the array.
unfoldable pub copy_in : ℕ → Bytes → Bytes → Option Bytes
copy_in at text str =
    if leb (at + length text) (length str)
    then some (take at str ++ text ++ drop (at + length text) str)
    else none

unfoldable pub group_start : Bool → ℕ → ℕ
group_start v6 p = p - p % ((ip_info v6).width + 1)

unfoldable pub digit_value : Bool → ℕ → Option ℕ
digit_value v6 p =
    get_elem? (ip_info v6).pos_value ((p - p / ((ip_info v6).width + 1)) % (ip_info v6).width)

-- A number beyond the limit goes on at 0, one below 0 at the limit.
unfoldable pub raise : ℕ → ℤ → ℕ → ℤ
raise limit num step = if ltb_ℤ (pos limit) (num +ℤ pos step) then pos 0 else num +ℤ pos step

unfoldable pub lower : ℕ → ℤ → ℕ → ℤ
lower limit num step = if ltb_ℤ (num -ℤ pos step) (pos 0) then pos limit else num -ℤ pos step

-- `memcpy` takes as many characters as a group has.
unfoldable pub turn_ip : (ℕ → ℤ → ℕ → ℤ) → Ip → Reaction Ip
turn_ip next item =
    let e = item.editor in
    let at = group_start item.v6 e.edit_pos in
    c_string (drop at e.edit_str) >>= λ s. digit_value item.v6 e.edit_pos >>= λ step.
    copy_in at
      (take (ip_info item.v6).width (
        format_group item.v6 (next (ip_info item.v6).limit (int_in (ip_info item.v6).base s) step)))
      e.edit_str
    >>= λ str. answer (record item { editor = record e { edit_str = str } }) menuresult_none

-- The address is taken if the system says that it is one.
unfoldable pub store_ip : (Bytes → Bool) → Links → Bytes → Ip → Reaction Ip
store_ip verify l tmp item =
    if not (verify tmp)
    then answer (record item { editor = record item.editor { error_code = 4 } }) menuresult_none
    else if leb (length tmp) (ip_info item.v6).maxlen
    then inform (record item { value = tmp }) menuevent_update
        (menuitem_successor2menuresult l.successor_id menuresult_close)
    else none

unfoldable pub enter_ip : (Bytes → Bool) → ℕ → Bool → Links → Ip → Reaction Ip
enter_ip verify width true l item = c_string item.editor.edit_str >>= λ str.
    store_ip verify l (unpad (ip_info item.v6).sep true str) item
enter_ip verify width false l item = ip_right width (ip_info item.v6).sep item.editor >>= λ e.
    answer (record item { editor = e }) menuresult_none

-- The position is at the last digit.
unfoldable pub at_last : Ip → Bool
at_last item = leb ((ip_info item.v6).maxlen - 1) item.editor.edit_pos

unfoldable pub lower_case : ℕ → ℕ
lower_case c = if leb b'A' c && leb c b'Z' then c + 32 else c

-- `isxdigit` or `isdigit`
unfoldable pub is_digit_of : Bool → ℕ → Bool
is_digit_of false c = is_digit c
is_digit_of true c = ltb (digit_of c) 16

unfoldable pub typed_ip : ℕ → Bytes → Ip → Option Editor
typed_ip width (c ∷ []) item =
    if is_digit_of item.v6 c
    then (write_char (lower_case c) item.editor >>= λ e.
        if at_last item then some e else ip_right width (ip_info item.v6).sep e)
    else some item.editor
typed_ip width key item = some item.editor

unfoldable pub ip_token : (Bytes → Bool) → ℕ → MenuToken → Press → Links → Ip → Reaction Ip
ip_token verify width menutoken_menu p l item =
    if item.editor.edit_pos == 0
    then answer item (menuitem_predecessor2menuresult l.predecessor_id menuresult_close)
    else (menuitem_reset_ip item >>= λ r. answer r menuresult_none)
ip_token verify width menutoken_enter p l item =
    enter_ip verify width (p.extended || at_last item) l item
ip_token verify width menutoken_up p l item = turn_ip raise item
ip_token verify width menutoken_down p l item = turn_ip lower item
ip_token verify width menutoken_right p l item =
    if at_last item
    then answer item menuresult_none
    else (ip_right width (ip_info item.v6).sep item.editor >>= λ e.
        answer (record item { editor = e }) menuresult_none)
ip_token verify width menutoken_left p l item =
    ip_left (ip_info item.v6).sep item.editor.edit_pos item.editor >>= λ e.
    answer (record item { editor = e }) menuresult_none
ip_token verify width menutoken_other p l item =
    typed_ip width p.key item >>= λ e. answer (record item { editor = e }) menuresult_none

-- The error is cleared first.
unfoldable pub menuitem_process_input_ip : (Bytes → Bool) → ℕ → Press → Links → Ip → Reaction Ip
menuitem_process_input_ip verify width p l item =
    ip_token verify width p.token p l
      (record item { editor = record item.editor { error_code = 0 } })
