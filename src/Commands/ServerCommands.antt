-- ===== src/Commands/ServerCommands.antt =====
-- `output` and `sleep` of server/commands/server_commands.c, with `strtol` for base 0. When the
-- number is out of range they append to a buffer that nothing has been written to: a fault.
use lcdproc.Prelude.{
  ℕ, ◌+◌, ◌-◌, ◌*◌, ◌%◌, Bool, true, false, ◌&&◌, ◌||◌, Option, none, some, List, [], ◌∷◌, ◌++◌,
  ltb, leb, ◌==◌, if◌then◌else◌, Bytes, codes, str_eq,
}
use lcdproc.Prelude.Int.{ℤ, pos, negsuc, ◌-ℤ◌}
use lcdproc.ScreenList.{Ptr}
use lcdproc.Commands.{Server, Outcome, send_string, say, complain, success, is_space, show_int}

-- The value of a digit in any base up to 36; 36 for another character.
unfoldable pub digit_of : ℕ → ℕ
digit_of c =
    if leb b'0' c && leb c b'9'
    then c - b'0'
    else if leb b'a' c && leb c b'z'
    then c - b'a' + 10
    else if leb b'A' c && leb c b'Z'
    then c - b'A' + 10
    else 36

-- The digits of a base: their value, and what is behind them.
unfoldable pub digits : ℕ → ℕ → Bytes → ℕ × Bytes
digits base n [] = (n, [])
digits base n (c ∷ cs) =
    if ltb (digit_of c) base then digits base (base * n + digit_of c) cs else (n, c ∷ cs)

-- Behind a zero: `x` and a digit make it hexadecimal.
unfoldable pub behind_zero : Bytes → ℕ × Bytes
behind_zero (x ∷ d ∷ cs) =
    if (x == b'x' || x == b'X') && ltb (digit_of d) 16
    then digits 16 0 (d ∷ cs)
    else digits 8 0 (x ∷ d ∷ cs)
behind_zero cs = digits 8 0 cs

unfoldable pub magnitude : Bytes → Option (ℕ × Bytes)
magnitude [] = none
magnitude (c ∷ cs) =
    if c == b'0'
    then some (behind_zero cs)
    else if ltb (digit_of c) 10
    then some (digits 10 0 (c ∷ cs))
    else none

-- What `strtol` reads: the value, what is left (`*endptr`), and whether `errno` is set.
pub record Number : Type 0 where
  pub value : ℤ
  pub rest : Bytes
  pub out_of_range : Bool

-- The greatest `long`.
abbrev pub long_max : ℕ
long_max = 9223372036854775807

abbrev pub number : Bytes → Bool → Option (ℕ × Bytes) → Number
number whole negative none = record { value = pos 0; rest = whole; out_of_range = false }
number whole false (some (n, rest)) = record {
  value = pos n;
  rest = rest;
  out_of_range = ltb long_max n;
}
number whole true (some (n, rest)) = record {
  value = pos 0 -ℤ pos n;
  rest = rest;
  out_of_range = ltb (long_max + 1) n;
}

-- Behind the white space; `whole` is what is left when there is no number.
unfoldable pub strtol_from : Bytes → Bytes → Number
strtol_from whole [] = number whole false none
strtol_from whole (c ∷ cs) =
    if is_space c
    then strtol_from whole cs
    else if c == b'-'
    then number whole true (magnitude cs)
    else if c == b'+'
    then number whole false (magnitude cs)
    else number whole false (magnitude (c ∷ cs))

unfoldable pub strtol : Bytes → Number
strtol s = strtol_from s s

-- The low 32 bits, as an `int`.
unfoldable pub to_int : ℤ → ℤ
to_int (pos n) =
    if ltb (n % 4294967296) 2147483648
    then pos (n % 4294967296)
    else pos (n % 4294967296) -ℤ pos 4294967296
to_int (negsuc n) =
    if ltb (n % 4294967296) 2147483648
    then negsuc (n % 4294967296)
    else pos (4294967295 - n % 4294967296)

-- `*p != '\0' && *endptr == '\0'`
unfoldable pub is_whole : Bytes → Number → Bool
is_whole [] n = false
is_whole (c ∷ cs) n = str_eq n.rest []

unfoldable pub set_output : Ptr → ℤ → Server → Outcome
set_output c state s = say c success (record s { output_state = state })

unfoldable pub output_number : Ptr → Bytes → Server → Outcome
output_number c p s =
    let n = strtol p in
    if n.out_of_range
    then none
    else if is_whole p n
    then set_output c (to_int n.value) s
    else complain c (codes "invalid parameter...\n") s

unfoldable pub output_func : Ptr → List Bytes → Server → Outcome
output_func c (cmd ∷ word ∷ []) s =
    if str_eq word (codes "on")
    then set_output c (negsuc 0) s
    else if str_eq word (codes "off")
    then set_output c (pos 0) s
    else output_number c word s
output_func c argv s = complain c (codes "Usage: output {on|off|<num>}\n") s

-- The number is cut to between 1 and 60 for nothing: it is printed as it was, and not slept.
unfoldable pub sleep_func : Ptr → List Bytes → Server → Outcome
sleep_func c (cmd ∷ p ∷ []) s =
    let n = strtol p in
    if n.out_of_range
    then none
    else if is_whole p n
    then complain c (codes "ignored (not fully implemented)\n")
        (send_string c (codes "sleeping " ++ show_int (to_int n.value) (codes " seconds\n")) s)
    else complain c (codes "invalid parameter...\n") s
sleep_func c argv s = complain c (codes "Usage: sleep <secs>\n") s
