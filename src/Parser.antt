-- ===== src/Parser.antt =====
-- server/parse.c: splitting a client's line into arguments. The C code writes the arguments one
-- behind the other into `arg_space`, keeps their start in `argv`, and walks the line by `pos`;
-- so does the machine below, whose reads and writes fault outside their arrays.
pub mod Buffer
pub mod Grammar
pub mod Correct
pub mod Moves
pub mod Refine
pub mod RoundTrip
pub mod Rounds
mod Tests
use lcdproc.Prelude.{
  ℕ, zero, suc, ◌+◌, ◌-◌, Bool, true, false, ◌&&◌, ◌||◌, Option, none, some, List, [], ◌∷◌, length,
  get_elem?, drop, store, replicate, leb, ltb, ◌==◌, if◌then◌else◌, ◌>>=◌, ◌>>◌, Bytes,
}

-- MAX_ARGUMENTS
abbrev pub max_arguments : ℕ
max_arguments = 40

unfoldable pub is_whitespace : ℕ → Bool
is_whitespace x = x == b' ' || x == b'\t' || x == b'\r'

unfoldable pub is_final : ℕ → Bool
is_final x = x == b'\n' || x == 0

-- `q` is 0 outside quotes.
unfoldable pub is_opening_quote : ℕ → ℕ → Bool
is_opening_quote x q = q == 0 && (x == b'"' || x == b'{')

unfoldable pub is_closing_quote : ℕ → ℕ → Bool
is_closing_quote x q = (q == b'{' && x == b'}') || (q == b'"' && x == b'"')

pub data State : Type 0 where
  initial whitespace argument final : State

-- The local variables of `parse_message`. An entry of `argv` is the place in `arg_space` where the
-- argument starts; `none` is NULL, or not yet written.
pub record Lexer : Type 0 where
  pub state : State
  pub error : ℕ
  pub quote : ℕ
  pub pos : ℕ
  pub arg_space : List ℕ
  pub argc : ℕ
  pub argv : List (Option ℕ)
  pub argpos : ℕ

-- `str[i]`: the terminator is part of the string, what lies behind it is not.
unfoldable pub char_at : Bytes → ℕ → Option ℕ
char_at [] zero = some 0
char_at [] (suc i) = none
char_at (c ∷ cs) zero = some c
char_at (c ∷ cs) (suc i) = char_at cs i

-- `argv[argc]`, which must have been written.
unfoldable pub arg_start : Lexer → Option ℕ
arg_start s = get_elem? s.argv s.argc >>= λ p. p

-- `argv[argc][argpos++] = v`
unfoldable pub put : ℕ → Lexer → Option Lexer
unfolding arg_start
put v s = do
  base ← arg_start s
  space ← store s.arg_space (base + s.argpos) v
  some (record s { arg_space = space; argpos = s.argpos + 1 })

-- The block that stands four times in the loop: it ends an argument, or reports too many.
unfoldable pub end_argument : Lexer → Option Lexer
unfolding arg_start
end_argument s = if leb (max_arguments - 1) s.argc then some (record s { error = 1 }) else do
  base ← arg_start s
  space ← store s.arg_space (base + s.argpos) 0
  starts ← store s.argv (s.argc + 1) (some (base + s.argpos + 1))
  some (record s { arg_space = space; argv = starts; argc = s.argc + 1; argpos = 0 })

abbrev set_state : State → Lexer → Lexer
set_state st s = record s { state = st }

-- `escape_trans[strchr(escape_chars, c) - escape_chars]`, or the character itself.
unfoldable pub translate : ℕ → ℕ
translate c =
    if c == b'n' then b'\n' else if c == b'r' then b'\r' else if c == b't' then b'\t' else c

-- Behind a backslash; `pos` is past it.
unfoldable pub escape : Bytes → Lexer → Option Lexer
escape str s = do
  next ← char_at str s.pos
  if next == 0
      then (do s' ← end_argument (record s { error = 2 }); some (set_state State.final s'))
      else (do s' ← put (translate next) s; some (record s' { pos = s'.pos + 1 }))

-- `case ST_ARGUMENT`
unfoldable pub argument_char : Bytes → ℕ → Lexer → Option Lexer
argument_char str ch s =
    if is_final ch
    then (do
      s' ← end_argument (if s.quote == 0 then s else record s { error = 2 })
      some (set_state State.final s'))
    else if ch == b'\\'
    then escape str s
    else if is_opening_quote ch s.quote
    then some (record s { quote = ch })
    else if is_closing_quote ch s.quote
    then (do s' ← end_argument (record s { quote = 0 }); some (set_state State.whitespace s'))
    else if is_whitespace ch && s.quote == 0
    then (do s' ← end_argument s; some (set_state State.whitespace s'))
    else put ch s

-- The body of the switch on a character: `initial` and `whitespace` fall through to `argument`.
unfoldable pub dispatch : State → Bytes → ℕ → Lexer → Option Lexer
dispatch State.argument str ch s = argument_char str ch s
dispatch State.final str ch s = some s
dispatch _ str ch s =
    if is_whitespace ch
    then some s
    else if is_final ch
    then some (set_state State.final s)
    else argument_char str ch (set_state State.argument s)

-- One round: `ch = str[pos++]`, then the switch.
unfoldable pub step : Bytes → Lexer → Option Lexer
step str s = do ch ← char_at str s.pos; dispatch s.state str ch (record s { pos = s.pos + 1 })

-- `(state != ST_FINAL) && !error`
unfoldable pub running : Lexer → Bool
running s = elim s.state [ State.final ↦ false | _ ↦ s.error == 0 ]

-- The loop. Fuel that runs out is a fault too, so a run with a result has ended by its test.
unfoldable pub loop : ℕ → Bytes → Lexer → Option Lexer
loop zero str s = none
loop (suc fuel) str s =
    let rest = step str s >>= loop fuel str in if running s then rest else some s

-- `malloc(strlen(str)+1)` gives bytes of any value, here 0; `argv[0] = arg_space`.
unfoldable pub start : Bytes → Lexer
start str = record {
  state = State.initial;
  error = 0;
  quote = 0;
  pos = 0;
  arg_space = replicate (length str + 1) 0;
  argc = 0;
  argv = some 0 ∷ replicate (max_arguments - 1) none;
  argpos = 0;
}

-- `argv[argc] = NULL` behind the loop.
unfoldable pub terminate : Lexer → Option Lexer
terminate s =
    if ltb s.argc max_arguments
    then (do starts ← store s.argv s.argc none; some (record s { argv = starts }))
    else some (record s { error = 1 })

unfoldable pub tokenize : Bytes → Option Lexer
tokenize str = loop (length str + 2) str (start str) >>= terminate

-- Reading `argv[0] .. argv[argc-1]` back as C strings, as the command functions do.
unfoldable pub c_string : List ℕ → Option Bytes
c_string [] = none
c_string (x ∷ xs) =
    let rest = c_string xs in if x == 0 then some [] else (do cs ← rest; some (x ∷ cs))

unfoldable pub read_arguments : ℕ → List (Option ℕ) → List ℕ → Option (List Bytes)
read_arguments zero argv space = some []
read_arguments (suc n) [] space = none
read_arguments (suc n) (p ∷ argv) space = do
  at ← p
  arg ← c_string (drop at space)
  args ← read_arguments n argv space
  some (arg ∷ args)

pub data Parsed : Type 0 where
  refused : Parsed
  arguments : List Bytes → Parsed

-- `if (error)` behind the loop: the line is refused, or its arguments go to a command function.
unfoldable pub parse_line : Bytes → Option Parsed
parse_line str = do
  s ← tokenize str
  if s.error == 0
      then (do args ← read_arguments s.argc s.argv s.arg_space; some (Parsed.arguments args))
      else some Parsed.refused
