-- ===== src/Parser/Grammar.antt =====
-- What a line of the client protocol means, with no buffer and no limit on the arguments: the
-- description that `parse_message` of server/parse.c is compared with.
use lcdproc.Prelude.{
  ℕ, ◌-◌, Bool, true, false, not, ◌&&◌, ◌||◌, Option, none, some, List, [], ◌∷◌, ◌++◌, length, leb,
  ◌==◌, if◌then◌else◌, Bytes,
}
use lcdproc.Parser.{
  max_arguments, is_whitespace, is_final, is_opening_quote, is_closing_quote, translate, Parsed,
  refused, arguments,
}

-- What a character does. `inside` says whether an argument has begun, `q` is the open quote or 0.
pub data Kind : Type 0 where
  skip stop backslash opening break plain : Kind

unfoldable pub kind : Bool → ℕ → ℕ → Kind
kind inside q c =
    if not inside && is_whitespace c
    then skip
    else if is_final c
    then stop
    else if c == b'\\'
    then backslash
    else if is_opening_quote c q
    then opening
    else if is_closing_quote c q || (is_whitespace c && q == 0)
    then break
    else plain

abbrev pub prefix : Bytes → Option (List Bytes) → Option (List Bytes)
prefix arg none = none
prefix arg (some args) = some (arg ∷ args)

-- The line ends: an open quote is an error.
abbrev pub stopped : Bool → ℕ → Bytes → Option (List Bytes)
stopped false q arg = some []
stopped true q arg = if q == 0 then some (arg ∷ []) else none

-- The arguments that the rest of the line adds, `arg` being the one begun.
unfoldable pub scan : Bool → ℕ → Bytes → Bytes → Option (List Bytes)
scan inside q arg [] = stopped inside q arg
scan inside q arg (c ∷ []) = elim (kind inside q c) [
  | skip ↦ stopped inside q arg
  | stop ↦ stopped inside q arg
  | backslash ↦ none
  | opening ↦ none
  | break ↦ some (arg ∷ [])
  | plain ↦ stopped true q (arg ++ c ∷ [])
]
scan inside q arg (c ∷ d ∷ cs) = elim (kind inside q c) [
  | skip ↦ scan inside q arg (d ∷ cs)
  | stop ↦ stopped inside q arg
  | backslash ↦ if d == 0 then none else scan true q (arg ++ translate d ∷ []) cs
  | opening ↦ scan true c arg (d ∷ cs)
  | break ↦ prefix arg (scan false 0 [] (d ∷ cs))
  | plain ↦ scan true q (arg ++ c ∷ []) (d ∷ cs)
]

-- At most MAX_ARGUMENTS - 1 arguments are taken.
abbrev pub limited : List Bytes → Parsed
limited args = if leb (length args) (max_arguments - 1) then arguments args else refused

abbrev pub outcome : Option (List Bytes) → Parsed
outcome none = refused
outcome (some args) = limited args

unfoldable pub meaning : Bytes → Parsed
meaning str = outcome (scan false 0 [] str)
