-- ===== src/Clients/Sending.antt =====
-- From what a client sends to the arguments of its commands: `client_add_message` of
-- server/client.c and `parse_message` of server/parse.c.
use mathlib.Core.List.{map-append}
use lcdproc.Prelude.{
  ℕ, ◌≡◌, refl, ◌∙◌, ap, false, Option, some, List, [], ◌∷◌, ◌++◌, map, append_assoc, append-nil,
  leb, length, if◌then◌else◌, arith, All, All-append, Bytes,
}
use lcdproc.Parser.{Parsed, arguments, refused, parse_line}
use lcdproc.Parser.Buffer.{AllNoNul}
use lcdproc.Parser.RoundTrip.{is_special, letter, escaped, escape_all, quoted, parse_line-quoted}
use lcdproc.Clients.{is_delimiter, tokens, add_message}

-- A text without line ends.
abbrev pub IsLine : Bytes → Type 0
IsLine = All (λ c. is_delimiter c ≡ false)

tokens-line :
    (t : ℕ) (ts line rest : Bytes)
    → IsLine line
    → tokens (t ∷ ts) (line ++ b'\n' ∷ rest) ≡ ((t ∷ ts) ++ line) ∷ tokens [] rest
unfolding tokens is_delimiter
tokens-line t ts [] rest h = rw append-nil
tokens-line t ts (c ∷ line) rest h = rw h.0 (
    tokens-line t (ts ++ c ∷ []) line rest h.1
    ∙ ap (λ u. (t ∷ u) ∷ tokens [] rest) (append_assoc ts (c ∷ []) line))

tokens-first :
    (c : ℕ) (line rest : Bytes)
    → IsLine (c ∷ line)
    → tokens [] (c ∷ line ++ b'\n' ∷ rest) ≡ (c ∷ line) ∷ tokens [] rest
unfolding tokens
tokens-first c line rest h = rw h.0 (tokens-line c [] line rest h.1)

escaped-IsLine : (c : ℕ) → IsLine (escaped c)
unfolding escaped letter is_special is_delimiter
escaped-IsLine c = ground arith

escape_all-IsLine : (cs : Bytes) → IsLine (escape_all cs)
unfolding escape_all
escape_all-IsLine [] = tt
escape_all-IsLine (c ∷ cs) =
    All-append _ (escaped c) (escape_all cs) (escaped-IsLine c) (escape_all-IsLine cs)

quoted-IsLine : (args : List Bytes) → IsLine (quoted args)
unfolding quoted is_delimiter
quoted-IsLine [] = tt
quoted-IsLine (a ∷ args) = (
  refl,
  All-append _ (escape_all a) (b'"' ∷ b' ' ∷ quoted args) (escape_all-IsLine a)
      (refl, (refl, quoted-IsLine args)),
)

-- The commands of a client, each with a first argument, as it sends them.
abbrev pub Command : Type 0
Command = Bytes × List Bytes

abbrev pub words : Command → List Bytes
words (name, args) = name ∷ args

abbrev pub sent : List Command → Bytes
sent [] = []
sent (command ∷ commands) = quoted (words command) ++ b'\n' ∷ sent commands

tokens-sent :
    (commands : List Command)
    → tokens [] (sent commands) ≡ map (λ command. quoted (words command)) commands
unfolding quoted
tokens-sent [] = unfold tokens in refl
tokens-sent ((name, args) ∷ commands) =
    tokens-first b'"' (escape_all name ++ b'"' ∷ b' ' ∷ quoted args) (sent commands)
      (quoted-IsLine (name ∷ args))
    ∙ ap (◌∷◌ (quoted (name ∷ args))) (tokens-sent commands)

-- What the server makes of a command.
abbrev pub received : Command → Option Parsed
received command =
    some (if leb (length (words command)) 39 then arguments (words command) else refused)

received_lem :
    (commands : List Command)
    → All (λ command. AllNoNul (words command)) commands
    → map (λ command. parse_line (quoted (words command))) commands ≡ map received commands
received_lem [] h = refl
received_lem (command ∷ commands) h =
    rw (parse_line-quoted (words command) h.0, received_lem commands h.1)

-- When a client sends commands with at least one argument each, quoted, one to a line, in one
-- piece, client_add_message queues them behind the lines that wait, and parse_message reads from
-- the queue what it reads of the waiting lines and then the arguments of each command as they
-- were, or refuses a command of more than 39; the arguments have any bytes but NUL.
pub parse_line-add_message :
    (commands : List Command) (queue : List Bytes)
    → All (λ command. AllNoNul (words command)) commands
    → map parse_line (add_message (sent commands) queue)
      ≡ map parse_line queue ++ map received commands
unfolding add_message
parse_line-add_message commands queue h =
    map-append parse_line queue (tokens [] (sent commands))
    ∙ ap (λ ls. map parse_line queue ++ map parse_line ls) (tokens-sent commands)
    ∙ ap (λ ls. map parse_line queue ++ ls)
        (map-map parse_line (λ command. quoted (words command)) commands ∙ received_lem commands h)
  where
    map-map :
        (g : Bytes → Option Parsed) (f : Command → Bytes) (xs : List Command)
        → map g (map f xs) ≡ map (λ x. g (f x)) xs
    map-map g f [] = refl
    map-map g f (x ∷ xs) = ap (◌∷◌ (g (f x))) (map-map g f xs)
