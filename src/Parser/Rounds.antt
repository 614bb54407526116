-- ===== src/Parser/Rounds.antt =====
-- One round of the loop of `parse_message` of server/parse.c, by the kind of its character.
use lcdproc.Prelude.{
  ℕ, suc, ◌+◌, ◌≡◌, ◌≢◌, refl, ap, Bool, true, false, some, ◌==◌, if◌then◌else◌, ◌>>=◌, Bytes,
  arith,
}
use lcdproc.Parser.{
  State, initial, whitespace, argument, final, Lexer, is_final, put, end_argument, escape,
  argument_char, dispatch, step, running, loop, char_at,
}
use lcdproc.Parser.Grammar.{Kind, skip, stop, backslash, opening, break, plain, kind}

pub is_final-zero : is_final 0 ≡ true
unfolding is_final
is_final-zero = refl

-- Whether an argument has begun.
abbrev pub is_inside : State → Bool
is_inside argument = true
is_inside _ = false

module _ (str : Bytes) (c : ℕ) (s : Lexer) (inside : Bool) where
  pub argument_char-backslash :
      kind inside s.quote c ≡ backslash → argument_char str c s ≡ escape str s
  unfolding kind argument_char
  argument_char-backslash k = ground arith

  pub argument_char-opening :
      kind inside s.quote c ≡ opening → argument_char str c s ≡ some (record s { quote = c })
  unfolding kind argument_char
  argument_char-opening k = ground arith

  pub argument_char-plain : kind inside s.quote c ≡ plain → argument_char str c s ≡ put c s
  unfolding kind argument_char
  argument_char-plain k = ground arith

  pub argument_char-break :
      kind inside s.quote c ≡ break
      → argument_char str c s
        ≡ (end_argument (record s { quote = 0 }) >>= λ s'. some (record s' { state = whitespace }))
  unfolding kind argument_char
  argument_char-break k = ground arith

-- The line ends inside an argument.
pub argument_char-stop :
    (str : Bytes) (c : ℕ) (s : Lexer)
    → kind true s.quote c ≡ stop
    → argument_char str c s ≡ (
        end_argument (if s.quote == 0 then s else record s { error = 2 }) >>= λ s'.
        some (record s' { state = final }))
unfolding kind argument_char
argument_char-stop str c s k = ground arith

pub dispatch-argument :
    (str : Bytes) (c : ℕ) (st : State) (s : Lexer) (k : Kind)
    → s.state ≡ st
    → st ≢ final
    → kind (is_inside st) s.quote c ≡ k
    → k ≢ skip
    → (k ≡ stop → is_inside st ≡ true)
    → dispatch st str c s ≡ argument_char str c (record s { state = argument })
unfolding kind dispatch
dispatch-argument str c argument s k e ne h n1 n2 =
    ap (λ x. argument_char str c (record s { state = x })) e
dispatch-argument str c final s k e ne h n1 n2 = absurd (ne refl)
dispatch-argument str c initial s k e ne h n1 n2 = ground arith
dispatch-argument str c whitespace s k e ne h n1 n2 = ground arith

pub dispatch-skip :
    (str : Bytes) (c : ℕ) (st : State) (s : Lexer)
    → kind (is_inside st) s.quote c ≡ skip
    → dispatch st str c s ≡ some s
unfolding kind dispatch
dispatch-skip str c argument s k = ground arith
dispatch-skip str c _ s k = ground arith

pub dispatch-stop :
    (str : Bytes) (c : ℕ) (st : State) (s : Lexer)
    → is_inside st ≡ false
    → st ≢ final
    → kind false s.quote c ≡ stop
    → dispatch st str c s ≡ some (record s { state = final })
unfolding kind dispatch
dispatch-stop str c argument s o ne k = ground arith
dispatch-stop str c final s o ne k = absurd (ne refl)
dispatch-stop str c _ s o ne k = ground arith

-- One round, where `c` is the character at `pos`.
module _ (fuel : ℕ) (str : Bytes) (c : ℕ) (s : Lexer) where
  pub loop_round :
      running s ≡ true
      → char_at str s.pos ≡ some c
      → loop (suc fuel) str s
        ≡ (dispatch s.state str c (record s { pos = s.pos + 1 }) >>= loop fuel str)
  unfolding loop step
  loop_round r e = rw (r, e)

  pub loop_stopped : running s ≡ false → loop (suc fuel) str s ≡ some s
  unfolding loop
  loop_stopped r = rw r
