-- ===== src/Parser/Correct.antt =====
-- `parse_message` of server/parse.c: the run over a whole line, against the grammar.
use lcdproc.Prelude.{
  ℕ, zero, suc, ◌+◌, ◌≤◌, ◌≡◌, inl, inr, refl, ap, ◌∙◌, Bool, true, false, Option, none, some, List,
  [], ◌∷◌, ◌++◌, length, replicate, length-replicate, ltb, store_within, ◌==◌, if◌then◌else◌, ◌>>=◌,
  Bytes, arith, Bool-cases,
}
use lcdproc.Parser.{
  Lexer, is_whitespace, is_final, is_opening_quote, char_at, translate, start, terminate, tokenize,
  parse_line, Parsed, refused, arguments, read_arguments,
}
use lcdproc.Parser.Grammar.{
  skip, stop, backslash, opening, break, plain, kind, prefix, stopped, scan, outcome, meaning,
}
use lcdproc.Parser.Buffer.{
  Holding-moved, Holding-bounds, encode, offsets, store_null, read_arguments-Holding,
}
use lcdproc.Parser.Refine.{
  Suffix, extend, Ends, Runs, outcome_full, outcome_next, Suffix-suc, Suffix-char, Suffix-end,
  continue, Ready, Ready-running, stop_outside, stop_inside,
}
use lcdproc.Parser.Moves.{
  Next, skip_round, opening_round, plain_round, escape_round, escape_end, break_round,
}

kind-zero : (inside : Bool) (q : ℕ) → kind inside q 0 ≡ stop
unfolding kind is_whitespace is_final
kind-zero true q = refl
kind-zero false q = refl

kind-opening : (inside : Bool) (q c : ℕ) → kind inside q c ≡ opening → (c == 0) ≡ false
unfolding kind is_opening_quote
kind-opening inside q c k = ground arith

-- The equations of the grammar, at the kind of the next character.
module _ (inside : Bool) (q : ℕ) (arg : Bytes) (c : ℕ) where
  pub scan-skip :
      (cs : Bytes) → kind inside q c ≡ skip → scan inside q arg (c ∷ cs) ≡ scan inside q arg cs
  unfolding scan
  scan-skip [] k = rw (k, scan)
  scan-skip (d ∷ cs) k = rw (k, scan)

  scan-stop :
      (cs : Bytes) → kind inside q c ≡ stop → scan inside q arg (c ∷ cs) ≡ stopped inside q arg
  unfolding scan
  scan-stop [] k = rw (k, scan)
  scan-stop (d ∷ cs) k = rw (k, scan)

  pub scan-opening :
      (cs : Bytes) → kind inside q c ≡ opening → scan inside q arg (c ∷ cs) ≡ scan true c arg cs
  unfolding scan
  scan-opening [] k = rw (k, scan, kind-opening inside q c k)
  scan-opening (d ∷ cs) k = rw (k, scan)

  pub scan-break :
      (cs : Bytes)
      → kind inside q c ≡ break
      → scan inside q arg (c ∷ cs) ≡ prefix arg (scan false 0 [] cs)
  unfolding scan
  scan-break [] k = rw (k, scan)
  scan-break (d ∷ cs) k = rw (k, scan)

  pub scan-plain :
      (cs : Bytes)
      → kind inside q c ≡ plain
      → scan inside q arg (c ∷ cs) ≡ scan true q (arg ++ c ∷ []) cs
  unfolding scan
  scan-plain [] k = rw (k, scan)
  scan-plain (d ∷ cs) k = rw (k, scan)

  pub scan-backslash :
      (d : ℕ) (cs : Bytes)
      → kind inside q c ≡ backslash
      → scan inside q arg (c ∷ d ∷ cs)
        ≡ (if d == 0 then none else scan true q (arg ++ translate d ∷ []) cs)
  unfolding scan
  scan-backslash d cs k = rw (k, scan)

  scan-backslash_last : kind inside q c ≡ backslash → scan inside q arg (c ∷ []) ≡ none
  unfolding scan
  scan-backslash_last k = rw (k, scan)

-- What the run from a ready state leads to, whatever that state is.
abbrev Reads : ℕ → Bytes → Bytes → Type 0
Reads f str cs =
    (inside : Bool) (q : ℕ) (args : List Bytes) (arg : Bytes) (s : Lexer)
    → Suffix str s.pos cs
    → Ready inside q args arg (suc (length cs)) s
    → Runs (suc (suc f)) str s (outcome (extend args (scan inside q arg cs)))

stop_round :
    (f : ℕ) (str : Bytes) (c : ℕ) (inside : Bool) (q : ℕ) (args : List Bytes) (arg : Bytes)
    (room : ℕ) (s : Lexer)
    → Ready inside q args arg (suc room) s
    → char_at str s.pos ≡ some c
    → kind inside q c ≡ stop
    → Runs (suc (suc f)) str s (outcome (extend args (stopped inside q arg)))
stop_round f str c true q args arg room s g at k = stop_inside f str c q args arg room s g at k
stop_round f str c false q args arg room s g at k = stop_outside f str c q args arg room s g at k

module _ (f : ℕ) (str : Bytes) (c : ℕ) (cs : Bytes) (ih : Reads f str cs) (s : Lexer)
    (suf : Suffix str s.pos (c ∷ cs)) where
  go_on :
      {inside inside' : Bool} {q q' : ℕ} {args args' : List Bytes} {arg arg' : Bytes} {room : ℕ}
      → Ready inside q args arg (suc room) s
      → Next str c s inside' q' args' arg' (suc (length cs)) (s.pos + 1)
      → Runs (suc (suc (suc f))) str s (outcome (extend args' (scan inside' q' arg' cs)))
  go_on {inside'} {q'} {args'} {arg'} g n =
      continue (suc (suc f)) str _ c s (Ready-running g) (Suffix-char str s.pos c cs suf) n.gives
        (ih inside' q' args' arg' n.after (rw n.pos_is (Suffix-suc str s.pos c cs suf)) n.ready)

  -- One character, and the rest by the hypothesis; a backslash is the caller's.
  read_char :
      (inside : Bool) (q : ℕ) (args : List Bytes) (arg : Bytes)
      → Ready inside q args arg (suc (suc (length cs))) s
      → (kind inside q c ≡ backslash
          → Runs (suc (suc (suc f))) str s (outcome (extend args (scan inside q arg (c ∷ cs)))))
      → Runs (suc (suc (suc f))) str s (outcome (extend args (scan inside q arg (c ∷ cs))))
  read_char inside q args arg g esc =
      let at = Suffix-char str s.pos c cs suf in
      (elim (kind inside q c)
          as (λ k.
            kind inside q c ≡ k
            → Runs (suc (suc (suc f))) str s (outcome (extend args (scan inside q arg (c ∷ cs))))) [
              | skip ↦ λ k. rw (scan-skip inside q arg c cs k) (go_on g (skip_round str c s g k))
              | stop ↦ λ k.
                  rw (scan-stop inside q arg c cs k)
                    (stop_round (suc f) str c inside q args arg _ s g at k)
              | backslash ↦ esc
              | opening ↦
                  λ k. rw (scan-opening inside q arg c cs k) (go_on g (opening_round str c s g k))
              | break ↦ λ k.
                  rw (scan-break inside q arg c cs k) (elim (break_round str c s g (suc f) k at) [
                    | inl (full, r) ↦ rw (outcome_full args arg (scan false 0 [] cs) full) r
                    | inr n ↦ rw (outcome_next args arg (scan false 0 [] cs)) (go_on g n)
                  ])
              | plain ↦ λ k. rw (scan-plain inside q arg c cs k) (go_on g (plain_round str c s g k))
            ])
        refl

Ready-room :
    {inside : Bool} {q : ℕ} {args : List Bytes} {arg : Bytes} {room room' : ℕ} {s : Lexer}
    → Ready inside q args arg room s
    → room' ≤ room
    → Ready inside q args arg room' s
Ready-room {s} g le = record {
  inside_is = g.inside_is;
  quote_is = g.quote_is;
  ne_final = g.ne_final;
  no_error = g.no_error;
  gap = g.gap;
  holds = Holding-moved s.state s.error s.quote s.pos le g.holds;
}

-- A backslash with a character `d` behind it, which is taken unless it is a NUL.
read_escape :
    (f : ℕ) (str : Bytes) (c d : ℕ) (cs : Bytes) (inside : Bool) (q : ℕ) (args : List Bytes)
    (arg : Bytes) (s : Lexer)
    → Reads f str cs
    → Suffix str s.pos (c ∷ d ∷ cs)
    → Ready inside q args arg (suc (suc (suc (length cs)))) s
    → kind inside q c ≡ backslash
    → Runs
        (suc (suc (suc f)))
        str
        s
        (outcome (extend args (if d == 0 then none else scan true q (arg ++ translate d ∷ []) cs)))
read_escape f str c d cs inside q args arg s ih suf g k =
    let suf' = Suffix-suc str s.pos c (d ∷ cs) suf in
    let at = Suffix-char str s.pos c (d ∷ cs) suf in
    let next = Suffix-char str (s.pos + 1) d cs suf' in
    elim (Bool-cases (d == 0)) [
      | inl z ↦ rw z (escape_end str c s g (suc f) k at (next ∙ ap some (ground arith)))
      | inr nz ↦
          let n = escape_round str c s g d k next (ground arith) in
          rw nz (
            continue (suc (suc f)) str _ c s (Ready-running g) at n.gives (
              ih true q args (arg ++ translate d ∷ []) n.after
                (rw n.pos_is (Suffix-suc str (s.pos + 1) d cs suf'))
                (Ready-room n.ready (omega arith))))
    ]

loop-scan : (cs : Bytes) (f : ℕ) (str : Bytes) → length cs ≤ f → Reads f str cs
loop-scan [] f str le inside q args arg s suf g =
    unfold scan in
    stop_round f str 0 inside q args arg 0 s g (Suffix-end str s.pos suf) (kind-zero inside q)
loop-scan (c ∷ cs) zero str le inside q args arg s suf g = absurd (omega arith)
loop-scan (c ∷ []) (suc f) str le inside q args arg s suf g =
    read_char f str c [] (loop-scan [] f str (omega arith)) s suf inside q args arg g (λ k.
      rw (scan-backslash_last inside q arg c k) (
        escape_end str c s g (suc f) k (Suffix-char str s.pos c [] suf)
          (Suffix-end str (s.pos + 1) (Suffix-suc str s.pos c [] suf))))
loop-scan (c ∷ d ∷ cs) (suc f) str le inside q args arg s suf g =
    read_char f str c (d ∷ cs) (loop-scan (d ∷ cs) f str (omega arith)) s suf inside q args arg g
      (λ k.
        rw (scan-backslash inside q arg c d cs k)
          (read_escape f str c d cs inside q args arg s (loop-scan cs f str (omega arith)) suf g k))

start-Ready : (str : Bytes) → Ready false 0 [] [] (suc (length str)) (start str)
unfolding start encode offsets
start-Ready str = record {
  inside_is = refl;
  quote_is = refl;
  ne_final = cc;
  no_error = refl;
  gap = λ _. (refl, refl);
  holds = record {
    junk = replicate (length str + 1) 0;
    unused = replicate 39 none;
    space_is = refl;
    room_le = omega (arith, length-replicate {A = ℕ} (length str + 1) 0);
    argv_is = refl;
    argv_size = refl;
    argc_is = refl;
    argpos_is = refl;
    args_NoNul = tt;
    arg_NoNul = tt;
  };
}

-- What the command functions are given.
abbrev finished : Lexer → Option Parsed
finished s = terminate s >>= λ t.
    if t.error == 0
    then (do args ← read_arguments t.argc t.argv t.arg_space; some (arguments args))
    else some refused

Ends-finished : (r : Parsed) (t : Lexer) → Ends r t → finished t ≡ some r
unfolding terminate
Ends-finished refused t f =
    let (starts, e) = store_within t.argv t.argc none (omega (arith, f.argc_lt, f.argv_size)) in
    let lt : ltb t.argc 40 ≡ true = ground (arith, f.argc_lt) in
    let ne : (t.error == 0) ≡ false = ground (arith, f.error_ne) in rw (lt, e, ne)
Ends-finished (arguments args) t (e, h) =
    let lt : ltb t.argc 40 ≡ true = ground (arith, (Holding-bounds h).0) in
    rw (lt, store_null h, e, read_arguments-Holding h)

extend-nil : (r : Option (List Bytes)) → extend [] r ≡ r
extend-nil none = refl
extend-nil (some more) = refl

Suffix-all : (str : Bytes) → Suffix str 0 str
Suffix-all str i = ap (char_at str) (omega arith)

-- For every line, the state machine of parse_message reads and writes inside its arrays, ends,
-- and finds the arguments that the grammar finds, or refuses the line where the grammar does.
pub parse_line-meaning : (str : Bytes) → parse_line str ≡ some (meaning str)
unfolding parse_line tokenize meaning
parse_line-meaning str =
    let (t, e, ends) =
      loop-scan str (length str) str (omega arith) false 0 [] [] (start str)
        (unfold start in Suffix-all str) (start-Ready str) in
    let fuel : length str + 2 ≡ suc (suc (length str)) = omega arith in
    rw (fuel, e) (Ends-finished (outcome (scan false 0 [] str)) t (rw extend-nil at ends))
