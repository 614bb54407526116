-- ===== src/Parser/Moves.antt =====
-- The rounds of the loop of `parse_message` of server/parse.c that go on.
use lcdproc.Prelude.{
  ℕ, suc, ◌+◌, ◌≤◌, ◌≡◌, ◌≢◌, ◌⊎◌, inl, inr, refl, ◌∙◌, Bool, true, false, some, List, [], ◌∷◌,
  ◌++◌, length, ◌==◌, Bytes, arith,
}
use lcdproc.Parser.{
  whitespace, final, Lexer, is_final, escape, dispatch, char_at, translate, refused,
}
use lcdproc.Parser.Grammar.{skip, backslash, opening, break, plain, kind}
use lcdproc.Parser.Buffer.{Holding, Holding-moved, Failed, put-Holding}
use lcdproc.Parser.Rounds.{
  argument_char-backslash, argument_char-opening, argument_char-plain, argument_char-break,
  dispatch-skip,
}
use lcdproc.Parser.Refine.{
  Runs, running_error, running_final, continue, halt, Failed-Holding, ending, end_step, Ready,
  Ready-running, kind_same, advanced, advanced-Holding, dispatch-Ready, ending_refused,
}

translate-ne_zero : (d : ℕ) → d ≢ 0 → translate d ≢ 0
unfolding translate
translate-ne_zero d ne = ground arith

plain-ne_zero : (inside : Bool) (q c : ℕ) → kind inside q c ≡ plain → c ≢ 0
unfolding kind is_final
plain-ne_zero inside q c k = ground arith

module _ (str : Bytes) (s : Lexer) {args : List Bytes} {arg : Bytes} {room : ℕ}
    (h : Holding args arg (suc room) s) where
  -- A backslash is the last character.
  escape_last :
      char_at str s.pos ≡ some 0
      → (t : Lexer) × (escape str s ≡ some t) × (t.state ≡ final) × Failed t
  unfolding escape
  escape_last at =
      let (t, e, st, f) =
        ending_refused final (record s { error = 2 })
          (Holding-moved {room' = suc room} s.state 2 s.quote s.pos (omega arith) h)
          (omega arith) in
      (t, rw at e, st, f)

  -- The character behind it is taken.
  escape_next :
      (d : ℕ)
      → char_at str s.pos ≡ some d
      → d ≢ 0
      → (space : List ℕ) × (escape str s
          ≡ some (record s { arg_space = space; argpos = s.argpos + 1; pos = s.pos + 1 }))
        × Holding args
            (arg ++ translate d ∷ [])
            room
            (record s { arg_space = space; argpos = s.argpos + 1; pos = s.pos + 1 })
  unfolding escape
  escape_next d at ne =
      let (space, e, h') = put-Holding (translate d) (translate-ne_zero d ne) h in
      let ne' : (d == 0) ≡ false = ground arith in
      (
        space,
        rw (at, ne', e),
        Holding-moved {room' = room} s.state s.error s.quote (s.pos + 1) (omega arith) h',
      )

-- What a round leads to: the end of the run, or the rest of the line from a ready state.
pub record Next (str : Bytes) (c : ℕ) (s : Lexer) (inside : Bool) (q : ℕ) (args : List Bytes)
    (arg : Bytes) (room p : ℕ) : Type 0 where
  pub after : Lexer
  pub gives : dispatch s.state str c (record s { pos = s.pos + 1 }) ≡ some after
  pub ready : Ready inside q args arg room after
  pub pos_is : after.pos ≡ p

module _ (str : Bytes) (c : ℕ) {inside : Bool} {q : ℕ} {args : List Bytes} {arg : Bytes} {room : ℕ}
    (s : Lexer) (g : Ready inside q args arg (suc room) s) where
  pub skip_round : kind inside q c ≡ skip → Next str c s inside q args arg room (s.pos + 1)
  skip_round k = record {
    after = record s { pos = s.pos + 1 };
    gives = dispatch-skip str c s.state (record s { pos = s.pos + 1 }) (kind_same g c k);
    ready = record {
      inside_is = g.inside_is;
      quote_is = g.quote_is;
      ne_final = g.ne_final;
      no_error = g.no_error;
      gap = g.gap;
      holds = Holding-moved s.state s.error s.quote (s.pos + 1) (omega arith) g.holds;
    };
    pos_is = refl;
  }

  pub opening_round : kind inside q c ≡ opening → Next str c s true c args arg room (s.pos + 1)
  opening_round k = record {
    after = record (advanced g) { quote = c };
    gives =
        dispatch-Ready g str c k (cc) (λ e. cc)
        ∙ argument_char-opening str c (advanced g) inside (rw g.quote_is k);
    ready = record {
      inside_is = refl;
      quote_is = refl;
      ne_final = cc;
      no_error = g.no_error;
      gap = λ e. cc;
      holds = advanced-Holding g s.error c (omega arith);
    };
    pos_is = refl;
  }

  pub plain_round :
      kind inside q c ≡ plain → Next str c s true q args (arg ++ c ∷ []) room (s.pos + 1)
  plain_round k =
      let (space, e, h) =
        put-Holding c (plain-ne_zero inside q c k)
          (advanced-Holding g s.error s.quote {room' = suc room} (omega arith)) in
      record {
        after = record (advanced g) { arg_space = space; argpos = s.argpos + 1 };
        gives =
            dispatch-Ready g str c k (cc) (λ e. cc)
            ∙ argument_char-plain str c (advanced g) inside (rw g.quote_is k)
            ∙ e;
        ready = record {
          inside_is = refl;
          quote_is = g.quote_is;
          ne_final = cc;
          no_error = g.no_error;
          gap = λ e. cc;
          holds = h;
        };
        pos_is = refl;
      }

  pub escape_round :
      (d : ℕ)
      → kind inside q c ≡ backslash
      → char_at str (s.pos + 1) ≡ some d
      → d ≢ 0
      → Next str c s true q args (arg ++ translate d ∷ []) room (s.pos + 1 + 1)
  escape_round d k at ne =
      let (space, e, h) =
        escape_next str (advanced g)
          (advanced-Holding g s.error s.quote {room' = suc room} (omega arith)) d at ne in
      record {
        after = record (advanced g) {
          arg_space = space;
          argpos = s.argpos + 1;
          pos = s.pos + 1 + 1;
        };
        gives =
            dispatch-Ready g str c k (cc) (λ e. cc)
            ∙ argument_char-backslash str c (advanced g) inside (rw g.quote_is k)
            ∙ e;
        ready = record {
          inside_is = refl;
          quote_is = g.quote_is;
          ne_final = cc;
          no_error = g.no_error;
          gap = λ e. cc;
          holds = h;
        };
        pos_is = refl;
      }

  -- A backslash in front of the terminator.
  pub escape_end :
      (fuel : ℕ)
      → kind inside q c ≡ backslash
      → char_at str s.pos ≡ some c
      → char_at str (s.pos + 1) ≡ some 0
      → Runs (suc (suc fuel)) str s refused
  escape_end fuel k here at =
      let (t, e, ts, f) =
        escape_last str (advanced g)
          (advanced-Holding g s.error s.quote {room' = suc room} (omega arith)) at in
      continue (suc fuel) str refused c s (Ready-running g) here
        (dispatch-Ready g str c k (cc) (λ e. cc)
          ∙ argument_char-backslash str c (advanced g) inside (rw g.quote_is k)
          ∙ e)
        (halt fuel str refused t (running_final t ts) f)

  -- A closing quote, or a blank outside quotes: the run is over, or the next argument is awaited.
  pub break_round :
      (fuel : ℕ)
      → kind inside q c ≡ break
      → char_at str s.pos ≡ some c
      → ((39 ≤ length args) × Runs (suc (suc fuel)) str s refused)
        ⊎ Next str c s false 0 (args ++ arg ∷ []) [] room (s.pos + 1)
  break_round fuel k here =
      let s' = record (advanced g) { quote = 0 } in
      let h' = advanced-Holding g s.error 0 {room' = suc room} (omega arith) in
      let go : dispatch s.state str c (record s { pos = s.pos + 1 }) ≡ ending whitespace s' =
        dispatch-Ready g str c k (cc) (λ e. cc)
        ∙ argument_char-break str c (advanced g) inside (rw g.quote_is k) in
      elim (end_step whitespace s' h') [
        | inl (full, e) ↦ inl (
          full,
          continue (suc fuel) str refused c s (Ready-running g) here (go ∙ e) (
              halt fuel str refused (record s' { error = 1; state = whitespace })
                (running_error _ (omega arith))
                (Failed-Holding
                  (Holding-moved {room' = 0} whitespace 1 0 (s.pos + 1) (omega arith) h')
                  (omega arith))),
        )
        | inr (t, e) ↦ inr (record {
          after = t;
          gives = go ∙ e.gives;
          ready = record {
            inside_is = rw e.state_is;
            quote_is = e.quote_is;
            ne_final = cc e.state_is;
            no_error = e.error_is ∙ g.no_error;
            gap = λ _. (refl, refl);
            holds = e.holds;
          };
          pos_is = e.pos_is;
        })
      ]
