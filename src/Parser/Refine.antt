-- ===== src/Parser/Refine.antt =====
-- The loop of `parse_message` of server/parse.c against the grammar.
use native.Mathlib.Decide.{dec_lt}
use lcdproc.Prelude.{
  ℕ, suc, ◌+◌, ◌≤◌, ◌<◌, ◌≡◌, ◌≢◌, ◌⊎◌, inl, inr, refl, ap, ◌∙◌, Bool, true, false, Option, none,
  some, List, [], ◌∷◌, ◌++◌, append-nil, append_assoc, length, length-append, ◌==◌, if◌then◌else◌,
  ◌>>=◌, Bytes, arith, Bool-cases,
}
use lcdproc.Parser.{
  State, argument, final, Lexer, end_argument, argument_char, dispatch, running, loop, char_at,
  Parsed, refused, arguments,
}
use lcdproc.Parser.Grammar.{Kind, skip, stop, kind, prefix, stopped, outcome}
use lcdproc.Parser.Buffer.{
  Holding, Holding-moved, Failed, end_argument-Holding, end_argument_full, Holding-bounds,
}
use lcdproc.Parser.Rounds.{
  is_inside, argument_char-stop, dispatch-argument, dispatch-stop, loop_round, loop_stopped,
}

-- `cs` is what stands at `p`.
abbrev pub Suffix : Bytes → ℕ → Bytes → Type 0
Suffix str p cs = (i : ℕ) → char_at str (p + i) ≡ char_at cs i

abbrev pub extend : List Bytes → Option (List Bytes) → Option (List Bytes)
extend args none = none
extend args (some more) = some (args ++ more)

-- Between two arguments nothing has been written yet and no quote is open.
abbrev pub Gap : Bool → ℕ → Bytes → Type 0
Gap inside q arg = inside ≡ false → (arg ≡ []) × (q ≡ 0)

abbrev pub Ends : Parsed → Lexer → Type 0
Ends refused t = Failed t
Ends (arguments args) t = (t.error ≡ 0) × Holding args [] 0 t

abbrev pub Runs : ℕ → Bytes → Lexer → Parsed → Type 0
Runs fuel str s r = (t : Lexer) × (loop fuel str s ≡ some t) × Ends r t

pub outcome_full :
    (args : List Bytes) (arg : Bytes) (r : Option (List Bytes))
    → 39 ≤ length args
    → outcome (extend args (prefix arg r)) ≡ refused
outcome_full args arg none h = refl
outcome_full args arg (some more) h = ground (arith, length-append args (arg ∷ more))

pub outcome_next :
    (args : List Bytes) (arg : Bytes) (r : Option (List Bytes))
    → outcome (extend args (prefix arg r)) ≡ outcome (extend (args ++ arg ∷ []) r)
outcome_next args arg none = refl
outcome_next args arg (some more) = rw append_assoc

outcome_few : (args : List Bytes) → length args ≤ 39 → outcome (some args) ≡ arguments args
outcome_few args h = ground arith

char_at-suc : (c : ℕ) (cs : Bytes) (i : ℕ) → char_at (c ∷ cs) (suc i) ≡ char_at cs i
unfolding char_at
char_at-suc c cs i = refl

pub Suffix-suc :
    (str : Bytes) (p c : ℕ) (cs : Bytes) → Suffix str p (c ∷ cs) → Suffix str (p + 1) cs
Suffix-suc str p c cs h i = ap (char_at str) (omega arith) ∙ h (suc i) ∙ char_at-suc c cs i

pub Suffix-char :
    (str : Bytes) (p c : ℕ) (cs : Bytes) → Suffix str p (c ∷ cs) → char_at str p ≡ some c
unfolding char_at
Suffix-char str p c cs h = ap (char_at str) (omega arith) ∙ h 0

pub Suffix-end : (str : Bytes) (p : ℕ) → Suffix str p [] → char_at str p ≡ some 0
unfolding char_at
Suffix-end str p h = ap (char_at str) (omega arith) ∙ h 0

running_ready :
    (s : Lexer) (st : State) → s.state ≡ st → st ≢ final → s.error ≡ 0 → running s ≡ true
unfolding running
running_ready s st e ne z = ground arith

pub running_final : (s : Lexer) → s.state ≡ final → running s ≡ false
unfolding running
running_final s e = rw e

pub running_error : (s : Lexer) → s.error ≢ 0 → running s ≡ false
unfolding running
running_error s ne = ground arith

module _ (fuel : ℕ) (str : Bytes) (r : Parsed) where
  pub continue :
      (c : ℕ) (s : Lexer) {t : Lexer}
      → running s ≡ true
      → char_at str s.pos ≡ some c
      → dispatch s.state str c (record s { pos = s.pos + 1 }) ≡ some t
      → Runs fuel str t r
      → Runs (suc fuel) str s r
  continue c s run at e (u, l, ends) = (u, loop_round fuel str c s run at ∙ rw e l, ends)

  pub halt : (s : Lexer) → running s ≡ false → Ends r s → Runs (suc fuel) str s r
  halt s run ends = (s, loop_stopped fuel str 0 s run, ends)

pub Failed-Holding :
    {args : List Bytes} {arg : Bytes} {room : ℕ} {s : Lexer}
    → Holding args arg room s
    → s.error ≢ 0
    → Failed s
Failed-Holding h ne =
    let (a, b) = Holding-bounds h in record { error_ne = ne; argc_lt = a; argv_size = b }

abbrev pub ending : State → Lexer → Option Lexer
ending st s = end_argument s >>= λ s'. some (record s' { state = st })

-- The end of an argument: too many, or one more.
pub record Ended (args : List Bytes) (arg : Bytes) (room : ℕ) (st : State) (s t : Lexer)
    : Type 0 where
  pub few : length args < 39
  pub gives : ending st s ≡ some t
  pub holds : Holding (args ++ arg ∷ []) [] room t
  pub state_is : t.state ≡ st
  pub error_is : t.error ≡ s.error
  pub quote_is : t.quote ≡ s.quote
  pub pos_is : t.pos ≡ s.pos

pub end_step :
    {args : List Bytes} {arg : Bytes} {room : ℕ} (st : State) (s : Lexer)
    → Holding args arg (suc room) s
    → ((39 ≤ length args) × (ending st s ≡ some (record s { error = 1; state = st })))
      ⊎ ((t : Lexer) × Ended args arg room st s t)
end_step {args} st s h = elim (dec_lt (length args) 39) [
  | no n ↦ inl (omega arith, rw (end_argument_full h (omega arith)))
  | yes few ↦
      let (space, starts, e, h') = end_argument-Holding h few in
      inr (
        record s { state = st; arg_space = space; argv = starts; argc = s.argc + 1; argpos = 0 },
        record {
          few = few;
          gives = rw e;
          holds = Holding-moved st s.error s.quote s.pos (omega arith) h';
          state_is = refl;
          error_is = refl;
          quote_is = refl;
          pos_is = refl;
        },
      )
]

pub few_args :
    {args : List Bytes} {arg : Bytes} {room : ℕ} {s : Lexer}
    → Holding args arg room s
    → length args ≤ 39
few_args h = omega (arith, h.argv_size)

-- The state of the loop before a round, with `cs` still to read.
pub record Ready (inside : Bool) (q : ℕ) (args : List Bytes) (arg : Bytes) (room : ℕ) (s : Lexer)
    : Type 0 where
  pub inside_is : is_inside s.state ≡ inside
  pub quote_is : s.quote ≡ q
  pub ne_final : s.state ≢ final
  pub no_error : s.error ≡ 0
  pub gap : Gap inside q arg
  pub holds : Holding args arg room s

module _ {inside : Bool} {q : ℕ} {args : List Bytes} {arg : Bytes} {room : ℕ} {s : Lexer}
    (g : Ready inside q args arg room s) where
  pub Ready-running : running s ≡ true
  Ready-running = running_ready s s.state refl g.ne_final g.no_error

  pub kind_same : (c : ℕ) {k : Kind} → kind inside q c ≡ k → kind (is_inside s.state) s.quote c ≡ k
  kind_same c e = rw (g.inside_is, g.quote_is) e

  abbrev pub advanced : Lexer
  advanced = record s { pos = s.pos + 1; state = argument }

  pub advanced-Holding :
      (e q' : ℕ) {room' : ℕ}
      → room' ≤ room
      → Holding args arg room'
          (record s { pos = s.pos + 1; state = argument; error = e; quote = q' })
  advanced-Holding e q' le = Holding-moved argument e q' (s.pos + 1) le g.holds

  pub dispatch-Ready :
      (str : Bytes) (c : ℕ) {k : Kind}
      → kind inside q c ≡ k
      → k ≢ skip
      → (k ≡ stop → inside ≡ true)
      → dispatch s.state str c (record s { pos = s.pos + 1 }) ≡ argument_char str c advanced
  dispatch-Ready str c {k} e n1 n2 =
      dispatch-argument str c s.state (record s { pos = s.pos + 1 }) k refl g.ne_final
        (kind_same c e) n1 (λ x. g.inside_is ∙ n2 x)

pub ending_refused :
    {args : List Bytes} {arg : Bytes} {room : ℕ} (st : State) (s : Lexer)
    → Holding args arg (suc room) s
    → s.error ≢ 0
    → (t : Lexer) × (ending st s ≡ some t) × (t.state ≡ st) × Failed t
ending_refused st s h ne = elim (end_step st s h) [
  | inl (full, e) ↦ (
    record s { error = 1; state = st },
    e,
    refl,
    Failed-Holding (Holding-moved {room' = 0} st 1 s.quote s.pos (omega arith) h) (omega arith),
  )
  | inr (t, e) ↦ (t, e.gives, e.state_is, Failed-Holding e.holds (rw e.error_is ne))
]

-- The character that ends the line, or its terminator, outside an argument and inside one.
pub stop_outside :
    (fuel : ℕ) (str : Bytes) (c q : ℕ) (args : List Bytes) (arg : Bytes) (room : ℕ) (s : Lexer)
    → Ready false q args arg (suc room) s
    → char_at str s.pos ≡ some c
    → kind false q c ≡ stop
    → Runs (suc (suc fuel)) str s (outcome (extend args (some [])))
stop_outside fuel str c q args arg room s g at k =
    let t = record s { pos = s.pos + 1; state = final } in
    let (empty, _) = g.gap refl in
    rw (append-nil args, outcome_few args (few_args g.holds))
      (continue (suc fuel) str (arguments args) c s (Ready-running g) at
        (dispatch-stop str c s.state (record s { pos = s.pos + 1 }) g.inside_is g.ne_final
          (rw g.quote_is k))
        (halt fuel str (arguments args) t (running_final t refl) (
          g.no_error,
          rw empty at
              (Holding-moved {room' = 0} final s.error s.quote (s.pos + 1) (omega arith) g.holds),
        )))

pub stop_inside :
    (fuel : ℕ) (str : Bytes) (c q : ℕ) (args : List Bytes) (arg : Bytes) (room : ℕ) (s : Lexer)
    → Ready true q args arg (suc room) s
    → char_at str s.pos ≡ some c
    → kind true q c ≡ stop
    → Runs (suc (suc fuel)) str s (outcome (extend args (stopped true q arg)))
stop_inside fuel str c q args arg room s g at k =
    let s' = advanced g in
    let h' : Holding args arg (suc room) s' = advanced-Holding g s.error s.quote (omega arith) in
    let go : dispatch s.state str c (record s { pos = s.pos + 1 })
        ≡ ending final (if s.quote == 0 then s' else record s' { error = 2 }) =
      dispatch-Ready g str c k (cc) (λ _. refl) ∙ (argument_char-stop str c s' (rw g.quote_is k)) in
    elim (Bool-cases (q == 0)) [
      | inl z ↦
          let z' : (s.quote == 0) ≡ true = rw g.quote_is z in
          rw z (elim (end_step final s' h') [
            | inl (full, e) ↦ rw (outcome_full args arg (some []) full) (
                continue (suc fuel) str refused c s (Ready-running g) at (go ∙ rw z' e) (
                  halt fuel str refused (record s' { error = 1; state = final })
                    (running_final _ refl)
                    (Failed-Holding
                      (Holding-moved {room' = 0} final 1 s'.quote s'.pos (omega arith) h')
                      (omega arith))))
            | inr (t, e) ↦ rw (outcome_few (args ++ arg ∷ []) (few_args e.holds)) (
                continue (suc fuel) str (arguments (args ++ arg ∷ [])) c s (Ready-running g) at
                  (go ∙ rw z' e.gives)
                  (halt fuel str (arguments (args ++ arg ∷ [])) t (running_final t e.state_is) (
                    e.error_is ∙ g.no_error,
                    Holding-moved {room' = 0} t.state t.error t.quote t.pos (omega arith) e.holds,
                  )))
          ])
      | inr nz ↦
          let nz' : (s.quote == 0) ≡ false = rw g.quote_is nz in
          let (t, e, ts, f) =
            ending_refused final (record s' { error = 2 })
              (Holding-moved {room' = suc room} argument 2 s'.quote s'.pos (omega arith) h')
              (omega arith) in
          rw nz (
            continue (suc fuel) str refused c s (Ready-running g) at (go ∙ rw nz' e)
              (halt fuel str refused t (running_final t ts) f))
    ]
