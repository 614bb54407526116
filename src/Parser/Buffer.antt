-- ===== src/Parser/Buffer.antt =====
-- `arg_space` and `argv` of `parse_message`: what they hold while the arguments `args` are complete
-- and `arg` is being written, and how a write and the end of an argument change that.
use lcdproc.Prelude.{
  ℕ, suc, ◌+◌, ◌≤◌, ◌<◌, ◌≡◌, ◌≢◌, refl, ap, ◌∙◌, true, false, Option, none, some, List, [], ◌∷◌,
  ◌++◌, append_assoc, length, length-append, store, get_elem?-prefix, List-cases, inl, inr,
  store-prefix, drop-prefix, leb, ◌==◌, Bytes, arith,
}
use lcdproc.Parser.{State, Lexer, arg_start, put, end_argument, c_string, read_arguments}

-- The arguments one behind the other, each with its terminator.
unfoldable pub encode : List Bytes → List ℕ
encode [] = []
encode (a ∷ bs) = a ++ (0 ∷ encode bs)

-- Where each argument starts, the first one at `o`.
unfoldable pub offsets : ℕ → List Bytes → List (Option ℕ)
offsets o [] = []
offsets o (a ∷ bs) = some o ∷ offsets (suc (o + length a)) bs

abbrev pub NoNul : Bytes → Type 0
NoNul [] = Unit
NoNul (c ∷ cs) = (c ≢ 0) × NoNul cs

abbrev pub AllNoNul : List Bytes → Type 0
AllNoNul [] = Unit
AllNoNul (a ∷ bs) = NoNul a × AllNoNul bs

pub length-offsets : (o : ℕ) (bs : List Bytes) → length (offsets o bs) ≡ length bs
unfolding offsets
length-offsets o [] = refl
length-offsets o (a ∷ bs) = ap suc (length-offsets (suc (o + length a)) bs)

encode-concat :
    (bs : List Bytes) (a : Bytes) (r : List ℕ)
    → encode bs ++ (a ++ 0 ∷ r) ≡ encode (bs ++ a ∷ []) ++ r
unfolding encode
encode-concat [] a r = rw append_assoc
encode-concat (b ∷ bs) a r = rw (append_assoc b, append_assoc b, encode-concat bs a r)

length-encode-concat :
    (bs : List Bytes) (a : Bytes)
    → length (encode (bs ++ a ∷ [])) ≡ suc (length (encode bs) + length a)
unfolding encode
length-encode-concat [] a = omega (arith, length-append a (0 ∷ []))
length-encode-concat (b ∷ bs) a = omega (
  arith,
  length-append b (0 ∷ encode (bs ++ a ∷ [])),
  length-append b (0 ∷ encode bs),
  length-encode-concat bs a,
)

offsets-concat :
    (o : ℕ) (bs : List Bytes) (a : Bytes)
    → offsets o (bs ++ a ∷ []) ≡ offsets o bs ++ some (o + length (encode bs)) ∷ []
unfolding offsets encode
offsets-concat o [] a = ap (λ (n : ℕ). some n ∷ []) (omega arith)
offsets-concat o (b ∷ bs) a = ap (◌∷◌ (some o)) (
    offsets-concat (suc (o + length b)) bs a
    ∙ ap (λ (n : ℕ). offsets (suc (o + length b)) bs ++ some n ∷ [])
        (omega (arith, length-append b (0 ∷ encode bs))))

offsets-concat_zero :
    (bs : List Bytes) (a : Bytes)
    → offsets 0 (bs ++ a ∷ []) ≡ offsets 0 bs ++ some (length (encode bs)) ∷ []
offsets-concat_zero bs a =
    offsets-concat 0 bs a ∙ ap (λ (n : ℕ). offsets 0 bs ++ some n ∷ []) (omega arith)

pub NoNul-concat : (a : Bytes) (c : ℕ) → NoNul a → c ≢ 0 → NoNul (a ++ c ∷ [])
NoNul-concat [] c h ne = (ne, tt)
NoNul-concat (x ∷ a) c h ne = (h.0, NoNul-concat a c h.1 ne)

AllNoNul-concat : (bs : List Bytes) (a : Bytes) → AllNoNul bs → NoNul a → AllNoNul (bs ++ a ∷ [])
AllNoNul-concat [] a h n = (n, tt)
AllNoNul-concat (x ∷ bs) a h n = (h.0, AllNoNul-concat bs a h.1 n)

-- `room` more bytes fit behind what has been written.
pub record Holding (args : List Bytes) (arg : Bytes) (room : ℕ) (s : Lexer) : Type 0 where
  pub junk : List ℕ
  pub unused : List (Option ℕ)
  pub space_is : s.arg_space ≡ encode args ++ (arg ++ junk)
  pub room_le : room ≤ length junk
  pub argv_is : s.argv ≡ offsets 0 args ++ some (length (encode args)) ∷ unused
  pub argv_size : length args + length unused ≡ 39
  pub argc_is : s.argc ≡ length args
  pub argpos_is : s.argpos ≡ length arg
  pub args_NoNul : AllNoNul args
  pub arg_NoNul : NoNul arg

-- What the loop does to its other variables does not matter here, and room may be left over.
pub Holding-moved :
    {args : List Bytes} {arg : Bytes} {room room' : ℕ} {s : Lexer} (st : State) (e q p : ℕ)
    → room' ≤ room
    → Holding args arg room s
    → Holding args arg room' (record s { state = st; error = e; quote = q; pos = p })
Holding-moved st e q p le h = record {
  junk = h.junk;
  unused = h.unused;
  space_is = h.space_is;
  room_le = omega (arith, h.room_le);
  argv_is = h.argv_is;
  argv_size = h.argv_size;
  argc_is = h.argc_is;
  argpos_is = h.argpos_is;
  args_NoNul = h.args_NoNul;
  arg_NoNul = h.arg_NoNul;
}

-- What is known of the arrays when the line is refused: `argv[argc] = NULL` stays inside.
pub record Failed (s : Lexer) : Type 0 where
  pub error_ne : s.error ≢ 0
  pub argc_lt : s.argc < 40
  pub argv_size : length s.argv ≡ 40

module _ {args : List Bytes} {arg : Bytes} {s : Lexer} where
  pub arg_start-Holding :
      {room : ℕ} → Holding args arg room s → arg_start s ≡ some (length (encode args))
  unfolding arg_start
  arg_start-Holding h = rw (h.argv_is, h.argc_is, ← length-offsets 0 args, get_elem?-prefix)

  -- The next byte goes to the front of what is still free.
  store_next :
      {room : ℕ} (h : Holding args arg room s) (x v : ℕ) (xs : List ℕ)
      → h.junk ≡ x ∷ xs
      → store s.arg_space (length (encode args) + s.argpos) v
        ≡ some (encode args ++ (arg ++ v ∷ xs))
  store_next h x v xs e = rw (
    h.space_is,
    e,
    h.argpos_is,
    ← length-append (encode args) arg,
    ← append_assoc (encode args) arg (x ∷ xs),
    store-prefix (encode args ++ arg) xs x v,
    append_assoc,
  )

  -- `argv[argc+1] = v`
  store_start :
      {room : ℕ} (h : Holding args arg room s) (y v : Option ℕ) (ys : List (Option ℕ))
      → h.unused ≡ y ∷ ys
      → store s.argv (s.argc + 1) v
        ≡ some ((offsets 0 args ++ some (length (encode args)) ∷ []) ++ v ∷ ys)
  store_start h y v ys e =
      let front = offsets 0 args ++ some (length (encode args)) ∷ [] in
      let at : s.argc + 1 ≡ length front = omega (
        arith,
        h.argc_is,
        length-offsets 0 args,
        length-append (offsets 0 args) (some (length (encode args)) ∷ []),
      ) in
      rw (h.argv_is, e, at, ← append_assoc (offsets 0 args) (some (length (encode args)) ∷ []))
        (store-prefix front ys y v)

  -- `argv[argc][argpos++] = v`
  pub put-Holding :
      {room : ℕ} (v : ℕ)
      → v ≢ 0
      → Holding args arg (suc room) s
      → (space : List ℕ) × (put v s ≡ some (record s { arg_space = space; argpos = s.argpos + 1 }))
        × Holding args (arg ++ v ∷ []) room (record s { arg_space = space; argpos = s.argpos + 1 })
  unfolding put
  put-Holding v ne h = elim (List-cases h.junk) [
    | inl e ↦ absurd (omega (arith, ap length e))
    | inr (x, xs, e) ↦ (
      encode args ++ (arg ++ v ∷ xs),
      rw (arg_start-Holding h, store_next h x v xs e),
      record {
        junk = xs;
        unused = h.unused;
        space_is = rw append_assoc;
        room_le = omega (arith, ap length e);
        argv_is = h.argv_is;
        argv_size = h.argv_size;
        argc_is = h.argc_is;
        argpos_is = omega (arith, h.argpos_is, length-append arg (v ∷ []));
        args_NoNul = h.args_NoNul;
        arg_NoNul = NoNul-concat arg v h.arg_NoNul ne;
      },
    )
  ]

  -- The argument is complete: there is room for its terminator, and the next one starts behind it.
  pub end_argument-Holding :
      {room : ℕ}
      → Holding args arg (suc room) s
      → length args < 39
      → (space : List ℕ) × (starts : List (Option ℕ)) × (end_argument s
          ≡ some (record s { arg_space = space; argv = starts; argc = s.argc + 1; argpos = 0 }))
        × Holding
            (args ++ arg ∷ [])
            []
            room
            (record s { arg_space = space; argv = starts; argc = s.argc + 1; argpos = 0 })
  unfolding end_argument
  end_argument-Holding h few = elim (List-cases h.junk) [
    | inl e ↦ absurd (omega (arith, ap length e))
    | inr (x, xs, e) ↦ elim (List-cases h.unused) [
      | inl e' ↦ absurd (omega (arith, ap length e'))
      | inr (y, ys, e') ↦
          let next = length (encode args) + s.argpos + 1 in
          let few' : leb 39 s.argc ≡ false = ground (arith, h.argc_is) in
          (
            encode args ++ (arg ++ 0 ∷ xs),
            (offsets 0 args ++ some (length (encode args)) ∷ []) ++ some next ∷ ys,
            rw (
              few',
              arg_start-Holding h,
              store_next h x 0 xs e,
              store_start h y (some next) ys e',
            ),
            record {
              junk = xs;
              unused = ys;
              space_is = encode-concat args arg xs;
              room_le = omega (arith, ap length e);
              argv_is = rw (offsets-concat_zero args arg) (
                  ap
                    (λ (n : ℕ). (offsets 0 args ++ some (length (encode args)) ∷ []) ++ some n ∷ ys)
                    (omega (arith, length-encode-concat args arg, h.argpos_is)));
              argv_size = omega (arith, ap length e', length-append args (arg ∷ []));
              argc_is = omega (arith, h.argc_is, length-append args (arg ∷ []));
              argpos_is = refl;
              args_NoNul = AllNoNul-concat args arg h.args_NoNul h.arg_NoNul;
              arg_NoNul = tt;
            },
          )
    ]
  ]

  -- There is no place for another argument.
  pub end_argument_full :
      {room : ℕ}
      → Holding args arg room s
      → 39 ≤ length args
      → end_argument s ≡ some (record s { error = 1 })
  unfolding end_argument
  end_argument_full h full = let t : leb 39 s.argc ≡ true = ground (arith, h.argc_is) in rw t

  pub Holding-bounds : {room : ℕ} → Holding args arg room s → (s.argc < 40) × (length s.argv ≡ 40)
  Holding-bounds h = (
    omega (arith, h.argc_is, h.argv_size),
    rw h.argv_is (
        omega (
          arith,
          h.argv_size,
          length-offsets 0 args,
          length-append (offsets 0 args) (some (length (encode args)) ∷ h.unused),
        )),
  )

c_string-prefix : (a : Bytes) (r : List ℕ) → NoNul a → c_string (a ++ 0 ∷ r) ≡ some a
unfolding c_string
c_string-prefix [] r h = refl
c_string-prefix (x ∷ a) r h =
    let ne : (x == 0) ≡ false = ground (arith, h.0) in rw (ne, c_string-prefix a r h.1)

-- What was written is what the command functions read.
read_arguments-from :
    (args : List Bytes) (before : List ℕ) (r : List ℕ) (starts : List (Option ℕ))
    → AllNoNul args
    → read_arguments
        (length args)
        (offsets (length before) args ++ starts)
        (before ++ (encode args ++ r))
      ≡ some args
unfolding read_arguments offsets encode
read_arguments-from [] before r starts h = refl
read_arguments-from (a ∷ args) before r starts h =
    let before' = before ++ (a ++ 0 ∷ []) in
    let size : length before' ≡ suc (length before + length a) =
      omega (arith, length-append before (a ++ 0 ∷ []), length-append a (0 ∷ [])) in
    let same : before' ++ (encode args ++ r) ≡ before ++ ((a ++ 0 ∷ encode args) ++ r) =
      simp append_assoc in
    rw (
      drop-prefix before _,
      append_assoc a (0 ∷ encode args) r,
      c_string-prefix a (encode args ++ r) h.0,
      ← append_assoc a (0 ∷ encode args) r,
      rw (size, same) at (read_arguments-from args before' r starts h.1),
    )

module _ {args : List Bytes} {room : ℕ} {s : Lexer} (h : Holding args [] room s) where
  -- `argv[argc] = NULL`
  pub store_null : store s.argv s.argc none ≡ some (offsets 0 args ++ none ∷ h.unused)
  store_null =
      rw (h.argv_is, h.argc_is, ← length-offsets 0 args)
        (store-prefix (offsets 0 args) h.unused (some (length (encode args))) none)

  pub read_arguments-Holding :
      read_arguments s.argc (offsets 0 args ++ none ∷ h.unused) s.arg_space ≡ some args
  read_arguments-Holding =
      rw (h.argc_is, h.space_is) (read_arguments-from args [] h.junk (none ∷ h.unused) h.args_NoNul)
