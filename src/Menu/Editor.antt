-- ===== src/Menu/Editor.antt =====
-- What the editors of server/menuitem.c have in common: an array of characters, a position in it
-- and the offset of the part that is shown.
use lcdproc.Prelude.{
  ℕ, zero, suc, ◌+◌, ◌-◌, ◌≤◌, ◌<◌, min, ◌≡◌, refl, ◌∙◌, ◌≢◌, inl, inr, Bool, true, false, Option,
  some, [], ◌∷◌, arith, ltb, leb, ◌==◌, if◌then◌else◌, Bytes, length, get_elem?, set, store, All,
  All-set, ◌++◌, replicate, length-set, get_elem?-set_ne, store-set, get_elem?_within, ◌>>=◌,
  some_inj, Bool-cases,
}
use lcdproc.Parser.{c_string}

-- `edit_str`, `edit_pos`, `edit_offs` and `error_code` of a numeric or alpha item.
pub record Editor : Type 0 where
  pub edit_str : Bytes
  pub edit_pos : ℕ
  pub edit_offs : ℕ
  pub error_code : ℕ

-- One place to the right; `width` is the display's.
unfoldable pub go_right : ℕ → Editor → Editor
go_right width e = record e {
  edit_pos = e.edit_pos + 1;
  edit_offs = if leb width (e.edit_pos + 2) then e.edit_offs + 1 else e.edit_offs;
}

unfoldable pub go_left : Editor → Editor
go_left e =
    if ltb 0 e.edit_pos
    then record e { edit_pos = e.edit_pos - 1; edit_offs = min e.edit_offs (e.edit_pos - 1) }
    else e

-- Back to the start, with an error to show.
unfoldable pub start_over : ℕ → Editor → Editor
start_over code e = record e { edit_pos = 0; edit_offs = 0; error_code = code }

-- `extended || str[pos] == '\0'`
unfoldable pub completed : Bool → Editor → Option Bool
completed extended e =
    if extended then some true else get_elem? e.edit_str e.edit_pos >>= λ c. some (c == 0)

-- `str[pos] = c`
unfoldable pub write_char : ℕ → Editor → Option Editor
write_char c e = store e.edit_str e.edit_pos c >>= λ str. some (record e { edit_str = str })

-- The array has `size` places and ends with a terminator, the position is at most `last`, and the
-- part that is shown does not begin behind it. `P` holds of every character.
pub record Within {ℓ} (P : ℕ → Type ℓ) (size last : ℕ) (e : Editor) : Type ℓ where
  pub sized : length e.edit_str ≡ size + 1
  pub terminated : get_elem? e.edit_str size ≡ some 0
  pub pos_le : e.edit_pos ≤ last
  pub offs_le : e.edit_offs ≤ e.edit_pos
  pub each : All P e.edit_str

module _ {ℓ} (P : ℕ → Type ℓ) (size last : ℕ) (e : Editor) (w : Within P size last e) where
  pub go_right-Within : (width : ℕ) → e.edit_pos < last → Within P size last (go_right width e)
  unfolding go_right
  go_right-Within width h = record {
    sized = w.sized;
    terminated = w.terminated;
    pos_le = omega arith;
    offs_le = ground (arith, w.offs_le);
    each = w.each;
  }

  pub go_left-Within : Within P size last (go_left e)
  unfolding go_left
  go_left-Within = elim (Bool-cases (ltb 0 e.edit_pos)) [
    | inl y ↦ rw y record {
      sized = w.sized;
      terminated = w.terminated;
      pos_le = omega (arith, w.pos_le);
      offs_le = omega arith;
      each = w.each;
    }
    | inr n ↦ rw n w
  ]

  pub start_over-Within : (code : ℕ) → Within P size last (start_over code e)
  unfolding start_over
  start_over-Within code = record {
    sized = w.sized;
    terminated = w.terminated;
    pos_le = omega arith;
    offs_le = omega arith;
    each = w.each;
  }

  pub error_code-Within : (code : ℕ) → Within P size last (record e { error_code = code })
  error_code-Within code = record {
    sized = w.sized;
    terminated = w.terminated;
    pos_le = w.pos_le;
    offs_le = w.offs_le;
    each = w.each;
  }

  pub read_char_lem : (i : ℕ) → i ≤ size → (c : ℕ) × (get_elem? e.edit_str i ≡ some c)
  read_char_lem i h = get_elem?_within e.edit_str i (omega (arith, w.sized))

  pub completed_lem : last ≤ size → (extended : Bool) → (b : Bool) × (completed extended e ≡ some b)
  unfolding completed
  completed_lem h true = (true, refl)
  completed_lem h false =
      let (c, r) = read_char_lem e.edit_pos (omega (arith, w.pos_le)) in (c == 0, rw r refl)

  -- A write in front of the last place keeps the terminator.
  pub write_char_lem :
      (c : ℕ)
      → e.edit_pos < last
      → last ≤ size
      → P c
      → (x : Editor) × (write_char c e ≡ some x) × Within P size last x × (x.edit_pos ≡ e.edit_pos)
  unfolding write_char
  write_char_lem c h k p =
      let inside : e.edit_pos < length e.edit_str = omega (arith, w.sized) in
      let ne : e.edit_pos ≢ size = λ q. omega arith in
      (
        record e { edit_str = set e.edit_str e.edit_pos c },
        rw (store-set e.edit_str e.edit_pos c inside) refl,
        record {
          sized = length-set e.edit_str e.edit_pos c ∙ w.sized;
          terminated = get_elem?-set_ne e.edit_str c ne ∙ w.terminated;
          pos_le = w.pos_le;
          offs_le = w.offs_le;
          each = All-set P e.edit_str e.edit_pos c w.each p;
        },
        refl,
      )

-- With a terminator at `j` the array holds a string of at most `j` characters.
pub c_string_lem {ℓ} :
    (P : ℕ → Type ℓ) (xs : Bytes) (j : ℕ)
    → get_elem? xs j ≡ some 0
    → All P xs
    → (s : Bytes) × (c_string xs ≡ some s) × (length s ≤ j) × All (λ c. P c × (c ≢ 0)) s
unfolding c_string
c_string_lem P [] j h a = absurd (ground (arith, h))
c_string_lem P (c ∷ cs) zero h a = ([], rw (some_inj h) refl, omega arith, tt)
c_string_lem P (c ∷ cs) (suc j) h a =
    let (s, e, le, all) = c_string_lem P cs j h a.1 in
    elim (Bool-cases (c == 0)) [
      | inl y ↦ ([], rw y refl, omega arith, tt)
      | inr n ↦ (c ∷ s, rw (n, e) refl, omega (arith, le), ((a.0, λ z. ground (arith, n, z)), all))
    ]

-- An array that is filled up with terminators.
pub get_elem?-padded :
    (xs : Bytes) (n i : ℕ)
    → length xs ≤ i
    → i < length xs + n
    → get_elem? (xs ++ replicate n 0) i ≡ some 0
get_elem?-padded [] zero i h k = absurd (omega arith)
get_elem?-padded [] (suc n) zero h k = refl
get_elem?-padded [] (suc n) (suc i) h k = get_elem?-padded [] n i (omega arith) (omega arith)
get_elem?-padded (x ∷ xs) n zero h k = absurd (omega arith)
get_elem?-padded (x ∷ xs) n (suc i) h k = get_elem?-padded xs n i (omega arith) (omega arith)
