-- ===== src/Menu/Refilled.antt =====
-- What holds of a numeric and an alphanumeric item of server/menuitem.c when its array was filled
-- from its value, by `menuitem_reset_numeric` and `menuitem_reset_alpha`.
use lcdproc.Prelude.{
  ℕ, zero, suc, ◌-◌, ◌≤◌, ◌≡◌, refl, ◌⊎◌, inl, inr, true, some, [], ◌∷◌, ◌++◌, arith, leb, Bytes,
  length, All, All-append, All-mono, replicate, length-append, length-replicate,
}
use lcdproc.Menu.Editor.{Within, get_elem?-padded}
use lcdproc.Menu.Alpha.{Alpha, chars, menuitem_reset_alpha}
use lcdproc.Menu.Characters.{Fits, Typable}
use lcdproc.Prelude.Int.{ℤ, ◌≤ℤ◌}
use lcdproc.Menu.Numeric.{Numeric, allow_signed, format, snprintf, menuitem_reset_numeric, max_len}
use lcdproc.Menu.Printed.{length-snprintf}

abbrev pub Any : ℕ → Type 0
Any c = Unit

pub All-Any : (xs : Bytes) → All Any xs
All-Any [] = tt
All-Any (x ∷ xs) = (tt, All-Any xs)

-- The item has the range that it was made with, a value in it, and an array that its editor stays
-- in.
pub record InRange (low high : ℤ) (item : Numeric) : Type 0 where
  pub low_is : item.minvalue ≡ low
  pub high_is : item.maxvalue ≡ high
  pub low_le : low ≤ℤ item.value
  pub le_high : item.value ≤ℤ high
  pub within : Within Any 39 (max_len item) item.editor

-- The text fits the array, whatever was in it.
pub reset-InRange :
    (low high : ℤ) (item : Numeric)
    → item.minvalue ≡ low
    → item.maxvalue ≡ high
    → low ≤ℤ item.value
    → item.value ≤ℤ high
    → InRange low high (menuitem_reset_numeric item)
unfolding menuitem_reset_numeric max_len allow_signed
reset-InRange low high item a b c d =
    let text = snprintf (format (allow_signed item) item.value) in
    let short : length text ≤ 11 = length-snprintf (allow_signed item) item.value in
    record {
      low_is = a;
      high_is = b;
      low_le = c;
      le_high = d;
      within = record {
        sized = omega (
          arith,
          length-append text (replicate (40 - length text) 0),
          length-replicate {A = ℕ} (40 - length text) 0,
        );
        terminated = get_elem?-padded text (40 - length text) 39 (omega arith) (omega arith);
        pos_le = omega arith;
        offs_le = omega arith;
        each = All-Any (text ++ replicate (40 - length text) 0);
      };
    }

-- The item allows the characters and lengths that it was made with, its value is the one that it
-- was made with or long enough, and has allowed characters only, as the array has, and the editor
-- stays in it.
pub record Allowed (allowed text : Bytes) (minl maxl : ℕ) (item : Alpha) : Type 0 where
  pub chars_are : chars item ≡ allowed
  pub min_is : item.minlength ≡ minl
  pub max_is : item.maxlength ≡ maxl
  pub value_le : length item.value ≤ maxl
  pub value_typable : All (Typable allowed) item.value
  pub chosen : (item.value ≡ text) ⊎ (minl ≤ length item.value)
  pub within : Within (Fits allowed) maxl maxl item.editor

pub All-terminators : (allowed : Bytes) (n : ℕ) → All (Fits allowed) (replicate n 0)
All-terminators allowed zero = tt
All-terminators allowed (suc n) = (inl refl, All-terminators allowed n)

-- The value fits the array.
pub reset-Allowed :
    (allowed text : Bytes) (minl maxl : ℕ) (item : Alpha)
    → chars item ≡ allowed
    → item.minlength ≡ minl
    → item.maxlength ≡ maxl
    → length item.value ≤ maxl
    → All (Typable allowed) item.value
    → (item.value ≡ text) ⊎ (minl ≤ length item.value)
    → (r : Alpha) × (menuitem_reset_alpha item ≡ some r) × Allowed allowed text minl maxl r
unfolding menuitem_reset_alpha chars
reset-Allowed allowed text minl maxl item a b c d e f =
    let fits : leb (length item.value) item.maxlength ≡ true = ground (arith, c) in
    let n = suc (item.maxlength - length item.value) in
    (
      record item {
        editor = record {
          edit_str = item.value ++ replicate n 0;
          edit_pos = 0;
          edit_offs = 0;
          error_code = item.editor.error_code;
        };
      },
      rw fits refl,
      record {
        chars_are = a;
        min_is = b;
        max_is = c;
        value_le = d;
        value_typable = e;
        chosen = f;
        within = record {
          sized =
              omega
                (arith, c, length-append item.value (replicate n 0), length-replicate {A = ℕ} n 0);
          terminated = get_elem?-padded item.value n maxl (omega arith) (omega (arith, c));
          pos_le = omega arith;
          offs_le = omega arith;
          each =
              All-append (Fits allowed) item.value (replicate n 0)
                (All-mono (Typable allowed) (Fits allowed) item.value (λ x h. inr h) e)
                (All-terminators allowed n);
        };
      },
    )
