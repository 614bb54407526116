-- ===== src/Menu/Characters.antt =====
-- The characters that UP and DOWN lead to in the alphanumeric item of server/menuitem.c.
use lcdproc.Prelude.{
  ℕ, ◌≡◌, refl, ◌≢◌, ◌⊎◌, inl, inr, true, some, [], ◌∷◌, arith, ◌==◌, Bytes, Bool-cases,
}
use lcdproc.Menu.Alpha.{
  contains, head_char, last_char, char_after, char_before, next_char, previous_char,
}

-- A terminator or an allowed character.
abbrev pub Fits : Bytes → ℕ → Type 0
Fits allowed c = (c ≡ 0) ⊎ (contains c allowed ≡ true)

abbrev pub Typable : Bytes → ℕ → Type 0
Typable allowed c = contains c allowed ≡ true

pub head_char-Fits : (xs : Bytes) → Fits xs (head_char xs)
unfolding head_char contains
head_char-Fits [] = inl refl
head_char-Fits (x ∷ xs) = inr (ground arith)

pub last_char-Fits : (xs : Bytes) → xs ≢ [] → (c : ℕ) × (last_char xs ≡ some c) × Fits xs c
unfolding last_char contains
last_char-Fits [] h = absurd (h refl)
last_char-Fits (x ∷ []) h = (x, refl, inr (ground arith))
last_char-Fits (x ∷ y ∷ ys) h =
    let (c, e, f) = last_char-Fits (y ∷ ys) (λ q. cc) in (c, e, ground arith)

pub char_after-Fits : (c : ℕ) (xs : Bytes) → Fits xs (char_after c xs)
unfolding char_after contains
char_after-Fits c [] = inl refl
char_after-Fits c (x ∷ xs) = ground (arith, head_char-Fits xs, char_after-Fits c xs)

-- `p` is a terminator or stands in front of the list.
pub char_before-Fits :
    (p c : ℕ) (xs ys : Bytes)
    → ((d : ℕ) → Fits xs d → Fits ys d)
    → Fits ys p
    → Fits ys (char_before p c xs)
unfolding char_before contains
char_before-Fits p c [] ys sub h = inl refl
char_before-Fits p c (x ∷ xs) ys sub h = elim (Bool-cases (x == c)) [
  | inl y ↦ rw y h
  | inr n ↦
      rw n (char_before-Fits x c xs ys (λ d f. sub d (behind d f)) (sub x (inr (ground arith))))
]
  where
    behind : (d : ℕ) → Fits xs d → Fits (x ∷ xs) d
    behind d f = ground (arith, f)

pub next_char-Fits : (xs : Bytes) (c : ℕ) → (d : ℕ) × (next_char xs c ≡ some d) × Fits xs d
unfolding next_char
next_char-Fits xs c = elim (Bool-cases (c == 0)) [
  | inl y ↦ (head_char xs, rw y refl, head_char-Fits xs)
  | inr n ↦ (char_after c xs, rw n refl, char_after-Fits c xs)
]

pub previous_char-Fits :
    (xs : Bytes) (c : ℕ) → xs ≢ [] → (d : ℕ) × (previous_char xs c ≡ some d) × Fits xs d
unfolding previous_char
previous_char-Fits xs c h =
    let (d, e, f) = last_char-Fits xs h in
    elim (Bool-cases (c == 0)) [
      | inl y ↦ (d, rw y e, f)
      | inr n ↦ (char_before 0 c xs, rw n refl, char_before-Fits 0 c xs xs (λ d f. f) (inl refl))
    ]
