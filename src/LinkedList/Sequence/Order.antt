-- ===== src/LinkedList/Sequence/Order.antt =====
-- The order in which `LL_Sort` of shared/LL.c leaves a sequence.
use lcdproc.Prelude.{
  ℕ, zero, suc, ◌+◌, ◌-◌, ◌≤◌, ◌≡◌, refl, sym, ap, subst, Bool, true, false, List, [], ◌∷◌, ◌++◌,
  Option, none, some, ltb, arith, if◌then◌else◌, length, length-set, get_elem?, All, All-set,
  All-append,
}
use lcdproc.Prelude.Int.{ℤ}
use lcdproc.LinkedList.Sequence.{
  split_end, put_at, better, select, sort_rounds, sort, Kept, round-Kept,
}

-- The keys fall from the front to the end.
abbrev pub Descending {ℓ} : {A : Type ℓ} → (A → ℕ) → List A → Type 0
Descending key [] = Unit
Descending key (x ∷ xs) = All (λ y. key y ≤ key x) xs × Descending key xs

abbrev Above {ℓ} : {A : Type ℓ} → (A → ℕ) → List A → List A → Type 0
Above key placed = All (λ x. All (λ y. key y ≤ key x) placed)

Above-Descending {ℓ} :
    {A : Type ℓ} (key : A → ℕ) (xs placed : List A)
    → Above key placed xs
    → Descending key xs
    → Descending key placed
    → Descending key (xs ++ placed)
Above-Descending key [] placed a d e = e
Above-Descending key (x ∷ xs) placed a d e =
    (All-append (λ y. key y ≤ key x) xs placed d.0 a.0, Above-Descending key xs placed a.1 d.1 e)

length-split_end {ℓ} : {A : Type ℓ} (x : A) (xs : List A) → length (split_end x xs).0 ≡ length xs
unfolding split_end
length-split_end x [] = refl
length-split_end x (y ∷ ys) = ap suc (length-split_end y ys)

length-put_at {ℓ} :
    {A : Type ℓ} (at : Option ℕ) (xs : List A) (v : A) → length (put_at at xs v) ≡ length xs
length-put_at none xs v = refl
length-put_at (some j) xs v = length-set xs j v

All-get {ℓ} :
    {A : Type ℓ} (P : A → Type 0) (xs : List A) (j : ℕ) (b : A)
    → All P xs
    → get_elem? xs j ≡ some b
    → P b
All-get P [] j b h e = cc
All-get P (x ∷ xs) zero b h e = let e' : x ≡ b = cc in subst P e' h.0
All-get P (x ∷ xs) (suc j) b h e = All-get P xs j b h.1 e

All-Kept {ℓ} :
    {A : Type ℓ} (P : A → Type 0) (front : List A) (last : A) (at : Option ℕ) (best : A)
    → Kept front last at best
    → All P front
    → P last
    → P best
All-Kept P front last none best k h p = subst P (sym k) p
All-Kept P front last (some j) best k h p = All-get P front j best h k

All-both {ℓ} :
    {A : Type ℓ} (P Q : A → Type 0) (xs : List A) → All P xs → All Q xs → All (λ x. P x × Q x) xs
All-both P Q [] h k = tt
All-both P Q (x ∷ xs) h k = ((h.0, k.0), All-both P Q xs h.1 k.1)

All-true {ℓ} : {A : Type ℓ} (xs : List A) → All (λ x. Unit {0}) xs
All-true [] = tt
All-true (x ∷ xs) = (tt, All-true xs)

module _ {ℓ} {A : Type ℓ} where
  All-put_at :
      (P : A → Type 0) (at : Option ℕ) (xs : List A) (v : A)
      → All P xs
      → P v
      → All P (put_at at xs v)
  All-put_at P none xs v h p = h
  All-put_at P (some j) xs v h p = All-set P xs j v h p

  All-split_end :
      (P : A → Type 0) (x : A) (xs : List A)
      → All P (x ∷ xs)
      → All P (split_end x xs).0 × P (split_end x xs).1
  unfolding split_end
  All-split_end P x [] h = (tt, h.0)
  All-split_end P x (y ∷ ys) h = let (a, b) = All-split_end P y ys h.1 in ((h.0, a), b)

-- The comparison of items with `P` is by keys: the better of two is the one with the smaller key.
module _ {ℓ} {A : Type ℓ} (compare : A → A → ℤ) (key : A → ℕ) (P : A → Type 0)
    (by_key : (x y : A) → P x → P y → better compare x y ≡ ltb (key x) (key y)) where
  least_if :
      (b : Bool) (x best r : A)
      → b ≡ ltb (key x) (key best)
      → key r ≤ key (if b then x else best)
      → (key r ≤ key x) × (key r ≤ key best)
  least_if true x best r e h = ground (arith, e)
  least_if false x best r e h = ground (arith, e)

  either_of : (b : Bool) (x best : A) → P x → P best → P (if b then x else best)
  either_of true x best p q = p
  either_of false x best p q = q

  select-least :
      (xs : List A) (j : ℕ) (at : Option ℕ) (best : A)
      → All P xs
      → P best
      → let r = select compare xs j at best in All (λ x. key r.1 ≤ key x) xs × (key r.1 ≤ key best)
  unfolding select
  select-least [] j at best h q = (tt, omega arith)
  select-least (x ∷ xs) j at best h q =
      let b = better compare x best in
      let (all, le) =
        select-least xs (j + 1) (if b then some j else at) (if b then x else best) h.1
          (either_of b x best h.0 q) in
      let r = select compare xs (j + 1) (if b then some j else at) (if b then x else best) in
      let (le_x, le_best) = least_if b x best r.1 (by_key x best h.0 q) le in ((le_x, all), le_best)

  sort_rounds-Descending :
      (i : ℕ) (xs placed : List A)
      → length xs ≤ suc i
      → All P xs
      → Above key placed xs
      → Descending key placed
      → Descending key (sort_rounds compare i xs placed)
  unfolding sort_rounds
  sort_rounds-Descending zero [] placed le h a d = d
  sort_rounds-Descending zero (x ∷ []) placed le h a d = (a.0, d)
  sort_rounds-Descending zero (x ∷ y ∷ xs) placed le h a d = absurd (omega arith)
  sort_rounds-Descending (suc i) [] placed le h a d = d
  sort_rounds-Descending (suc i) (x ∷ xs) placed le h a d =
      let p = split_end x xs in
      let r = select compare p.0 0 none p.1 in
      let (front, last) = All-split_end (λ v. All (λ y. key y ≤ key v) placed) x xs a in
      let (p_front, p_last) = All-split_end P x xs h in
      let (least, le_last) = select-least p.0 0 none p.1 p_front p_last in
      sort_rounds-Descending i (put_at r.0 p.0 p.1) (r.1 ∷ placed)
        (omega (arith, length-put_at r.0 p.0 p.1, length-split_end x xs))
        (All-put_at P r.0 p.0 p.1 p_front p_last)
        (All-put_at (λ v. All (λ y. key y ≤ key v) (r.1 ∷ placed)) r.0 p.0 p.1
          (All-both (λ v. key r.1 ≤ key v) (λ v. All (λ y. key y ≤ key v) placed) p.0 least front)
          (le_last, last))
        (
          All-Kept (λ v. All (λ y. key y ≤ key v) placed) p.0 p.1 r.0 r.1
              (round-Kept compare p.0 p.1) front last,
          d,
        )

  -- If the comparison of the items that have a property is by a key, LL_Sort puts a sequence of
  -- such items in falling order of the key.
  pub sort-Descending : (xs : List A) → All P xs → Descending key (sort compare xs)
  unfolding sort
  sort-Descending xs h =
      sort_rounds-Descending (length xs - 1) xs [] (omega arith) h (All-true xs) tt

-- What holds of every item holds of every item of the sorted sequence.
module _ {ℓ} {A : Type ℓ} (compare : A → A → ℤ) (P : A → Type 0) where
  sort_rounds-All :
      (i : ℕ) (xs placed : List A)
      → All P xs
      → All P placed
      → All P (sort_rounds compare i xs placed)
  unfolding sort_rounds
  sort_rounds-All zero xs placed h k = All-append P xs placed h k
  sort_rounds-All (suc i) [] placed h k = k
  sort_rounds-All (suc i) (x ∷ xs) placed h k =
      let p = split_end x xs in
      let r = select compare p.0 0 none p.1 in
      let (front, last) = All-split_end P x xs h in
      sort_rounds-All i (put_at r.0 p.0 p.1) (r.1 ∷ placed) (All-put_at P r.0 p.0 p.1 front last)
        (All-Kept P p.0 p.1 r.0 r.1 (round-Kept compare p.0 p.1) front last, k)

  pub sort-All : (xs : List A) → All P xs → All P (sort compare xs)
  unfolding sort
  sort-All xs h = sort_rounds-All (length xs - 1) xs [] h tt
