-- ===== src/LinkedList/Sequence.antt =====
-- `LL_Sort` of shared/LL.c on the sequence of data that a list stands for: from the last place to
-- the second, the best of what is in front of a place is swapped into it. A swap is a write to the
-- sequence here; `LinkedList.Reorder` has LL_Sort with LL_SwapNodes on the nodes, and it is not
-- proved that the two agree.
pub mod Order
use mathlib.Core.List.{Perm, perm_append_singleton}
use mathlib.Core.List.Perm
use lcdproc.Prelude.{
  ℕ, zero, suc, ◌+◌, ◌-◌, ◌≤◌, ◌≡◌, refl, sym, ◌∙◌, ap, subst, Bool, true, false, List, [], ◌∷◌,
  ◌++◌, Option, none, some, ltb, arith, append-nil, append_assoc, if◌then◌else◌, length, length-set,
  set, get_elem?, All, All-set, All-append,
}
use lcdproc.Prelude.Int.{ℤ, pos, ltb_ℤ}

-- The last item, and what is in front of it.
unfoldable pub split_end {ℓ} : {A : Type ℓ} → A → List A → List A × A
split_end x [] = ([], x)
split_end x (y ∷ ys) = let (front, last) = split_end y ys in (x ∷ front, last)

-- A value written to the place of the best, which may be the last place itself.
abbrev pub put_at {ℓ} : {A : Type ℓ} → Option ℕ → List A → A → List A
put_at none xs v = xs
put_at (some j) xs v = set xs j v

module _ {ℓ} {A : Type ℓ} (compare : A → A → ℤ) where
  abbrev pub better : A → A → Bool
  better x y = ltb_ℤ (pos 0) (compare x y)

  -- The inner loop: the place and the value of the best so far; no place stands for the last one.
  unfoldable pub select : List A → ℕ → Option ℕ → A → Option ℕ × A
  select [] j at best = (at, best)
  select (x ∷ xs) j at best =
      let b = better x best in select xs (j + 1) (if b then some j else at) (if b then x else best)

  -- The outer loop, with the places that are done in `placed`.
  unfoldable pub sort_rounds : ℕ → List A → List A → List A
  sort_rounds zero xs placed = xs ++ placed
  sort_rounds (suc i) [] placed = placed
  sort_rounds (suc i) (x ∷ xs) placed =
      let (front, last) = split_end x xs in
      let (at, best) = select front 0 none last in
      sort_rounds i (put_at at front last) (best ∷ placed)

  unfoldable pub sort : List A → List A
  sort xs = sort_rounds (length xs - 1) xs []

shift_place : (j i : ℕ) → j + 1 + i ≡ j + suc i
shift_place j i = omega arith

shift_zero : (j : ℕ) → j ≡ j + 0
shift_zero j = omega arith

split_end_lem {ℓ} :
    {A : Type ℓ} (x : A) (xs : List A) → (split_end x xs).0 ++ (split_end x xs).1 ∷ [] ≡ x ∷ xs
unfolding split_end
split_end_lem x [] = refl
split_end_lem x (y ∷ ys) = ap (◌∷◌ x) (split_end_lem y ys)

set-perm {ℓ} :
    {A : Type ℓ} (xs : List A) (j : ℕ) (b v : A)
    → get_elem? xs j ≡ some b
    → Perm (b ∷ set xs j v) (v ∷ xs)
set-perm [] j b v e = cc
set-perm (x ∷ xs) zero b v e = let e' : x ≡ b = cc in rw (← e') (Perm.swap v x xs)
set-perm (x ∷ xs) (suc j) b v e =
    Perm.trans (Perm.swap x b (set xs j v))
      (Perm.trans (Perm.cons x (set-perm xs j b v e)) (Perm.swap v x xs))

-- The best is at the place that is kept for it.
abbrev Kept {ℓ} : {A : Type ℓ} → List A → A → Option ℕ → A → Type ℓ
Kept whole last none best = best ≡ last
Kept whole last (some j) best = get_elem? whole j ≡ some best

keep_if {ℓ} :
    {A : Type ℓ} (whole : List A) (last x best : A) (j : ℕ) (at : Option ℕ) (b : Bool)
    → get_elem? whole j ≡ some x
    → Kept whole last at best
    → Kept whole last (if b then some j else at) (if b then x else best)
keep_if whole last x best j at true e k = e
keep_if whole last x best j at false e k = k

put_at-perm {ℓ} :
    {A : Type ℓ} (front : List A) (last : A) (at : Option ℕ) (best : A)
    → Kept front last at best
    → Perm (put_at at front last ++ best ∷ []) (front ++ last ∷ [])
put_at-perm front last none best k = rw k (Perm.refl (front ++ last ∷ []))
put_at-perm front last (some j) best k =
    Perm.trans (perm_append_singleton best (set front j last))
      (Perm.trans (set-perm front j best last k) (Perm.symm (perm_append_singleton last front)))

module _ {ℓ} {A : Type ℓ} (compare : A → A → ℤ) where
  select-Kept :
      (xs whole : List A) (j : ℕ) (at : Option ℕ) (best last : A)
      → ((i : ℕ) → get_elem? whole (j + i) ≡ get_elem? xs i)
      → Kept whole last at best
      → Kept whole last (select compare xs j at best).0 (select compare xs j at best).1
  unfolding select
  select-Kept [] whole j at best last suf k = k
  select-Kept (x ∷ xs) whole j at best last suf k =
      let suf' = λ (i : ℕ). ap (get_elem? whole) (shift_place j i) ∙ suf (suc i) in
      let b = better compare x best in
      select-Kept xs whole (j + 1) (if b then some j else at) (if b then x else best) last suf'
        (keep_if whole last x best j at b (ap (get_elem? whole) (shift_zero j) ∙ suf 0) k)

  round-Kept :
      (front : List A) (last : A)
      → Kept front last (select compare front 0 none last).0 (select compare front 0 none last).1
  round-Kept front last =
      select-Kept front front 0 none last last (λ i. ap (get_elem? front) (omega arith)) refl

  round-perm :
      (front : List A) (last : A)
      → let r = select compare front 0 none last in
        Perm (put_at r.0 front last ++ r.1 ∷ []) (front ++ last ∷ [])
  round-perm front last =
      let r = select compare front 0 none last in
      put_at-perm front last r.0 r.1 (round-Kept front last)

  sort_rounds-perm :
      (i : ℕ) (xs placed : List A) → Perm (sort_rounds compare i xs placed) (xs ++ placed)
  unfolding sort_rounds
  sort_rounds-perm zero xs placed = Perm.refl (xs ++ placed)
  sort_rounds-perm (suc i) [] placed = Perm.refl placed
  sort_rounds-perm (suc i) (x ∷ xs) placed =
      let p = split_end x xs in
      let r = select compare p.0 0 none p.1 in
      Perm.trans (sort_rounds-perm i (put_at r.0 p.0 p.1) (r.1 ∷ placed)) (
        subst (λ ys. Perm (put_at r.0 p.0 p.1 ++ r.1 ∷ placed) (ys ++ placed)) (split_end_lem x xs)
          (subst (λ ys. Perm ys ((p.0 ++ p.1 ∷ []) ++ placed))
            (append_assoc (put_at r.0 p.0 p.1) (r.1 ∷ []) placed)
            (Perm.append_right placed (round-perm p.0 p.1))))

  -- LL_Sort loses no item and adds none, whatever the comparison says.
  pub sort-perm : (xs : List A) → Perm (sort compare xs) xs
  unfolding sort
  sort-perm xs = rw append-nil at (sort_rounds-perm (length xs - 1) xs [])
