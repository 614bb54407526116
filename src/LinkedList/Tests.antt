-- ===== src/LinkedList/Tests.antt =====
-- Small lists of shared/LL.c.
use lcdproc.Prelude.{ℕ, ◌≡◌, refl, true, some, [], ◌∷◌, ltb, ◌&&◌, ◌==◌, if◌then◌else◌, arith}
use lcdproc.Prelude.Int.{ℤ, pos, ◌-ℤ◌}
use lcdproc.LinkedList.Store.{LinkedList}
use lcdproc.LinkedList.Chain.{Cells}
use lcdproc.LinkedList.{push, pop, shift, remove}
use lcdproc.LinkedList.Shape.{IsList}
use lcdproc.LinkedList.Queue.{Holds, push-Holds, pop-Holds, shift-Holds}
use lcdproc.LinkedList.Remove.{remove-Removed}
use lcdproc.LinkedList.Sequence.{sort, better}
use lcdproc.LinkedList.Sequence.Order.{sort-Descending, Descending}

-- The nodes 3 and 4, with the data 50 and 70.
abbrev two_items : LinkedList
two_items = record {
  live = λ p. ltb 0 p && ltb p 5;
  next = λ p. if p == 1 then 3 else if p == 3 then 4 else if p == 4 then 2 else 0;
  prev = λ p. if p == 2 then 4 else if p == 4 then 3 else if p == 3 then 1 else 0;
  item = λ p. if p == 3 then 50 else if p == 4 then 70 else 0;
  current = 1;
}

abbrev two_cells : Cells
two_cells = (3, 50) ∷ (4, 70) ∷ []

two_items-IsList : IsList two_items two_cells
two_items-IsList = record {
  chain = (refl, refl, refl, (refl, refl, refl, (refl, refl)));
  distinct = (refl, (refl, tt));
  null_out = refl;
  head_out = refl;
  tail_out = refl;
  alive = λ a h. ground arith;
  head_live = refl;
  tail_live = refl;
  head_end = refl;
  tail_end = refl;
}

two_items-Holds : Holds two_items (50 ∷ 70 ∷ [])
two_items-Holds = (two_cells, two_items-IsList, refl)

push-Holds_example :
    (l' : LinkedList) × (push 5 90 two_items ≡ some (true, l')) × Holds l' (50 ∷ 70 ∷ 90 ∷ [])
push-Holds_example =
    push-Holds 5 90 two_items-Holds (record { ne_null = λ e. ground (arith, e); unused = refl })
      (λ e. ground (arith, e))

pop-Holds_example : (l' : LinkedList) × (pop two_items ≡ some (70, l')) × Holds l' (50 ∷ [])
pop-Holds_example = pop-Holds {xs = 50 ∷ []} 70 two_items-Holds

shift-Holds_example : (l' : LinkedList) × (shift two_items ≡ some (50, l')) × Holds l' (70 ∷ [])
shift-Holds_example = shift-Holds (50 ∷ 70 ∷ []) two_items-Holds

remove-Removed_example :
    (r : ℕ) × (l' : LinkedList) × (remove 3 70 two_items ≡ some (r, l'))
    × (r ≡ 70)
    × IsList l' ((3, 50) ∷ [])
remove-Removed_example = remove-Removed two_items two_cells 70 3 two_items-IsList (omega arith)

abbrev larger : ℕ → ℕ → ℤ
larger x y = pos y -ℤ pos x

larger_by_key : (x y : ℕ) → Unit {0} → Unit {0} → better larger x y ≡ ltb x y
unfolding ◌-ℤ◌
larger_by_key x y _ _ = ground arith

sort-Descending_example : Descending (λ x. x) (sort larger (1 ∷ 3 ∷ 2 ∷ []))
sort-Descending_example =
    sort-Descending larger (λ x. x) (λ x. Unit {0}) larger_by_key (1 ∷ 3 ∷ 2 ∷ [])
      (tt, (tt, (tt, tt)))
