-- ===== src/LinkedList/Queue.antt =====
-- `LL_Push`, `LL_Pop`, `LL_Shift`, `LL_GetFirst` and `LL_GetLast` of shared/LL.c (`LL_Enqueue` and
-- `LL_Dequeue` are `LL_Push` and `LL_Shift`) as operations on the sequence of data pointers.
use mathlib.Core.List.{map-append}
use lcdproc.Prelude.{
  ℕ, ◌≡◌, ◌≢◌, refl, ◌∙◌, ap, true, false, List, [], ◌∷◌, ◌++◌, some, ◌==◌, arith, append-nil,
  get_or, drop, map,
}
use lcdproc.LinkedList.Store.{Ptr, null, head, tail, LinkedList, update}
use lcdproc.LinkedList.Chain.{Cells, has}
use lcdproc.LinkedList.Edit.{last_of, last-mem}
use lcdproc.LinkedList.{link_after, add_node, delete_node, push, pop, shift}
use lcdproc.LinkedList.Shape.{IsList, On, IsFresh, IsList-current, rewind_lem, go_end_lem, last_is}
use lcdproc.LinkedList.Ends.{delete_node_lem, link_after_lem, Inserted}

-- The sequence that a list stands for.
abbrev pub Holds : LinkedList → List ℕ → Type 0
Holds l xs = (cells : Cells) × IsList l cells × (map (λ c. c.1) cells ≡ xs)

IsList-malloc :
    {l : LinkedList} {cells : Cells} (f : Ptr)
    → IsList l cells
    → IsList (record l { live = update l.live f true }) cells
IsList-malloc f s = record {
  chain = s.chain;
  distinct = s.distinct;
  null_out = s.null_out;
  head_out = s.head_out;
  tail_out = s.tail_out;
  alive = λ b h. ground (arith, s.alive b);
  head_live = ground (arith, s.head_live);
  tail_live = ground (arith, s.tail_live);
  head_end = s.head_end;
  tail_end = s.tail_end;
}

-- A new address is none of the list's.
fresh_out :
    {l : LinkedList} {cells : Cells} (f : Ptr) → IsList l cells → IsFresh l f → has f cells ≡ false
fresh_out {cells} f s fresh = ground (arith, fresh.unused, s.alive f)

-- From either place `LL_AddNode` goes on behind the last node, or behind `head`.
reach :
    {l : LinkedList} (cells : Cells) (f : Ptr) (x : ℕ)
    → IsList l cells
    → (f == null) ≡ false
    → f ≢ tail
    → add_node f x (record l { current = last_of tail cells })
      ≡ link_after f x (record l { live = update l.live f true; current = last_of head cells })
unfolding add_node
reach {l} [] f x s nz nt =
    let live : update l.live f true tail ≡ true = ground (arith, s.tail_live) in
    rw (nz, live, last_is s)
reach ((a, y) ∷ cells) f x s nz nt =
    let m = last-mem a cells in
    let n0 : (last_of a cells == null) ≡ false = ground (arith, s.null_out) in
    let n2 : (last_of a cells == tail) ≡ false = ground (arith, s.tail_out) in rw (n0, nz, n2)

-- `LL_AddNode` with the cursor at the end of the list, on the last node or on `tail`.
add_node_end :
    {l : LinkedList} (cells : Cells) (f : Ptr) (x : ℕ)
    → IsList l cells
    → IsFresh l f
    → (l' : LinkedList) × (add_node f x (record l { current = last_of tail cells })
        ≡ some (true, l'))
      × Inserted cells [] f x l'
unfolding add_node
add_node_end {l} cells f x s fresh =
    let nz : (f == null) ≡ false = ground (arith, fresh.ne_null) in
    let nh : f ≢ head = ground (arith, fresh.unused, s.head_live) in
    let nt : f ≢ tail = ground (arith, fresh.unused, s.tail_live) in
    let lm : LinkedList = record l { live = update l.live f true; current = last_of head cells } in
    let (l', e, i) =
      link_after_lem {l = lm} {xs = cells} {ys = []}
        (rw append-nil (IsList-current (last_of head cells) (IsList-malloc f s))) f x refl
        (ground arith) (rw append-nil (fresh_out f s fresh)) fresh.ne_null nh nt in
    (l', reach cells f x s nz nt ∙ e, i)

last_of-concat : (p : Ptr) (front : Cells) (a : Ptr) (x : ℕ) → last_of p (front ++ (a, x) ∷ []) ≡ a
last_of-concat p [] a x = refl
last_of-concat p ((b, y) ∷ front) a x = last_of-concat b front a x

split_last :
    (cells : Cells) (xs : List ℕ) (x : ℕ)
    → map (λ c. c.1) cells ≡ xs ++ x ∷ []
    → (front : Cells) × (a : Ptr) × (cells ≡ front ++ (a, x) ∷ []) × (map (λ c. c.1) front ≡ xs)
split_last [] [] x e = cc
split_last [] (y ∷ xs) x e = cc
split_last ((a, z) ∷ []) [] x e = ([], a, cc, refl)
split_last ((a, z) ∷ c ∷ cells) [] x e = cc
split_last ((a, z) ∷ cells) (y ∷ xs) x e =
    let (front, b, s, e') = split_last cells xs x (ground (arith, e)) in
    ((a, z) ∷ front, b, ap (◌∷◌ (a, z)) s, ground (arith, e))

module _ {l : LinkedList} {xs : List ℕ} where
  -- LL_Push of a data pointer that is not NULL, with a fresh node, puts it at the end of the
  -- sequence that the list holds.
  pub push-Holds :
      (f : Ptr) (x : ℕ)
      → Holds l xs
      → IsFresh l f
      → x ≢ 0
      → (l' : LinkedList) × (push f x l ≡ some (true, l')) × Holds l' (xs ++ x ∷ [])
  unfolding push
  push-Holds f x (cells, s, e) fresh ne =
      let (l', go, i) = add_node_end cells f x s fresh in
      let nz : (x == null) ≡ false = ground (arith, ne) in
      (
        l',
        rw (nz, go_end_lem s) go,
        (
          cells ++ (f, x) ∷ [],
          i.is_list,
          map-append _ cells ((f, x) ∷ []) ∙ ap (λ ys. ys ++ x ∷ []) e,
        ),
      )

  -- LL_Pop takes the last data off the sequence that the list holds and returns it.
  pub pop-Holds :
      (x : ℕ) → Holds l (xs ++ x ∷ []) → (l' : LinkedList) × (pop l ≡ some (x, l')) × Holds l' xs
  unfolding pop
  pop-Holds x (cells, s, e) =
      let (front, a, split_is, e') = split_last cells xs x e in
      let s' : IsList l (front ++ (a, x) ∷ []) = rw split_is at s in
      let on : On (record l { current = a }) front a x [] = record {
        is_list = IsList-current a s';
        current_is = refl;
      } in
      let (l', go, kept, _, _) = delete_node_lem on in
      (l', rw (go_end_lem s', last_of-concat tail front a x) go, (front, rw append-nil at kept, e'))

-- LL_Shift takes the first data off the sequence that the list holds and returns it; on an empty
-- list it returns NULL and the list stays empty.
pub shift-Holds :
    {l : LinkedList} (xs : List ℕ)
    → Holds l xs
    → (l' : LinkedList) × (shift l ≡ some (get_or xs 0 null, l')) × Holds l' (drop 1 xs)
unfolding shift delete_node
shift-Holds {l} [] ([], s, e) =
    (record l { current = head }, rw (rewind_lem s), ([], IsList-current head s, refl))
shift-Holds [] (c ∷ cells, s, e) = cc
shift-Holds (x ∷ xs) ([], s, e) = cc
shift-Holds {l} (x ∷ xs) ((a, y) ∷ cells, s, e) =
    let on : On (record l { current = a }) [] a y cells = record {
      is_list = IsList-current a s;
      current_is = refl;
    } in
    let (l', go, s', _, _) = delete_node_lem on in
    let head_is : y ≡ x = cc in (l', rw (rewind_lem s, ← head_is) go, (cells, s', cc))
