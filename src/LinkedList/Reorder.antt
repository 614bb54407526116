-- ===== src/LinkedList/Reorder.antt =====
-- shared/LL.c: the functions that move nodes about, search and sort. `compare` is the caller's
-- function on two data pointers.
use lcdproc.Prelude.{ℕ, zero, suc, ◌+◌, ◌-◌, Bool, true, false, not, ◌&&◌, ltb, ◌==◌, if◌then◌else◌}
use lcdproc.Prelude.Int.{ℤ, pos, negsuc, ◌+ℤ◌, ltb_ℤ}
use lcdproc.LinkedList.Store.{
  Ptr, null, head, tail, M, pure, fault, ◌>>=◌, ◌>>◌, get_current, set_current, get_next_of,
  get_prev_of, get_item, set_next_of, set_prev_of, unless_null,
}
use lcdproc.LinkedList.{node_unlink, rewind, go_end, go_next, go_prev, get, add_node, unshift}

-- `LL_Roll`: the last node becomes the first.
unfoldable pub roll : M Bool
roll = do
  go_end
  c ← get_current
  (if c == head then (do n ← get_next_of c; set_current n) else pure tt)
  c ← get_current
  (if c == tail then (do p ← get_prev_of c; set_current p) else pure tt)
  node ← get_current
  if node == head then pure true else (do
    before ← get_prev_of node
    if before == head then pure true else (do
      node_unlink node
      rewind
      next ← get_next_of head
      set_next_of head node
      set_prev_of next node
      set_prev_of node head
      set_next_of node next
      pure true))

-- `LL_UnRoll`: the first node becomes the last.
unfoldable pub unroll : M Bool
unroll = do
  rewind
  c ← get_current
  (if c == tail then (do p ← get_prev_of c; set_current p) else pure tt)
  c ← get_current
  (if c == head then (do n ← get_next_of c; set_current n) else pure tt)
  node ← get_current
  if node == tail then pure true else (do
    behind ← get_next_of node
    if behind == tail then pure true else (do
      node_unlink node
      go_end
      prev ← get_prev_of tail
      set_prev_of tail node
      set_next_of prev node
      set_next_of node tail
      set_prev_of node prev
      pure true))

-- The loop of `LL_PriorityEnqueue`; behind it the item goes to the front.
unfoldable pub priority_enqueue_loop : ℕ → (ℕ → ℕ → ℤ) → Ptr → ℕ → M Bool
priority_enqueue_loop zero compare fresh add = fault
priority_enqueue_loop (suc fuel) compare fresh add = do
  d ← get
  if not (d == null) && not (ltb_ℤ (compare add d) (pos 0))
      then (do add_node fresh add; pure true)
      else (do
        more ← go_prev
        if more
            then priority_enqueue_loop fuel compare fresh add
            else (do unshift fresh add; pure true))

unfoldable pub priority_enqueue : ℕ → (ℕ → ℕ → ℤ) → Ptr → ℕ → M Bool
priority_enqueue fuel compare fresh add =
    if add == null then pure false else (do go_end; priority_enqueue_loop fuel compare fresh add)

-- `LL_SwapNodes`. The guard of the fourth neighbour tests `secondprev`, as in the source.
unfoldable pub swap_nodes : Ptr → Ptr → M Bool
swap_nodes one two =
    if one == null
    then pure false
    else if two == null
    then pure false
    else if one == two
    then pure true
    else (do
      firstprev ← get_prev_of one
      firstnext ← get_next_of one
      secondprev ← get_prev_of two
      secondnext ← get_next_of two
      unless_null firstprev (set_next_of firstprev two)
      unless_null firstnext (set_prev_of firstnext two)
      unless_null secondprev (set_next_of secondprev one)
      unless_null secondprev (set_prev_of secondnext one)
      set_next_of one secondnext
      set_prev_of one secondprev
      set_next_of two firstnext
      set_prev_of two firstprev
      (if firstnext == two then set_prev_of one two else pure tt)
      (if firstprev == two then set_next_of one two else pure tt)
      (if secondprev == one then set_next_of two one else pure tt)
      (if secondnext == one then set_prev_of two one else pure tt)
      pure true)

-- `for (num = -1; node != &list->tail; num++) node = node->next;`
unfoldable pub length_loop : ℕ → Ptr → ℤ → M ℤ
length_loop zero node num = fault
length_loop (suc fuel) node num =
    if node == tail
    then pure num
    else do next ← get_next_of node; length_loop fuel next (num +ℤ pos 1)

unfoldable pub length_of : ℕ → M ℤ
length_of fuel = length_loop fuel head (negsuc 0)

unfoldable pub find : ℕ → (ℕ → ℕ → ℤ) → ℕ → M ℕ
find zero compare value = fault
find (suc fuel) compare value = if value == null then pure null else do
  d ← get
  if not (ltb_ℤ (compare d value) (pos 0)) && not (ltb_ℤ (pos 0) (compare d value))
      then pure d
      else (do more ← go_next; if more then find fuel compare value else pure null)

-- The loop of `LL_GetByIndex`; a negative index is refused in front of it.
unfoldable pub get_by_index_loop : ℕ → Ptr → ℕ → ℕ → M ℕ
get_by_index_loop zero node num index = fault
get_by_index_loop (suc fuel) node num index =
    if node == tail
    then pure null
    else if num == index
    then get_item node
    else (do next ← get_next_of node; get_by_index_loop fuel next (num + 1) index)

unfoldable pub get_by_index : ℕ → ℤ → M ℕ
get_by_index fuel (negsuc i) = pure null
get_by_index fuel (pos i) = do first ← get_next_of head; get_by_index_loop fuel first 0 i

-- The inner loop of `LL_Sort`: the best of the first `j` nodes and `best`.
unfoldable pub best_of : ℕ → (ℕ → ℕ → ℤ) → Ptr → M Ptr
best_of zero compare best = pure best
best_of (suc j) compare best = do
  current ← get_current
  x ← get_item current
  y ← get_item best
  go_next
  best_of j compare (if ltb_ℤ (pos 0) (compare x y) then current else best)

-- Its outer loop, with `i` rounds left and `last` behind the nodes still to be placed.
unfoldable pub sort_loop : ℕ → (ℕ → ℕ → ℤ) → Ptr → M Bool
sort_loop zero compare last = do rewind; pure true
sort_loop (suc i) compare last = do
  rewind
  best ← best_of (suc i) compare last
  swap_nodes last best
  if best == null then pure false else (do before ← get_prev_of best; sort_loop i compare before)

unfoldable pub sort : ℕ → (ℕ → ℕ → ℤ) → M Bool
sort fuel compare = do
  numnodes ← length_of fuel
  go_end
  last ← get_current
  elim numnodes [
    | negsuc n ↦ pure true
    | pos n ↦ if ltb n 2 then pure true else sort_loop (n - 1) compare last
  ]
