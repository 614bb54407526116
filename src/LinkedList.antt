-- ===== src/LinkedList.antt =====
-- shared/LL.c, function by function, over the memory of `LinkedList.Store`. A list is not NULL
-- here: the guard `if (!list)` at the head of each function is the caller's. A function that
-- returns 0 or -1 returns true or false, and one that returns a pointer returns it, 0 for NULL.
pub mod Chain
pub mod Edit
pub mod Ends
pub mod Queue
pub mod Remove
pub mod Reorder
pub mod Sequence
pub mod Shape
pub mod Store
mod Tests
use lcdproc.Prelude.{
  ℕ, zero, suc, ◌+◌, ◌-◌, Bool, true, false, not, ◌&&◌, ◌||◌, ltb, leb, ◌==◌, if◌then◌else◌, some,
}
use lcdproc.Prelude.Int.{ℤ, pos, ltb_ℤ}
use lcdproc.LinkedList.Store.{
  Ptr, null, head, tail, LinkedList, M, pure, fault, ◌>>=◌, ◌>>◌, get_current, set_current,
  get_next_of, get_prev_of, get_item, set_next_of, set_prev_of, set_item, malloc, free, unless_null,
}

unfoldable pub new : LinkedList
new = record {
  live = λ p. p == head || p == tail;
  next = λ p. if p == head then tail else null;
  prev = λ p. if p == tail then head else null;
  item = λ p. 0;
  current = head;
}

unfoldable pub node_unlink : Ptr → M Bool
node_unlink node = if node == null then pure false else do
  next ← get_next_of node
  prev ← get_prev_of node
  unless_null next (set_prev_of next prev)
  unless_null prev (set_next_of prev next)
  set_next_of node null
  set_prev_of node null
  pure true

unfoldable pub node_destroy : Ptr → M Bool
unfolding node_unlink
node_destroy node =
    if node == null
    then pure false
    else do done ← node_unlink node; if not done then pure false else (do free node; pure true)

-- The loop of `LL_Destroy`; `node && node->next` is its test.
unfoldable pub destroy_loop : ℕ → Ptr → M Bool
destroy_loop zero node = fault
destroy_loop (suc fuel) node = if node == null then pure true else do
  next ← get_next_of node
  if next == null
      then pure true
      else (do done ← node_destroy node; if not done then pure false else destroy_loop fuel next)

-- The list itself, with `head` and `tail`, is gone behind it.
unfoldable pub destroy : ℕ → M Bool
destroy fuel = do
  first ← get_next_of head
  done ← destroy_loop fuel first
  if not done then pure false else (do free head; free tail; pure true)

unfoldable pub rewind : M Bool
rewind = do first ← get_next_of head; set_current (if first == tail then head else first); pure true

unfoldable pub go_end : M Bool
go_end = do last ← get_prev_of tail; set_current (if last == head then tail else last); pure true

unfoldable pub go_next : M Bool
go_next = do
  current ← get_current
  if current == null then pure false else (do
    next ← get_next_of current
    if next == tail then pure false else (do set_current next; pure true))

unfoldable pub go_prev : M Bool
go_prev = do
  current ← get_current
  if current == null then pure false else (do
    prev ← get_prev_of current
    if prev == head then pure false else (do set_current prev; pure true))

unfoldable pub get : M ℕ
get = do current ← get_current; if current == null then pure null else get_item current

unfoldable pub put : ℕ → M Bool
put v = do
  current ← get_current
  if current == null then pure false else (do set_item current v; pure true)

unfoldable pub put_node : Ptr → M Bool
put_node node = if node == null then pure false else (do set_current node; pure true)

unfoldable pub get_first : M ℕ
unfolding rewind get
get_first = do done ← rewind; if not done then pure null else get

unfoldable pub get_next : M ℕ
unfolding go_next get
get_next = do done ← go_next; if not done then pure null else get

unfoldable pub get_prev : M ℕ
unfolding go_prev get
get_prev = do done ← go_prev; if not done then pure null else get

unfoldable pub get_last : M ℕ
unfolding go_end get
get_last = do done ← go_end; if not done then pure null else get

-- `LL_AddNode` behind the allocation: the new node goes behind the cursor's, and the cursor to it.
unfoldable pub link_after : Ptr → ℕ → M Bool
link_after fresh add = do
  at ← get_current
  next ← get_next_of at
  set_next_of fresh next
  set_prev_of fresh at
  set_item fresh add
  unless_null next (set_prev_of next fresh)
  set_next_of at fresh
  set_current fresh
  pure true

-- `LL_AddNode`; `fresh` is what `malloc` returns.
unfoldable pub add_node : Ptr → ℕ → M Bool
add_node fresh add = do
  current ← get_current
  if current == null || fresh == null then pure false else (do
    malloc fresh
    (if current == tail then (do before ← get_prev_of current; set_current before) else pure tt)
    link_after fresh add)

unfoldable pub insert_node : Ptr → ℕ → M Bool
insert_node fresh add = if add == null then pure false else do
  current ← get_current
  if current == null || fresh == null then pure false else (do
    malloc fresh
    (if current == head then (do behind ← get_next_of current; set_current behind) else pure tt)
    at ← get_current
    prev ← get_prev_of at
    set_next_of fresh at
    set_prev_of fresh prev
    set_item fresh add
    unless_null prev (set_next_of prev fresh)
    set_prev_of at fresh
    set_current fresh
    pure true)

unfoldable pub delete_node : M ℕ
delete_node = do
  current ← get_current
  if current == null || current == head || current == tail then pure null else (do
    next ← get_next_of current
    prev ← get_prev_of current
    data' ← get_item current
    unless_null prev (set_next_of prev next)
    unless_null next (set_prev_of next prev)
    set_prev_of current null
    set_next_of current null
    set_item current null
    free current
    set_current next
    pure data')

-- The loop of `LL_Remove`, and the function; `fuel` bounds the nodes that are looked at.
unfoldable pub remove_loop : ℕ → ℕ → M ℕ
remove_loop zero v = fault
remove_loop (suc fuel) v = do
  find ← get
  if find == v
      then delete_node
      else (do more ← go_next; if more then remove_loop fuel v else pure null)

unfoldable pub remove : ℕ → ℕ → M ℕ
remove fuel v = rewind >> remove_loop fuel v

unfoldable pub push : Ptr → ℕ → M Bool
push fresh add = if add == null then pure false else (do go_end; add_node fresh add)

unfoldable pub pop : M ℕ
pop = do done ← go_end; if not done then pure null else delete_node

unfoldable pub top : M ℕ
unfolding get_last
top = get_last

unfoldable pub shift : M ℕ
shift = do done ← rewind; if not done then pure null else delete_node

unfoldable pub look : M ℕ
unfolding get_first
look = get_first

unfoldable pub unshift : Ptr → ℕ → M Bool
unshift fresh add = if add == null then pure false else (do rewind; insert_node fresh add)
