-- ===== src/LinkedList/Shape.antt =====
-- What a list of shared/LL.c stands for: its cells in order, and where its cursor is.
use lcdproc.Prelude.{
  ℕ, ◌≡◌, ◌≢◌, refl, true, false, [], ◌∷◌, ◌++◌, some, ◌==◌, arith, append_assoc, if◌then◌else◌,
}
use lcdproc.LinkedList.Store.{Ptr, null, head, tail, LinkedList}
use lcdproc.LinkedList.Chain.{Cells, has, Distinct, Chain, split}
use lcdproc.LinkedList.Edit.{first_of, last_of, has-append, last-mem, Chain-next, Chain-prev}
use lcdproc.LinkedList.{new, rewind, go_end, go_next, get}

pub record IsList (l : LinkedList) (cells : Cells) : Type 0 where
  pub chain : Chain l.next l.prev l.item head cells tail
  pub distinct : Distinct cells
  pub null_out : has null cells ≡ false
  pub head_out : has head cells ≡ false
  pub tail_out : has tail cells ≡ false
  pub alive : (a : Ptr) → has a cells ≡ true → l.live a ≡ true
  pub head_live : l.live head ≡ true
  pub tail_live : l.live tail ≡ true
  pub head_end : l.prev head ≡ null
  pub tail_end : l.next tail ≡ null

-- The cursor stands on the node `a`, between the cells `xs` and `ys`.
pub record On (l : LinkedList) (xs : Cells) (a : Ptr) (x : ℕ) (ys : Cells) : Type 0 where
  pub is_list : IsList l (xs ++ (a, x) ∷ ys)
  pub current_is : l.current ≡ a

-- An address that `malloc` may return.
pub record IsFresh (l : LinkedList) (f : Ptr) : Type 0 where
  pub ne_null : f ≢ null
  pub unused : l.live f ≡ false

pub new-IsList : IsList new []
unfolding new
new-IsList = record {
  chain = (refl, refl);
  distinct = tt;
  null_out = refl;
  head_out = refl;
  tail_out = refl;
  alive = λ a h. cc;
  head_live = refl;
  tail_live = refl;
  head_end = refl;
  tail_end = refl;
}

-- The cursor is no part of what the list stands for.
pub IsList-current :
    {l : LinkedList} {cells : Cells} (p : Ptr)
    → IsList l cells
    → IsList (record l { current = p }) cells
IsList-current p s = record {
  chain = s.chain;
  distinct = s.distinct;
  null_out = s.null_out;
  head_out = s.head_out;
  tail_out = s.tail_out;
  alive = s.alive;
  head_live = s.head_live;
  tail_live = s.tail_live;
  head_end = s.head_end;
  tail_end = s.tail_end;
}

first_or_head :
    (cells : Cells)
    → has tail cells ≡ false
    → (if first_of cells tail == tail then head else first_of cells tail) ≡ first_of cells head
first_or_head [] out = refl
first_or_head ((a, x) ∷ cells) out = ground arith

last_or_tail :
    (cells : Cells)
    → has head cells ≡ false
    → (if last_of head cells == head then tail else last_of head cells) ≡ last_of tail cells
last_or_tail [] out = refl
last_or_tail ((a, x) ∷ cells) out = ground (arith, last-mem a cells)

module _ {l : LinkedList} {cells : Cells} (s : IsList l cells) where
  pub first_is : l.next head ≡ first_of cells tail
  first_is = Chain-next l.next l.prev l.item cells head tail s.chain

  pub last_is : l.prev tail ≡ last_of head cells
  last_is = Chain-prev l.next l.prev l.item cells head tail s.chain

  -- `LL_Rewind` goes to the first node, or to `head` if there is none.
  pub rewind_lem : rewind l ≡ some (true, record l { current = first_of cells head })
  unfolding rewind
  rewind_lem = rw (s.head_live, first_is, first_or_head cells s.tail_out)

  -- `LL_End` goes to the last node, or to `tail` if there is none.
  pub go_end_lem : go_end l ≡ some (true, record l { current = last_of tail cells })
  unfolding go_end
  go_end_lem = rw (s.tail_live, last_is, last_or_tail cells s.head_out)

module _ {l : LinkedList} {xs : Cells} {a : Ptr} {x : ℕ} {ys : Cells} (s : On l xs a x ys) where
  pub On-has : has a (xs ++ (a, x) ∷ ys) ≡ true
  On-has = ground (arith, has-append a xs ((a, x) ∷ ys))

  pub On-live : l.live l.current ≡ true
  On-live = rw s.current_is (s.is_list.alive a On-has)

  pub On-next : l.next l.current ≡ first_of ys tail
  On-next =
      let (c, e, c') = split l.next l.prev l.item xs head tail a x ys s.is_list.chain in
      rw s.current_is (Chain-next l.next l.prev l.item ys a tail c')

  pub On-prev : l.prev l.current ≡ last_of head xs
  On-prev =
      let (c, e, c') = split l.next l.prev l.item xs head tail a x ys s.is_list.chain in
      rw s.current_is (Chain-prev l.next l.prev l.item xs head a c)

  pub On-item : l.item l.current ≡ x
  On-item =
      let (c, e, c') = split l.next l.prev l.item xs head tail a x ys s.is_list.chain in
      rw s.current_is e

  pub On-ne : (l.current == null) ≡ false
  On-ne = ground (arith, On-has, s.is_list.null_out, s.current_is)

  pub get_lem : get l ≡ some (x, l)
  unfolding get
  get_lem = rw (On-ne, On-live, On-item)

module _ {l : LinkedList} {xs : Cells} {a : Ptr} {x : ℕ} where
  -- On the last node `LL_Next` stays.
  pub go_next_last : On l xs a x [] → go_next l ≡ some (false, l)
  unfolding go_next
  go_next_last s = rw (On-ne s, On-live s, On-next s)

  pub go_next_more :
      {b : Ptr} {y : ℕ} {ys : Cells}
      → On l xs a x ((b, y) ∷ ys)
      → (go_next l ≡ some (true, record l { current = b }))
        × On (record l { current = b }) (xs ++ (a, x) ∷ []) b y ys
  unfolding go_next
  go_next_more {b} {y} {ys} s =
      let ne : (b == tail) ≡ false =
        ground (arith, s.is_list.tail_out, has-append tail xs ((a, x) ∷ (b, y) ∷ ys)) in
      (
        rw (On-ne s, On-live s, On-next s, ne),
        record { is_list = rw append_assoc (IsList-current b s.is_list); current_is = refl },
      )
