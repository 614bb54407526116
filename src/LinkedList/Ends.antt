-- ===== src/LinkedList/Ends.antt =====
-- `LL_AddNode`, `LL_DeleteNode` and the stack and queue operations of shared/LL.c on what a list
-- stands for.
use lcdproc.Prelude.{
  ℕ, ◌≡◌, ◌≢◌, refl, sym, ◌∙◌, ap, true, false, ◌||◌, [], ◌∷◌, ◌++◌, some, ◌==◌, arith,
  append_assoc,
}
use lcdproc.LinkedList.Store.{Ptr, null, head, tail, LinkedList, update}
use lcdproc.LinkedList.Chain.{Cells, has}
use lcdproc.LinkedList.Edit.{
  first_of, last_of, has-append, first-mem, last-mem, Chain-insert, Chain-delete, Distinct-insert,
  Distinct-delete, Chain-next, cut,
}
use lcdproc.LinkedList.{link_after, delete_node}
use lcdproc.LinkedList.Shape.{IsList, On, On-live, On-next, On-prev, On-item, On-ne}

-- The neighbours of a place between two cells, `head` and `tail` included.
module _ {l : LinkedList} {cells : Cells} (s : IsList l cells) where
  before_live :
      (xs ys : Cells)
      → cells ≡ xs ++ ys
      → (l.live (last_of head xs) ≡ true) × ((last_of head xs == null) ≡ false)
  before_live xs ys e =
      let at = last-mem head xs in
      let h = ap (has (last_of head xs)) e ∙ has-append (last_of head xs) xs ys in
      (ground (arith, s.head_live, s.alive (last_of head xs)), ground (arith, s.null_out))

  behind_live :
      (xs ys : Cells)
      → cells ≡ xs ++ ys
      → (l.live (first_of ys tail) ≡ true) × ((first_of ys tail == null) ≡ false)
  behind_live xs ys e =
      let to = first-mem tail ys in
      let h = ap (has (first_of ys tail)) e ∙ has-append (first_of ys tail) xs ys in
      (ground (arith, s.tail_live, s.alive (first_of ys tail)), ground (arith, s.null_out))

module _ {l : LinkedList} {xs : Cells} {a : Ptr} {x : ℕ} {ys : Cells} (s : On l xs a x ys) where
  -- Nothing but the cursor's node is freed, and the cursor goes to the node behind it, or to
  -- `tail`.
  pub delete_node_lem :
      (l' : LinkedList) × (delete_node l ≡ some (x, l'))
      × IsList l' (xs ++ ys)
      × (l'.current ≡ first_of ys tail)
      × (l'.live a ≡ false)
  unfolding delete_node
  delete_node_lem =
      let A = last_of head xs in
      let S = first_of ys tail in
      let c = l.current in
      let hh = has-append head xs ((a, x) ∷ ys) in
      let ht = has-append tail xs ((a, x) ∷ ys) in
      let hn = has-append null xs ((a, x) ∷ ys) in
      let gone = Distinct-delete xs ys a x s.is_list.distinct in
      let guard : (c == null || c == head || c == tail) ≡ false =
        ground (arith, s.current_is, On-ne s, s.is_list.head_out, s.is_list.tail_out) in
      let (A_live, A_ne) = before_live s.is_list xs ((a, x) ∷ ys) refl in
      let (S_live, S_ne) =
        behind_live s.is_list (xs ++ (a, x) ∷ []) ys (sym (append_assoc xs ((a, x) ∷ []) ys)) in
      let l' : LinkedList = record {
        live = update l.live c false;
        next = update (update l.next A S) c null;
        prev = update (update l.prev S A) c null;
        item = update l.item c null;
        current = S;
      } in
      (
        l',
        rw (
          guard,
          On-live s,
          On-next s,
          On-live s,
          On-prev s,
          On-live s,
          On-item s,
          A_ne,
          A_live,
          S_ne,
          S_live,
          On-live s,
          On-live s,
          On-live s,
          On-live s,
        ),
        rw s.current_is (record {
          chain =
              Chain-delete l.next l.prev l.item xs ys head tail a x null null null s.is_list.chain
                s.is_list.distinct s.is_list.head_out s.is_list.tail_out (omega arith);
          distinct = gone.0;
          null_out = ground (arith, s.is_list.null_out, has-append null xs ys, hn);
          head_out = ground (arith, s.is_list.head_out, has-append head xs ys, hh);
          tail_out = ground (arith, s.is_list.tail_out, has-append tail xs ys, ht);
          alive = λ b h.
              ground (
                arith,
                gone.1,
                s.is_list.alive b,
                has-append b xs ys,
                has-append b xs ((a, x) ∷ ys),
              );
          head_live = ground (arith, s.is_list.head_live, s.is_list.head_out, hh);
          tail_live = ground (arith, s.is_list.tail_live, s.is_list.tail_out, ht);
          head_end = ground (arith, s.is_list.head_end, s.is_list.head_out, hh, first-mem tail ys);
          tail_end = ground (arith, s.is_list.tail_end, s.is_list.tail_out, ht, last-mem head xs);
        }),
        refl,
        ground (arith, s.current_is),
      )

-- What an insertion leads to: the data `x` at the new address `f`, under the cursor.
pub record Inserted (xs ys : Cells) (f : Ptr) (x : ℕ) (l' : LinkedList) : Type 0 where
  pub is_list : IsList l' (xs ++ (f, x) ∷ ys)
  pub current_is : l'.current ≡ f

module _ {l : LinkedList} {xs ys : Cells} (s : IsList l (xs ++ ys)) (f : Ptr) (x : ℕ) where
  pub link_after_lem :
      l.current ≡ last_of head xs
      → l.live f ≡ true
      → has f (xs ++ ys) ≡ false
      → f ≢ null
      → f ≢ head
      → f ≢ tail
      → (l' : LinkedList) × (link_after f x l ≡ some (true, l')) × Inserted xs ys f x l'
  unfolding link_after
  link_after_lem cur live out nn nh nt =
      let S = first_of ys tail in
      let c = l.current in
      let (A_live, A_ne) = before_live s xs ys refl in
      let (S_live, S_ne) = behind_live s xs ys refl in
      let next_is : l.next c ≡ S =
        ap l.next cur
        ∙ Chain-next l.next l.prev l.item ys (last_of head xs) tail
            (cut l.next l.prev l.item xs ys head tail s.chain).1 in
      let c_live : l.live c ≡ true = rw cur A_live in
      let l' : LinkedList = record {
        live = l.live;
        next = update (update l.next f S) c f;
        prev = update (update l.prev f c) S f;
        item = update l.item f x;
        current = f;
      } in
      let app = λ (b : Ptr). has-append b xs ((f, x) ∷ ys) in
      let old = λ (b : Ptr). has-append b xs ys in
      (
        l',
        rw (c_live, next_is, live, live, live, S_ne, S_live, c_live),
        record {
          is_list = rw cur (record {
            chain =
                Chain-insert l.next l.prev l.item xs ys head tail f x s.chain s.distinct s.head_out
                  s.tail_out out (omega arith) nh nt;
            distinct = Distinct-insert xs ys f x s.distinct out;
            null_out = ground (arith, app null, old null, s.null_out);
            head_out = ground (arith, app head, old head, s.head_out);
            tail_out = ground (arith, app tail, old tail, s.tail_out);
            alive = λ b h. ground (arith, app b, old b, s.alive b);
            head_live = s.head_live;
            tail_live = s.tail_live;
            head_end = ground (arith, s.head_end, first-mem tail ys, s.head_out, old head);
            tail_end = ground (arith, s.tail_end, last-mem head xs, s.tail_out, old tail);
          });
          current_is = refl;
        },
      )
