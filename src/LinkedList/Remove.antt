-- ===== src/LinkedList/Remove.antt =====
-- `LL_Remove` of shared/LL.c: the first node with the data is unlinked and freed.
use lcdproc.Prelude.{
  ℕ, zero, suc, ◌<◌, ◌≡◌, inl, inr, refl, Bool, false, ◌||◌, [], ◌∷◌, ◌++◌, some, ◌==◌, arith,
  append_assoc, if◌then◌else◌, Bool-cases, length,
}
use lcdproc.LinkedList.Store.{Ptr, null, head, LinkedList}
use lcdproc.LinkedList.Chain.{Cells}
use lcdproc.LinkedList.{get, go_next, delete_node, remove_loop, remove}
use lcdproc.LinkedList.Shape.{
  IsList, On, IsList-current, rewind_lem, first_is, get_lem, go_next_last, go_next_more,
}
use lcdproc.LinkedList.Ends.{delete_node_lem}

abbrev pub holds_item : ℕ → Cells → Bool
holds_item v [] = false
holds_item v ((_, x) ∷ cells) = (x == v) || holds_item v cells

-- The cells without the first one that holds `v`.
abbrev pub erase_item : ℕ → Cells → Cells
erase_item v [] = []
erase_item v ((a, x) ∷ cells) = if x == v then cells else (a, x) ∷ erase_item v cells

abbrev pub Removed : ℕ → Cells → ℕ → LinkedList → Type 0
Removed v cells r l' =
    (r ≡ (if holds_item v cells then v else null)) × IsList l' (erase_item v cells)

remove_loop-Removed :
    (ys : Cells) (fuel v : ℕ) (l : LinkedList) (xs : Cells) (a : Ptr) (x : ℕ)
    → length ys < fuel
    → On l xs a x ys
    → (r : ℕ) × (l' : LinkedList) × (remove_loop fuel v l ≡ some (r, l'))
      × (r ≡ (if holds_item v ((a, x) ∷ ys) then v else null))
      × IsList l' (xs ++ erase_item v ((a, x) ∷ ys))
unfolding remove_loop
remove_loop-Removed ys zero v l xs a x h s = absurd (omega arith)
remove_loop-Removed [] (suc fuel) v l xs a x h s = elim (Bool-cases (x == v)) [
  | inl y ↦
      let (l', go, s', _, _) = delete_node_lem s in
      (x, l', rw (get_lem s, y) go, rw y (ground (arith, y)), rw y s')
  | inr n ↦ (null, l, rw (get_lem s, n, go_next_last s), rw n refl, rw n s.is_list)
]
remove_loop-Removed ((b, z) ∷ ys) (suc fuel) v l xs a x h s = elim (Bool-cases (x == v)) [
  | inl y ↦
      let (l', go, s', _, _) = delete_node_lem s in
      (x, l', rw (get_lem s, y) go, rw y (ground (arith, y)), rw y s')
  | inr n ↦
      let (go, on) = go_next_more s in
      let (r, l', e, is, s') =
        remove_loop-Removed ys fuel v (record l { current = b }) (xs ++ (a, x) ∷ []) b z
          (omega arith) on in
      (r, l', rw (get_lem s, n, go) e, rw n is, rw n (rw append_assoc at s'))
]

remove_empty :
    (l : LinkedList) (v fuel : ℕ)
    → IsList l []
    → remove (suc fuel) v l ≡ some (null, record l { current = head })
unfolding remove remove_loop get go_next delete_node
remove_empty l v fuel s = elim (Bool-cases (l.item head == v)) [
  | inl y ↦ rw (rewind_lem s, s.head_live, y)
  | inr n ↦ rw (rewind_lem s, s.head_live, n, s.head_live, first_is s)
]

-- With enough fuel for the nodes, LL_Remove takes the first node with the data out of the list
-- and returns the data; without such a node it returns NULL and the nodes stay.
pub remove-Removed :
    (l : LinkedList) (cells : Cells) (v fuel : ℕ)
    → IsList l cells
    → length cells < fuel
    → (r : ℕ) × (l' : LinkedList) × (remove fuel v l ≡ some (r, l'))
      × (r ≡ (if holds_item v cells then v else null))
      × IsList l' (erase_item v cells)
unfolding remove
remove-Removed l ((a, x) ∷ cells) v fuel s h =
    let on : On (record l { current = a }) [] a x cells = record {
      is_list = IsList-current a s;
      current_is = refl;
    } in
    let (r, l', e, is, s') =
      remove_loop-Removed cells fuel v (record l { current = a }) [] a x (omega arith) on in
    (r, l', rw (rewind_lem s) e, is, s')
remove-Removed l [] v zero s h = absurd (omega arith)
remove-Removed l [] v (suc fuel) s h =
    (null, record l { current = head }, remove_empty l v fuel s, refl, IsList-current head s)
