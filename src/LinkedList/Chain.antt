-- ===== src/LinkedList/Chain.antt =====
-- Chains of nodes of shared/LL.h: `next` leads from one end through the cells to the other, and
-- `prev` leads back. How a chain survives writes elsewhere, and how its ends are moved.
use lcdproc.Prelude.{
  ℕ, ◌≡◌, ◌≢◌, sym, ◌∙◌, ap, Bool, true, false, ◌||◌, List, [], ◌∷◌, ◌++◌, ◌==◌, arith,
}
use lcdproc.LinkedList.Store.{Ptr}

-- The address and the data pointer of each node, in order.
abbrev pub Cells : Type 0
Cells = List (Ptr × ℕ)

abbrev pub has : Ptr → Cells → Bool
has a [] = false
has a ((b, _) ∷ xs) = (a == b) || has a xs

abbrev pub Distinct : Cells → Type 0
Distinct [] = Unit
Distinct ((a, _) ∷ xs) = (has a xs ≡ false) × Distinct xs

abbrev pub Chain : (Ptr → Ptr) → (Ptr → Ptr) → (Ptr → ℕ) → Ptr → Cells → Ptr → Type 0
Chain n v d p [] q = (n p ≡ q) × (v q ≡ p)
Chain n v d p ((a, x) ∷ xs) q = (n p ≡ a) × (v a ≡ p) × (d a ≡ x) × Chain n v d a xs q

module _ (n v : Ptr → Ptr) (d : Ptr → ℕ) where
  pub split :
      (xs : Cells) (p q a : Ptr) (x : ℕ) (ys : Cells)
      → Chain n v d p (xs ++ (a, x) ∷ ys) q
      → Chain n v d p xs a × (d a ≡ x) × Chain n v d a ys q
  split [] p q a x ys c = ((c.0, c.1), c.2, c.3)
  split ((b, y) ∷ xs) p q a x ys c =
      let (l, e, r) = split xs b q a x ys c.3 in ((c.0, c.1, c.2, l), e, r)

  pub join :
      (xs : Cells) (p q a : Ptr) (x : ℕ) (ys : Cells)
      → Chain n v d p xs a
      → d a ≡ x
      → Chain n v d a ys q
      → Chain n v d p (xs ++ (a, x) ∷ ys) q
  join [] p q a x ys c e r = (c.0, c.1, e, r)
  join ((b, y) ∷ xs) p q a x ys c e r = (c.0, c.1, c.2, join xs b q a x ys c.3 e r)

  -- The node in front of the end is the start or one of the cells.
  pub prev-mem : (xs : Cells) (p q : Ptr) → Chain n v d p xs q → (v q == p || has (v q) xs) ≡ true
  prev-mem [] p q c = ground (arith, c.1)
  prev-mem ((a, x) ∷ xs) p q c = ground (arith, prev-mem xs a q c.3)

  pub next-mem : (xs : Cells) (p q : Ptr) → Chain n v d p xs q → (n p == q || has (n p) xs) ≡ true
  next-mem [] p q c = ground (arith, c.0)
  next-mem ((a, x) ∷ xs) p q c = ground (arith, c.0)

module _ {n v n' v' : Ptr → Ptr} {d d' : Ptr → ℕ} where
  pub frame :
      (xs : Cells) (p q : Ptr)
      → Chain n v d p xs q
      → ((b : Ptr) → (b == p || has b xs) ≡ true → n' b ≡ n b)
      → ((b : Ptr) → (b == q || has b xs) ≡ true → v' b ≡ v b)
      → ((b : Ptr) → has b xs ≡ true → d' b ≡ d b)
      → Chain n' v' d' p xs q
  frame [] p q c hn hv hd = ground (arith, hn p, hv q)
  frame ((a, x) ∷ xs) p q c hn hv hd = (
    ground (arith, hn p),
    ground (arith, hv a),
    ground (arith, hd a),
    frame xs a q c.3 (λ b h. hn b (ground arith)) (λ b h. hv b (ground arith))
        (λ b h. hd b (ground arith)),
  )

  -- The chain is made to lead to `b`.
  pub retarget :
      (xs : Cells) (p q b : Ptr)
      → has p xs ≡ false
      → Distinct xs
      → Chain n v d p xs q
      → n' (v q) ≡ b
      → v' b ≡ v q
      → ((c : Ptr) → (c == p || has c xs) ≡ true → c ≢ v q → n' c ≡ n c)
      → ((c : Ptr) → has c xs ≡ true → v' c ≡ v c)
      → ((c : Ptr) → has c xs ≡ true → d' c ≡ d c)
      → Chain n' v' d' p xs b
  retarget [] p q b out dis c en ev hn hv hd = (ap n' (sym c.1) ∙ en, ev ∙ c.1)
  retarget ((a, x) ∷ xs) p q b out dis c en ev hn hv hd = (
    ground (arith, hn p, prev-mem n v d xs a q c.3),
    ground (arith, hv a),
    ground (arith, hd a),
    retarget xs a q b dis.0 dis.1 c.3 en ev (λ e h. hn e (ground arith))
        (λ e h. hv e (ground arith)) (λ e h. hd e (ground arith)),
  )

  -- The chain is made to start at `f`.
  pub restart :
      (xs : Cells) (p q f : Ptr)
      → has q xs ≡ false
      → Distinct xs
      → Chain n v d p xs q
      → n' f ≡ n p
      → v' (n p) ≡ f
      → ((c : Ptr) → has c xs ≡ true → n' c ≡ n c)
      → ((c : Ptr) → (c == q || has c xs) ≡ true → c ≢ n p → v' c ≡ v c)
      → ((c : Ptr) → has c xs ≡ true → d' c ≡ d c)
      → Chain n' v' d' f xs q
  restart [] p q f out dis c en ev hn hv hd = (en ∙ c.0, ap v' (sym c.0) ∙ ev)
  restart ((a, x) ∷ xs) p q f out dis c en ev hn hv hd = (
    en ∙ c.0,
    ap v' (sym c.0) ∙ ev,
    ground (arith, hd a),
    frame xs a q c.3 (λ e h. hn e (ground arith)) (λ e h. hv e (ground arith) (ground (arith, c.0)))
        (λ e h. hd e (ground arith)),
  )
