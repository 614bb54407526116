-- ===== src/LinkedList/Edit.antt =====
-- Putting a node into a chain and taking one out, as `LL_AddNode`, `LL_InsertNode` and
-- `LL_DeleteNode` of shared/LL.c relink their neighbours.
use lcdproc.Prelude.{ℕ, ◌≡◌, ◌≢◌, refl, true, false, ◌||◌, [], ◌∷◌, ◌++◌, ◌==◌, arith}
use lcdproc.LinkedList.Store.{Ptr, update}
use lcdproc.LinkedList.Chain.{Cells, has, Distinct, Chain, split, join, retarget, restart}

abbrev pub first_of : Cells → Ptr → Ptr
first_of [] q = q
first_of ((a, _) ∷ _) q = a

abbrev pub last_of : Ptr → Cells → Ptr
last_of p [] = p
last_of p ((a, _) ∷ xs) = last_of a xs

pub has-append : (a : Ptr) (xs ys : Cells) → has a (xs ++ ys) ≡ (has a xs || has a ys)
has-append a [] ys = refl
has-append a ((b, x) ∷ xs) ys = ground (arith, has-append a xs ys)

pub last-mem : (p : Ptr) (xs : Cells) → (last_of p xs == p || has (last_of p xs) xs) ≡ true
last-mem p [] = ground arith
last-mem p ((a, x) ∷ xs) = ground (arith, last-mem a xs)

pub first-mem : (q : Ptr) (xs : Cells) → (first_of xs q == q || has (first_of xs q) xs) ≡ true
first-mem q [] = ground arith
first-mem q ((a, x) ∷ xs) = ground arith

pub Distinct-insert :
    (xs ys : Cells) (f : Ptr) (x : ℕ)
    → Distinct (xs ++ ys)
    → has f (xs ++ ys) ≡ false
    → Distinct (xs ++ (f, x) ∷ ys)
Distinct-insert [] ys f x d out = (out, d)
Distinct-insert ((a, y) ∷ xs) ys f x d out = (
  ground (arith, has-append a xs ys, has-append a xs ((f, x) ∷ ys)),
  Distinct-insert xs ys f x d.1 (ground arith),
)

pub Distinct-delete :
    (xs ys : Cells) (f : Ptr) (x : ℕ)
    → Distinct (xs ++ (f, x) ∷ ys)
    → Distinct (xs ++ ys) × (has f (xs ++ ys) ≡ false)
Distinct-delete [] ys f x d = (d.1, d.0)
Distinct-delete ((a, y) ∷ xs) ys f x d =
    let (e, o) = Distinct-delete xs ys f x d.1 in
    let same = has-append a xs ys in
    let same' = has-append a xs ((f, x) ∷ ys) in ((ground arith, e), ground arith)

pub Distinct-parts :
    (xs ys : Cells)
    → Distinct (xs ++ ys)
    → Distinct xs × Distinct ys × ((b : Ptr) → has b xs ≡ true → has b ys ≡ false)
Distinct-parts [] ys d = (tt, d, λ b h. cc)
Distinct-parts ((a, x) ∷ xs) ys d =
    let (e, f, g) = Distinct-parts xs ys d.1 in
    let same = has-append a xs ys in ((ground arith, e), f, λ b h. ground (arith, g b))

module _ (n v : Ptr → Ptr) (d : Ptr → ℕ) where
  pub Chain-next : (xs : Cells) (p q : Ptr) → Chain n v d p xs q → n p ≡ first_of xs q
  Chain-next [] p q c = c.0
  Chain-next ((a, x) ∷ xs) p q c = c.0

  pub Chain-prev : (xs : Cells) (p q : Ptr) → Chain n v d p xs q → v q ≡ last_of p xs
  Chain-prev [] p q c = c.1
  Chain-prev ((a, x) ∷ xs) p q c = Chain-prev xs a q c.3

  -- Between any two cells the chain falls in two.
  pub cut :
      (xs ys : Cells) (p q : Ptr)
      → Chain n v d p (xs ++ ys) q
      → Chain n v d p xs (first_of ys q) × Chain n v d (last_of p xs) ys q
  cut [] [] p q c = (c, c)
  cut [] ((b, y) ∷ ys) p q c = ((c.0, c.1), c)
  cut ((a, x) ∷ xs) ys p q c = let (l, r) = cut xs ys a q c.3 in ((c.0, c.1, c.2, l), r)

  pub glue :
      (xs ys : Cells) (p q : Ptr)
      → Chain n v d p xs (first_of ys q)
      → Chain n v d (last_of p xs) ys q
      → Chain n v d p (xs ++ ys) q
  glue [] ys p q l r = r
  glue ((a, x) ∷ xs) ys p q l r = (l.0, l.1, l.2, glue xs ys a q l.3 r)

-- Where a chain is cut, the two neighbours are apart from the cells of the other part.
record Neighbours (xs ys : Cells) (p q : Ptr) : Type 0 where
  left_out : has p xs ≡ false
  right_out : has q ys ≡ false
  left_Distinct : Distinct xs
  right_Distinct : Distinct ys
  before_out : has (last_of p xs) ys ≡ false
  behind_out : has (first_of ys q) xs ≡ false
  before_ne : last_of p xs ≢ q
  behind_ne : first_of ys q ≢ p
  ne : last_of p xs ≢ first_of ys q
  apart : (b : Ptr) → has b xs ≡ true → has b ys ≡ false

neighbours :
    (xs ys : Cells) (p q : Ptr)
    → Distinct (xs ++ ys)
    → has p (xs ++ ys) ≡ false
    → has q (xs ++ ys) ≡ false
    → p ≢ q
    → Neighbours xs ys p q
neighbours xs ys p q dis op oq pq =
    let (dx, dy, apart) = Distinct-parts xs ys dis in
    let at = last-mem p xs in
    let to = first-mem q ys in
    let hp = has-append p xs ys in
    let hq = has-append q xs ys in
    record {
      left_out = ground arith;
      right_out = ground arith;
      left_Distinct = dx;
      right_Distinct = dy;
      before_out = ground (arith, apart (last_of p xs));
      behind_out = ground (arith, apart (first_of ys q));
      before_ne = ground arith;
      behind_ne = ground arith;
      ne = ground (arith, apart (last_of p xs), apart (first_of ys q));
      apart = apart;
    }

-- A node `f` between the cells `xs` and `ys`.
pub Chain-insert :
    (n v : Ptr → Ptr) (d : Ptr → ℕ) (xs ys : Cells) (p q f : Ptr) (x : ℕ)
    → Chain n v d p (xs ++ ys) q
    → Distinct (xs ++ ys)
    → has p (xs ++ ys) ≡ false
    → has q (xs ++ ys) ≡ false
    → has f (xs ++ ys) ≡ false
    → p ≢ q
    → f ≢ p
    → f ≢ q
    → Chain
        (update (update n f (first_of ys q)) (last_of p xs) f)
        (update (update v f (last_of p xs)) (first_of ys q) f)
        (update d f x)
        p
        (xs ++ (f, x) ∷ ys)
        q
Chain-insert n v d xs ys p q f x c dis op oq of pq fp fq =
    let (l, r) = cut n v d xs ys p q c in
    let w = neighbours xs ys p q dis op oq pq in
    let hf = has-append f xs ys in
    let at = last-mem p xs in
    let to = first-mem q ys in
    let fA : f ≢ last_of p xs = ground arith in
    let fS : f ≢ first_of ys q = ground arith in
    let before = Chain-prev n v d xs p (first_of ys q) l in
    let behind = Chain-next n v d ys (last_of p xs) q r in
    join _ _ _ xs p q f x ys
      (retarget xs p (first_of ys q) f w.left_out w.left_Distinct l (ground arith) (ground arith)
        (λ e h k. ground arith) (λ e h. ground arith) (λ e h. ground arith))
      (ground arith)
      (restart ys (last_of p xs) q f w.right_out w.right_Distinct r (ground arith) (ground arith)
        (λ e h. ground arith) (λ e h k. ground arith) (λ e h. ground arith))

-- The node `a` between the cells `xs` and `ys` is left out; its own fields may hold anything.
pub Chain-delete :
    (n v : Ptr → Ptr) (d : Ptr → ℕ) (xs ys : Cells) (p q a : Ptr) (x i j k : ℕ)
    → Chain n v d p (xs ++ (a, x) ∷ ys) q
    → Distinct (xs ++ (a, x) ∷ ys)
    → has p (xs ++ (a, x) ∷ ys) ≡ false
    → has q (xs ++ (a, x) ∷ ys) ≡ false
    → p ≢ q
    → Chain
        (update (update n (last_of p xs) (first_of ys q)) a i)
        (update (update v (first_of ys q) (last_of p xs)) a j)
        (update d a k)
        p
        (xs ++ ys)
        q
Chain-delete n v d xs ys p q a x i j k c dis op oq pq =
    let (l, e, r) = split n v d xs p q a x ys c in
    let (dis', out) = Distinct-delete xs ys a x dis in
    let hp = has-append p xs ((a, x) ∷ ys) in
    let hp' = has-append p xs ys in
    let hq = has-append q xs ((a, x) ∷ ys) in
    let hq' = has-append q xs ys in
    let ha = has-append a xs ys in
    let w = neighbours xs ys p q dis' (ground arith) (ground arith) pq in
    let at = last-mem p xs in
    let to = first-mem q ys in
    let aA : a ≢ last_of p xs = ground arith in
    let aS : a ≢ first_of ys q = ground arith in
    let before = Chain-prev n v d xs p a l in
    let behind = Chain-next n v d ys a q r in
    glue _ _ _ xs ys p q
      (retarget xs p a (first_of ys q) w.left_out w.left_Distinct l (ground arith) (ground arith)
        (λ e h k. ground arith) (λ e h. ground arith) (λ e h. ground arith))
      (restart ys a q (last_of p xs) w.right_out w.right_Distinct r (ground arith) (ground arith)
        (λ e h. ground arith) (λ e h k. ground arith) (λ e h. ground arith))
