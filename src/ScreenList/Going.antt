-- ===== src/ScreenList/Going.antt =====
-- Where `screenlist_switch` and `screenlist_goto_next` of server/screenlist.c lead.
use mathlib.Core.List.{Mem, mem-cons_self, mem-cons_of_mem}
use lcdproc.Prelude.{
  ℕ, ◌≤◌, ◌≡◌, ◌⊎◌, refl, sym, ◌∙◌, ap, subst, true, false, Option, some, List, [], ◌∷◌, ltb, ◌==◌,
  ◌>>=◌, Bool-cases, inl, inr, arith, All, All-mono,
}
use lcdproc.LinkedList.Sequence.Order.{Descending}
use lcdproc.ScreenList.{
  Ptr, null, Rotation, get_screen, priority_of, first, next_after, screenlist_switch,
  screenlist_goto_next,
}
use lcdproc.ScreenList.Process.{rank_of}
use lcdproc.ScreenList.Notices.{InTouch, screenlist_switch-InTouch}
use lcdproc.ScreenList.Top.{IsReadable, WellFormed, Shows, Ordered, readable_priority}

-- A run ends regularly, with a screen of the highest priority shown.
abbrev pub Settles : Option Rotation → Type 0
Settles result = (r' : Rotation) × (result ≡ some r') × WellFormed r' × Shows r'

pub same_memory :
    (r r' : Rotation) (s : Ptr) → r'.screens ≡ r.screens → get_screen r' s ≡ get_screen r s
unfolding get_screen
same_memory r r' s e = rw e

pub same_rank : (r r' : Rotation) (s : Ptr) → r'.screens ≡ r.screens → rank_of r' s ≡ rank_of r s
unfolding rank_of priority_of
same_rank r r' s e = ground (arith, same_memory r r' s e)

-- A switch to a screen of the list that can be read leaves a well-formed state.
pub switched-WellFormed :
    (s : Ptr) (r : Rotation)
    → All (IsReadable r) r.screenlist
    → InTouch r
    → Mem s r.screenlist
    → IsReadable r s
    → (r' : Rotation) × (screenlist_switch s r ≡ some r')
      × WellFormed r'
      × (r'.current_screen ≡ s)
      × (r'.screenlist ≡ r.screenlist)
      × (r'.screens ≡ r.screens)
switched-WellFormed s r all i m (x, e) =
    let (r', go, i', cur, list, mem) = screenlist_switch-InTouch s r x i e in
    (
      r',
      go,
      record {
        readable = subst (All (IsReadable r')) (sym list) (
            All-mono (IsReadable r) (IsReadable r') r.screenlist
              (λ u (y, f). (y, same_memory r r' u mem ∙ f)) all);
        listed = λ _.
            subst (Mem r'.current_screen) (sym list) (subst (λ u. Mem u r.screenlist) (sym cur) m);
        in_touch = i';
      },
      cur,
      list,
      mem,
    )

pub switch-Settles :
    (s : Ptr) (r : Rotation)
    → WellFormed r
    → Mem s r.screenlist
    → IsReadable r s
    → All (λ u. rank_of r u ≤ rank_of r s) r.screenlist
    → Settles (screenlist_switch s r)
switch-Settles s r w m at h =
    let (r', go, w', cur, list, mem) = switched-WellFormed s r w.readable w.in_touch m at in
    (
      r',
      go,
      w',
      subst (All (λ u. rank_of r' u ≤ rank_of r' r'.current_screen)) (sym list) (
          All-mono (λ u. rank_of r u ≤ rank_of r s)
            (λ u. rank_of r' u ≤ rank_of r' r'.current_screen) r.screenlist
            (λ u le. ground (
              arith,
              same_rank r r' u mem,
              same_rank r r' r'.current_screen mem,
              ap (rank_of r) cur,
            ))
            h),
    )

pub first-Settles :
    (r : Rotation) (f : Ptr) (fs : List Ptr)
    → r.screenlist ≡ f ∷ fs
    → Ordered r
    → Settles (screenlist_switch f r)
first-Settles r f fs e o =
    let d = subst (Descending (rank_of r)) e o.order in
    switch-Settles f r o.well_formed (subst (Mem f) (sym e) mem-cons_self)
      (subst (All (IsReadable r)) e o.well_formed.readable).0
      (subst (All (λ u. rank_of r u ≤ rank_of r f)) (sym e) (omega arith, d.0))

-- The screen after another one is in the list, when there is one.
pub next_after-Mem :
    (s : Ptr) (xs : List Ptr) → (next_after s xs == null) ≡ false → Mem (next_after s xs) xs
unfolding next_after
next_after-Mem s [] h = cc
next_after-Mem s (x ∷ []) h = elim (Bool-cases (x == s)) [
  | inl y ↦ absurd (ground (arith, y, h))
  | inr n ↦ absurd (ground (arith, n, h))
]
next_after-Mem s (x ∷ y ∷ ys) h = elim (Bool-cases (x == s)) [
  | inl e ↦ rw e (mem-cons_of_mem x mem-cons_self)
  | inr n ↦ rw n (mem-cons_of_mem x (next_after-Mem s (y ∷ ys) (ground (arith, n, h))))
]

pub next_after-All :
    (P : Ptr → Type 0) (s : Ptr) (xs : List Ptr)
    → All P xs
    → (next_after s xs == null) ≡ false
    → P (next_after s xs)
unfolding next_after
next_after-All P s [] a h = cc
next_after-All P s (x ∷ []) a h = elim (Bool-cases (x == s)) [
  | inl y ↦ absurd (ground (arith, y, h))
  | inr n ↦ absurd (ground (arith, n, h))
]
next_after-All P s (x ∷ y ∷ ys) a h = elim (Bool-cases (x == s)) [
  | inl e ↦ rw e a.1.0
  | inr n ↦ rw n (next_after-All P s (y ∷ ys) a.1 (ground (arith, n, h)))
]

pub Settles-bind :
    (result : Option Rotation)
    → Settles result
    → Settles (do (_, r2) ← (do r' ← result; some (true, r')); some r2)
Settles-bind result (r', go, w, h) = (r', rw go, w, h)

-- The target of `screenlist_goto_next`: the next screen, or the first one behind the last, and
-- when the next one has a lower priority.
pub goto_next-target :
    (r : Rotation)
    → (r.current_screen == null) ≡ false
    → All (IsReadable r) r.screenlist
    → IsReadable r r.current_screen
    → (s : Ptr) × (screenlist_goto_next r ≡ (do r' ← screenlist_switch s r; some (true, r')))
      × ((s ≡ first r.screenlist)
          ⊎ (((s == null) ≡ false)
              × (s ≡ next_after r.current_screen r.screenlist)
              × (rank_of r r.current_screen ≤ rank_of r s)))
unfolding screenlist_goto_next
goto_next-target r ne all at =
    let s = next_after r.current_screen r.screenlist in
    elim (Bool-cases (s == null)) [
      | inl z ↦ (first r.screenlist, rw (ne, z), inl refl)
      | inr n ↦
          let p =
            readable_priority r s
              (next_after-All (IsReadable r) r.current_screen r.screenlist all n) in
          let q = readable_priority r r.current_screen at in
          elim (Bool-cases (ltb (rank_of r s) (rank_of r r.current_screen))) [
            | inl y ↦ (first r.screenlist, rw (ne, n, p, q, y), inl refl)
            | inr m ↦ (s, rw (ne, n, p, q, m), inr (n, refl, ground (arith, m)))
          ]
    ]

pub All-trans :
    (key : Ptr → ℕ) (a b : Ptr) (xs : List Ptr)
    → key a ≤ key b
    → All (λ u. key u ≤ key a) xs
    → All (λ u. key u ≤ key b) xs
All-trans key a b xs le h =
    All-mono (λ u. key u ≤ key a) (λ u. key u ≤ key b) xs (λ u e. omega arith) h
