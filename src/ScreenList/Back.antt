-- ===== src/ScreenList/Back.antt =====
-- `screenlist_goto_prev` of server/screenlist.c from a well-formed state.
use mathlib.Core.List.{Mem, mem-cons_self, mem-cons_of_mem, not-mem-nil}
use lcdproc.Prelude.{
  ℕ, ◌≡◌, refl, true, false, some, List, [], ◌∷◌, ◌==◌, if◌then◌else◌, Bool-cases, inl, inr, arith,
  All, All-mono,
}
use lcdproc.ScreenList.{
  Ptr, null, Rotation, prev_before, last_alike, wrap_back, screenlist_goto_prev,
}
use lcdproc.ScreenList.Process.{rank_of}
use lcdproc.ScreenList.Top.{IsReadable, WellFormed, readable_priority}
use lcdproc.ScreenList.Going.{switched-WellFormed}

-- A screen of the list that can be read.
abbrev Target : Rotation → List Ptr → Ptr → Type 0
Target r xs t = Mem t xs × IsReadable r t

All-Target : (r : Rotation) (xs : List Ptr) → All (IsReadable r) xs → All (Target r xs) xs
All-Target r [] h = tt
All-Target r (x ∷ xs) h = (
  (mem-cons_self, h.0),
  All-mono (Target r xs) (Target r (x ∷ xs)) xs (λ t (m, p). (mem-cons_of_mem x m, p))
      (All-Target r xs h.1),
)

module _ (Q : Ptr → Type 0) where
  prev_before-All :
      (s before : Ptr) (xs : List Ptr)
      → All Q xs
      → ((before == null) ≡ false → Q before)
      → (prev_before s before xs == null) ≡ false
      → Q (prev_before s before xs)
  unfolding prev_before
  prev_before-All s before [] h b n = cc
  prev_before-All s before (x ∷ []) h b n = b n
  prev_before-All s before (x ∷ y ∷ xs) h b n = elim (Bool-cases (x == s)) [
    | inl e ↦ rw e (b (rw e at n))
    | inr m ↦ rw m (prev_before-All s x (y ∷ xs) h.1 (λ _. h.0) (rw m at n))
  ]

  last_alike-All :
      (r : Rotation) (p : ℕ) (s : Ptr) (xs : List Ptr)
      → ((t : Ptr) → Q t → IsReadable r t)
      → Q s
      → All Q xs
      → (t : Ptr) × (last_alike r p s xs ≡ some t) × Q t
  unfolding last_alike
  last_alike-All r p s [] f q h = (s, refl, q)
  last_alike-All r p s (n ∷ xs) f q h =
      let (t, e, qt) = last_alike-All r p n xs f h.0 h.1 in
      let pn = readable_priority r n (f n h.0) in
      elim (Bool-cases (rank_of r n == p)) [
        | inl y ↦ (t, rw (pn, y) e, qt)
        | inr m ↦ (s, rw (pn, m), q)
      ]

  wrap_back-All :
      (r : Rotation) (f : Ptr) (xs : List Ptr)
      → ((t : Ptr) → Q t → IsReadable r t)
      → All Q (f ∷ xs)
      → (t : Ptr) × (wrap_back r (f ∷ xs) ≡ some t) × Q t
  unfolding wrap_back
  wrap_back-All r f [] g h = (f, refl, h.0)
  wrap_back-All r f (n ∷ xs) g h =
      let (t, e, q) = last_alike-All r (rank_of r f) f (n ∷ xs) g h.0 h.1 in
      (t, rw (readable_priority r f (g f h.0)) e, q)

wrap_back-Target :
    (r : Rotation) (xs : List Ptr) (o : Ptr)
    → All (Target r xs) xs
    → Mem o xs
    → (t : Ptr) × (wrap_back r xs ≡ some t) × Target r xs t
wrap_back-Target r [] o h m = absurd (not-mem-nil m)
wrap_back-Target r (x ∷ xs) o h m = wrap_back-All (Target r (x ∷ xs)) r x xs (λ t q. q.1) h

-- `screenlist_goto_prev` from a well-formed state with a current screen goes to a screen of the
-- list and leaves a well-formed state.
pub goto_prev-WellFormed :
    (r : Rotation)
    → WellFormed r
    → (r.current_screen == null) ≡ false
    → (r' : Rotation) × (screenlist_goto_prev r ≡ some (true, r')) × WellFormed r'
unfolding screenlist_goto_prev
goto_prev-WellFormed r w ne =
    let all = All-Target r r.screenlist w.readable in
    let s = prev_before r.current_screen null r.screenlist in
    let m = w.listed (ground (arith, ne)) in
    let (t, go, (mt, (x, at))) : (t : Ptr) × ((if s == null
            then wrap_back r r.screenlist
            else some s)
          ≡ some t)
        × Target r r.screenlist t =
      elim (Bool-cases (s == null)) [
        | inl z ↦ rw z (wrap_back-Target r r.screenlist r.current_screen all m)
        | inr n ↦ rw n (
          s,
          refl,
          prev_before-All (Target r r.screenlist) r.current_screen null r.screenlist all (λ e. cc)
              n,
        )
      ] in
    let (r', sw, w', _, _, _) = switched-WellFormed t r w.readable w.in_touch mt (x, at) in
    (r', rw (ne, go, sw), w')
