-- ===== src/ScreenList/Removal.antt =====
-- `screenlist_remove` and `screenlist_goto_next` of server/screenlist.c from a well-formed state.
use mathlib.Core.Logic.{∥∥₁_elim}
use mathlib.Core.List.{
  Mem, mem-cons_self, mem-cons_of_mem, not-mem-nil, eq-or-mem_of_mem-cons, Mem-prop,
}
use lcdproc.Prelude.{
  ◌≡◌, ◌≢◌, refl, sym, ◌∙◌, ap, subst, true, false, some, List, [], ◌∷◌, ◌==◌, Bool-cases, inl, inr,
  arith, All,
}
use lcdproc.ScreenList.{
  Ptr, null, Rotation, get_screen, first, erase, erase_screen, screenlist_goto_next,
  screenlist_remove,
}
use lcdproc.ScreenList.Notices.{InTouch}
use lcdproc.ScreenList.Top.{IsReadable, WellFormed}
use lcdproc.ScreenList.Going.{goto_next-target, next_after-Mem, next_after-All, switched-WellFormed}
use lcdproc.ScreenList.Frame.{current-IsReadable}

All-first :
    (P : Ptr → Type 0) (xs : List Ptr) (o : Ptr)
    → Mem o xs
    → All P xs
    → Mem (first xs) xs × P (first xs)
All-first P [] o m h = absurd (not-mem-nil m)
All-first P (x ∷ xs) o m h = (mem-cons_self, h.0)

-- `screenlist_goto_next` goes to a screen of the list, if there is one, and leaves a well-formed
-- state even when the current screen has been taken out of the list.
pub goto_next-WellFormed :
    (r : Rotation) (o : Ptr)
    → All (IsReadable r) r.screenlist
    → InTouch r
    → (r.current_screen == null) ≡ false
    → Mem o r.screenlist
    → (r' : Rotation) × (screenlist_goto_next r ≡ some (true, r'))
      × WellFormed r'
      × (r'.screenlist ≡ r.screenlist)
goto_next-WellFormed r o all i ne m =
    let (s, go, which) = goto_next-target r ne all (current-IsReadable r i ne) in
    let (ms, at) : Mem s r.screenlist × IsReadable r s = elim which [
      | inl h ↦
          subst (λ u. Mem u r.screenlist × IsReadable r u) (sym h)
            (All-first (IsReadable r) r.screenlist o m all)
      | inr (n, h, _) ↦
          let n' = ap (λ u. u == null) (sym h) ∙ n in
          subst (λ u. Mem u r.screenlist × IsReadable r u) (sym h)
            (
              next_after-Mem r.current_screen r.screenlist n',
              next_after-All (IsReadable r) r.current_screen r.screenlist all n',
            )
    ] in
    let (r', sw, w, _, list, _) = switched-WellFormed s r all i ms at in (r', go ∙ rw sw, w, list)

pub All-erase : (P : Ptr → Type 0) (s : Ptr) (xs : List Ptr) → All P xs → All P (erase s xs).1
unfolding erase
All-erase P s [] h = tt
All-erase P s (x ∷ xs) h = elim (Bool-cases (x == s)) [
  | inl y ↦ rw y h.1
  | inr n ↦ rw n (h.0, All-erase P s xs h.1)
]

pub Mem-erase : (o s : Ptr) (xs : List Ptr) → o ≢ s → Mem o xs → Mem o (erase s xs).1
unfolding erase
Mem-erase o s [] ne m = absurd (not-mem-nil m)
Mem-erase o s (x ∷ xs) ne m = elim (Bool-cases (x == s)) [
  | inl y ↦ rw y (
      ∥∥₁_elim (eq-or-mem_of_mem-cons m) Mem-prop
        (λ w. elim w [ inl e ↦ absurd (ne (ground (arith, y, e))) | inr k ↦ k ]))
  | inr n ↦ rw n (
      ∥∥₁_elim (eq-or-mem_of_mem-cons m) Mem-prop (λ w. elim w [
        | inl e ↦ subst (λ u. Mem o (u ∷ (erase s xs).1)) e mem-cons_self
        | inr k ↦ mem-cons_of_mem x (Mem-erase o s xs ne k)
      ]))
]

erase-InTouch : (r : Rotation) (xs : List Ptr) → InTouch r → InTouch (record r { screenlist = xs })
unfolding get_screen
erase-InTouch r xs i = record {
  in_turn = i.in_turn;
  readable = i.readable;
  current_is = i.current_is;
}

erase-All :
    (r : Rotation) (s : Ptr)
    → All (IsReadable r) r.screenlist
    → All (IsReadable (erase_screen s r).1) (erase s r.screenlist).1
unfolding get_screen
erase-All r s h = All-erase (IsReadable r) s r.screenlist h

erase_other :
    (s : Ptr) (r : Rotation)
    → WellFormed r
    → (s == r.current_screen) ≡ false
    → WellFormed (erase_screen s r).1
erase_other s r w n = record {
  readable = erase-All r s w.readable;
  listed = λ ne. Mem-erase r.current_screen s r.screenlist (ground (arith, n)) (w.listed ne);
  in_touch = erase-InTouch r (erase s r.screenlist).1 w.in_touch;
}

-- screenlist_remove from a well-formed state takes one occurrence of a screen out of the list,
-- if the list has another screen, and leaves a well-formed state, so the current screen is one
-- of those that are left.
pub screenlist_remove-WellFormed :
    (s o : Ptr) (r : Rotation)
    → WellFormed r
    → s ≢ null
    → o ≢ s
    → Mem o r.screenlist
    → (r' : Rotation) × (screenlist_remove s r ≡ some ((erase s r.screenlist).0, r'))
      × (r'.screenlist ≡ (erase s r.screenlist).1)
      × WellFormed r'
unfolding screenlist_remove
screenlist_remove-WellFormed s o r w nz ne m = elim (Bool-cases (s == r.current_screen)) [
  | inr n ↦ ((erase_screen s r).1, rw n, refl, erase_other s r w n)
  | inl y ↦
      let (r1, go, w1, list) =
        goto_next-WellFormed r o w.readable w.in_touch (ground (arith, y)) m in
      let found = ap (λ xs. (erase s xs).0) list in
      let kept = ap (λ xs. (erase s xs).1) list in
      elim (Bool-cases (s == r1.current_screen)) [
        | inr n ↦ ((erase_screen s r1).1, rw (y, go, n, found), kept, erase_other s r1 w1 n)
        | inl y1 ↦
            let r2 : Rotation = (erase_screen s r1).1 in
            let (r3, go3, w3, list3) =
              goto_next-WellFormed r2 o (erase-All r1 s w1.readable)
                (erase-InTouch r1 (erase s r1.screenlist).1 w1.in_touch) (ground (arith, y1))
                (Mem-erase o s r1.screenlist ne (subst (Mem o) (sym list) m)) in
            (r3, rw (y, go, y1, go3, found), list3 ∙ kept, w3)
      ]
]
