-- ===== src/System/Sorted.antt =====
-- The sort at the start of `screenlist_process` of server/screenlist.c, for the whole server.
use mathlib.Core.List.{Mem, Perm, Nodup, Nodup-nil, Nodup-cons, mem-cons_self, mem-cons_of_mem}
use mathlib.Core.List.Perm
use lcdproc.Prelude.{
  ◌≡◌, ◌≢◌, refl, sym, subst, some, List, [], ◌∷◌, length, ltb, Bool-cases, ◌⊎◌, inl, inr, arith,
  All, some_inj,
}
use lcdproc.LinkedList.Sequence.{sort, sort-perm}
use lcdproc.LinkedList.Sequence.Order.{sort-All}
use lcdproc.ScreenList.{Ptr, Rotation, get_screen}
use lcdproc.ScreenList.Process.{compare_priority, all_readable, sort_screens}
use lcdproc.ScreenList.Top.{IsReadable, WellFormed}
use lcdproc.Commands.Sound.{NoRepeat}
use lcdproc.Commands.Deleting.{absent}
use lcdproc.System.Housed.{Belongs, Housed}

NoRepeat-Nodup : (xs : List Ptr) → NoRepeat xs → Nodup xs
NoRepeat-Nodup [] h = Nodup-nil
NoRepeat-Nodup (x ∷ xs) h = Nodup-cons.1 ((λ m. absent x x xs m h.0 refl), NoRepeat-Nodup xs h.1)

ne-All : (x : Ptr) (xs : List Ptr) → ¬ Mem x xs → All (λ y. y ≢ x) xs
ne-All x [] h = tt
ne-All x (y ∷ ys) h = (
  (λ e. h (subst (λ z. Mem z (y ∷ ys)) e mem-cons_self)),
  ne-All x ys (λ m. h (mem-cons_of_mem y m)),
)

Nodup-NoRepeat : (xs : List Ptr) → Nodup xs → NoRepeat xs
Nodup-NoRepeat [] h = tt
Nodup-NoRepeat (x ∷ xs) h = let (n, k) = Nodup-cons.0 h in (ne-All x xs n, Nodup-NoRepeat xs k)

-- The list that the sort leaves.
sort_screens_list :
    (r r' : Rotation)
    → sort_screens r ≡ some r'
    → (xs : List Ptr) × (record r { screenlist = xs } ≡ r')
      × ((xs ≡ r.screenlist) ⊎ (xs ≡ sort (compare_priority r) r.screenlist))
unfolding sort_screens
sort_screens_list r r' e = elim (Bool-cases (ltb (length r.screenlist) 2)) [
  | inl y ↦ (r.screenlist, some_inj (rw y at e), inl refl)
  | inr n ↦ elim (Bool-cases (all_readable r r.screenlist)) [
    | inl y ↦ (sort (compare_priority r) r.screenlist, some_inj (rw (n, y) at e), inr refl)
    | inr m ↦ absurd (ground (arith, n, m, e))
  ]
]

-- A list with the same screens in another order.
pub record Reordered (xs ys : List Ptr) : Type 1 where
  pub same : Perm xs ys
  pub all : (P : Ptr → Type 0) → All P ys → All P xs

sort-Reordered :
    (r : Rotation) (xs : List Ptr)
    → ((xs ≡ r.screenlist) ⊎ (xs ≡ sort (compare_priority r) r.screenlist))
    → Reordered xs r.screenlist
sort-Reordered r xs (inl e) = record {
  same = subst (λ ys. Perm ys r.screenlist) (sym e) (Perm.refl r.screenlist);
  all = λ P h. subst (All P) (sym e) h;
}
sort-Reordered r xs (inr e) = record {
  same = subst (λ ys. Perm ys r.screenlist) (sym e) (sort-perm (compare_priority r) r.screenlist);
  all = λ P h. subst (All P) (sym e) (sort-All (compare_priority r) P r.screenlist h);
}

Reordered-WellFormed :
    (r : Rotation) (xs : List Ptr)
    → Reordered xs r.screenlist
    → WellFormed r
    → WellFormed (record r { screenlist = xs })
unfolding get_screen
Reordered-WellFormed r xs p w = record {
  readable = p.all (IsReadable r) w.readable;
  listed = λ ne. (Perm.mem_iff p.same).1 (w.listed ne);
  in_touch = record {
    in_turn = w.in_touch.in_turn;
    readable = w.in_touch.readable;
    current_is = w.in_touch.current_is;
  };
}

Reordered-Housed :
    (r : Rotation) (xs : List Ptr)
    → Reordered xs r.screenlist
    → Housed r
    → Housed (record r { screenlist = xs })
unfolding get_screen
Reordered-Housed r xs p h = record {
  sound = record {
    well_formed = Reordered-WellFormed r xs p h.sound.well_formed;
    once =
        Nodup-NoRepeat xs
          (Perm.nodup (Perm.symm p.same) (NoRepeat-Nodup r.screenlist h.sound.once));
    owned = h.sound.owned;
    each_once = h.sound.each_once;
  };
  belongs = p.all (Belongs r) h.belongs;
  own = let (u, m, at) = h.own in (u, (Perm.mem_iff p.same).1 m, at);
}

pub sort_screens-Housed : (r r' : Rotation) → sort_screens r ≡ some r' → Housed r → Housed r'
sort_screens-Housed r r' e h =
    let (xs, same, which) = sort_screens_list r r' e in
    subst Housed same (Reordered-Housed r xs (sort-Reordered r xs which) h)

pub sort_screens-lists :
    (r r' : Rotation) → sort_screens r ≡ some r' → r'.client_screens ≡ r.client_screens
unfolding sort_screens
sort_screens-lists r r' h = ground arith
