-- ===== src/ScreenList/Top.antt =====
-- `screenlist_process` of server/screenlist.c when no screen expires.
use mathlib.Core.List.{Mem, Perm}
use mathlib.Core.List.Perm
use lcdproc.Prelude.{
  ℕ, ◌≤◌, ◌<◌, ◌≡◌, ◌≢◌, refl, sym, ◌∙◌, subst, fun_ext, true, false, some, List, [], ◌∷◌, ltb,
  ◌==◌, Bool-cases, inl, inr, arith, length, All, All-mono,
}
use lcdproc.Prelude.Int.{ℤ, pos, negsuc, ◌-ℤ◌}
use lcdproc.LinkedList.Sequence.{sort, sort-perm, better}
use lcdproc.LinkedList.Sequence.Order.{sort-All, sort-Descending, Descending}
use lcdproc.ScreenList.{Ptr, null, Screen, Rotation, get_screen, priority_of}
use lcdproc.ScreenList.Process.{
  sort_screens, rank_of, compare_priority, all_readable, set_timeout, count_down, expire,
}
use lcdproc.ScreenList.Notices.{InTouch, announced}

abbrev pub IsReadable : Rotation → Ptr → Type 0
IsReadable r s = (x : Screen) × (get_screen r s ≡ some x)

pub record WellFormed (r : Rotation) : Type 0 where
  pub readable : All (IsReadable r) r.screenlist
  pub listed : r.current_screen ≢ null → Mem r.current_screen r.screenlist
  pub in_touch : InTouch r

-- No screen of the list has a higher priority than the current one.
abbrev pub Shows : Rotation → Type 0
Shows r = All (λ s. rank_of r s ≤ rank_of r r.current_screen) r.screenlist

-- The expiry time is not set, or more than one frame away.
abbrev pub Lasts : ℤ → Type 0
Lasts (pos n) = 1 < n
Lasts (negsuc n) = n ≡ 0

pub readable_priority :
    (r : Rotation) (s : Ptr) → IsReadable r s → priority_of r s ≡ some (rank_of r s)
unfolding rank_of priority_of
readable_priority r s (x, e) = ground (arith, e)

pub readable_not_null : (r : Rotation) (s : Ptr) → IsReadable r s → (s == null) ≡ false
unfolding get_screen
readable_not_null r s (x, e) = ground (arith, e)

by_rank :
    (r : Rotation) (a b : Ptr)
    → IsReadable r a
    → IsReadable r b
    → better (compare_priority r) a b ≡ ltb (rank_of r a) (rank_of r b)
unfolding compare_priority ◌-ℤ◌
by_rank r a b ra rb = ground (arith, readable_not_null r a ra, readable_not_null r b rb)

all_readable_lem : (r : Rotation) (xs : List Ptr) → All (IsReadable r) xs → all_readable r xs ≡ true
unfolding all_readable
all_readable_lem r [] h = refl
all_readable_lem r (x ∷ xs) h = ground (arith, readable_priority r x h.0, all_readable_lem r xs h.1)

-- What the sort leaves: `xs` has the same screens, the highest priority first.
pub record IsSorted (r : Rotation) (xs : List Ptr) : Type 0 where
  pub readable : All (IsReadable r) xs
  pub order : Descending (rank_of r) xs
  pub same : Perm xs r.screenlist

Descending-short : (key : Ptr → ℕ) (xs : List Ptr) → length xs < 2 → Descending key xs
Descending-short key [] h = tt
Descending-short key (x ∷ []) h = (tt, tt)
Descending-short key (x ∷ y ∷ xs) h = absurd (omega arith)

pub sort_screens_lem :
    (r : Rotation)
    → All (IsReadable r) r.screenlist
    → (xs : List Ptr) × IsSorted r xs × (sort_screens r ≡ some (record r { screenlist = xs }))
unfolding sort_screens
sort_screens_lem r h = elim (Bool-cases (ltb (length r.screenlist) 2)) [
  | inl y ↦ (
    r.screenlist,
    record {
      readable = h;
      order = Descending-short (rank_of r) r.screenlist (ground (arith, y));
      same = Perm.refl r.screenlist;
    },
    rw y,
  )
  | inr n ↦ (
    sort (compare_priority r) r.screenlist,
    record {
      readable = sort-All (compare_priority r) (IsReadable r) r.screenlist h;
      order =
          sort-Descending (compare_priority r) (rank_of r) (IsReadable r) (by_rank r) r.screenlist
            h;
      same = sort-perm (compare_priority r) r.screenlist;
    },
    rw (n, all_readable_lem r r.screenlist h),
  )
]

-- The countdown changes no screen's priority and no screen's name.
set_timeout-IsReadable :
    (r : Rotation) (s : Ptr) (x : Screen) (t : ℤ) (u : Ptr)
    → get_screen r s ≡ some x
    → IsReadable r u
    → IsReadable (set_timeout s x t r) u
unfolding get_screen
set_timeout-IsReadable r s x t u e (y, f) = elim (Bool-cases (u == s)) [
  | inl z ↦ (record x { timeout = t }, ground (arith, z))
  | inr n ↦ (y, ground (arith, n))
]

set_timeout-rank :
    (r : Rotation) (s : Ptr) (x : Screen) (t : ℤ) (u : Ptr)
    → get_screen r s ≡ some x
    → rank_of (set_timeout s x t r) u ≡ rank_of r u
unfolding get_screen rank_of priority_of
set_timeout-rank r s x t u e = ground arith

set_timeout-announced :
    (r : Rotation) (s : Ptr) (x : Screen) (t : ℤ) (u : Ptr)
    → get_screen r s ≡ some x
    → announced (get_screen (set_timeout s x t r) u) ≡ announced (get_screen r u)
unfolding get_screen
set_timeout-announced r s x t u e = ground arith

set_timeout-InTouch :
    (r : Rotation) (s : Ptr) (x : Screen) (t : ℤ)
    → get_screen r s ≡ some x
    → InTouch r
    → InTouch (set_timeout s x t r)
set_timeout-InTouch r s x t e i = record {
  in_turn = i.in_turn;
  readable = λ ne. set_timeout-IsReadable r s x t r.current_screen e (i.readable ne);
  current_is = i.current_is ∙ sym (set_timeout-announced r s x t r.current_screen e);
}

-- A sorted list with what the rest of the round relies on.
pub record Ordered (r : Rotation) : Type 0 where
  pub well_formed : WellFormed r
  pub order : Descending (rank_of r) r.screenlist

pub sorted-Ordered :
    (r : Rotation) (xs : List Ptr)
    → WellFormed r
    → IsSorted r xs
    → Ordered (record r { screenlist = xs })
unfolding get_screen rank_of priority_of
sorted-Ordered r xs w s = record {
  well_formed = record {
    readable = s.readable;
    listed = λ ne. (Perm.mem_iff s.same).1 (w.listed ne);
    in_touch = record {
      in_turn = w.in_touch.in_turn;
      readable = w.in_touch.readable;
      current_is = w.in_touch.current_is;
    };
  };
  order = s.order;
}

set_timeout-Ordered :
    (r : Rotation) (s : Ptr) (x : Screen) (t : ℤ)
    → get_screen r s ≡ some x
    → Ordered r
    → Ordered (set_timeout s x t r)
set_timeout-Ordered r s x t e o = record {
  well_formed = record {
    readable =
        All-mono (IsReadable r) (IsReadable (set_timeout s x t r)) r.screenlist
          (λ u. set_timeout-IsReadable r s x t u e) o.well_formed.readable;
    listed = o.well_formed.listed;
    in_touch = set_timeout-InTouch r s x t e o.well_formed.in_touch;
  };
  order =
      subst (λ key. Descending key r.screenlist) (sym (fun_ext (λ u. set_timeout-rank r s x t u e)))
        o.order;
}

pub expire-Lasts :
    (r : Rotation) (s : Ptr) (x : Screen) (t : ℤ)
    → get_screen r s ≡ some x
    → x.timeout ≡ t
    → Lasts t
    → Ordered r
    → (r' : Rotation) × (expire s x r ≡ some r')
      × Ordered r'
      × IsReadable r' s
      × (r'.current_screen ≡ r.current_screen)
      × (r'.screenlist ≡ r.screenlist)
unfolding expire count_down ◌-ℤ◌
expire-Lasts r s x (pos n) e f h o = (
  set_timeout s x (pos n -ℤ pos 1) r,
  ground (arith, f),
  set_timeout-Ordered r s x (pos n -ℤ pos 1) e o,
  set_timeout-IsReadable r s x (pos n -ℤ pos 1) s e (x, e),
  refl,
  refl,
)
expire-Lasts r s x (negsuc n) e f h o = (r, ground (arith, f), o, (x, e), refl, refl)
