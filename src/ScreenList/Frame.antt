-- ===== src/ScreenList/Frame.antt =====
-- One run of `screenlist_process` of server/screenlist.c, from the sort to the screen that is
-- shown.
use mathlib.Core.List.{Mem, not-mem-nil}
use lcdproc.Prelude.{
  ◌+◌, ◌≤◌, ◌≡◌, refl, sym, ◌∙◌, ap, subst, false, Option, some, List, [], ◌∷◌, ltb, leb, ◌==◌,
  ◌&&◌, if◌then◌else◌, ◌>>=◌, Bool-cases, inl, inr, arith, All, List-cases,
}
use lcdproc.LinkedList.Sequence.Order.{Descending}
use lcdproc.ScreenList.{
  Ptr, null, Screen, Rotation, get_screen, priority_of, first, screenlist_switch,
  screenlist_goto_next,
}
use lcdproc.ScreenList.Process.{rank_of, expire, rotates, screenlist_process}
use lcdproc.ScreenList.Notices.{InTouch}
use lcdproc.ScreenList.Top.{
  IsReadable, WellFormed, Shows, Lasts, Ordered, sorted-Ordered, sort_screens_lem, expire-Lasts,
  readable_priority, readable_not_null,
}
use lcdproc.ScreenList.Going.{
  Settles, same_memory, switch-Settles, first-Settles, next_after-Mem, next_after-All, Settles-bind,
  goto_next-target, All-trans,
}

goto_next-Settles :
    (r : Rotation) (f : Ptr) (fs : List Ptr)
    → r.screenlist ≡ f ∷ fs
    → Ordered r
    → (r.current_screen == null) ≡ false
    → IsReadable r r.current_screen
    → All (λ u. rank_of r u ≤ rank_of r r.current_screen) r.screenlist
    → Settles (do (_, r2) ← screenlist_goto_next r; some r2)
goto_next-Settles r f fs e o ne at top =
    let (s, go, which) = goto_next-target r ne o.well_formed.readable at in
    rw go (
      Settles-bind (screenlist_switch s r) (elim which [
        | inl h ↦
            subst (λ u. Settles (screenlist_switch u r)) (sym (h ∙ ap first e))
              (first-Settles r f fs e o)
        | inr (n, h, le) ↦
            let n' = ap (λ u. u == null) (sym h) ∙ n in
            switch-Settles s r o.well_formed
              (subst (λ u. Mem u r.screenlist) (sym h)
                (next_after-Mem r.current_screen r.screenlist n'))
              (subst (IsReadable r) (sym h) (
                next_after-All (IsReadable r) r.current_screen r.screenlist o.well_formed.readable
                  n'))
              (All-trans (rank_of r) r.current_screen s r.screenlist le top)
      ]))

-- What follows the countdown, when there is a current screen.
abbrev chosen : Rotation → Screen → Rotation → Option Rotation
chosen r x r1 = do
  p ← priority_of r1 (first r.screenlist)
  q ← priority_of r1 r.current_screen
  if ltb q p
      then screenlist_switch (first r.screenlist) r1
      else if r1.autorotate && leb (r1.start_time + x.duration) r1.timer && rotates q
      then (do (_, r2) ← screenlist_goto_next r1; some r2)
      else some r1

chosen-Settles :
    (r : Rotation) (x : Screen) (r1 : Rotation) (f : Ptr) (fs : List Ptr)
    → r1.current_screen ≡ r.current_screen
    → r1.screenlist ≡ r.screenlist
    → r.screenlist ≡ f ∷ fs
    → Ordered r1
    → (r.current_screen == null) ≡ false
    → IsReadable r1 r.current_screen
    → Settles (chosen r x r1)
chosen-Settles r x r1 f fs c l e o ne at =
    let e1 = l ∙ e in
    let all = subst (All (IsReadable r1)) e1 o.well_formed.readable in
    let p = readable_priority r1 f all.0 in
    let q = readable_priority r1 r.current_screen at in
    let d = subst (Descending (rank_of r1)) e1 o.order in
    rw (e, p, q)
      (elim (Bool-cases (ltb (rank_of r1 r.current_screen) (rank_of r1 f))) [
        | inl y ↦ rw y (first-Settles r1 f fs e1 o)
        | inr n ↦
            let top0 : All (λ u. rank_of r1 u ≤ rank_of r1 r.current_screen) (f ∷ fs) = (
              ground (arith, n),
              All-trans (rank_of r1) f r.current_screen fs (ground (arith, n)) d.0,
            ) in
            let top =
              subst (λ s. All (λ u. rank_of r1 u ≤ rank_of r1 s) r1.screenlist) (sym c)
                (subst (All (λ u. rank_of r1 u ≤ rank_of r1 r.current_screen)) (sym e1) top0) in
            rw n
              (elim (Bool-cases (
                r1.autorotate
                && leb (r1.start_time + x.duration) r1.timer
                && rotates (rank_of r1 r.current_screen))) [
                  | inl y ↦ rw y (
                      goto_next-Settles r1 f fs e1 o (ap (λ s. s == null) c ∙ ne)
                        (subst (IsReadable r1) (sym c) at) top)
                  | inr m ↦ rw m (r1, refl, o.well_formed, top)
                ])
      ])

pub current-IsReadable :
    (r : Rotation) → InTouch r → (r.current_screen == null) ≡ false → IsReadable r r.current_screen
current-IsReadable r i n = i.readable (ground (arith, n))

empty-Settles : (r : Rotation) → WellFormed r → (r.screenlist ≡ []) → Settles (some r)
empty-Settles r w e =
    (r, refl, w, subst (All (λ u. rank_of r u ≤ rank_of r r.current_screen)) (sym e) tt)

-- Behind the sort: a list in order, with the current screen in it.
sorted-Settles :
    (r : Rotation)
    → Ordered r
    → ((x : Screen) → get_screen r r.current_screen ≡ some x → Lasts x.timeout)
    → Settles (
        if r.current_screen == null
        then (if first r.screenlist == null
            then some r
            else screenlist_switch (first r.screenlist) r)
        else (do
          x ← get_screen r r.current_screen
          r1 ← expire r.current_screen x r
          chosen r x r1))
sorted-Settles r o lasts = elim (Bool-cases (r.current_screen == null)) [
  | inl z ↦ elim (List-cases r.screenlist) [
    | inl e ↦ rw (z, ap first e) (empty-Settles r o.well_formed e)
    | inr (f, fs, e) ↦
        let n = readable_not_null r f (subst (All (IsReadable r)) e o.well_formed.readable).0 in
        rw (z, ap first e, n) (first-Settles r f fs e o)
  ]
  | inr n ↦ elim (List-cases r.screenlist) [
    | inl e ↦
        absurd
          (not-mem-nil (subst (Mem r.current_screen) e (o.well_formed.listed (ground (arith, n)))))
    | inr (f, fs, e) ↦
        let (x, at) = current-IsReadable r o.well_formed.in_touch n in
        let (r1, go, o1, at1, c, l) =
          expire-Lasts r r.current_screen x x.timeout at refl (lasts x at) o in
        rw (n, at, go) (chosen-Settles r x r1 f fs c l e o1 n at1)
  ]
]

-- From a well-formed state whose current screen does not expire in this frame,
-- screenlist_process ends regularly, leaves a well-formed state, and no screen of the list has a
-- higher priority than the one it shows.
pub process-Settles :
    (r : Rotation)
    → WellFormed r
    → ((x : Screen) → get_screen r r.current_screen ≡ some x → Lasts x.timeout)
    → (r' : Rotation) × (screenlist_process r ≡ some r') × WellFormed r' × Shows r'
unfolding screenlist_process
process-Settles r w lasts =
    let (xs, s, go) = sort_screens_lem r w.readable in
    rw go (
      sorted-Settles (record r { screenlist = xs }) (sorted-Ordered r xs w s)
        (λ x e.
          lasts x (sym (same_memory r (record r { screenlist = xs }) r.current_screen refl) ∙ e)))
