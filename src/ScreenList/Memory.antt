-- ===== src/ScreenList/Memory.antt =====
-- What `screenlist_switch`, `screenlist_goto_next` and `screenlist_remove` of server/screenlist.c
-- leave alone: the memory of the screens, and the lists of the clients.
use lcdproc.Prelude.{
  ◌≡◌, refl, ◌∙◌, subst, Bool, true, not, some, ◌==◌, ltb, if◌then◌else◌, ◌>>=◌, some_inj,
  >>=-eq-some, Bool-cases, inl, inr,
}
use lcdproc.ScreenList.{
  Ptr, null, Rotation, get_screen, priority_of, take_back, tell, listen, first, next_after,
  erase_screen, screenlist_switch, prev_before, wrap_back, screenlist_goto_prev,
  screenlist_goto_next, screenlist_remove,
}

-- The screens, the lists of the clients and the list of screens are the same.
abbrev pub Steady : Rotation → Rotation → Type 0
Steady r r' =
    (r'.screens ≡ r.screens)
    × (r'.client_screens ≡ r.client_screens)
    × (r'.screenlist ≡ r.screenlist)

abbrev pub Unchanged : Rotation → Rotation → Type 0
Unchanged r r' = (r'.screens ≡ r.screens) × (r'.client_screens ≡ r.client_screens)

pub by_equation {ℓ} : {A : Type ℓ} (P : A → Type 0) {x y : A} → some x ≡ some y → P x → P y
by_equation P e p = subst P (some_inj e) p

pub switch-Steady : (s : Ptr) (r r' : Rotation) → screenlist_switch s r ≡ some r' → Steady r r'
unfolding screenlist_switch
switch-Steady s r r' e = elim (Bool-cases (s == null)) [
  | inl y ↦ by_equation (Steady r) (rw y at e) (refl, refl, refl)
  | inr n ↦ elim (Bool-cases (s == r.current_screen)) [
    | inl y ↦ by_equation (Steady r) (rw (n, y) at e) (refl, refl, refl)
    | inr m ↦
        let (log, _, e1) =
          >>=-eq-some (take_back r)
            (λ sent. get_screen r s >>= λ new.
              some (record r {
                current_screen = s;
                start_time = r.timer;
                sent = tell listen new sent;
              }))
            (rw (n, m) at e) in
        let (new, _, e2) =
          >>=-eq-some (get_screen r s)
            (λ new.
              some
                (record r { current_screen = s; start_time = r.timer; sent = tell listen new log }))
            e1 in
        by_equation (Steady r) e2 (refl, refl, refl)
  ]
]

pub goto_next-Steady :
    (r : Rotation) (b : Bool) (r' : Rotation) → screenlist_goto_next r ≡ some (b, r') → Steady r r'
unfolding screenlist_goto_next
goto_next-Steady r b r' e = elim (Bool-cases (r.current_screen == null)) [
  | inl y ↦ by_equation (λ q. Steady r q.1) (rw y at e) (refl, refl, refl)
  | inr n ↦
      let s = next_after r.current_screen r.screenlist in
      let (back, _, e1) =
        >>=-eq-some
          (if s == null
            then some true
            else (do p ← priority_of r s; q ← priority_of r r.current_screen; some (ltb p q)))
          (λ back.
            screenlist_switch (if back then first r.screenlist else s) r >>= λ r2. some (true, r2))
          (rw n at e) in
      let (r2, a, e2) =
        >>=-eq-some (screenlist_switch (if back then first r.screenlist else s) r)
          (λ r2. some (true, r2)) e1 in
      by_equation (λ q. Steady r q.1) e2
        (switch-Steady (if back then first r.screenlist else s) r r2 a)
]

pub goto_prev-Steady :
    (r : Rotation) (b : Bool) (r' : Rotation) → screenlist_goto_prev r ≡ some (b, r') → Steady r r'
unfolding screenlist_goto_prev
goto_prev-Steady r b r' e = elim (Bool-cases (r.current_screen == null)) [
  | inl y ↦ by_equation (λ q. Steady r q.1) (rw y at e) (refl, refl, refl)
  | inr n ↦
      let s = prev_before r.current_screen null r.screenlist in
      let (t, _, e1) =
        >>=-eq-some (if s == null then wrap_back r r.screenlist else some s)
          (λ t. screenlist_switch t r >>= λ r2. some (true, r2)) (rw n at e) in
      let (r2, a, e2) = >>=-eq-some (screenlist_switch t r) (λ r2. some (true, r2)) e1 in
      by_equation (λ q. Steady r q.1) e2 (switch-Steady t r r2 a)
]

pub screenlist_remove-Unchanged :
    (s : Ptr) (r : Rotation) (b : Bool) (r' : Rotation)
    → screenlist_remove s r ≡ some (b, r')
    → Unchanged r r'
unfolding screenlist_remove
screenlist_remove-Unchanged s r b r' e = elim (Bool-cases (s == r.current_screen)) [
  | inr n ↦ by_equation (λ q. Unchanged r q.1) (rw n at e) (refl, refl)
  | inl y ↦
      let (q1, a, e1) =
        >>=-eq-some (screenlist_goto_next r)
          (λ (q : Bool × Rotation).
            if not (s == q.1.current_screen)
            then some (erase_screen s q.1)
            else (screenlist_goto_next (erase_screen s q.1).1 >>= λ (q3 : Bool × Rotation).
                some ((erase_screen s q.1).0, q3.1)))
          (rw y at e) in
      let (k, l, _) = goto_next-Steady r q1.0 q1.1 a in
      elim (Bool-cases (s == q1.1.current_screen)) [
        | inr m ↦ by_equation (λ q. Unchanged r q.1) (rw m at e1) (k, l)
        | inl z ↦
            let (q3, a3, e3) =
              >>=-eq-some (screenlist_goto_next (erase_screen s q1.1).1)
                (λ (q3 : Bool × Rotation). some ((erase_screen s q1.1).0, q3.1)) (rw z at e1) in
            let (k3, l3, _) = goto_next-Steady (erase_screen s q1.1).1 q3.0 q3.1 a3 in
            by_equation (λ q. Unchanged r q.1) e3 (k3 ∙ k, l3 ∙ l)
      ]
]
