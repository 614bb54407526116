-- ===== src/System/Leaving.antt =====
-- A client leaves: the loop of `client_destroy` of server/client.c over the screens of the client.
use lcdproc.Prelude.{
  ◌≡◌, ◌≢◌, refl, ◌∙◌, ap, subst, fun_ext, true, some, List, [], ◌∷◌, ◌==◌, if◌then◌else◌,
  Bool-cases, inl, inr, arith, All,
}
use lcdproc.ScreenList.{Ptr, null, Rotation, get_screen, erase}
use lcdproc.ScreenList.Process.{screen_destroy}
use lcdproc.ScreenList.Top.{WellFormed, readable_not_null}
use lcdproc.ScreenList.Removal.{screenlist_remove-WellFormed}
use lcdproc.ScreenList.Memory.{screenlist_remove-Unchanged}
use lcdproc.Commands.Sound.{OwnedBy}
use lcdproc.Commands.Deleting.{freed, client_erased}
use lcdproc.Clients.Lifetime.{with_list, destroy_screens}
use lcdproc.System.Housed.{Housed}
use lcdproc.System.Destroyed.{away, freed-Housed}

plain-WellFormed :
    (c : Ptr) (xs : List Ptr) (r : Rotation) → WellFormed (with_list c xs r) → WellFormed r
unfolding get_screen
plain-WellFormed c xs r w = record {
  readable = w.readable;
  listed = w.listed;
  in_touch = record {
    in_turn = w.in_touch.in_turn;
    readable = w.in_touch.readable;
    current_is = w.in_touch.current_is;
  };
}

listed-WellFormed :
    (c : Ptr) (xs : List Ptr) (r : Rotation) → WellFormed r → WellFormed (with_list c xs r)
unfolding get_screen
listed-WellFormed c xs r w = record {
  readable = w.readable;
  listed = w.listed;
  in_touch = record {
    in_turn = w.in_touch.in_turn;
    readable = w.in_touch.readable;
    current_is = w.in_touch.current_is;
  };
}

-- The first screen of a client is the client's.
first-OwnedBy :
    (c p : Ptr) (xs : List Ptr) (r : Rotation)
    → Housed (with_list c (p ∷ xs) r)
    → OwnedBy (with_list c (p ∷ xs) r) c p
first-OwnedBy c p xs r h =
    let self : (c == c) ≡ true = ground arith in
    let all : All (OwnedBy (with_list c (p ∷ xs) r) c)
        (if c == c then p ∷ xs else r.client_screens c) =
      h.sound.owned c in
    (subst
      (λ b. All (OwnedBy (with_list c (p ∷ xs) r) c) (if b then p ∷ xs else r.client_screens c))
      self all).0

dropped :
    (c p : Ptr) (xs : List Ptr) (r r1 : Rotation)
    → r1.client_screens ≡ r.client_screens
    → (with_list c xs r1).client_screens
      ≡ (client_erased c p (with_list c (p ∷ xs) r)).client_screens
unfolding erase
dropped c p xs r r1 e = fun_ext (λ d. elim (Bool-cases (d == c)) [
  | inl y ↦ let self : (p == p) ≡ true = ground arith in rw (y, self) refl
  | inr n ↦ rw n (ap (λ f. f d) e)
])

module _ (c : Ptr) (nc : c ≢ null) where
  destroy_first :
      (p : Ptr) (xs : List Ptr) (r : Rotation)
      → Housed (with_list c (p ∷ xs) r)
      → (r1 : Rotation) × (screen_destroy p r ≡ some r1)
        × Housed (with_list c xs r1)
        × (r1.client_screens ≡ r.client_screens)
  unfolding screen_destroy get_screen
  destroy_first p xs r h =
      let v = with_list c (p ∷ xs) r in
      let own = first-OwnedBy c p xs r h in
      let (y, at, _) = own in
      let n = readable_not_null v p (y, at) in
      let wr = plain-WellFormed c (p ∷ xs) r h.sound.well_formed in
      let (r1, go, list, w) =
        screenlist_remove-WellFormed p h.own.0 r wr (ground (arith, n)) (away c p v h nc own)
          h.own.1 in
      let (mem, lists) = screenlist_remove-Unchanged p r _ r1 go in
      (
        freed p r1,
        rw (at, go) refl,
        freed-Housed c p v h nc own (with_list c xs r1) (listed-WellFormed c xs r1 w) list mem
            (dropped c p xs r r1 lists),
        lists,
      )

  pub destroy_screens-Housed :
      (xs : List Ptr) (r : Rotation)
      → Housed (with_list c xs r)
      → (r' : Rotation) × (destroy_screens xs r ≡ some r')
        × Housed (with_list c [] r')
        × (r'.client_screens ≡ r.client_screens)
  unfolding destroy_screens
  destroy_screens-Housed [] r h = (r, refl, h, refl)
  destroy_screens-Housed (p ∷ xs) r h =
      let (r1, go, h1, same) = destroy_first p xs r h in
      let (r2, go2, h2, same2) = destroy_screens-Housed xs r1 h1 in
      (r2, rw go go2, h2, same2 ∙ same)
