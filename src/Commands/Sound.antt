-- ===== src/Commands/Sound.antt =====
-- What the commands of server/commands keep of the screens of LCDd.
use lcdproc.Prelude.{
  ◌≡◌, ◌≢◌, refl, sym, ◌∙◌, ap, some, List, [], ◌∷◌, ◌++◌, ◌==◌, Bool-cases, inl, inr, arith, All,
  All-append, All-mono,
}
use lcdproc.ScreenList.{Ptr, Screen, Rotation, get_screen, erase}
use lcdproc.ScreenList.Removal.{All-erase}
use lcdproc.ScreenList.Top.{IsReadable, WellFormed}

-- No screen is in the list twice.
abbrev pub NoRepeat : List Ptr → Type 0
NoRepeat [] = Unit
NoRepeat (x ∷ xs) = All (λ y. y ≢ x) xs × NoRepeat xs

-- The screen can be read and names the client as its own.
abbrev pub OwnedBy : Rotation → Ptr → Ptr → Type 0
OwnedBy r c u = (y : Screen) × (get_screen r u ≡ some y) × (y.client ≡ c)

-- The screens can be shown, those of a client are its own, and no list has a screen twice.
pub record Sound (r : Rotation) : Type 0 where
  pub well_formed : WellFormed r
  pub once : NoRepeat r.screenlist
  pub owned : (c : Ptr) → All (OwnedBy r c) (r.client_screens c)
  pub each_once : (c : Ptr) → NoRepeat (r.client_screens c)

pub Sound-IsReadable :
    {r : Rotation} → Sound r → (c : Ptr) → All (IsReadable r) (r.client_screens c)
Sound-IsReadable {r} s c =
    All-mono (OwnedBy r c) (IsReadable r) (r.client_screens c) (λ u (y, e, _). (y, e)) (s.owned c)

pub NoRepeat-push :
    (xs : List Ptr) (f : Ptr) → All (λ y. y ≢ f) xs → NoRepeat xs → NoRepeat (xs ++ f ∷ [])
NoRepeat-push [] f h n = (tt, tt)
NoRepeat-push (x ∷ xs) f h n =
    (All-append (λ y. y ≢ x) xs (f ∷ []) n.0 ((λ e. h.0 (sym e)), tt), NoRepeat-push xs f h.1 n.1)

module _ (s : Ptr) where
  pub NoRepeat-erase : (xs : List Ptr) → NoRepeat xs → NoRepeat (erase s xs).1
  unfolding erase
  NoRepeat-erase [] h = tt
  NoRepeat-erase (x ∷ xs) h = elim (Bool-cases (x == s)) [
    | inl y ↦ rw y h.1
    | inr n ↦ rw n (All-erase (λ y. y ≢ x) s xs h.0, NoRepeat-erase xs h.1)
  ]

  -- What has been taken out of a list without repetitions is no longer in it.
  pub erase-ne : (xs : List Ptr) → NoRepeat xs → All (λ y. y ≢ s) (erase s xs).1
  unfolding erase
  erase-ne [] h = tt
  erase-ne (x ∷ xs) h = elim (Bool-cases (x == s)) [
    | inl y ↦
        let same : x ≡ s = ground (arith, y) in
        rw y (All-mono (λ z. z ≢ x) (λ z. z ≢ s) xs (λ z ne e. ne (e ∙ sym same)) h.0)
    | inr n ↦ rw n ((λ e. ground (arith, n, e)), erase-ne xs h.1)
  ]

  pub erase_absent : (xs : List Ptr) → All (λ y. y ≢ s) xs → (erase s xs).1 ≡ xs
  unfolding erase
  erase_absent [] h = refl
  erase_absent (x ∷ xs) h = elim (Bool-cases (x == s)) [
    | inl y ↦ absurd (h.0 (ground (arith, y)))
    | inr n ↦ rw n (ap (◌∷◌ x) (erase_absent xs h.1))
  ]
