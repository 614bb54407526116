-- ===== src/System/Housed.antt =====
-- What LCDd keeps of its screens, besides what the commands rely on: every screen of the list has
-- an owner that knows it, and the server has one of its own.
use mathlib.Core.List.{Mem, mem-append_left, mem-append_right, mem-cons_self}
use lcdproc.Prelude.{
  ◌≡◌, refl, sym, ◌∙◌, subst, true, some, [], ◌∷◌, ◌==◌, Bool-cases, ◌⊎◌, inl, inr, arith, All,
  All-mono, All-append, Bytes,
}
use lcdproc.ScreenList.{Ptr, null, Screen, Rotation, get_screen}
use lcdproc.ScreenList.Memory.{Steady}
use lcdproc.ScreenList.Going.{same_memory}
use lcdproc.ScreenList.Top.{WellFormed}
use lcdproc.Commands.{Server, Setup}
use lcdproc.Commands.ScreenCommands.{store_screen}
use lcdproc.Commands.Sound.{NoRepeat, OwnedBy, Sound}
use lcdproc.Commands.Adding.{
  IsFree, with_screen, with_screen-new, with_screen-old, with_screen-Sound,
}
use lcdproc.Commands.Stored.{Same, stored-Sound}

-- A screen is the server's, or its client has it in its list.
abbrev pub Belongs : Rotation → Ptr → Type 0
Belongs r u =
    (x : Screen) × (get_screen r u ≡ some x)
    × ((x.client ≡ null) ⊎ Mem u (r.client_screens x.client))

abbrev pub ServerScreen : Rotation → Type 0
ServerScreen r =
    (p : Ptr) × Mem p r.screenlist × ((x : Screen) × (get_screen r p ≡ some x) × (x.client ≡ null))

pub record Housed (r : Rotation) : Type 0 where
  pub sound : Sound r
  pub belongs : All (Belongs r) r.screenlist
  pub own : ServerScreen r

-- A change of the current screen alone.
module _ (r r' : Rotation) (e : Steady r r') where
  steady-Belongs : (u : Ptr) → Belongs r u → Belongs r' u
  steady-Belongs u (x, at, o) = (
    x,
    same_memory r r' u e.0 ∙ at,
    subst (λ f. (x.client ≡ null) ⊎ Mem u (f x.client)) (sym e.1) o,
  )

  pub Steady-Housed : WellFormed r' → Housed r → Housed r'
  Steady-Housed w h = record {
    sound = record {
      well_formed = w;
      once = subst NoRepeat (sym e.2) h.sound.once;
      owned = λ c.
          subst (λ f. All (OwnedBy r' c) (f c)) (sym e.1)
            (All-mono (OwnedBy r c) (OwnedBy r' c) (r.client_screens c)
              (λ u (x, at, o). (x, same_memory r r' u e.0 ∙ at, o)) (h.sound.owned c));
      each_once = λ c. subst (λ f. NoRepeat (f c)) (sym e.1) (h.sound.each_once c);
    };
    belongs =
        subst (All (Belongs r')) (sym e.2)
          (All-mono (Belongs r) (Belongs r') r.screenlist steady-Belongs h.belongs);
    own =
        let (p, m, (x, at, o)) = h.own in
        (p, subst (Mem p) (sym e.2) m, (x, same_memory r r' p e.0 ∙ at, o));
  }

-- A write to a screen that stays with its client.
module _ (p : Ptr) (x x' : Screen) (s : Server) (at : get_screen s.rotation p ≡ some x)
    (same : Same x x') where
  stored_client :
      (u : Ptr) (y : Screen)
      → get_screen s.rotation u ≡ some y
      → (z : Screen) × (get_screen (store_screen p x' s).rotation u ≡ some z)
        × (z.client ≡ y.client)
  unfolding get_screen store_screen
  stored_client u y e = elim (Bool-cases (u == p)) [
    | inl t ↦ (x', ground (arith, t, e), ground (arith, t, e, at, same.1))
    | inr n ↦ (y, ground (arith, n, e), refl)
  ]

  stored-Belongs : (u : Ptr) → Belongs s.rotation u → Belongs (store_screen p x' s).rotation u
  unfolding store_screen
  stored-Belongs u (y, e, o) =
      let (z, f, k) = stored_client u y e in
      (z, f, subst (λ c. (c ≡ null) ⊎ Mem u (s.rotation.client_screens c)) (sym k) o)

  pub stored-Housed : Housed s.rotation → Housed (store_screen p x' s).rotation
  unfolding store_screen
  stored-Housed h = record {
    sound = stored-Sound p x x' s at same h.sound;
    belongs =
        All-mono (Belongs s.rotation) (Belongs (store_screen p x' s).rotation) s.rotation.screenlist
          stored-Belongs h.belongs;
    own =
        let (q, m, (y, e, o)) = h.own in
        let (z, f, k) = stored_client q y e in (q, m, (z, f, k ∙ o));
  }

-- A new screen.
module _ (setup : Setup) (fresh : Ptr) (id : Bytes) (c : Ptr) (r : Rotation)
    (free : IsFree r fresh) where
  longer :
      (u d : Ptr)
      → Mem u (r.client_screens d)
      → Mem u ((with_screen setup fresh id c r free).client_screens d)
  longer u d m = elim (Bool-cases (d == c)) [
    | inl y ↦ rw y (mem-append_left (fresh ∷ []) m)
    | inr n ↦ rw n m
  ]

  old-Belongs : (u : Ptr) → Belongs r u → Belongs (with_screen setup fresh id c r free) u
  old-Belongs u (x, e, o) = (
    x,
    with_screen-old setup fresh id c r free u x e,
    elim o [ inl z ↦ inl z | inr m ↦ inr (longer u x.client m) ],
  )

  new_listed : Mem fresh ((with_screen setup fresh id c r free).client_screens c)
  new_listed =
      let self : (c == c) ≡ true = ground arith in
      rw self (mem-append_right (r.client_screens c) mem-cons_self)

  pub with_screen-Housed : Housed r → Housed (with_screen setup fresh id c r free)
  with_screen-Housed h = record {
    sound = with_screen-Sound setup fresh id c r free h.sound;
    belongs =
        All-append (Belongs (with_screen setup fresh id c r free)) r.screenlist (fresh ∷ [])
          (All-mono (Belongs r) (Belongs (with_screen setup fresh id c r free)) r.screenlist
            old-Belongs h.belongs)
          ((_, with_screen-new setup fresh id c r free, inr new_listed), tt);
    own =
        let (p, m, (x, e, o)) = h.own in
        (p, mem-append_left (fresh ∷ []) m, (x, with_screen-old setup fresh id c r free p x e, o));
  }
