-- ===== src/System/Destroyed.antt =====
-- A screen is destroyed: `screen_destroy` of server/screen.c behind `client_remove_screen` of
-- server/client.c, and alone.
use mathlib.Core.List.{Mem}
use lcdproc.Prelude.{
  ◌≡◌, ◌≢◌, sym, ◌∙◌, ap, subst, some, List, [], ◌∷◌, ◌==◌, some_inj, Bool-cases, inl, inr, All,
}
use lcdproc.ScreenList.{Ptr, null, Screen, Rotation, get_screen, erase}
use lcdproc.ScreenList.Top.{WellFormed}
use lcdproc.ScreenList.Removal.{All-erase, Mem-erase}
use lcdproc.Commands.Sound.{OwnedBy, erase-ne}
use lcdproc.Commands.Deleting.{freed, freed-old, freed-Sound, same_memory, client_erased}
use lcdproc.System.Housed.{Belongs, Housed}

All-both :
    (P Q R : Ptr → Type 0) (xs : List Ptr)
    → ((u : Ptr) → P u → Q u → R u)
    → All P xs
    → All Q xs
    → All R xs
All-both P Q R [] f h k = tt
All-both P Q R (x ∷ xs) f h k = (f x h.0 k.0, All-both P Q R xs f h.1 k.1)

-- The server's screen is not one of a client.
own-ne :
    (r : Rotation) (c p u : Ptr) (x : Screen)
    → c ≢ null
    → OwnedBy r c p
    → get_screen r u ≡ some x
    → x.client ≡ null
    → u ≢ p
own-ne r c p u x nc (y, e, k) at o same =
    let xy : x ≡ y = some_inj (sym at ∙ ap (get_screen r) same ∙ e) in
    nc (sym k ∙ sym (ap (λ t. t.client) xy) ∙ o)

module _ (c p : Ptr) (r : Rotation) (h : Housed r) (nc : c ≢ null) (own : OwnedBy r c p) where
  abbrev pub o : Ptr
  o = h.own.0

  pub away : o ≢ p
  away = let (q, m, (x, at, k)) = h.own in own-ne r c p q x nc own at k

  module _ (r1 : Rotation) (w : WellFormed r1) (list : r1.screenlist ≡ (erase p r.screenlist).1)
      (mem : r1.screens ≡ r.screens)
      (own_lists : r1.client_screens ≡ (client_erased c p r).client_screens) where
    freed-screen :
        (u : Ptr) (x : Screen)
        → u ≢ p
        → get_screen r u ≡ some x
        → get_screen (freed p r1) u ≡ some x
    freed-screen u x ne at =
        freed-old p r1 u ne
        ∙ same_memory c p o r h.sound nc own away h.own.1 r1 w list mem own_lists u
        ∙ at

    shorter : (u d : Ptr) → u ≢ p → Mem u (r.client_screens d) → Mem u (r1.client_screens d)
    shorter u d ne m =
        subst (λ f. Mem u (f d)) (sym own_lists)
          (elim (Bool-cases (d == c)) [
            | inl y ↦ rw y (Mem-erase u p (r.client_screens d) ne m)
            | inr n ↦ rw n m
          ])

    freed-Belongs : (u : Ptr) → u ≢ p → Belongs r u → Belongs (freed p r1) u
    freed-Belongs u ne (x, at, k) = (
      x,
      freed-screen u x ne at,
      elim k [ inl z ↦ inl z | inr m ↦ inr (shorter u x.client ne m) ],
    )

    pub freed-Housed : Housed (freed p r1)
    freed-Housed = record {
      sound = freed-Sound c p o r h.sound nc own away h.own.1 r1 w list mem own_lists;
      belongs = subst (All (Belongs (freed p r1))) (sym list) (
          All-both (λ u. u ≢ p) (Belongs r) (Belongs (freed p r1)) (erase p r.screenlist).1
            freed-Belongs (erase-ne p r.screenlist h.sound.once)
            (All-erase (Belongs r) p r.screenlist h.belongs));
      own =
          let (q, m, (x, at, k)) = h.own in
          (
            q,
            subst (Mem q) (sym list) (Mem-erase q p r.screenlist away m),
            (x, freed-screen q x away at, k),
          );
    }
