-- ===== src/Commands/Finding.antt =====
-- `client_find_screen` of server/client.c in a sound state.
use lcdproc.Prelude.{
  ◌≡◌, ◌≢◌, subst, false, some, List, [], ◌∷◌, ◌==◌, some_inj, Bool-cases, inl, inr, arith, All,
  Bytes, str_eq,
}
use lcdproc.ScreenList.{Ptr, null, Rotation}
use lcdproc.Commands.{find_screen_in, client_find_screen}
use lcdproc.Commands.Adding.{find_screen_in-total}
use lcdproc.Commands.Sound.{OwnedBy, Sound, Sound-IsReadable}

pub found-OwnedBy :
    (r : Rotation) (c : Ptr) (xs : List Ptr) (id : Bytes) (p : Ptr)
    → All (OwnedBy r c) xs
    → find_screen_in r xs id ≡ some p
    → (p == null) ≡ false
    → OwnedBy r c p
unfolding find_screen_in
found-OwnedBy r c [] id p h e n = absurd (ground (arith, e, n))
found-OwnedBy r c (x ∷ xs) id p ((y, g, k), h) e n = elim (Bool-cases (str_eq y.id id)) [
  | inl t ↦ subst (OwnedBy r c) (some_inj (rw (g, t) at e)) (y, g, k)
  | inr f ↦ found-OwnedBy r c xs id p h (rw (g, f) at e) n
]

-- The screen found is NULL, or it is one of the client's.
pub client_find_screen-OwnedBy :
    (c : Ptr) (id : Bytes) (r : Rotation)
    → Sound r
    → c ≢ null
    → (p : Ptr) × (client_find_screen c id r ≡ some p) × ((p == null) ≡ false → OwnedBy r c p)
unfolding client_find_screen
client_find_screen-OwnedBy c id r d ne =
    let nc : (c == null) ≡ false = ground (arith, ne) in
    let (p, go) = find_screen_in-total r (r.client_screens c) id (Sound-IsReadable d c) in
    (p, rw nc go, λ n. found-OwnedBy r c (r.client_screens c) id p (d.owned c) go n)
