-- ===== src/System/Clients.antt =====
-- Clients come and go in a live state: `client_create` and `client_destroy` of server/client.c.
use mathlib.Core.List.{Mem, not-mem-nil}
use lcdproc.Prelude.{
  ◌≡◌, ◌≢◌, refl, sym, ◌∙◌, ap, subst, fun_ext, true, false, none, some, List, [], ◌∷◌, ◌==◌,
  if◌then◌else◌, Bool-cases, inl, inr, arith, All, All-mono,
}
use lcdproc.ScreenList.{Ptr, null, Screen, Rotation, get_screen}
use lcdproc.Input.{KeyReservation, release_client_keys}
use lcdproc.Input.Exclusive.{next, forget}
use lcdproc.Commands.{Server}
use lcdproc.Clients.Lifetime.{new_client, with_list, client_create, client_destroy}
use lcdproc.System.Housed.{Belongs, Housed}
use lcdproc.System.Leaving.{destroy_screens-Housed}
use lcdproc.System.Live.{Connected, Holder, Live, Connected-ne}

-- The list that a client has already.
same_list :
    (c : Ptr) (xs : List Ptr) (r : Rotation) → r.client_screens c ≡ xs → with_list c xs r ≡ r
same_list c xs r e =
    let lists : (with_list c xs r).client_screens ≡ r.client_screens = fun_ext (λ d.
      elim (Bool-cases (d == c)) [
        | inl y ↦ let same : c ≡ d = ground (arith, y) in rw y (sym e ∙ ap r.client_screens same)
        | inr n ↦ rw n refl
      ]) in
    ap (λ f. record r { client_screens = f }) lists

module _ (c : Ptr) (s : Server) (l : Live s) where
  created-Connected : (d : Ptr) → Connected s d → Connected (client_create c s) d
  unfolding client_create
  created-Connected d (x, e) = elim (Bool-cases (d == c)) [
    | inl y ↦ (new_client, rw y refl)
    | inr n ↦ (x, rw n e)
  ]

  created-Holder : (d : Ptr) → Holder s d → Holder (client_create c s) d
  created-Holder d (inl z) = inl z
  created-Holder d (inr at) = inr (created-Connected d at)

  pub client_create-Live : c ≢ null → s.clients c ≡ none → Live (client_create c s)
  unfolding client_create
  client_create-Live nc gone = record {
    housed = subst Housed (sym (same_list c [] s.rotation (l.nothing_left c gone))) l.housed;
    no_null = let n : (null == c) ≡ false = ground (arith, nc) in rw n l.no_null;
    nothing_left = λ d e. elim (Bool-cases (d == c)) [
      | inl y ↦ rw y refl
      | inr n ↦ rw n (l.nothing_left d (rw n at e))
    ];
    reachable = l.reachable;
    keyed =
        All-mono (λ (kr : KeyReservation). Holder s kr.client)
          (λ (kr : KeyReservation). Holder (client_create c s) kr.client) s.keylist
          (λ kr. created-Holder kr.client) l.keyed;
  }

  -- The server without the client.
  abbrev pub without : Rotation → Server
  without r = record s {
    clients = λ d. if d == c then none else s.clients d;
    rotation = with_list c [] r;
    keylist = release_client_keys c s.keylist;
  }

  kept_keys :
      (r : Rotation) (ks : List KeyReservation)
      → All (λ kr. Holder s kr.client) ks
      → All (λ kr. Holder (without r) kr.client) (release_client_keys c ks)
  unfolding release_client_keys
  kept_keys r [] h = tt
  kept_keys r (kr ∷ ks) (k, h) = elim (Bool-cases (kr.client == c)) [
    | inl y ↦ rw y (kept_keys r ks h)
    | inr n ↦ rw n (elim k [ inl z ↦ inl z | inr (x, e) ↦ inr (x, rw n e) ], kept_keys r ks h)
  ]

  without-Live :
      (r : Rotation)
      → Housed (with_list c [] r)
      → r.client_screens ≡ s.rotation.client_screens
      → Live (without r)
  without-Live r h same = record {
    housed = h;
    no_null = elim (Bool-cases (null == c)) [ inl y ↦ rw y refl | inr n ↦ rw n l.no_null ];
    nothing_left = λ d e. elim (Bool-cases (d == c)) [
      | inl y ↦ rw y refl
      | inr n ↦ rw n (ap (λ f. f d) same ∙ l.nothing_left d (rw n at e))
    ];
    reachable = next l.reachable (forget c);
    keyed = kept_keys r s.keylist l.keyed;
  }

  client_destroy_lem :
      Connected s c
      → (r : Rotation) × (client_destroy c s ≡ some (true, without r)) × Live (without r)
  unfolding client_destroy
  client_destroy_lem (x, e) =
      let nc = Connected-ne s c l (x, e) in
      let nc' : (c == null) ≡ false = ground (arith, nc) in
      let own = s.rotation.client_screens c in
      let h = subst Housed (sym (same_list c own s.rotation refl)) l.housed in
      let (r, go, h', same) = destroy_screens-Housed c nc own s.rotation h in
      (r, rw (nc', e, go) refl, without-Live r h' same)

-- No screen of the list and no reservation is left that is a client's.
pub record LeftNothing (c : Ptr) (s : Server) : Type 0 where
  pub gone : s.clients c ≡ none
  pub no_screen :
      All
        (λ u. (x : Screen) × (get_screen s.rotation u ≡ some x) × (x.client ≢ c))
        s.rotation.screenlist
  pub no_key : All (λ kr. kr.client ≢ c) s.keylist

pub gone-LeftNothing :
    (c : Ptr) (s : Server) → c ≢ null → Live s → s.clients c ≡ none → LeftNothing c s
gone-LeftNothing c s nc l gone = record {
  gone = gone;
  no_screen =
      All-mono (Belongs s.rotation)
        (λ u. (x : Screen) × (get_screen s.rotation u ≡ some x) × (x.client ≢ c))
        s.rotation.screenlist
        (λ u (x, at, o). (
          x,
          at,
          λ same. elim o [
            | inl z ↦ nc (sym same ∙ z)
            | inr m ↦
                not-mem-nil
                  (subst (Mem u) (ap s.rotation.client_screens same ∙ l.nothing_left c gone) m)
          ],
        ))
        l.housed.belongs;
  no_key =
      All-mono (λ (kr : KeyReservation). Holder s kr.client)
        (λ (kr : KeyReservation). kr.client ≢ c) s.keylist
        (λ kr k same. elim k [
          | inl z ↦ nc (sym same ∙ z)
          | inr (x, e) ↦
              let bad : none ≡ some x = sym gone ∙ ap s.clients (sym same) ∙ e in
              ground (arith, bad)
        ])
        l.keyed;
}

-- property
pub client_destroy-LeftNothing :
    (c : Ptr) (s : Server)
    → Live s
    → Connected s c
    → (s' : Server) × (client_destroy c s ≡ some (true, s')) × Live s' × LeftNothing c s'
client_destroy-LeftNothing c s l at =
    let (r, go, l') = client_destroy_lem c s l at in
    let self : (c == c) ≡ true = ground arith in
    let gone : (without c s l r).clients c ≡ none = rw self refl in
    (without c s l r, go, l', gone-LeftNothing c (without c s l r) (Connected-ne s c l at) l' gone)
