-- ===== src/System/Live.antt =====
-- What holds of the server between two events: the screens are housed, the clients that are gone
-- have left nothing behind, and the reservations are ones that reserving and releasing keys can
-- reach.
use lcdproc.Prelude.{
  ◌≡◌, ◌≢◌, refl, sym, ◌∙◌, ap, subst, Bool, true, not, none, some, List, [], ◌==◌, if◌then◌else◌,
  Bool-cases, ◌⊎◌, inl, inr, arith, All, All-mono, Bytes,
}
use lcdproc.ScreenList.{Ptr, null, Screen, Rotation, get_screen}
use lcdproc.Input.{KeyReservation}
use lcdproc.Input.Exclusive.{Change, Reachable, next}
use lcdproc.Commands.{Client, Server, Outcome, send_string, send_error, update_client, when_ack}
use lcdproc.Commands.ScreenCommands.{store_screen}
use lcdproc.Commands.Stored.{Same, Refused}
use lcdproc.System.Housed.{Housed, stored-Housed}

abbrev pub Connected : Server → Ptr → Type 0
Connected s c = (x : Client) × (s.clients c ≡ some x)

-- The server itself, or a client that is there.
abbrev pub Holder : Server → Ptr → Type 0
Holder s d = (d ≡ null) ⊎ Connected s d

pub record Live (s : Server) : Type 0 where
  pub housed : Housed s.rotation
  pub no_null : s.clients null ≡ none
  pub nothing_left : (c : Ptr) → s.clients c ≡ none → s.rotation.client_screens c ≡ []
  pub reachable : Reachable s.keylist
  pub keyed : All (λ kr. Holder s kr.client) s.keylist

-- A run that ends in a live state.
abbrev pub Fine : Outcome → Type 0
Fine outcome = (b : Bool) × (s' : Server) × (outcome ≡ some (b, s')) × Live s'

pub Connected-ne : (s : Server) (c : Ptr) → Live s → Connected s c → c ≢ null
Connected-ne s c l (x, e) same =
    let e' : s.clients null ≡ some x = ap s.clients (sym same) ∙ e in
    let bad : none ≡ some x = sym l.no_null ∙ e' in absurd (ground (arith, bad))

pub Live-replies :
    (s : Server) (sent : List (Ptr × Bytes)) → Live s → Live (record s { replies = sent })
Live-replies s sent l = record {
  housed = l.housed;
  no_null = l.no_null;
  nothing_left = l.nothing_left;
  reachable = l.reachable;
  keyed = l.keyed;
}

pub Live-send_string : (c : Ptr) (text : Bytes) (s : Server) → Live s → Live (send_string c text s)
unfolding send_string
Live-send_string c text s l = Live-replies s _ l

pub Live-send_error : (c : Ptr) (text : Bytes) (s : Server) → Live s → Live (send_error c text s)
unfolding send_error
Live-send_error c text s l = Live-replies s _ l

pub Live-Refused : (c : Ptr) (s s' : Server) → Live s → Refused c s s' → Live s'
Live-Refused c s s' l (text, e) = subst Live (sym e) (Live-send_error c text s l)

-- The screens change, and no client that is gone gets one.
pub Live-rotation :
    (s : Server) (r : Rotation)
    → Live s
    → Housed r
    → ((c : Ptr) → s.clients c ≡ none → r.client_screens c ≡ [])
    → Live (record s { rotation = r })
Live-rotation s r l h f = record {
  housed = h;
  no_null = l.no_null;
  nothing_left = f;
  reachable = l.reachable;
  keyed = l.keyed;
}

pub Live-store :
    (p : Ptr) (x x' : Screen) (s : Server)
    → get_screen s.rotation p ≡ some x
    → Same x x'
    → Live s
    → Live (store_screen p x' s)
unfolding store_screen
Live-store p x x' s at same l =
    Live-rotation s (store_screen p x' s).rotation l (stored-Housed p x x' s at same l.housed)
      l.nothing_left

-- A client that is there changes.
module _ (c : Ptr) (x y : Client) (s : Server) (at : s.clients c ≡ some x) where
  still_none : (d : Ptr) → (update_client c y s).clients d ≡ none → s.clients d ≡ none
  still_none d e = elim (Bool-cases (d == c)) [
    | inl t ↦ absurd (ground (arith, t, e))
    | inr n ↦ ground (arith, n, e)
  ]

  still_Connected : (d : Ptr) → Connected s d → Connected (update_client c y s) d
  still_Connected d (z, e) = elim (Bool-cases (d == c)) [
    | inl t ↦ (y, ground (arith, t))
    | inr n ↦ (z, ground (arith, n, e))
  ]

  still_Holder : (d : Ptr) → Holder s d → Holder (update_client c y s) d
  still_Holder d (inl z) = inl z
  still_Holder d (inr at) = inr (still_Connected d at)

  pub Live-update_client : Live s → Live (update_client c y s)
  Live-update_client l = record {
    housed = l.housed;
    no_null = elim (Bool-cases (null == c)) [
      | inl t ↦
          let bad : none ≡ some x = sym l.no_null ∙ ap s.clients (ground (arith, t)) ∙ at in
          absurd (ground (arith, bad))
      | inr n ↦ rw n l.no_null
    ];
    nothing_left = λ d e. l.nothing_left d (still_none d e);
    reachable = l.reachable;
    keyed =
        All-mono (λ (kr : KeyReservation). Holder s kr.client)
          (λ (kr : KeyReservation). Holder (update_client c y s) kr.client) s.keylist
          (λ kr. still_Holder kr.client) l.keyed;
  }

-- The reservations change.
pub Live-keys :
    (s : Server) (keylist : List KeyReservation)
    → Change s.keylist keylist
    → All (λ kr. Holder s kr.client) keylist
    → Live s
    → Live (record s { keylist = keylist })
Live-keys s keylist change keyed l = record {
  housed = l.housed;
  no_null = l.no_null;
  nothing_left = l.nothing_left;
  reachable = next l.reachable change;
  keyed = keyed;
}

-- Behind `if (!c->ack) return 1;`
pub when_ack-Fine :
    (c : Ptr) (s : Server) (x : Client) (body : Client → Outcome)
    → s.clients c ≡ some x
    → Live s
    → Fine (body x)
    → Fine (when_ack c s body)
unfolding when_ack
when_ack-Fine c s x body e l h = elim (Bool-cases x.ack) [
  | inl y ↦ rw e (subst (λ b. Fine (if not b then some (true, s) else body x)) (sym y) h)
  | inr n ↦
      rw e (subst (λ b. Fine (if not b then some (true, s) else body x)) (sym n) (true, s, refl, l))
]
