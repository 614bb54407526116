-- ===== src/Input/Exclusive.antt =====
-- Reservations of keys in server/input.c that shut each other out.
use lcdproc.Prelude.{
  ◌≡◌, refl, sym, ◌∙◌, ◌⊎◌, ap, Bool, true, false, ◌&&◌, ◌||◌, some, List, [], ◌∷◌, ◌++◌, ◌==◌,
  Bool-cases, inl, inr, arith, All, All-append, All-at, Bytes, str_eq, str_eq_refl,
}
use lcdproc.ScreenList.{Ptr}
use lcdproc.Input.{
  KeyReservation, interferes, any_interferes, reserve_key, release_key, release_client_keys,
  find_key,
}

-- Two reservations of the same key go together when both are shared.
abbrev pub Agree : KeyReservation → KeyReservation → Type 0
Agree a b = str_eq a.key b.key ≡ true → (a.exclusive || b.exclusive) ≡ false

abbrev pub Compatible : List KeyReservation → Type 0
Compatible [] = Unit
Compatible (kr ∷ keylist) = All (Agree kr) keylist × Compatible keylist

-- What the server does with its reservations.
pub data Change : List KeyReservation → List KeyReservation → Type 0 where
  reserve :
      {keylist : List KeyReservation} (key : Bytes) (exclusive : Bool) (client : Ptr)
      → Change keylist (reserve_key key exclusive client keylist).1
  release :
      {keylist : List KeyReservation} (key : Bytes) (client : Ptr)
      → Change keylist (release_key key client keylist)
  forget :
      {keylist : List KeyReservation} (client : Ptr)
      → Change keylist (release_client_keys client keylist)

pub data Reachable : List KeyReservation → Type 0 where
  start : Reachable []
  next : {ks ks' : List KeyReservation} → Reachable ks → Change ks ks' → Reachable ks'

Agree-new :
    (key : Bytes) (exclusive : Bool) (client : Ptr) (kr : KeyReservation)
    → interferes key exclusive kr ≡ false
    → Agree kr (record { key = key; exclusive = exclusive; client = client })
unfolding interferes
Agree-new key exclusive client kr h e = ground (arith, h, e)

Compatible-push :
    (key : Bytes) (exclusive : Bool) (client : Ptr) (ks : List KeyReservation)
    → any_interferes key exclusive ks ≡ false
    → Compatible ks
    → Compatible (ks ++ record { key = key; exclusive = exclusive; client = client } ∷ [])
unfolding any_interferes
Compatible-push key exclusive client [] h c = (tt, tt)
Compatible-push key exclusive client (kr ∷ ks) h (a, c) =
    elim (Bool-cases (interferes key exclusive kr)) [
      | inl y ↦ absurd (ground (arith, y, h))
      | inr n ↦
          let new : KeyReservation = record { key = key; exclusive = exclusive; client = client } in
          (
            All-append (Agree kr) ks (new ∷ []) a (Agree-new key exclusive client kr n, tt),
            Compatible-push key exclusive client ks (ground (arith, n, h)) c,
          )
    ]

Compatible-reserve_key :
    (key : Bytes) (exclusive : Bool) (client : Ptr) (ks : List KeyReservation)
    → Compatible ks
    → Compatible (reserve_key key exclusive client ks).1
unfolding reserve_key
Compatible-reserve_key key exclusive client ks c =
    elim (Bool-cases (any_interferes key exclusive ks)) [
      | inl y ↦ rw y c
      | inr n ↦ rw n (Compatible-push key exclusive client ks n c)
    ]

module _ (P : KeyReservation → Type 0) where
  pub All-release_key :
      (key : Bytes) (client : Ptr) (ks : List KeyReservation)
      → All P ks
      → All P (release_key key client ks)
  unfolding release_key
  All-release_key key client [] h = tt
  All-release_key key client (kr ∷ ks) h =
      elim (Bool-cases (kr.client == client && str_eq kr.key key)) [
        | inl y ↦ rw y h.1
        | inr n ↦ rw n (h.0, All-release_key key client ks h.1)
      ]

  pub All-release_client_keys :
      (client : Ptr) (ks : List KeyReservation) → All P ks → All P (release_client_keys client ks)
  unfolding release_client_keys
  All-release_client_keys client [] h = tt
  All-release_client_keys client (kr ∷ ks) h = elim (Bool-cases (kr.client == client)) [
    | inl y ↦ rw y (All-release_client_keys client ks h.1)
    | inr n ↦ rw n (h.0, All-release_client_keys client ks h.1)
  ]

Compatible-release_key :
    (key : Bytes) (client : Ptr) (ks : List KeyReservation)
    → Compatible ks
    → Compatible (release_key key client ks)
unfolding release_key
Compatible-release_key key client [] c = tt
Compatible-release_key key client (kr ∷ ks) c =
    elim (Bool-cases (kr.client == client && str_eq kr.key key)) [
      | inl y ↦ rw y c.1
      | inr n ↦
          rw n
            (All-release_key (Agree kr) key client ks c.0, Compatible-release_key key client ks c.1)
    ]

Compatible-release_client_keys :
    (client : Ptr) (ks : List KeyReservation)
    → Compatible ks
    → Compatible (release_client_keys client ks)
unfolding release_client_keys
Compatible-release_client_keys client [] c = tt
Compatible-release_client_keys client (kr ∷ ks) c = elim (Bool-cases (kr.client == client)) [
  | inl y ↦ rw y (Compatible-release_client_keys client ks c.1)
  | inr n ↦ rw n (
    All-release_client_keys (Agree kr) client ks c.0,
    Compatible-release_client_keys client ks c.1,
  )
]

Compatible-Change : {ks ks' : List KeyReservation} → Change ks ks' → Compatible ks → Compatible ks'
Compatible-Change (reserve {keylist} key exclusive client) c =
    Compatible-reserve_key key exclusive client keylist c
Compatible-Change (release {keylist} key client) c = Compatible-release_key key client keylist c
Compatible-Change (forget {keylist} client) c = Compatible-release_client_keys client keylist c

-- Of two reservations of one key that the server holds at a time, neither is exclusive.
pub Reachable-Compatible : {ks : List KeyReservation} → Reachable ks → Compatible ks
Reachable-Compatible start = tt
Reachable-Compatible (next r s) = Compatible-Change s (Reachable-Compatible r)

find_key-behind :
    (xs ys : List KeyReservation) (kr : KeyReservation) (d : Ptr)
    → Compatible (xs ++ kr ∷ ys)
    → kr.exclusive ≡ true
    → find_key kr.key d (xs ++ kr ∷ ys) ≡ some kr
unfolding find_key
find_key-behind [] ys kr d c ex = rw (str_eq_refl kr.key, ex)
find_key-behind (k ∷ xs) ys kr d c ex = elim (Bool-cases (str_eq k.key kr.key)) [
  | inl y ↦
      let agree : (k.exclusive || kr.exclusive) ≡ false = All-at (Agree k) xs ys kr c.0 y in
      absurd (ground (arith, agree, ex))
  | inr n ↦ rw n (find_key-behind xs ys kr d c.1 ex)
]

-- In every list of reservations that reserving and releasing keys can reach, a key that is
-- reserved exclusively goes to the client that reserved it, whichever client asks.
pub find_key-exclusive :
    (xs ys : List KeyReservation) (kr : KeyReservation) (d : Ptr)
    → Reachable (xs ++ kr ∷ ys)
    → kr.exclusive ≡ true
    → find_key kr.key d (xs ++ kr ∷ ys) ≡ some kr
find_key-exclusive xs ys kr d r ex = find_key-behind xs ys kr d (Reachable-Compatible r) ex

both_shared :
    (key : Bytes) (exclusive : Bool) (k : KeyReservation)
    → interferes key exclusive k ≡ false
    → str_eq k.key key ≡ true
    → (k.exclusive ≡ false) × (exclusive ≡ false)
unfolding interferes
both_shared key exclusive k h e = ground (arith, h, e)

find_key-push :
    (key : Bytes) (exclusive : Bool) (client : Ptr) (ks : List KeyReservation)
    → any_interferes key exclusive ks ≡ false
    → (kr : KeyReservation) × (find_key key client
          (ks ++ record { key = key; exclusive = exclusive; client = client } ∷ [])
        ≡ some kr)
      × (kr.client ≡ client)
      × (kr.exclusive ≡ exclusive)
unfolding any_interferes find_key
find_key-push key exclusive client [] h = (
  record { key = key; exclusive = exclusive; client = client },
  ground (arith, str_eq_refl key),
  refl,
  refl,
)
find_key-push key exclusive client (k ∷ ks) h = elim (Bool-cases (interferes key exclusive k)) [
  | inl y ↦ absurd (ground (arith, y, h))
  | inr n ↦ elim (Bool-cases (str_eq k.key key && (k.exclusive || client == k.client))) [
    | inl y ↦ (
      k,
      rw y,
      ground (arith, y, both_shared key exclusive k n),
      ground (arith, y, both_shared key exclusive k n),
    )
    | inr m ↦ rw m (find_key-push key exclusive client ks (ground (arith, n, h)))
  ]
]

-- input_reserve_key either refuses, because another reservation of the key interferes, and
-- changes nothing, or from then on input_find_key gives the key to the client when it asks for
-- the client, in the mode that was asked for.
pub find_key-reserve_key :
    (key : Bytes) (exclusive : Bool) (client : Ptr) (ks ks' : List KeyReservation) (ok : Bool)
    → reserve_key key exclusive client ks ≡ (ok, ks')
    → ((ok ≡ false) × (ks' ≡ ks) × (any_interferes key exclusive ks ≡ true))
      ⊎ ((ok ≡ true)
          × ((kr : KeyReservation) × (find_key key client ks' ≡ some kr)
              × (kr.client ≡ client)
              × (kr.exclusive ≡ exclusive)))
unfolding reserve_key
find_key-reserve_key key exclusive client ks ks' ok e =
    elim (Bool-cases (any_interferes key exclusive ks)) [
      | inl y ↦
          let e' : (false, ks) ≡ (ok, ks') = rw y at e in
          inl (sym (ap (λ p. p.0) e'), sym (ap (λ p. p.1) e'), y)
      | inr n ↦
          let new : KeyReservation = record { key = key; exclusive = exclusive; client = client } in
          let e' : (true, ks ++ new ∷ []) ≡ (ok, ks') = rw n at e in
          let (kr, f, a, b) = find_key-push key exclusive client ks n in
          inr (
            sym (ap (λ p. p.0) e'),
            (kr, ap (find_key key client) (sym (ap (λ p. p.1) e')) ∙ f, a, b),
          )
    ]
