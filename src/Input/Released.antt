-- ===== src/Input/Released.antt =====
-- `input_release_client_keys` and `handle_input` of server/input.c for a client that goes.
use lcdproc.Prelude.{
  ℕ, ◌+◌, ◌≡◌, ◌≢◌, refl, sym, ◌∙◌, ap, subst, Bool, true, false, ◌&&◌, ◌||◌, Option, some, List,
  [], ◌∷◌, ◌==◌, if◌then◌else◌, ◌>>=◌, >>=-eq-some, some_inj, Bool-cases, Option-cases, inl, inr,
  arith, All, Bytes, codes, str_eq,
}
use lcdproc.ScreenList.{Ptr, null, Rotation, screenlist_goto_next, screenlist_goto_prev}
use lcdproc.ScreenList.Top.{WellFormed}
use lcdproc.Input.Total.{handle_input-WellFormed}
use lcdproc.Input.{
  KeyReservation, Input, find_key, release_client_keys, target_of, is_menu_key, toggle_rotate,
  send_to_client, server_msg, internal_key, handle_key, handle_keys, handle_input, current_client,
}

-- The client has no reservation.
abbrev pub HasNone : Ptr → List KeyReservation → Type 0
HasNone c = All (λ kr. (kr.client == c) ≡ false)

-- How many lines a client was sent.
abbrev pub lines_to : Ptr → List (Ptr × Bytes) → ℕ
lines_to c [] = 0
lines_to c ((d, _) ∷ lines) = if d == c then 1 + lines_to c lines else lines_to c lines

release_client_keys-HasNone :
    (c : Ptr) (ks : List KeyReservation) → HasNone c (release_client_keys c ks)
unfolding release_client_keys
release_client_keys-HasNone c [] = tt
release_client_keys-HasNone c (kr ∷ ks) = elim (Bool-cases (kr.client == c)) [
  | inl y ↦ rw y (release_client_keys-HasNone c ks)
  | inr n ↦ rw n (n, release_client_keys-HasNone c ks)
]

find_key-HasNone :
    (key : Bytes) (d c : Ptr) (ks : List KeyReservation) (kr : KeyReservation)
    → HasNone c ks
    → find_key key d ks ≡ some kr
    → (kr.client == c) ≡ false
unfolding find_key
find_key-HasNone key d c [] kr h e = cc
find_key-HasNone key d c (k ∷ ks) kr h e =
    elim (Bool-cases (str_eq k.key key && (k.exclusive || d == k.client))) [
      | inl y ↦
          let same : some k ≡ some kr = rw y at e in
          let same' : k ≡ kr = cc in subst (λ r. (r.client == c) ≡ false) same' h.0
      | inr n ↦ find_key-HasNone key d c ks kr h.1 (rw n at e)
    ]

target_of-HasNone :
    (key : Bytes) (d c : Ptr) (i : Input)
    → c ≢ null
    → HasNone c i.keylist
    → (target_of key d i == c) ≡ false
unfolding target_of
target_of-HasNone key d c i ne h = elim (Option-cases (find_key key d i.keylist)) [
  | inl e ↦ rw e (ground arith)
  | inr (kr, e) ↦ rw e (find_key-HasNone key d c i.keylist kr h e)
]

-- A key that the server takes is sent to nobody, and the reservations stay.
abbrev pub Quiet : Input → Input → Type 0
Quiet i i' = (i'.key_lines ≡ i.key_lines) × (i'.keylist ≡ i.keylist)

server_msg-Quiet : (text : Bytes) (expire : ℕ) (i : Input) → Quiet i (server_msg text expire i)
unfolding server_msg
server_msg-Quiet text expire i = ground arith

goto_screen-Quiet :
    (go : Option (Bool × Rotation)) (text : Bytes) (i i' : Input)
    → (do (_, r) ← go; some (server_msg text 4 (record i { rotation = r }))) ≡ some i'
    → Quiet i i'
goto_screen-Quiet go text i i' e =
    let (x, _, e') =
      >>=-eq-some go (λ x. some (server_msg text 4 (record i { rotation = x.1 }))) e in
    let same : server_msg text 4 (record i { rotation = x.1 }) ≡ i' = cc in
    subst (Quiet i) same (server_msg-Quiet text 4 (record i { rotation = x.1 }))

toggle_rotate-Quiet : (i : Input) → Quiet i (toggle_rotate i)
toggle_rotate-Quiet i = elim (Bool-cases i.rotation.autorotate) [
  | inl y ↦ rw y (
      server_msg-Quiet (codes "Hold") 4
        (record i { rotation = record i.rotation { autorotate = false } }))
  | inr n ↦ rw n (
      server_msg-Quiet (codes "Rotate") 4
        (record i { rotation = record i.rotation { autorotate = true } }))
]

internal_key-Quiet : (key : Bytes) (i i' : Input) → internal_key key i ≡ some i' → Quiet i i'
unfolding internal_key
internal_key-Quiet key i i' e =
    elim (Bool-cases (is_menu_key key i || i.rotation.current_screen == i.menuscreen)) [
      | inl y ↦
          let same : record i { menu_keys = key ∷ i.menu_keys } ≡ i' = some_inj (rw y at e) in
          subst (Quiet i) same (refl, refl)
      | inr n ↦ elim (Bool-cases (str_eq key i.toggle_rotate_key)) [
        | inl y ↦ subst (Quiet i) (some_inj (rw (n, y) at e)) (toggle_rotate-Quiet i)
        | inr n1 ↦ elim (Bool-cases (str_eq key i.prev_screen_key)) [
          | inl y ↦
              goto_screen-Quiet (screenlist_goto_prev i.rotation) (codes "Prev") i i'
                (rw (n, n1, y) at e)
          | inr n2 ↦ elim (Bool-cases (str_eq key i.next_screen_key)) [
            | inl y ↦
                goto_screen-Quiet (screenlist_goto_next i.rotation) (codes "Next") i i'
                  (rw (n, n1, n2, y) at e)
            | inr n3 ↦ subst (Quiet i) (some_inj (rw (n, n1, n2, n3) at e)) (refl, refl)
          ]
        ]
      ]
    ]

handle_key-HasNone :
    (key : Bytes) (d c : Ptr) (i i' : Input)
    → c ≢ null
    → HasNone c i.keylist
    → handle_key key d i ≡ some i'
    → (lines_to c i'.key_lines ≡ lines_to c i.key_lines) × (i'.keylist ≡ i.keylist)
unfolding handle_key send_to_client
handle_key-HasNone key d c i i' ne h e = elim (Bool-cases (target_of key d i == null)) [
  | inl y ↦ let (a, b) = internal_key-Quiet key i i' (rw y at e) in (ap (lines_to c) a, b)
  | inr n ↦
      let same : send_to_client (target_of key d i) key i ≡ i' = some_inj (rw n at e) in
      let other = target_of-HasNone key d c i ne h in
      subst (λ j. (lines_to c j.key_lines ≡ lines_to c i.key_lines) × (j.keylist ≡ i.keylist)) same
        (rw other refl, refl)
]

handle_keys-HasNone :
    (keys : List Bytes) (d c : Ptr) (i i' : Input)
    → c ≢ null
    → HasNone c i.keylist
    → handle_keys keys d i ≡ some i'
    → lines_to c i'.key_lines ≡ lines_to c i.key_lines
unfolding handle_keys
handle_keys-HasNone [] d c i i' ne h e = ap (λ j. lines_to c j.key_lines) (sym (some_inj e))
handle_keys-HasNone (key ∷ keys) d c i i' ne h e =
    let (j, a, b) = >>=-eq-some (handle_key key d i) (λ j. handle_keys keys d j) e in
    let (same, kept) = handle_key-HasNone key d c i j ne h a in
    handle_keys-HasNone keys d c j i' ne (subst (HasNone c) (sym kept) h) b ∙ same

handle_input-HasNone :
    (keys : List Bytes) (c : Ptr) (i i' : Input)
    → c ≢ null
    → HasNone c i.keylist
    → handle_input keys i ≡ some i'
    → lines_to c i'.key_lines ≡ lines_to c i.key_lines
unfolding handle_input
handle_input-HasNone keys c i i' ne h e =
    let (d, _, b) = >>=-eq-some (current_client i.rotation) (λ d. handle_keys keys d i) e in
    handle_keys-HasNone keys d c i i' ne h b

-- When the reservations of a client have been released, handle_input, from a well-formed screen
-- list, ends and has sent the client no key, whatever keys come.
pub handle_input-release_client_keys :
    (keys : List Bytes) (c : Ptr) (i : Input)
    → WellFormed i.rotation
    → c ≢ null
    → (i' : Input) × (handle_input keys (record i { keylist = release_client_keys c i.keylist })
        ≡ some i')
      × (lines_to c i'.key_lines ≡ lines_to c i.key_lines)
handle_input-release_client_keys keys c i w ne =
    let i0 : Input = record i { keylist = release_client_keys c i.keylist } in
    let (i', go, _) = handle_input-WellFormed keys i0 w in
    (i', go, handle_input-HasNone keys c i0 i' ne (release_client_keys-HasNone c i.keylist) go)
