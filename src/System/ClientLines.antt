-- ===== src/System/ClientLines.antt =====
-- The commands of server/commands/client_commands.c and server_commands.c in a live state.
use lcdproc.Prelude.{
  ℕ, ◌+◌, ◌≡◌, refl, ◌∙◌, ap, Bool, true, false, some, List, [], ◌∷◌, ◌==◌, ltb, if◌then◌else◌,
  Bool-cases, inl, inr, length, drop, All, All-append, Bytes, codes, str_eq,
}
use lcdproc.Prelude.Int.{ℤ}
use lcdproc.ScreenList.{Ptr}
use lcdproc.Input.{KeyReservation, reserve_key, release_key, any_interferes}
use lcdproc.Input.Exclusive.{reserve, release, All-release_key}
use lcdproc.Commands.{Client, Server, send_string, send_error, strip_dash, success, update_client}
use lcdproc.Commands.ClientCommands.{
  hello_func, bye_func, noop_func, list_arguments, test_func_func, info_func, set_name,
  client_set_loop, client_set_func, reserve_keys, key_option, client_add_key_func, release_keys,
  client_del_key_func, backlight_of, set_client_backlight, backlight_func,
}
use lcdproc.Commands.ServerCommands.{
  strtol, is_whole, set_output, output_number, output_func, sleep_func,
}
use lcdproc.System.Live.{
  Connected, Holder, Live, Fine, Live-send_string, Live-send_error, Live-update_client, Live-keys,
  when_ack-Fine,
}

-- The number that `output` and `sleep` read is one that `strtol` can represent.
abbrev pub InRange : List Bytes → Type 0
InRange (cmd ∷ word ∷ []) = (strtol word).out_of_range ≡ false
InRange _ = Unit

-- An error that is reported in one case only.
maybe_error :
    (b : Bool) (c : Ptr) (text : Bytes) (s : Server) (x : Client)
    → Live s
    → s.clients c ≡ some x
    → Live (if b then send_error c text s else s)
      × ((if b then send_error c text s else s).clients c ≡ some x)
unfolding send_error
maybe_error true c text s x l e = (Live-send_error c text s l, e)
maybe_error false c text s x l e = (l, e)

module _ (c : Ptr) where
  pub hello-Fine :
      (greeting : Bytes) (argv : List Bytes) (s : Server)
      → Connected s c
      → Live s
      → Fine (hello_func greeting c argv s)
  unfolding hello_func send_string
  hello-Fine greeting argv s (x, e) l =
      let b = ltb 1 (length argv) in
      let text = codes "extra parameters ignored\n" in
      let (l1, e1) = maybe_error b c text s x l e in
      let s1 = if b then send_error c text s else s in
      rw e (
        false,
        update_client c (record x { ack = true }) (send_string c greeting s1),
        refl,
        Live-update_client c x (record x { ack = true }) (send_string c greeting s1) e1
            (Live-send_string c greeting s1 l1),
      )

  list_arguments-Live :
      (i : ℕ) (argv : List Bytes) (s : Server) → Live s → Live (list_arguments c i argv s)
  unfolding list_arguments
  list_arguments-Live i [] s l = l
  list_arguments-Live i (arg ∷ argv) s l =
      list_arguments-Live (i + 1) argv _ (Live-send_string c _ s l)

  pub test_func-Fine : (argv : List Bytes) (s : Server) → Live s → Fine (test_func_func c argv s)
  unfolding test_func_func
  test_func-Fine argv s l = (false, _, refl, list_arguments-Live 0 argv s l)

  pub info-Fine :
      (text : Bytes) (argv : List Bytes) (s : Server)
      → Connected s c
      → Live s
      → Fine (info_func text c argv s)
  unfolding info_func
  info-Fine text argv s (x, e) l =
      let (l1, _) =
        maybe_error (ltb 1 (length argv)) c (codes "Extra arguments ignored...\n") s x l e in
      (false, _, refl, Live-send_string c _ _ l1)

  pub bye-Fine : (argv : List Bytes) (s : Server) → Live s → Fine (bye_func c argv s)
  unfolding bye_func
  bye-Fine argv s l = (false, _, refl, Live-send_error c _ s l)

  pub noop-Fine : (argv : List Bytes) (s : Server) → Live s → Fine (noop_func c argv s)
  unfolding noop_func
  noop-Fine argv s l = (false, _, refl, Live-send_string c _ s l)

  set_name-Live :
      (x : Client) (v : Bytes) (s : Server)
      → s.clients c ≡ some x
      → Live s
      → Live (set_name c x v s)
  unfolding set_name
  set_name-Live x v s e l =
      Live-send_string c success _ (Live-update_client c x (record x { name = some v }) s e l)

  client_set_loop-Live :
      (x : Client) (args : List Bytes) (s : Server)
      → s.clients c ≡ some x
      → Live s
      → Live (client_set_loop c x args s)
  unfolding client_set_loop send_error
  client_set_loop-Live x [] s e l = l
  client_set_loop-Live x (a ∷ []) s e l = elim (Bool-cases (str_eq (strip_dash a) (codes "name"))) [
    | inl y ↦ rw y (Live-send_error c _ s l)
    | inr n ↦ rw n (Live-send_error c _ s l)
  ]
  client_set_loop-Live x (a ∷ v ∷ rest) s e l =
      elim (Bool-cases (str_eq (strip_dash a) (codes "name"))) [
        | inl y ↦ elim (Bool-cases (ltb 255 (length v))) [
          | inl z ↦ rw (y, z) (Live-send_error c _ s l)
          | inr m ↦ rw (y, m) (set_name-Live x v s e l)
        ]
        | inr n ↦ rw n (client_set_loop-Live x (v ∷ rest) _ e (Live-send_error c _ s l))
      ]

  pub client_set-Fine :
      (argv : List Bytes) (s : Server) → Connected s c → Live s → Fine (client_set_func c argv s)
  unfolding client_set_func
  client_set-Fine argv s (x, e) l =
      when_ack-Fine c s x _ e l (elim (Bool-cases (length argv == 3)) [
        | inl y ↦ rw y (false, _, refl, client_set_loop-Live x (drop 1 argv) s e l)
        | inr n ↦ rw n (false, _, refl, Live-send_error c _ s l)
      ])

  reserve_key-keyed :
      (key : Bytes) (exclusively : Bool) (s : Server)
      → Connected s c
      → Live s
      → All (λ kr. Holder s kr.client) (reserve_key key exclusively c s.keylist).1
  unfolding reserve_key
  reserve_key-keyed key exclusively s at l =
      elim (Bool-cases (any_interferes key exclusively s.keylist)) [
        | inl y ↦ rw y l.keyed
        | inr n ↦ rw n (
            All-append (λ (kr : KeyReservation). Holder s kr.client) s.keylist _ l.keyed
              (inr at, tt))
      ]

  reserve_keys-Live :
      (exclusively : Bool) (keys : List Bytes) (s : Server)
      → Connected s c
      → Live s
      → Live (reserve_keys c exclusively keys s)
  unfolding reserve_keys send_error
  reserve_keys-Live exclusively [] s at l = l
  reserve_keys-Live exclusively (key ∷ keys) s at l =
      let r = reserve_key key exclusively c s.keylist in
      let s' : Server = record s { keylist = r.1 } in
      let l' : Live s' =
        Live-keys s r.1 (reserve key exclusively c) (reserve_key-keyed key exclusively s at l) l in
      elim (Bool-cases r.0) [
        | inl y ↦ rw y (reserve_keys-Live exclusively keys s' at l')
        | inr n ↦ rw n (reserve_keys-Live exclusively keys _ at (Live-send_error c _ s' l'))
      ]

  key_option-Live :
      (argv : List Bytes) (s : Server)
      → Live s
      → Live (key_option c argv s).2 × ((key_option c argv s).2.clients ≡ s.clients)
  unfolding key_option send_error
  key_option-Live [] s l = (l, refl)
  key_option-Live ([] ∷ keys) s l = (l, refl)
  key_option-Live ((d ∷ ds) ∷ keys) s l = elim (Bool-cases (d == b'-')) [
    | inr n ↦ rw n (l, refl)
    | inl y ↦ elim (Bool-cases (str_eq (d ∷ ds) (codes "-shared"))) [
      | inl z ↦ rw (y, z) (l, refl)
      | inr n ↦ elim (Bool-cases (str_eq (d ∷ ds) (codes "-exclusively"))) [
        | inl z ↦ rw (y, n, z) (l, refl)
        | inr m ↦ rw (y, n, m) (Live-send_error c _ s l, refl)
      ]
    ]
  ]

  pub client_add_key-Fine :
      (argv : List Bytes) (s : Server)
      → Connected s c
      → Live s
      → Fine (client_add_key_func c argv s)
  unfolding client_add_key_func
  client_add_key-Fine argv s (x, e) l =
      when_ack-Fine c s x _ e l (elim (Bool-cases (ltb (length argv) 2)) [
        | inl y ↦ rw y (false, _, refl, Live-send_error c _ s l)
        | inr n ↦
            let r = key_option c (drop 1 argv) s in
            let (l1, same) = key_option-Live (drop 1 argv) s l in
            rw n (
              false,
              _,
              refl,
              Live-send_string c success _
                  (reserve_keys-Live r.0 r.1 r.2 (x, ap (λ f. f c) same ∙ e) l1),
            )
      ])

  release_keys-Live : (keys : List Bytes) (s : Server) → Live s → Live (release_keys c keys s)
  unfolding release_keys
  release_keys-Live [] s l = l
  release_keys-Live (key ∷ keys) s l = release_keys-Live keys _ (
      Live-keys s (release_key key c s.keylist) (release key c)
        (All-release_key (λ (kr : KeyReservation). Holder s kr.client) key c s.keylist l.keyed) l)

  pub client_del_key-Fine :
      (argv : List Bytes) (s : Server)
      → Connected s c
      → Live s
      → Fine (client_del_key_func c argv s)
  unfolding client_del_key_func
  client_del_key-Fine argv s (x, e) l =
      when_ack-Fine c s x _ e l (elim (Bool-cases (ltb (length argv) 2)) [
        | inl y ↦ rw y (false, _, refl, Live-send_error c _ s l)
        | inr n ↦
            rw n
              (false, _, refl, Live-send_string c success _ (release_keys-Live (drop 1 argv) s l))
      ])

  set_client_backlight-Fine :
      (x : Client) (argv : List Bytes) (s : Server)
      → s.clients c ≡ some x
      → Live s
      → Fine (set_client_backlight c x argv s)
  unfolding set_client_backlight
  set_client_backlight-Fine x [] s e l = (false, _, refl, Live-send_error c _ s l)
  set_client_backlight-Fine x (a ∷ []) s e l = (false, _, refl, Live-send_error c _ s l)
  set_client_backlight-Fine x (name ∷ word ∷ []) s e l = (
    false,
    _,
    refl,
    Live-send_string c success _
        (Live-update_client c x (record x { backlight = backlight_of word x.backlight }) s e l),
  )
  set_client_backlight-Fine x (a ∷ b ∷ d ∷ rest) s e l = (false, _, refl, Live-send_error c _ s l)

  pub backlight-Fine :
      (argv : List Bytes) (s : Server) → Connected s c → Live s → Fine (backlight_func c argv s)
  unfolding backlight_func
  backlight-Fine argv s (x, e) l =
      when_ack-Fine c s x _ e l (set_client_backlight-Fine x argv s e l)

  Live-output : (state : ℤ) (s : Server) → Live s → Live (record s { output_state = state })
  Live-output state s l = record {
    housed = l.housed;
    no_null = l.no_null;
    nothing_left = l.nothing_left;
    reachable = l.reachable;
    keyed = l.keyed;
  }

  set_output-Fine : (state : ℤ) (s : Server) → Live s → Fine (set_output c state s)
  unfolding set_output
  set_output-Fine state s l = (false, _, refl, Live-send_string c success _ (Live-output state s l))

  output_number-Fine :
      (p : Bytes) (s : Server)
      → (strtol p).out_of_range ≡ false
      → Live s
      → Fine (output_number c p s)
  unfolding output_number
  output_number-Fine p s r l = elim (Bool-cases (is_whole p (strtol p))) [
    | inl y ↦ rw (y, r) (set_output-Fine _ s l)
    | inr n ↦ rw (n, r) (false, _, refl, Live-send_error c _ s l)
  ]

  pub output-Fine :
      (argv : List Bytes) (s : Server) → InRange argv → Live s → Fine (output_func c argv s)
  unfolding output_func
  output-Fine [] s r l = (false, _, refl, Live-send_error c _ s l)
  output-Fine (cmd ∷ []) s r l = (false, _, refl, Live-send_error c _ s l)
  output-Fine (cmd ∷ a ∷ b ∷ rest) s r l = (false, _, refl, Live-send_error c _ s l)
  output-Fine (cmd ∷ word ∷ []) s r l = elim (Bool-cases (str_eq word (codes "on"))) [
    | inl y ↦ rw y (set_output-Fine _ s l)
    | inr n ↦ elim (Bool-cases (str_eq word (codes "off"))) [
      | inl y ↦ rw (n, y) (set_output-Fine _ s l)
      | inr m ↦ rw (n, m) (output_number-Fine word s r l)
    ]
  ]

  pub sleep-Fine :
      (argv : List Bytes) (s : Server) → InRange argv → Live s → Fine (sleep_func c argv s)
  unfolding sleep_func
  sleep-Fine [] s r l = (false, _, refl, Live-send_error c _ s l)
  sleep-Fine (cmd ∷ []) s r l = (false, _, refl, Live-send_error c _ s l)
  sleep-Fine (cmd ∷ a ∷ b ∷ rest) s r l = (false, _, refl, Live-send_error c _ s l)
  sleep-Fine (cmd ∷ p ∷ []) s r l = elim (Bool-cases (is_whole p (strtol p))) [
    | inl y ↦ rw (y, r) (false, _, refl, Live-send_error c _ _ (Live-send_string c _ s l))
    | inr n ↦ rw (n, r) (false, _, refl, Live-send_error c _ s l)
  ]
