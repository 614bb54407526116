-- ===== src/Commands/Setting.antt =====
-- What `screen_set` of server/commands/screen_commands.c keeps.
use lcdproc.Prelude.{
  ℕ, ◌≡◌, ◌≢◌, refl, false, Option, none, some, List, [], ◌∷◌, ◌==◌, ◌>>=◌, Bool-cases, inl, inr,
  arith, Bytes, codes,
}
use lcdproc.ScreenList.{get_screen, Ptr, null, Screen}
use lcdproc.ScreenList.Top.{IsReadable}
use lcdproc.Commands.{Client, Server, strip_dash, send_string, send_error, success}
use lcdproc.Commands.ScreenCommands.{
  Field, name, priority, duration, heartbeat, wid, hgt, timeout, backlight, cursor, cursor_x,
  cursor_y, set_priority, set_heartbeat, set_backlight, set_cursor, set_field, field_named,
  store_screen, set_option, set_options, last_option, set_screen,
}
use lcdproc.Commands.Sound.{Sound}
use lcdproc.Commands.Stored.{Same, stored-IsReadable}
use lcdproc.Commands.Finding.{client_find_screen-OwnedBy}

set_field-Same : (b : ℕ) (f : Field) (word : Bytes) (x : Screen) → Same x (set_field b f word x).1
unfolding set_field set_priority set_heartbeat set_backlight set_cursor
set_field-Same b name word x = (refl, refl)
set_field-Same b priority word x = ground arith
set_field-Same b duration word x = ground arith
set_field-Same b heartbeat word x = ground arith
set_field-Same b wid word x = ground arith
set_field-Same b hgt word x = ground arith
set_field-Same b timeout word x = ground arith
set_field-Same b backlight word x = ground arith
set_field-Same b cursor word x = ground arith
set_field-Same b cursor_x word x = ground arith
set_field-Same b cursor_y word x = ground arith

-- What any predicate that an answer and a write to a screen keep relies on.
module _ (I : Server → Type 0)
    (told : (s : Server) (sent : List (Ptr × Bytes)) → I s → I (record s { replies = sent }))
    (written : (p : Ptr) (x x' : Screen) (s : Server)
      → get_screen s.rotation p ≡ some x
      → Same x x'
      → I s
      → I (store_screen p x' s)) where
  -- A run that ends, with the predicate kept.
  abbrev Keeps : Option Server → Type 0
  Keeps result = (s' : Server) × (result ≡ some s') × I s'

  set_option-Keeps :
      (c : Ptr) (client : Client) (p : Ptr) (f : Field) (word : Bytes) (s : Server)
      → IsReadable s.rotation p
      → I s
      → (s' : Server) × (set_option c client p f word s ≡ some s') × I s' × IsReadable s'.rotation p
  unfolding set_option send_string send_error
  set_option-Keeps c client p f word s (x, at) d =
      let r = set_field client.backlight f word x in
      let same = set_field-Same client.backlight f word x in
      let kept = written p x r.1 s at same d in
      let still = stored-IsReadable p x r.1 s at same p (x, at) in
      elim (Bool-cases r.0) [
        | inl y ↦ (send_string c success (store_screen p r.1 s), rw (at, y), told _ _ kept, still)
        | inr n ↦ (
          send_error c (codes "Cursor position outside screen\n") (store_screen p r.1 s),
          rw (at, n),
          told _ _ kept,
          still,
        )
      ]

  last_option-Keeps :
      (c : Ptr) (f : Option Field) (s : Server) → I s → Keeps (some (last_option c f s))
  unfolding send_error
  last_option-Keeps c none s d = (_, refl, told s _ d)
  last_option-Keeps c (some f) s d = (_, refl, told s _ d)

  set_options-Keeps :
      (c : Ptr) (client : Client) (p : Ptr) (args : List Bytes) (s : Server)
      → IsReadable s.rotation p
      → I s
      → Keeps (set_options c client p args s)
  unfolding set_options send_error
  set_options-Keeps c client p [] s at d = (s, refl, d)
  set_options-Keeps c client p (a ∷ []) s at d =
      last_option-Keeps c (field_named (strip_dash a)) s d
  set_options-Keeps c client p (a ∷ word ∷ rest) s at d =
      (elim (field_named (strip_dash a))
        as (λ f. Keeps (elim f [
          | none ↦
              set_options c client p (word ∷ rest) (send_error c (codes "invalid parameter\n") s)
          | some f ↦ set_option c client p f word s >>= λ s'. set_options c client p rest s'
        ])) [
          | none ↦
              set_options-Keeps c client p (word ∷ rest)
                (send_error c (codes "invalid parameter\n") s) at (told s _ d)
          | some f ↦
              let (s', go, d', at') = set_option-Keeps c client p f word s at d in
              rw go (set_options-Keeps c client p rest s' at' d')
        ])

  pub set_screen-Keeps :
      (c : Ptr) (client : Client) (argv : List Bytes) (s : Server)
      → Sound s.rotation
      → c ≢ null
      → I s
      → (s' : Server) × (set_screen c client argv s ≡ some (false, s')) × I s'
  unfolding set_screen send_error
  set_screen-Keeps c client [] s d ne i = (_, refl, told s _ i)
  set_screen-Keeps c client (cmd ∷ []) s d ne i = (_, refl, told s _ i)
  set_screen-Keeps c client (cmd ∷ id ∷ []) s d ne i = (_, refl, told s _ i)
  set_screen-Keeps c client (cmd ∷ id ∷ a ∷ rest) s d ne i =
      let (p, go, own) = client_find_screen-OwnedBy c id s.rotation d ne in
      elim (Bool-cases (p == null)) [
        | inl z ↦ (send_error c (codes "Unknown screen id\n") s, rw (go, z), told s _ i)
        | inr n ↦
            let (x, at, _) = own n in
            let (s', run, i') = set_options-Keeps c client p (a ∷ rest) s (x, at) i in
            (s', rw (go, n, run), i')
      ]
