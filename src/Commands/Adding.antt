-- ===== src/Commands/Adding.antt =====
-- `screen_add` of server/commands/screen_commands.c.
use mathlib.Core.List.{mem-append_left}
use lcdproc.Prelude.{
  ◌≡◌, ◌≢◌, refl, sym, ◌∙◌, ap, true, false, not, none, some, List, [], ◌∷◌, ◌++◌, ◌==◌,
  if◌then◌else◌, Bool-cases, inl, inr, arith, All, All-append, All-mono, Bytes, codes, str_eq,
  str_eq_refl,
}
use lcdproc.ScreenList.{Ptr, null, Screen, Rotation, screen_create, get_screen, screenlist_add}
use lcdproc.ScreenList.Process.{client_add_screen}
use lcdproc.ScreenList.Notices.{InTouch, announced}
use lcdproc.ScreenList.Top.{IsReadable, WellFormed, readable_not_null}
use lcdproc.Commands.{
  Client, Server, Setup, Outcome, when_ack, send_string, send_error, success, find_screen_in,
  client_find_screen,
}
use lcdproc.Commands.Sound.{NoRepeat, OwnedBy, Sound, Sound-IsReadable, NoRepeat-push}
use lcdproc.Commands.ScreenCommands.{create_at, add_screen, screen_add_func}

-- An address that `malloc` may give to a screen.
pub record IsFree (r : Rotation) (fresh : Ptr) : Type 0 where
  pub not_null : fresh ≢ null
  pub unused : r.screens fresh ≡ none

pub find_screen_in-total :
    (r : Rotation) (xs : List Ptr) (id : Bytes)
    → All (IsReadable r) xs
    → (p : Ptr) × (find_screen_in r xs id ≡ some p)
unfolding find_screen_in
find_screen_in-total r [] id h = (null, refl)
find_screen_in-total r (x ∷ xs) id ((y, e), h) = elim (Bool-cases (str_eq y.id id)) [
  | inl t ↦ (x, rw (e, t))
  | inr f ↦ let (p, go) = find_screen_in-total r xs id h in (p, rw (e, f) go)
]

module _ (setup : Setup) (fresh : Ptr) (id : Bytes) (c : Ptr) (r : Rotation)
    (free : IsFree r fresh) where
  -- The rotation with the new screen.
  abbrev pub with_screen : Rotation
  with_screen = record (create_at setup fresh id c r) {
    screenlist = r.screenlist ++ fresh ∷ [];
    client_screens = λ d. if d == c then r.client_screens d ++ fresh ∷ [] else r.client_screens d;
  }

  pub with_screen-new :
      get_screen with_screen fresh
      ≡ some (screen_create setup.display setup.default_duration setup.default_timeout id c)
  unfolding get_screen
  with_screen-new = ground (arith, free.not_null)

  pub with_screen-old :
      (u : Ptr) (y : Screen) → get_screen r u ≡ some y → get_screen with_screen u ≡ some y
  unfolding get_screen
  with_screen-old u y e = elim (Bool-cases (u == fresh)) [
    | inl t ↦ absurd (ground (arith, t, e, free.unused))
    | inr n ↦ ground (arith, n, e)
  ]

  with_screen-IsReadable : (u : Ptr) → IsReadable r u → IsReadable with_screen u
  with_screen-IsReadable u (y, e) = (y, with_screen-old u y e)

  with_screen-announced :
      InTouch r
      → announced (get_screen r r.current_screen)
        ≡ announced (get_screen with_screen r.current_screen)
  unfolding get_screen
  with_screen-announced i = elim (Bool-cases (r.current_screen == null)) [
    | inl z ↦ ground (arith, z)
    | inr n ↦
        let (y, e) = i.readable (ground (arith, n)) in
        ap announced (e ∙ sym (with_screen-old r.current_screen y e))
  ]

  grown : (xs : List Ptr) → All (IsReadable r) xs → All (IsReadable with_screen) (xs ++ fresh ∷ [])
  grown xs h =
      All-append (IsReadable with_screen) xs (fresh ∷ [])
        (All-mono (IsReadable r) (IsReadable with_screen) xs with_screen-IsReadable h)
        ((_, with_screen-new), tt)

  grown_owned : (d : Ptr) (xs : List Ptr) → All (OwnedBy r d) xs → All (OwnedBy with_screen d) xs
  grown_owned d xs h =
      All-mono (OwnedBy r d) (OwnedBy with_screen d) xs
        (λ u (y, e, o). (y, with_screen-old u y e, o)) h

  unused-ne : (u : Ptr) → IsReadable r u → u ≢ fresh
  unfolding get_screen
  unused-ne u (y, e) same = ground (arith, same, e, free.unused)

  grown-NoRepeat :
      (xs : List Ptr) → All (IsReadable r) xs → NoRepeat xs → NoRepeat (xs ++ fresh ∷ [])
  grown-NoRepeat xs h n =
      NoRepeat-push xs fresh (All-mono (IsReadable r) (λ y. y ≢ fresh) xs unused-ne h) n

  with_screen-WellFormed : WellFormed r → WellFormed with_screen
  with_screen-WellFormed w = record {
    readable = grown r.screenlist w.readable;
    listed = λ ne. mem-append_left (fresh ∷ []) (w.listed ne);
    in_touch = record {
      in_turn = w.in_touch.in_turn;
      readable = λ ne. with_screen-IsReadable r.current_screen (w.in_touch.readable ne);
      current_is = w.in_touch.current_is ∙ with_screen-announced w.in_touch;
    };
  }

  new_owned : (d : Ptr) → (d == c) ≡ true → OwnedBy with_screen d fresh
  new_owned d y = (_, with_screen-new, ground (arith, y))

  pub with_screen-Sound : Sound r → Sound with_screen
  with_screen-Sound s = record {
    well_formed = with_screen-WellFormed s.well_formed;
    once = grown-NoRepeat r.screenlist s.well_formed.readable s.once;
    owned = λ d. elim (Bool-cases (d == c)) [
      | inl y ↦ rw y (
          All-append (OwnedBy with_screen d) (r.client_screens d) (fresh ∷ [])
            (grown_owned d (r.client_screens d) (s.owned d)) (new_owned d y, tt))
      | inr n ↦ rw n (grown_owned d (r.client_screens d) (s.owned d))
    ];
    each_once = λ d. elim (Bool-cases (d == c)) [
      | inl y ↦ rw y (grown-NoRepeat (r.client_screens d) (Sound-IsReadable s d) (s.each_once d))
      | inr n ↦ rw n (s.each_once d)
    ];
  }

  pub client_add_screen_lem :
      c ≢ null → client_add_screen c fresh (create_at setup fresh id c r) ≡ (true, with_screen)
  unfolding client_add_screen screenlist_add
  client_add_screen_lem ne =
      let nc : (c == null) ≡ false = ground (arith, ne) in
      let nf : (fresh == null) ≡ false = ground (arith, free.not_null) in rw (nc, nf)

  find-new :
      (xs : List Ptr)
      → All (IsReadable r) xs
      → find_screen_in r xs id ≡ some null
      → find_screen_in with_screen (xs ++ fresh ∷ []) id ≡ some fresh
  unfolding find_screen_in
  find-new [] h e = rw (with_screen-new, str_eq_refl id)
  find-new (x ∷ xs) ((y, g), h) e = elim (Bool-cases (str_eq y.id id)) [
    | inl t ↦
        let same : some x ≡ some null = rw (g, t) at e in
        absurd (ground (arith, same, readable_not_null r x (y, g)))
    | inr f ↦ rw (with_screen-old x y g, f) (find-new xs h (rw (g, f) at e))
  ]

-- The client can use a screen of that name.
abbrev pub HasScreen : Ptr → Bytes → Rotation → Type 0
HasScreen c id r = (p : Ptr) × (client_find_screen c id r ≡ some p) × (p ≢ null)

add_screen-HasScreen :
    (setup : Setup) (fresh c : Ptr) (cmd id : Bytes) (s : Server)
    → Sound s.rotation
    → IsFree s.rotation fresh
    → c ≢ null
    → (s' : Server) × (add_screen setup fresh c (cmd ∷ id ∷ []) s ≡ some (false, s'))
      × Sound s'.rotation
      × HasScreen c id s'.rotation
unfolding add_screen client_find_screen send_error send_string
add_screen-HasScreen setup fresh c cmd id s sound free ne =
    let nc : (c == null) ≡ false = ground (arith, ne) in
    let nf : (fresh == null) ≡ false = ground (arith, free.not_null) in
    let own = s.rotation.client_screens c in
    let (p, go) = find_screen_in-total s.rotation own id (Sound-IsReadable sound c) in
    elim (Bool-cases (p == null)) [
      | inr n ↦ (
        send_error c (codes "Screen already exists\n") s,
        rw (nc, go, n),
        sound,
        (p, rw nc go, ground (arith, n)),
      )
      | inl z ↦
          let none_yet : find_screen_in s.rotation own id ≡ some null = go ∙ ground (arith, z) in
          let r = with_screen setup fresh id c s.rotation free in
          let self : (c == c) ≡ true = ground arith in
          let added = client_add_screen_lem setup fresh id c s.rotation free ne in
          (
            send_string c success (record s { rotation = r }),
            rw (nc, go, z, nf, added),
            with_screen-Sound setup fresh id c s.rotation free sound,
            (
              fresh,
              rw (nc, self)
                  (find-new setup fresh id c s.rotation free own (Sound-IsReadable sound c)
                    none_yet),
              free.not_null,
            ),
          )
    ]

pub when_ack-some :
    (c : Ptr) (s : Server) (x : Client) (body : Client → Outcome)
    → s.clients c ≡ some x
    → x.ack ≡ true
    → when_ack c s body ≡ body x
unfolding when_ack
when_ack-some c s x body e a = rw e (ap (λ b. if not b then some (true, s) else body x) a)

-- screen_add with one argument, from a client that has said hello and a sound state, with a free
-- address for the screen, ends; the state stays sound, and client_find_screen then finds a
-- screen of that name, whether it was there before or not.
pub screen_add-HasScreen :
    (setup : Setup) (fresh c : Ptr) (cmd id : Bytes) (s : Server) (x : Client)
    → s.clients c ≡ some x
    → x.ack ≡ true
    → Sound s.rotation
    → IsFree s.rotation fresh
    → c ≢ null
    → (s' : Server) × (screen_add_func setup fresh c (cmd ∷ id ∷ []) s ≡ some (false, s'))
      × Sound s'.rotation
      × HasScreen c id s'.rotation
unfolding screen_add_func when_ack
screen_add-HasScreen setup fresh c cmd id s x e a sound free ne =
    rw (e, a) (add_screen-HasScreen setup fresh c cmd id s sound free ne)
