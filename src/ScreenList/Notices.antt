-- ===== src/ScreenList/Notices.antt =====
-- What clients are told by `screenlist_switch` of server/screenlist.c.
use lcdproc.Prelude.{
  ◌≡◌, ◌≢◌, refl, sym, ◌∙◌, ap, true, false, Option, none, some, List, [], ◌∷◌, ◌==◌, if◌then◌else◌,
  Bool-cases, inl, inr, arith, Bytes,
}
use lcdproc.ScreenList.{
  Ptr, null, Screen, Notice, ignore, listen, Rotation, get_screen, tell, screenlist_switch,
  take_back,
}

-- Who has been told to listen, and to which screen, by notices with the last one first.
abbrev pub listening : List Notice → Option (Ptr × Bytes)
listening [] = none
listening (listen c id ∷ _) = some (c, id)
listening (ignore c id ∷ _) = none

-- A screen is announced when none is, and taken back when it is the one announced.
abbrev pub InTurn : List Notice → Type 0
InTurn [] = Unit
InTurn (listen c id ∷ log) = (listening log ≡ none) × InTurn log
InTurn (ignore c id ∷ log) = (listening log ≡ some (c, id)) × InTurn log

-- The client and the name of a screen; none for a screen of the server.
abbrev pub announced : Option Screen → Option (Ptr × Bytes)
announced none = none
announced (some x) = if x.client == null then none else some (x.client, x.id)

-- The log is in turn, and announces the current screen, which can be read.
pub record InTouch (r : Rotation) : Type 0 where
  pub in_turn : InTurn r.sent
  pub readable : r.current_screen ≢ null → (x : Screen) × (get_screen r r.current_screen ≡ some x)
  pub current_is : listening r.sent ≡ announced (get_screen r r.current_screen)

tell_ignore :
    (x : Screen) (log : List Notice)
    → InTurn log
    → listening log ≡ announced (some x)
    → InTurn (tell ignore x log) × (listening (tell ignore x log) ≡ none)
tell_ignore x log t l = ground arith

tell_listen :
    (x : Screen) (log : List Notice)
    → InTurn log
    → listening log ≡ none
    → InTurn (tell listen x log) × (listening (tell listen x log) ≡ announced (some x))
tell_listen x log t l = ground arith

take_back_lem :
    (r : Rotation)
    → InTouch r
    → (log : List Notice) × (take_back r ≡ some log) × InTurn log × (listening log ≡ none)
unfolding take_back get_screen
take_back_lem r t = elim (Bool-cases (r.current_screen == null)) [
  | inl z ↦ (r.sent, rw z, t.in_turn, t.current_is ∙ rw z)
  | inr n ↦
      let (x, e) = t.readable (ground arith) in
      let (i, l) = tell_ignore x r.sent t.in_turn (t.current_is ∙ ap announced e) in
      (tell ignore x r.sent, rw (n, rw n at e), i, l)
]

switched-InTouch :
    (r : Rotation) (s : Ptr) (x : Screen) (log : List Notice)
    → get_screen r s ≡ some x
    → InTurn log
    → listening log ≡ none
    → InTouch (record r { current_screen = s; start_time = r.timer; sent = tell listen x log })
unfolding get_screen
switched-InTouch r s x log e i l =
    let (i', l') = tell_listen x log i l in
    record { in_turn = i'; readable = λ _. (x, e); current_is = l' ∙ ap announced (sym e) }

readable_ne :
    (s : Ptr) (r : Rotation) (x : Screen)
    → get_screen r s ≡ some x
    → (s == null) ≡ true
    → false ≡ true
unfolding get_screen
readable_ne s r x e z = ground arith

-- screenlist_switch to a screen that can be read makes it the current one, changes neither the
-- list nor the screens, and keeps the log of notices in turn: the screen last announced is the
-- current one.
pub screenlist_switch-InTouch :
    (s : Ptr) (r : Rotation) (x : Screen)
    → InTouch r
    → get_screen r s ≡ some x
    → (r' : Rotation) × (screenlist_switch s r ≡ some r')
      × InTouch r'
      × (r'.current_screen ≡ s)
      × (r'.screenlist ≡ r.screenlist)
      × (r'.screens ≡ r.screens)
unfolding screenlist_switch
screenlist_switch-InTouch s r x t e = elim (Bool-cases (s == null)) [
  | inl z ↦ cc (readable_ne s r x e z)
  | inr n ↦ elim (Bool-cases (s == r.current_screen)) [
    | inl y ↦ (r, rw (n, y), t, ground arith, refl, refl)
    | inr m ↦
        let (log, go, i, l) = take_back_lem r t in
        (_, rw (n, m, go, e), switched-InTouch r s x log e i l, refl, refl, refl)
  ]
]
