-- ===== src/System/Events.antt =====
-- Every event keeps the server alive.
use mathlib.Core.List.{mem-cons_self}
use lcdproc.Prelude.{
  ℕ, ◌+◌, ◌≡◌, ◌≢◌, refl, sym, ◌∙◌, ap, subst, Bool, true, false, none, some, List, [], ◌∷◌, ◌++◌,
  ◌==◌, >>=-eq-some, if◌then◌else◌, some_inj, inl, inr, arith, Bytes, Option, All, All-mono,
  All-append, Bool-cases,
}
use lcdproc.ScreenList.{Ptr, null, Screen, Rotation, get_screen, screenlist_add}
use lcdproc.ScreenList.Process.{screenlist_process}
use lcdproc.ScreenList.Top.{WellFormed}
use lcdproc.Input.{Input, KeyReservation, handle_key, reserve_key, any_interferes}
use lcdproc.Input.Exclusive
use lcdproc.Commands.{Server, Setup}
use lcdproc.System.{
  System, input_of, after_input, do_key, do_menu, do_frame, started, Event, connect, line,
  key_pressed, menu_changed, frame, disconnect, Reachable, start, next,
}
use lcdproc.Commands.ScreenCommands.{store_screen}
use lcdproc.Commands.Stored.{Same}
use lcdproc.System.MenuScreen.{
  MenuKeys, Drawing, menu_screen, menuscreens_init, reserve_menu_keys, reserve_optional,
  menuscreen_switch_item,
}
use lcdproc.System.ServerScreen.{server_screen_init, server_screen, no_screens}
use lcdproc.System.Housed.{Housed, Steady-Housed}
use lcdproc.System.Live.{Holder, Live, Live-rotation, Live-store}
use lcdproc.System.Frames.{screenlist_process-Housed}
use lcdproc.System.Keys.{handle_key-Housed}
use lcdproc.System.Lines.{parse_message-Live}
use lcdproc.System.Clients.{client_create-Live, client_destroy-LeftNothing}

screenlist_add_lem :
    (p : Ptr) (r : Rotation)
    → p ≢ null
    → screenlist_add p r ≡ (true, record r { screenlist = r.screenlist ++ p ∷ [] })
unfolding screenlist_add
screenlist_add_lem p r np = let n : (p == null) ≡ false = ground (arith, np) in rw n refl

-- Reservations that can be reached, and are the server's.
abbrev Internal : List KeyReservation → Type 0
Internal ks = Exclusive.Reachable ks × All (λ (kr : KeyReservation). kr.client ≡ null) ks

reserve_key-Internal :
    (key : Bytes) (exclusively : Bool) (ks : List KeyReservation)
    → Internal ks
    → Internal (reserve_key key exclusively null ks).1
unfolding reserve_key
reserve_key-Internal key exclusively ks (r, h) =
    let r' = Exclusive.next r (Exclusive.reserve key exclusively null) in
    elim (Bool-cases (any_interferes key exclusively ks)) [
      | inl y ↦ rw y (r, h)
      | inr n ↦
          (r', rw n (All-append (λ (kr : KeyReservation). kr.client ≡ null) ks _ h (refl, tt)))
    ]

reserve_optional-Internal :
    (key : Option Bytes) (ks : List KeyReservation)
    → Internal ks
    → Internal (reserve_optional key ks)
unfolding reserve_optional
reserve_optional-Internal none ks h = h
reserve_optional-Internal (some key) ks h = reserve_key-Internal key false ks h

reserve_menu_keys_lem : (k : MenuKeys) → Internal (reserve_menu_keys k [])
unfolding reserve_menu_keys
reserve_menu_keys_lem k = reserve_optional-Internal k.right_key _ (
    reserve_optional-Internal k.left_key _ (
      reserve_key-Internal k.down_key false _ (
        reserve_key-Internal k.up_key false _ (
          reserve_key-Internal k.enter_key false _
            (reserve_key-Internal k.menu_key true [] (Exclusive.start, tt))))))

-- The rotation at the start, with the menu's screen at `m` and the server's at `p`.
module _ (setup : Setup) (rotates : Bool) (m p : Ptr) (nm : m ≢ null) (np : p ≢ null)
    (other : p ≢ m) where
  abbrev first_rotation : Rotation
  first_rotation = record no_screens {
    screens = λ q.
        if q == p
        then some (server_screen setup rotates)
        else if q == m
        then some (menu_screen setup)
        else none;
    screenlist = m ∷ p ∷ [];
  }

  abbrev menu_rotation : Rotation
  menu_rotation = record no_screens {
    screens = λ q. if q == m then some (menu_screen setup) else none;
    screenlist = m ∷ [];
  }

  menuscreens_init_lem : menuscreens_init setup m no_screens ≡ menu_rotation
  unfolding menuscreens_init
  menuscreens_init_lem = ap (λ q. q.1) (screenlist_add_lem m _ nm)

  server_screen_init_lem :
      server_screen_init setup rotates p (menuscreens_init setup m no_screens) ≡ first_rotation
  unfolding server_screen_init
  server_screen_init_lem =
      ap (server_screen_init setup rotates p) menuscreens_init_lem
      ∙ ap (λ q. q.1) (screenlist_add_lem p _ np)

  at_start : get_screen first_rotation p ≡ some (server_screen setup rotates)
  unfolding get_screen
  at_start =
      let n : (p == null) ≡ false = ground (arith, np) in
      let self : (p == p) ≡ true = ground arith in rw (n, self) refl

  menu_at_start : get_screen first_rotation m ≡ some (menu_screen setup)
  unfolding get_screen
  menu_at_start =
      let n : (m == null) ≡ false = ground (arith, nm) in
      let ne : (m == p) ≡ false = ground (arith, other) in
      let self : (m == m) ≡ true = ground arith in rw (n, ne, self) refl

  first-Housed : Housed first_rotation
  unfolding get_screen
  first-Housed = record {
    sound = record {
      well_formed = record {
        readable = ((_, menu_at_start), ((_, at_start), tt));
        listed = λ ne. absurd (ne refl);
        in_touch = record { in_turn = tt; readable = λ ne. absurd (ne refl); current_is = refl };
      };
      once = ((other, tt), (tt, tt));
      owned = λ c. tt;
      each_once = λ c. tt;
    };
    belongs = ((_, menu_at_start, inl refl), ((_, at_start, inl refl), tt));
    own = (m, mem-cons_self, (_, menu_at_start, refl));
  }

  started-Live :
      (menu_keys : MenuKeys) (input : Input)
      → Live (started setup menu_keys rotates m p input).server
  started-Live menu_keys input =
      let (reachable, keyed) = reserve_menu_keys_lem menu_keys in
      record {
        housed = subst Housed (sym server_screen_init_lem) first-Housed;
        no_null = refl;
        nothing_left = λ c e. ap (λ r. r.client_screens c) server_screen_init_lem;
        reachable = reachable;
        keyed =
            All-mono (λ (kr : KeyReservation). kr.client ≡ null)
              (λ (kr : KeyReservation).
                Holder (started setup menu_keys rotates m p input).server kr.client)
              (reserve_menu_keys menu_keys []) (λ kr z. inl z) keyed;
      }

-- A frame begins.
tick-WellFormed : (r : Rotation) (t : ℕ) → WellFormed r → WellFormed (record r { timer = t })
unfolding get_screen
tick-WellFormed r t w = record {
  readable = w.readable;
  listed = w.listed;
  in_touch = record {
    in_turn = w.in_touch.in_turn;
    readable = w.in_touch.readable;
    current_is = w.in_touch.current_is;
  };
}

pub tick-Housed : (r : Rotation) (t : ℕ) → Housed r → Housed (record r { timer = t })
tick-Housed r t h =
    Steady-Housed r (record r { timer = t }) (refl, refl, refl)
      (tick-WellFormed r t h.sound.well_formed) h

do_frame-Live : (s s' : System) → do_frame s ≡ some s' → Live s.server → Live s'.server
unfolding do_frame
do_frame-Live s s' e l =
    let ticked : Rotation = record s.server.rotation { timer = s.server.rotation.timer + 1 } in
    let (r, go, e1) =
      >>=-eq-some (screenlist_process ticked)
        (λ r. some (record s { server = record s.server { rotation = r } })) e in
    let (h, same) =
      screenlist_process-Housed ticked r go (tick-Housed s.server.rotation _ l.housed) in
    subst (λ t. Live t.server) (some_inj e1)
      (Live-rotation s.server r l h (λ c gone. ap (λ f. f c) same ∙ l.nothing_left c gone))

do_key-Live :
    (pressed : Bytes) (d : Ptr) (s s' : System)
    → do_key pressed d s ≡ some s'
    → Live s.server
    → Live s'.server
unfolding do_key
do_key-Live pressed d s s' e l =
    let (i, go, e1) =
      >>=-eq-some (handle_key pressed d (input_of s)) (λ i. some (after_input s i)) e in
    let (h, same, kept) = handle_key-Housed pressed d (input_of s) i go l.housed in
    let l1 =
      Live-rotation s.server i.rotation l h
        (λ c gone. ap (λ f. f c) same ∙ l.nothing_left c gone) in
    subst (λ t. Live t.server) (some_inj e1)
      (subst (λ ks. Live (record s.server { rotation = i.rotation; keylist = ks })) (sym kept) l1)

switch_item-Same :
    (d : Drawing) (old new : Bool) (x : Screen) → Same x (menuscreen_switch_item d old new x)
unfolding menuscreen_switch_item
switch_item-Same d false false x = (refl, refl)
switch_item-Same d true false x = (refl, refl)
switch_item-Same d false true x = (refl, refl)
switch_item-Same d true true x = (refl, refl)

do_menu-Live :
    (d : Drawing) (active : Bool) (s s' : System)
    → do_menu d active s ≡ some s'
    → Live s.server
    → Live s'.server
unfolding do_menu
do_menu-Live d active s s' e l =
    let m = s.input.menuscreen in
    let (x, at, e1) =
      >>=-eq-some (get_screen s.server.rotation m)
        (λ x. some (record s {
          server = store_screen m (menuscreen_switch_item d s.active active x) s.server;
          active = active;
        }))
        e in
    subst (λ t. Live t.server) (some_inj e1)
      (Live-store m x (menuscreen_switch_item d s.active active x) s.server at
        (switch_item-Same d s.active active x) l)

Event-Live : {s s' : System} → Event s s' → Live s.server → Live s'.server
Event-Live (connect {s} c nc gone) l = client_create-Live c s.server l nc gone
Event-Live (line {s} {server} e c str at free safe go) l =
    let (s1, go1, l1) = parse_message-Live e c str s.server free at safe l in
    subst Live (some_inj (sym go1 ∙ go)) l1
Event-Live (key_pressed {s} {s'} pressed d go) l = do_key-Live pressed d s s' go l
Event-Live (menu_changed {s} {s'} drawing active go) l = do_menu-Live drawing active s s' go l
Event-Live (frame {s} {s'} go) l = do_frame-Live s s' go l
Event-Live (disconnect {s} {server} c at go) l =
    let (s1, go1, l1, _) = client_destroy-LeftNothing c s.server l at in
    subst (λ (q : Bool × Server). Live q.1) (some_inj (sym go1 ∙ go)) l1

-- In every state that the server can reach from its start with the screen of the menu, its own
-- and the reservations of the menu, by clients that come, send lines and go, by keys, by what
-- the menu does to its screen, and by frames, as long as no line has a command on menus, a name
-- behind -in that is not the name of a frame, or a number that is out of range, and no screen
-- expires while it is on display (such a frame reads the screen that it has freed): the list of
-- screens and the current screen can be read, no screen is listed twice, each is the server's or
-- in the list of the client that it names, the server has one, clients that are gone have no
-- screens, and the reservations of keys are reachable and are the server's or of clients that
-- are there.
pub Reachable-Live : {s : System} → Reachable s → Live s.server
Reachable-Live (start setup menu_keys rotates m p input nm np other) =
    started-Live setup rotates m p nm np other menu_keys input
Reachable-Live (next r e) = Event-Live e (Reachable-Live r)
