-- ===== src/Commands/Deleting.antt =====
-- `screen_del` of server/commands/screen_commands.c, with `client_remove_screen` and
-- `screen_destroy`, while the list has a screen besides.
use mathlib.Core.Logic.{∥∥₁_elim}
use mathlib.Core.List.{Mem, not-mem-nil, eq-or-mem_of_mem-cons}
use lcdproc.Prelude.{
  ◌≡◌, ◌≢◌, sym, ◌∙◌, ap, subst, true, false, none, some, List, [], ◌∷◌, ◌==◌, if◌then◌else◌,
  some_inj, Bool-cases, inl, inr, arith, All, All-mono, Bytes, codes,
}
use lcdproc.ScreenList.{Ptr, null, Screen, Rotation, get_screen, erase, screenlist_remove}
use lcdproc.ScreenList.Process.{client_remove_screen, screen_destroy}
use lcdproc.ScreenList.Notices.{announced}
use lcdproc.ScreenList.Top.{IsReadable, WellFormed, readable_not_null}
use lcdproc.ScreenList.Memory.{screenlist_remove-Unchanged}
use lcdproc.ScreenList.Removal.{All-erase, screenlist_remove-WellFormed}
use lcdproc.Commands.{Client, Server, send_string, send_error, success, client_find_screen}
use lcdproc.Commands.ScreenCommands.{delete_screen, screen_del_func}
use lcdproc.Commands.Adding.{find_screen_in-total, when_ack-some}
use lcdproc.Commands.Finding.{found-OwnedBy}
use lcdproc.Commands.Sound.{
  NoRepeat, OwnedBy, Sound, Sound-IsReadable, NoRepeat-erase, erase-ne, erase_absent,
}

-- The memory behind a screen is freed.
abbrev pub freed : Ptr → Rotation → Rotation
freed p r = record r { screens = λ t. if t == p then none else r.screens t }

module _ (p : Ptr) (r : Rotation) where
  pub freed-old : (u : Ptr) → u ≢ p → get_screen (freed p r) u ≡ get_screen r u
  unfolding get_screen
  freed-old u ne = ground (arith, ne)

  freed-All :
      (P : Rotation → Ptr → Type 0) (xs : List Ptr)
      → ((u : Ptr) → u ≢ p → P r u → P (freed p r) u)
      → All (λ u. u ≢ p) xs
      → All (P r) xs
      → All (P (freed p r)) xs
  freed-All P [] f a h = tt
  freed-All P (x ∷ xs) f a h = (f x a.0 h.0, freed-All P xs f a.1 h.1)

  -- Freeing a screen that is in no list and not shown leaves everything sound.
  freed-WellFormed :
      WellFormed r → All (λ u. u ≢ p) r.screenlist → r.current_screen ≢ p → WellFormed (freed p r)
  freed-WellFormed w a ne = record {
    readable =
        freed-All IsReadable r.screenlist (λ u n (y, e). (y, freed-old u n ∙ e)) a w.readable;
    listed = w.listed;
    in_touch = record {
      in_turn = w.in_touch.in_turn;
      readable = λ n. let (y, e) = w.in_touch.readable n in (y, freed-old r.current_screen ne ∙ e);
      current_is = w.in_touch.current_is ∙ ap announced (sym (freed-old r.current_screen ne));
    };
  }

pub absent : (x p : Ptr) (xs : List Ptr) → Mem x xs → All (λ u. u ≢ p) xs → x ≢ p
absent x p [] m h e = not-mem-nil m
absent x p (y ∷ xs) m h e =
    ∥∥₁_elim (eq-or-mem_of_mem-cons m) (λ a b. absurd a)
      (λ w. elim w [ inl same ↦ h.0 (sym same ∙ e) | inr m' ↦ absent x p xs m' h.1 e ])

-- The list of a client without the screen.
abbrev pub client_erased : Ptr → Ptr → Rotation → Rotation
client_erased c p r = record r {
  client_screens = λ d. if d == c then (erase p (r.client_screens d)).1 else r.client_screens d;
}

client_erased-WellFormed :
    (c p : Ptr) (r : Rotation) → WellFormed r → WellFormed (client_erased c p r)
unfolding get_screen
client_erased-WellFormed c p r w = record {
  readable = w.readable;
  listed = w.listed;
  in_touch = record {
    in_turn = w.in_touch.in_turn;
    readable = w.in_touch.readable;
    current_is = w.in_touch.current_is;
  };
}

module _ (c p o : Ptr) (r : Rotation) (s : Sound r) (nc : c ≢ null) (own : OwnedBy r c p)
    (ne : o ≢ p) (other : Mem o r.screenlist) where
  -- The screens of other clients are not this one.
  others : (d : Ptr) → (d == c) ≡ false → All (λ u. u ≢ p) (r.client_screens d)
  others d n =
      All-mono (OwnedBy r d) (λ u. u ≢ p) (r.client_screens d)
        (λ u (y, e, o1) same.
          let (z, f, o2) = own in
          let e' : get_screen r p ≡ some y = ap (get_screen r) (sym same) ∙ e in
          let yz : y ≡ z = some_inj (sym e' ∙ f) in
          ground (arith, n, sym o1 ∙ ap (λ t. t.client) yz ∙ o2))
        (s.owned d)

  erased-ne : (d : Ptr) → All (λ u. u ≢ p) ((client_erased c p r).client_screens d)
  erased-ne d = elim (Bool-cases (d == c)) [
    | inl y ↦ rw y (erase-ne p (r.client_screens d) (s.each_once d))
    | inr n ↦ rw n (others d n)
  ]

  erased-NoRepeat : (d : Ptr) → NoRepeat ((client_erased c p r).client_screens d)
  erased-NoRepeat d = elim (Bool-cases (d == c)) [
    | inl y ↦ rw y (NoRepeat-erase p (r.client_screens d) (s.each_once d))
    | inr n ↦ rw n (s.each_once d)
  ]

  erased-OwnedBy : (d : Ptr) → All (OwnedBy r d) ((client_erased c p r).client_screens d)
  erased-OwnedBy d = elim (Bool-cases (d == c)) [
    | inl y ↦ rw y (All-erase (OwnedBy r d) p (r.client_screens d) (s.owned d))
    | inr n ↦ rw n (s.owned d)
  ]

  pub not_null : (p == null) ≡ false
  not_null = let (y, e, _) = own in readable_not_null r p (y, e)

  module _ (r1 : Rotation) (w : WellFormed r1) (list : r1.screenlist ≡ (erase p r.screenlist).1)
      (mem : r1.screens ≡ r.screens)
      (own_lists : r1.client_screens ≡ (client_erased c p r).client_screens) where
    pub gone : All (λ u. u ≢ p) r1.screenlist
    gone = subst (All (λ u. u ≢ p)) (sym list) (erase-ne p r.screenlist s.once)

    not_current : r1.current_screen ≢ p
    not_current e = elim (Bool-cases (r1.current_screen == null)) [
      | inl z ↦ ground (arith, z, e, not_null)
      | inr n ↦ absent r1.current_screen p r1.screenlist (w.listed (ground (arith, n))) gone e
    ]

    pub same_memory : (u : Ptr) → get_screen r1 u ≡ get_screen r u
    unfolding get_screen
    same_memory u = rw mem

    still-OwnedBy : (d : Ptr) → All (OwnedBy r1 d) (r1.client_screens d)
    still-OwnedBy d =
        subst (λ f. All (OwnedBy r1 d) (f d)) (sym own_lists)
          (All-mono (OwnedBy r d) (OwnedBy r1 d) ((client_erased c p r).client_screens d)
            (λ u (y, e, k). (y, same_memory u ∙ e, k)) (erased-OwnedBy d))

    pub freed-Sound : Sound (freed p r1)
    freed-Sound = record {
      well_formed = freed-WellFormed p r1 w gone not_current;
      once = subst NoRepeat (sym list) (NoRepeat-erase p r.screenlist s.once);
      owned = λ d.
          freed-All p r1 (λ q u. OwnedBy q d u) (r1.client_screens d)
            (λ u n (y, e, k). (y, freed-old p r1 u n ∙ e, k))
            (subst (λ f. All (λ u. u ≢ p) (f d)) (sym own_lists) (erased-ne d)) (still-OwnedBy d);
      each_once = λ d. subst (λ f. NoRepeat (f d)) (sym own_lists) (erased-NoRepeat d);
    }

    pub destroyed_lem : screen_destroy p r1 ≡ some (freed p r1)
    unfolding screen_destroy screenlist_remove
    destroyed_lem =
        let (y, e, _) = own in
        let at : get_screen r1 p ≡ some y = same_memory p ∙ e in
        let other_shown : (p == r1.current_screen) ≡ false = ground (arith, not_current) in
        let same = erase_absent p r1.screenlist gone in rw (at, other_shown, same)

  -- `client_remove_screen`: the screen is in no list any more.
  pub removed_lem :
      (r1 : Rotation) × (client_remove_screen c p r ≡ some (true, r1))
      × WellFormed r1
      × (r1.screenlist ≡ (erase p r.screenlist).1)
      × (r1.screens ≡ r.screens)
      × (r1.client_screens ≡ (client_erased c p r).client_screens)
  unfolding client_remove_screen
  removed_lem =
      let nc' : (c == null) ≡ false = ground (arith, nc) in
      let (r1, go, list, w) =
        screenlist_remove-WellFormed p o (client_erased c p r)
          (client_erased-WellFormed c p r s.well_formed) (ground (arith, not_null)) ne other in
      let kept = screenlist_remove-Unchanged p (client_erased c p r) _ r1 go in
      (r1, rw (nc', not_null, go), w, list, kept.0, kept.1)

-- A screen of the list that is not the client's, such as the server's own.
pub record HasOther (r : Rotation) (c : Ptr) : Type 0 where
  pub screen : Ptr
  pub value : Screen
  pub listed : Mem screen r.screenlist
  pub readable : get_screen r screen ≡ some value
  pub not_own : value.client ≢ c

pub other-ne : (r : Rotation) (c p : Ptr) (h : HasOther r c) → OwnedBy r c p → h.screen ≢ p
other-ne r c p h (y, e, k) same =
    let e' : get_screen r h.screen ≡ some y = ap (get_screen r) same ∙ e in
    h.not_own (ap (λ t. t.client) (some_inj (sym h.readable ∙ e')) ∙ k)

delete_screen-Sound :
    (c : Ptr) (cmd id : Bytes) (s : Server)
    → Sound s.rotation
    → c ≢ null
    → HasOther s.rotation c
    → (s' : Server) × (delete_screen c (cmd ∷ id ∷ []) s ≡ some (false, s')) × Sound s'.rotation
unfolding delete_screen client_find_screen send_string send_error
delete_screen-Sound c cmd id s d ne h =
    let nc : (c == null) ≡ false = ground (arith, ne) in
    let (p, go) =
      find_screen_in-total s.rotation (s.rotation.client_screens c) id (Sound-IsReadable d c) in
    elim (Bool-cases (p == null)) [
      | inl z ↦ (send_error c (codes "Unknown screen id\n") s, rw (nc, go, z), d)
      | inr n ↦
          let own =
            found-OwnedBy s.rotation c (s.rotation.client_screens c) id p (d.owned c) go n in
          let away = other-ne s.rotation c p h own in
          let (r1, e1, w, list, mem, lists) =
            removed_lem c p h.screen s.rotation d ne own away h.listed in
          let e2 =
            destroyed_lem c p h.screen s.rotation d ne own away h.listed r1 w list mem lists in
          (
            record (send_string c success s) { rotation = freed p r1 },
            rw (nc, go, n, e1, e2),
            freed-Sound c p h.screen s.rotation d ne own away h.listed r1 w list mem lists,
          )
    ]

-- screen_del with one argument, from a client that has said hello and a sound state whose list
-- has a screen of someone else, reads no freed screen, returns 0 and leaves a sound state: the
-- freed screen is in no list and is not the current one.
pub screen_del-Sound :
    (c : Ptr) (cmd id : Bytes) (s : Server) (x : Client)
    → s.clients c ≡ some x
    → x.ack ≡ true
    → Sound s.rotation
    → c ≢ null
    → HasOther s.rotation c
    → (s' : Server) × (screen_del_func c (cmd ∷ id ∷ []) s ≡ some (false, s')) × Sound s'.rotation
unfolding screen_del_func
screen_del-Sound c cmd id s x e a d ne h =
    let (s', go, d') = delete_screen-Sound c cmd id s d ne h in
    (s', when_ack-some c s x (λ _. delete_screen c (cmd ∷ id ∷ []) s) e a ∙ go, d')
