-- ===== src/System/ScreenLines.antt =====
-- The commands of server/commands/screen_commands.c and widget_commands.c in a live state.
use lcdproc.Prelude.{
  ◌≡◌, refl, sym, ◌∙◌, ap, subst, false, Option, none, some, List, [], ◌∷◌, ◌==◌, Bool-cases, ◌⊎◌,
  inl, inr, arith, Bytes,
}
use lcdproc.ScreenList.{Ptr, null, Screen, Rotation, Display, get_screen, erase}
use lcdproc.Widgets.{Place, remove_widget}
use lcdproc.Commands.{Server, Setup, send_string, send_error, success}
use lcdproc.Commands.ScreenCommands.{
  add_screen, screen_add_func, delete_screen, screen_del_func, screen_set_func,
}
use lcdproc.Commands.WidgetCommands.{
  with_widgets, add_to_screen, widget_add_func, delete_found, delete_widget, widget_del_func,
  set_widget, widget_set_func,
}
use lcdproc.Commands.Adding.{IsFree, with_screen, client_add_screen_lem}
use lcdproc.Commands.Deleting.{freed, client_erased, removed_lem, destroyed_lem}
use lcdproc.Commands.Finding.{client_find_screen-OwnedBy}
use lcdproc.Commands.Setting.{set_screen-Keeps}
use lcdproc.Commands.Stored.{Refused}
use lcdproc.Commands.WidgetAdding.{InFrame, NotAddable, AddsWidget, add_to_screen-Ended}
use lcdproc.Commands.WidgetSetting.{Unwritable, Writes, set_widget-Writes}
use lcdproc.System.Housed.{with_screen-Housed}
use lcdproc.System.Destroyed.{away, freed-Housed}
use lcdproc.System.Live.{
  Connected, Live, Fine, Connected-ne, Live-replies, Live-send_string, Live-send_error,
  Live-Refused, Live-rotation, Live-store, when_ack-Fine,
}

module _ (c : Ptr) where
  refused-Fine : (text : Bytes) (s : Server) → Live s → Fine (some (false, send_error c text s))
  refused-Fine text s l = (false, _, refl, Live-send_error c text s l)

  -- A new screen is no screen of a client that is gone.
  added-Live :
      (setup : Setup) (fresh : Ptr) (id : Bytes) (s : Server) (free : IsFree s.rotation fresh)
      → Connected s c
      → Live s
      → Live (record s { rotation = with_screen setup fresh id c s.rotation free })
  added-Live setup fresh id s free (x, e) l =
      Live-rotation s (with_screen setup fresh id c s.rotation free) l
        (with_screen-Housed setup fresh id c s.rotation free l.housed)
        (λ d gone. elim (Bool-cases (d == c)) [
          | inl y ↦
              let same : d ≡ c = ground (arith, y) in
              let bad : none ≡ some x = sym gone ∙ ap s.clients same ∙ e in
              absurd (ground (arith, bad))
          | inr n ↦ rw n (l.nothing_left d gone)
        ])

  add_screen-Fine :
      (setup : Setup) (fresh : Ptr) (argv : List Bytes) (s : Server)
      → IsFree s.rotation fresh
      → Connected s c
      → Live s
      → Fine (add_screen setup fresh c argv s)
  unfolding add_screen
  add_screen-Fine setup fresh [] s free at l = refused-Fine _ s l
  add_screen-Fine setup fresh (cmd ∷ []) s free at l = refused-Fine _ s l
  add_screen-Fine setup fresh (cmd ∷ a ∷ b ∷ rest) s free at l = refused-Fine _ s l
  add_screen-Fine setup fresh (cmd ∷ id ∷ []) s free at l =
      let nc = Connected-ne s c l at in
      let nf : (fresh == null) ≡ false = ground (arith, free.not_null) in
      let (p, go, _) = client_find_screen-OwnedBy c id s.rotation l.housed.sound nc in
      rw go (elim (Bool-cases (p == null)) [
        | inr n ↦ rw n (refused-Fine _ s l)
        | inl z ↦
            rw (z, nf, client_add_screen_lem setup fresh id c s.rotation free nc)
              (false, _, refl, Live-send_string c success _ (added-Live setup fresh id s free at l))
      ])

  pub screen_add-Fine :
      (setup : Setup) (fresh : Ptr) (argv : List Bytes) (s : Server)
      → IsFree s.rotation fresh
      → Connected s c
      → Live s
      → Fine (screen_add_func setup fresh c argv s)
  unfolding screen_add_func
  screen_add-Fine setup fresh argv s free (x, e) l =
      when_ack-Fine c s x _ e l (add_screen-Fine setup fresh argv s free (x, e) l)

  -- A client without screens loses none.
  erased_none :
      (p : Ptr) (r : Rotation) (d : Ptr)
      → r.client_screens d ≡ []
      → (client_erased c p r).client_screens d ≡ []
  unfolding erase
  erased_none p r d e = elim (Bool-cases (d == c)) [ inl y ↦ rw (y, e) refl | inr n ↦ rw n e ]

  delete_screen-Fine :
      (argv : List Bytes) (s : Server) → Connected s c → Live s → Fine (delete_screen c argv s)
  unfolding delete_screen send_string
  delete_screen-Fine [] s at l = refused-Fine _ s l
  delete_screen-Fine (cmd ∷ []) s at l = refused-Fine _ s l
  delete_screen-Fine (cmd ∷ a ∷ b ∷ rest) s at l = refused-Fine _ s l
  delete_screen-Fine (cmd ∷ id ∷ []) s at l =
      let h = l.housed in
      let nc = Connected-ne s c l at in
      let (p, go, owner) = client_find_screen-OwnedBy c id s.rotation h.sound nc in
      rw go (elim (Bool-cases (p == null)) [
        | inl z ↦ rw z (refused-Fine _ s l)
        | inr n ↦
            let own = owner n in
            let ne = away c p s.rotation h nc own in
            let (r1, e1, w, list, mem, lists) =
              removed_lem c p h.own.0 s.rotation h.sound nc own ne h.own.1 in
            let e2 =
              destroyed_lem c p h.own.0 s.rotation h.sound nc own ne h.own.1 r1 w list mem lists in
            rw (n, e1, e2)
              (
                false,
                _,
                refl,
                Live-replies (record s { rotation = freed p r1 }) _
                    (Live-rotation s (freed p r1) l
                      (freed-Housed c p s.rotation h nc own r1 w list mem lists)
                      (λ d gone.
                        ap (λ f. f d) lists ∙ erased_none p s.rotation d (l.nothing_left d gone))),
              )
      ])

  pub screen_del-Fine :
      (argv : List Bytes) (s : Server) → Connected s c → Live s → Fine (screen_del_func c argv s)
  unfolding screen_del_func
  screen_del-Fine argv s (x, e) l = when_ack-Fine c s x _ e l (delete_screen-Fine argv s (x, e) l)

  pub screen_set-Fine :
      (argv : List Bytes) (s : Server) → Connected s c → Live s → Fine (screen_set_func c argv s)
  unfolding screen_set_func
  screen_set-Fine argv s (x, e) l =
      let (s', go, l') =
        set_screen-Keeps Live Live-replies Live-store c x argv s l.housed.sound
          (Connected-ne s c l (x, e)) l in
      when_ack-Fine c s x _ e l (false, s', go, l')

  -- A name given with `-in` is the name of a frame, if a widget of the screen has it.
  abbrev pub FramesNamed : List Bytes → Server → Type 0
  FramesNamed (cmd ∷ sid ∷ wid ∷ typename ∷ flags) s = InFrame c sid flags s
  FramesNamed _ s = Unit

  added_widget-Live :
      (sid wid typename : Bytes) (flags : List Bytes) (s s' : Server)
      → Live s
      → ((Refused c s s' × NotAddable c sid typename flags s)
          ⊎ AddsWidget c sid wid typename flags s s')
      → Live s'
  added_widget-Live sid wid typename flags s s' l (inl r) = Live-Refused c s s' l r.0
  added_widget-Live sid wid typename flags s s' l (inr a) =
      subst Live (sym a.told)
        (Live-send_string c success _ (Live-store a.screen a.before a.after s a.was a.same l))

  add_to_screen-Fine :
      (argv : List Bytes) (s : Server)
      → FramesNamed argv s
      → Connected s c
      → Live s
      → Fine (add_to_screen c argv s)
  unfolding add_to_screen
  add_to_screen-Fine [] s f at l = refused-Fine _ s l
  add_to_screen-Fine (cmd ∷ []) s f at l = refused-Fine _ s l
  add_to_screen-Fine (cmd ∷ sid ∷ []) s f at l = refused-Fine _ s l
  add_to_screen-Fine (cmd ∷ sid ∷ wid ∷ []) s f at l = refused-Fine _ s l
  add_to_screen-Fine (cmd ∷ sid ∷ wid ∷ typename ∷ flags) s f at l =
      let (s', go, _, r) =
        add_to_screen-Ended c sid wid typename s l.housed.sound (Connected-ne s c l at) cmd flags
          f in
      (false, s', go, added_widget-Live sid wid typename flags s s' l r)

  pub widget_add-Fine :
      (argv : List Bytes) (s : Server)
      → FramesNamed argv s
      → Connected s c
      → Live s
      → Fine (widget_add_func c argv s)
  unfolding widget_add_func
  widget_add-Fine argv s f (x, e) l =
      when_ack-Fine c s x _ e l (add_to_screen-Fine argv s f (x, e) l)

  delete_found-Fine :
      (p : Ptr) (x : Screen) (found : Option Place) (s : Server)
      → get_screen s.rotation p ≡ some x
      → Live s
      → Fine (delete_found c p x found s)
  unfolding delete_found
  delete_found-Fine p x none s at l = refused-Fine _ s l
  delete_found-Fine p x (some place) s at l = (
    false,
    _,
    refl,
    Live-send_string c success _
        (Live-store p x (with_widgets x (remove_widget place x.widgets)) s at (refl, refl) l),
  )

  delete_widget-Fine :
      (argv : List Bytes) (s : Server) → Connected s c → Live s → Fine (delete_widget c argv s)
  unfolding delete_widget
  delete_widget-Fine [] s at l = refused-Fine _ s l
  delete_widget-Fine (cmd ∷ []) s at l = refused-Fine _ s l
  delete_widget-Fine (cmd ∷ sid ∷ []) s at l = refused-Fine _ s l
  delete_widget-Fine (cmd ∷ sid ∷ wid ∷ a ∷ rest) s at l = refused-Fine _ s l
  delete_widget-Fine (cmd ∷ sid ∷ wid ∷ []) s at l =
      let nc = Connected-ne s c l at in
      let (p, go, own) = client_find_screen-OwnedBy c sid s.rotation l.housed.sound nc in
      rw go (elim (Bool-cases (p == null)) [
        | inl z ↦ rw z (refused-Fine _ s l)
        | inr n ↦ let (x, is, _) = own n in rw (n, is) (delete_found-Fine p x _ s is l)
      ])

  pub widget_del-Fine :
      (argv : List Bytes) (s : Server) → Connected s c → Live s → Fine (widget_del_func c argv s)
  unfolding widget_del_func
  widget_del-Fine argv s (x, e) l = when_ack-Fine c s x _ e l (delete_widget-Fine argv s (x, e) l)

  written-Live :
      (display : Display) (sid wid : Bytes) (args : List Bytes) (s s' : Server)
      → Live s
      → ((Refused c s s' × Unwritable c sid wid s) ⊎ Writes display c sid wid args s s')
      → Live s'
  written-Live display sid wid args s s' l (inl r) = Live-Refused c s s' l r.0
  written-Live display sid wid args s s' l (inr a) =
      subst Live (sym a.is_written)
        (Live-replies _ _ (Live-store a.screen a.before a.after s a.was a.same l))

  set_widget-Fine :
      (display : Display) (argv : List Bytes) (s : Server)
      → Connected s c
      → Live s
      → Fine (set_widget display c argv s)
  unfolding set_widget
  set_widget-Fine display [] s at l = refused-Fine _ s l
  set_widget-Fine display (cmd ∷ []) s at l = refused-Fine _ s l
  set_widget-Fine display (cmd ∷ sid ∷ []) s at l = refused-Fine _ s l
  set_widget-Fine display (cmd ∷ sid ∷ wid ∷ []) s at l = refused-Fine _ s l
  set_widget-Fine display (cmd ∷ sid ∷ wid ∷ arg ∷ args) s at l =
      let (s', go, _, r) =
        set_widget-Writes display c cmd sid wid arg args s l.housed.sound (Connected-ne s c l at) in
      (false, s', go, written-Live display sid wid (arg ∷ args) s s' l r)

  pub widget_set-Fine :
      (display : Display) (argv : List Bytes) (s : Server)
      → Connected s c
      → Live s
      → Fine (widget_set_func display c argv s)
  unfolding widget_set_func
  widget_set-Fine display argv s (x, e) l =
      when_ack-Fine c s x _ e l (set_widget-Fine display argv s (x, e) l)
