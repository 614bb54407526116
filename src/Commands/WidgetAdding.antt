-- ===== src/Commands/WidgetAdding.antt =====
-- `widget_add` and `widget_del` of server/commands/widget_commands.c.
use lcdproc.Prelude.{
  ◌≡◌, ◌≢◌, refl, ◌∙◌, true, false, Option, none, some, List, [], ◌∷◌, ◌==◌, Bool-cases, ◌⊎◌, inl,
  inr, arith, ◌≤◌, length, if◌then◌else◌, Bytes, codes, str_eq,
}
use lcdproc.ScreenList.{Ptr, null, Screen, get_screen}
use lcdproc.Widgets.{
  WidgetType, Widgets, Place, widget_create, find_widget, add_widget, remove_widget,
}
use lcdproc.Widgets.Names.{widget_typename_to_type}
use lcdproc.Widgets.Added.{Adds, frame_at, add_widget-Adds, add_in_frame-Adds, add_in_frame-some}
use lcdproc.Commands.{
  Server, Outcome, send_string, send_error, success, strip_dash, client_find_screen,
}
use lcdproc.Commands.ScreenCommands.{store_screen}
use lcdproc.Commands.WidgetCommands.{
  with_widgets, is_none, place_widget, place_in_frame, add_with_flags, add_checked, add_to_screen,
  delete_found, delete_widget,
}
use lcdproc.Commands.Sound.{Sound}
use lcdproc.Commands.Finding.{client_find_screen-OwnedBy}
use lcdproc.Commands.Stored.{Same, Refused, stored-Sound, stored_at}

-- The list that a widget is meant for: that of the screen, or of the frame at the place that the
-- name behind `-in` means; none if there is no such name, no such widget or one argument too many.
unfoldable pub container : List Bytes → Widgets → Option Place
container [] ws = some []
container (flag ∷ []) ws = if str_eq (strip_dash flag) (codes "in") then none else some []
container (flag ∷ frame ∷ []) ws =
    if str_eq (strip_dash flag) (codes "in") then find_widget frame ws else some []
container (flag ∷ frame ∷ more ∷ rest) ws = none

-- No widget can be added: the client has no such screen, the type is unknown, or the screen has no
-- such list.
abbrev pub NotAddable : Ptr → Bytes → Bytes → List Bytes → Server → Type 0
NotAddable c sid typename flags s =
    (p : Ptr) × (client_find_screen c sid s.rotation ≡ some p)
    × ((p ≡ null)
        ⊎ ((x : Screen) × (get_screen s.rotation p ≡ some x)
            × ((is_none (widget_typename_to_type typename) ≡ true)
                ⊎ (container flags x.widgets ≡ none))))

-- A widget of the name and the type, which is known, has been added to the screen named, or to the
-- frame of it that is named.
pub record AddsWidget (c : Ptr) (sid wid typename : Bytes) (flags : List Bytes) (s s' : Server)
    : Type 0 where
  pub screen : Ptr
  pub before : Screen
  pub after : Screen
  pub into : Place
  pub asked : client_find_screen c sid s.rotation ≡ some screen
  pub was : get_screen s.rotation screen ≡ some before
  pub now : get_screen s'.rotation screen ≡ some after
  pub is_known : is_none (widget_typename_to_type typename) ≡ false
  pub meant_for : container flags before.widgets ≡ some into
  pub added :
      Adds into (widget_create wid (widget_typename_to_type typename)) before.widgets after.widgets
  pub only_widgets : after ≡ with_widgets before after.widgets
  pub same : Same before after
  pub told : s' ≡ send_string c success (store_screen screen after s)

-- A name given with `-in` is the name of a frame, if a widget has it.
abbrev pub NamesFrame : List Bytes → Widgets → Type 0
NamesFrame (flag ∷ frame ∷ rest) ws =
    (place : Place)
    → str_eq (strip_dash flag) (codes "in") ≡ true
    → find_widget frame ws ≡ some place
    → (subs : Widgets) × (frame_at place ws ≡ some subs)
NamesFrame _ ws = Unit

-- So it is on the screen that a client means.
abbrev pub InFrame : Ptr → Bytes → List Bytes → Server → Type 0
InFrame c sid flags s =
    (p : Ptr) (x : Screen)
    → client_find_screen c sid s.rotation ≡ some p
    → get_screen s.rotation p ≡ some x
    → NamesFrame flags x.widgets

module _ (c p : Ptr) (sid wid typename : Bytes) (s : Server) (x : Screen)
    (asked : client_find_screen c sid s.rotation ≡ some p) (at : get_screen s.rotation p ≡ some x)
    (d : Sound s.rotation) (m : is_none (widget_typename_to_type typename) ≡ false)
    (flags : List Bytes) where
  abbrev type : WidgetType
  type = widget_typename_to_type typename

  -- A run that ends with an error reported, or with the widget added.
  abbrev Ends : Outcome → Type 0
  Ends outcome =
      (s' : Server) × (outcome ≡ some (false, s'))
      × Sound s'.rotation
      × ((Refused c s s' × NotAddable c sid typename flags s)
          ⊎ AddsWidget c sid wid typename flags s s')

  -- An outcome is replaced by one that is equal to it.
  Ends-eq : {o o' : Outcome} → Ends o' → o ≡ o' → Ends o
  Ends-eq (s', go, d', r) e = (s', e ∙ go, d', r)

  stored-Ends :
      (into : Place) (ws : Widgets)
      → container flags x.widgets ≡ some into
      → Adds into (widget_create wid type) x.widgets ws
      → Ends (some (false, send_string c success (store_screen p (with_widgets x ws) s)))
  unfolding send_string store_screen
  stored-Ends into ws f a = (
    _,
    refl,
    stored-Sound p x (with_widgets x ws) s at (refl, refl) d,
    inr (record {
      screen = p;
      before = x;
      after = with_widgets x ws;
      into = into;
      asked = asked;
      was = at;
      now = stored_at p x (with_widgets x ws) s at;
      is_known = m;
      meant_for = f;
      added = a;
      only_widgets = refl;
      same = (refl, refl);
      told = refl;
    }),
  )

  refused-Ends :
      (text : Bytes) → container flags x.widgets ≡ none → Ends (some (false, send_error c text s))
  unfolding send_error
  refused-Ends text f = (_, refl, d, inl ((text, refl), (p, asked, inr (x, at, inr f))))

  place_widget-Ends : container flags x.widgets ≡ some [] → Ends (place_widget c p x wid type s)
  unfolding place_widget
  place_widget-Ends f =
      stored-Ends [] (add_widget (widget_create wid type) type x.widgets) f
        (add_widget-Adds (widget_create wid type) type x.widgets)

  place_in_frame-Ends :
      (found : Option Place)
      → container flags x.widgets ≡ found
      → ((place : Place)
          → found ≡ some place
          → (subs : Widgets) × (frame_at place x.widgets ≡ some subs))
      → Ends (place_in_frame c p x wid type found s)
  unfolding place_in_frame
  place_in_frame-Ends none f h = refused-Ends (codes "Error finding frame\n") f
  place_in_frame-Ends (some place) f h =
      let (subs, e) = h place refl in
      let (ws, go) = add_in_frame-some place (widget_create wid type) type x.widgets subs e in
      rw go (
        stored-Ends place ws f
          (add_in_frame-Adds place (widget_create wid type) type x.widgets ws go))

module _ (c p : Ptr) (sid wid typename : Bytes) (s : Server) (x : Screen)
    (asked : client_find_screen c sid s.rotation ≡ some p) (at : get_screen s.rotation p ≡ some x)
    (d : Sound s.rotation) (m : is_none (widget_typename_to_type typename) ≡ false) where
  add_with_flags-Ends :
      (flags : List Bytes)
      → length flags ≤ 2
      → NamesFrame flags x.widgets
      → Ends c p sid wid typename s x asked at d m flags
          (add_with_flags c p x wid (widget_typename_to_type typename) flags s)
  unfolding add_with_flags container
  add_with_flags-Ends [] two h = place_widget-Ends c p sid wid typename s x asked at d m [] refl
  add_with_flags-Ends (flag ∷ []) two h =
      elim (Bool-cases (str_eq (strip_dash flag) (codes "in"))) [
        | inl y ↦
            Ends-eq c p sid wid typename s x asked at d m (flag ∷ [])
              (refused-Ends c p sid wid typename s x asked at d m (flag ∷ [])
                (codes "Specify a frame to place widget in\n") (rw y refl))
              (rw y refl)
        | inr n ↦
            Ends-eq c p sid wid typename s x asked at d m (flag ∷ [])
              (place_widget-Ends c p sid wid typename s x asked at d m (flag ∷ []) (rw n refl))
              (rw n refl)
      ]
  add_with_flags-Ends (flag ∷ frame ∷ []) two h =
      elim (Bool-cases (str_eq (strip_dash flag) (codes "in"))) [
        | inl y ↦
            Ends-eq c p sid wid typename s x asked at d m (flag ∷ frame ∷ [])
              (place_in_frame-Ends c p sid wid typename s x asked at d m (flag ∷ frame ∷ [])
                (find_widget frame x.widgets) (rw y refl) (λ place. h place y))
              (rw y refl)
        | inr n ↦
            Ends-eq c p sid wid typename s x asked at d m (flag ∷ frame ∷ [])
              (place_widget-Ends c p sid wid typename s x asked at d m (flag ∷ frame ∷ [])
                (rw n refl))
              (rw n refl)
      ]
  add_with_flags-Ends (flag ∷ frame ∷ more ∷ rest) two h = absurd (omega arith)

module _ (c : Ptr) (sid wid typename : Bytes) (s : Server) (d : Sound s.rotation)
    (ne : c ≢ null) where
  abbrev Ended : List Bytes → Outcome → Type 0
  Ended flags outcome =
      (s' : Server) × (outcome ≡ some (false, s'))
      × Sound s'.rotation
      × ((Refused c s s' × NotAddable c sid typename flags s)
          ⊎ AddsWidget c sid wid typename flags s s')

  Ended-eq : {flags : List Bytes} {o o' : Outcome} → Ended flags o' → o ≡ o' → Ended flags o
  Ended-eq (s', go, d', r) e = (s', e ∙ go, d', r)

  refused-Ended :
      (flags : List Bytes) (text : Bytes)
      → NotAddable c sid typename flags s
      → Ended flags (some (false, send_error c text s))
  unfolding send_error
  refused-Ended flags text not = (_, refl, d, inl ((text, refl), not))

  add_checked-Ended :
      (flags : List Bytes)
      → length flags ≤ 2
      → InFrame c sid flags s
      → Ended flags (add_checked c sid wid typename flags s)
  unfolding add_checked
  add_checked-Ended flags two h =
      let (p, go, own) = client_find_screen-OwnedBy c sid s.rotation d ne in
      elim (Bool-cases (p == null)) [
        | inl z ↦
            Ended-eq
              (refused-Ended flags (codes "Invalid screen id\n") (p, go, inl (ground (arith, z))))
              (rw (go, z) refl)
        | inr n ↦
            let (x, at, _) = own n in
            elim (Bool-cases (is_none (widget_typename_to_type typename))) [
              | inl y ↦
                  Ended-eq
                    (refused-Ended flags (codes "Invalid widget type\n")
                      (p, go, inr (x, at, inl y)))
                    (rw (go, n, y) refl)
              | inr m ↦
                  Ended-eq
                    (add_with_flags-Ends c p sid wid typename s x go at d m flags two (h p x go at))
                    (rw (go, n, m, at) refl)
            ]
      ]

  too_many :
      (flag frame more : Bytes) (rest : List Bytes)
      → NotAddable c sid typename (flag ∷ frame ∷ more ∷ rest) s
  unfolding container
  too_many flag frame more rest =
      let (p, go, own) = client_find_screen-OwnedBy c sid s.rotation d ne in
      elim (Bool-cases (p == null)) [
        | inl z ↦ (p, go, inl (ground (arith, z)))
        | inr n ↦ let (x, at, _) = own n in (p, go, inr (x, at, inr refl))
      ]

  pub add_to_screen-Ended :
      (cmd : Bytes) (flags : List Bytes)
      → InFrame c sid flags s
      → Ended flags (add_to_screen c (cmd ∷ sid ∷ wid ∷ typename ∷ flags) s)
  unfolding add_to_screen
  add_to_screen-Ended cmd [] h = add_checked-Ended [] (omega arith) h
  add_to_screen-Ended cmd (flag ∷ []) h = add_checked-Ended (flag ∷ []) (omega arith) h
  add_to_screen-Ended cmd (flag ∷ frame ∷ []) h =
      add_checked-Ended (flag ∷ frame ∷ []) (omega arith) h
  add_to_screen-Ended cmd (flag ∷ frame ∷ more ∷ rest) h =
      refused-Ended (flag ∷ frame ∷ more ∷ rest) _ (too_many flag frame more rest)

deleted-Sound :
    (c p : Ptr) (s : Server) (x : Screen)
    → get_screen s.rotation p ≡ some x
    → Sound s.rotation
    → (found : Option Place)
    → (s' : Server) × (delete_found c p x found s ≡ some (false, s')) × Sound s'.rotation
unfolding delete_found send_string send_error
deleted-Sound c p s x at d none = (_, refl, d)
deleted-Sound c p s x at d (some place) =
    (_, refl, stored-Sound p x (with_widgets x (remove_widget place x.widgets)) s at (refl, refl) d)

-- `widget_del`: a run that ends in a sound state.
pub delete_widget-Sound :
    (c : Ptr) (argv : List Bytes) (s : Server)
    → Sound s.rotation
    → c ≢ null
    → (s' : Server) × (delete_widget c argv s ≡ some (false, s')) × Sound s'.rotation
unfolding delete_widget send_error
delete_widget-Sound c [] s d ne = (_, refl, d)
delete_widget-Sound c (cmd ∷ []) s d ne = (_, refl, d)
delete_widget-Sound c (cmd ∷ sid ∷ []) s d ne = (_, refl, d)
delete_widget-Sound c (cmd ∷ sid ∷ wid ∷ arg ∷ args) s d ne = (_, refl, d)
delete_widget-Sound c (cmd ∷ sid ∷ wid ∷ []) s d ne =
    let (p, go, own) = client_find_screen-OwnedBy c sid s.rotation d ne in
    rw go (elim (Bool-cases (p == null)) [
      | inl z ↦ rw z (_, refl, d)
      | inr n ↦
          let (x, at, _) = own n in
          rw (n, at) (deleted-Sound c p s x at d (find_widget wid x.widgets))
    ])
