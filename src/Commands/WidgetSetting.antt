-- ===== src/Commands/WidgetSetting.antt =====
-- `widget_set` of server/commands/widget_commands.c.
use lcdproc.Prelude.{
  ◌≡◌, ◌≢◌, refl, sym, ◌∙◌, ap, subst, true, false, none, some, List, [], ◌∷◌, ◌==◌, Bool-cases,
  Option, Option-cases, ◌⊎◌, inl, inr, arith, Bytes, codes,
}
use lcdproc.Prelude.Int.{ℤ, pos, negsuc}
use lcdproc.ScreenList.{Ptr, null, Screen, Display, get_screen}
use lcdproc.Widgets.{
  WidgetType, wid_none, wid_string, wid_hbar, wid_vbar, wid_icon, wid_title, wid_scroller,
  wid_frame, wid_num, Widget, Place, find_widget, widget_at, set_at,
}
use lcdproc.Widgets.Names.{widget_iconname_to_icon}
use lcdproc.Widgets.Search.{Leads, find_widget-Leads}
use lcdproc.Widgets.Written.{find_widget-set_at, widget_at-set_at_self, widget_at-set_at_ne}
use lcdproc.Commands.{Client, Server, success, send_string, send_error, client_find_screen}
use lcdproc.Commands.ScreenCommands.{store_screen}
use lcdproc.Commands.WidgetCommands.{
  Answer, huh, line, Change, send_all, with_widgets, set_icon_number, set_string, set_bar, set_icon,
  set_title, set_scroller, set_frame, set_num, change_widget, set_found, set_widget,
  widget_set_func,
}
use lcdproc.Commands.Meaning.{meaning, Makes, change_widget-Makes}
use lcdproc.Commands.Sound.{Sound}
use lcdproc.Commands.Adding.{when_ack-some}
use lcdproc.Commands.Finding.{client_find_screen-OwnedBy}
use lcdproc.Commands.Stored.{Same, Refused, stored-Sound, stored_at}

-- A widget is still itself.
abbrev Itself : Widget → Change → Type 0
Itself w r = (r.0.id ≡ w.id) × (r.0.type ≡ w.type)

set_icon_number-Itself :
    (w : Widget) (x y : Bytes) (icon : ℤ) → Itself w (set_icon_number w x y icon)
set_icon_number-Itself w x y (pos n) = (refl, refl)
set_icon_number-Itself w x y (negsuc n) = (refl, refl)

change_widget-Itself :
    (display : Display) (type : WidgetType) (w : Widget) (args : List Bytes)
    → Itself w (change_widget display type w args)
unfolding change_widget set_string set_bar set_icon set_title set_scroller set_frame set_num
change_widget-Itself display wid_none w args = (refl, refl)
change_widget-Itself display wid_string w (x ∷ y ∷ text ∷ []) = ground arith
change_widget-Itself display wid_hbar w (x ∷ y ∷ text ∷ []) = ground arith
change_widget-Itself display wid_vbar w (x ∷ y ∷ text ∷ []) = ground arith
change_widget-Itself display wid_icon w (x ∷ y ∷ icon ∷ []) =
    ground (arith, set_icon_number-Itself w x y (widget_iconname_to_icon icon))
change_widget-Itself display wid_title w (text ∷ []) = (refl, refl)
change_widget-Itself display wid_scroller w (l ∷ t ∷ r ∷ b ∷ direction ∷ speed ∷ text ∷ []) =
    ground arith
change_widget-Itself display wid_frame w (l ∷ t ∷ r ∷ b ∷ x ∷ y ∷ direction ∷ speed ∷ []) =
    ground arith
change_widget-Itself display wid_num w (x ∷ number ∷ []) = ground arith
change_widget-Itself display _ w _ = (refl, refl)

send_all-rotation :
    (c : Ptr) (answers : List Answer) (s : Server) → (send_all c answers s).rotation ≡ s.rotation
unfolding send_all send_string send_error
send_all-rotation c [] s = refl
send_all-rotation c (huh text ∷ answers) s = send_all-rotation c answers (send_error c text s)
send_all-rotation c (line text ∷ answers) s = send_all-rotation c answers (send_string c text s)

send_all_replies :
    (c : Ptr) (answers : List Answer) (s : Server)
    → send_all c answers s ≡ record s { replies = (send_all c answers s).replies }
unfolding send_all send_string send_error
send_all_replies c [] s = refl
send_all_replies c (huh text ∷ answers) s = send_all_replies c answers (send_error c text s)
send_all_replies c (line text ∷ answers) s = send_all_replies c answers (send_string c text s)

-- No widget can be written: the client has no such screen, or the screen no such widget.
abbrev pub Unwritable : Ptr → Bytes → Bytes → Server → Type 0
Unwritable c sid wid s =
    (p : Ptr) × (client_find_screen c sid s.rotation ≡ some p)
    × ((p ≡ null)
        ⊎ ((x : Screen) × (get_screen s.rotation p ≡ some x) × (find_widget wid x.widgets ≡ none)))

-- What a client is told of a change, and the state behind it, by what the arguments mean.
abbrev pub Told : Ptr → Widget → Widget → Option Widget → Server → Server → Type 0
Told c old new (some v) stored s' = (new ≡ v) × (s' ≡ send_string c success stored)
Told c old new none stored s' =
    (new ≡ old)
    × (text : Bytes) × (rest : List Answer) × (s' ≡ send_all c rest (send_error c text stored))

-- One widget of one screen has been written: the one that the names mean. It is what the arguments
-- mean, or as it was if they mean nothing; it is still itself, and every name leads where it led.
pub record Writes (display : Display) (c : Ptr) (sid wid : Bytes) (args : List Bytes)
    (s s' : Server) : Type 0 where
  pub screen : Ptr
  pub before : Screen
  pub after : Screen
  pub place : Place
  pub old : Widget
  pub new : Widget
  pub is_written : s' ≡ record (store_screen screen after s) { replies = s'.replies }
  pub told : Told c old new (meaning display old.type args old) (store_screen screen after s) s'
  pub only_widgets : after ≡ with_widgets before (set_at place new before.widgets)
  pub same : Same before after
  pub asked : client_find_screen c sid s.rotation ≡ some screen
  pub was : get_screen s.rotation screen ≡ some before
  pub now : get_screen s'.rotation screen ≡ some after
  pub named : find_widget wid before.widgets ≡ some place
  pub old_at : widget_at place before.widgets ≡ some old
  pub new_at : widget_at place after.widgets ≡ some new
  pub same_id : new.id ≡ old.id
  pub same_type : new.type ≡ old.type
  pub names : (id : Bytes) → find_widget id after.widgets ≡ find_widget id before.widgets
  pub others : (q : Place) → place ≢ q → widget_at q after.widgets ≡ widget_at q before.widgets

change_widget-Told :
    (c : Ptr) (w : Widget) (r : Change) (s : Server) (m : Option Widget)
    → Makes m w r
    → Told c w r.0 m s (send_all c r.1 s)
unfolding send_all
change_widget-Told c w r s (some v) e = rw e (refl, refl)
change_widget-Told c w r s none (text, rest, e) = rw e (refl, text, rest, refl)

module _ (display : Display) (c p : Ptr) (cmd sid wid arg : Bytes) (args : List Bytes) (s : Server)
    (x : Screen) (asked : client_find_screen c sid s.rotation ≡ some p) (n : (p == null) ≡ false)
    (at : get_screen s.rotation p ≡ some x) (d : Sound s.rotation) where
  abbrev Result : Type 0
  Result =
      (s' : Server) × (set_widget display c (cmd ∷ sid ∷ wid ∷ arg ∷ args) s ≡ some (false, s'))
      × Sound s'.rotation
      × ((Refused c s s' × Unwritable c sid wid s) ⊎ Writes display c sid wid (arg ∷ args) s s')

  set_unknown : find_widget wid x.widgets ≡ none → Result
  unfolding set_widget set_found send_error
  set_unknown e = (
    send_error c (codes "Unknown widget id\n") s,
    rw (asked, n, at, e) refl,
    d,
    inl ((_, refl), (p, asked, inr (x, at, e))),
  )

  set_known : (place : Place) → find_widget wid x.widgets ≡ some place → Result
  unfolding set_widget set_found
  set_known place e =
      let (i, q, same, (w, found, _)) =
        subst (Leads wid x.widgets) e (find_widget-Leads wid x.widgets) in
      let w_at : widget_at place x.widgets ≡ some w = found in
      let r = change_widget display w.type w (arg ∷ args) in
      let itself = change_widget-Itself display w.type w (arg ∷ args) in
      let x' : Screen = with_widgets x (set_at place r.0 x.widgets) in
      let s1 = store_screen p x' s in
      let same_rotation = send_all-rotation c r.1 s1 in
      (
        send_all c r.1 s1,
        rw (asked, n, at, e, w_at) refl,
        subst Sound (sym same_rotation) (stored-Sound p x x' s at (refl, refl) d),
        inr (record {
          screen = p;
          before = x;
          after = x';
          place = place;
          old = w;
          new = r.0;
          is_written = send_all_replies c r.1 s1;
          told = change_widget-Told c w r s1 _ (change_widget-Makes display w.type w arg args);
          only_widgets = refl;
          same = (refl, refl);
          asked = asked;
          was = at;
          now = ap (λ t. get_screen t p) same_rotation ∙ stored_at p x x' s at;
          named = e;
          old_at = w_at;
          new_at = widget_at-set_at_self place w r.0 x.widgets w_at;
          same_id = itself.0;
          same_type = itself.1;
          names = λ id. find_widget-set_at id place w r.0 x.widgets w_at itself.0;
          others = λ q ne. widget_at-set_at_ne place q r.0 x.widgets ne;
        }),
      )

pub set_widget-Writes :
    (display : Display) (c : Ptr) (cmd sid wid arg : Bytes) (args : List Bytes) (s : Server)
    → Sound s.rotation
    → c ≢ null
    → (s' : Server) × (set_widget display c (cmd ∷ sid ∷ wid ∷ arg ∷ args) s ≡ some (false, s'))
      × Sound s'.rotation
      × ((Refused c s s' × Unwritable c sid wid s) ⊎ Writes display c sid wid (arg ∷ args) s s')
unfolding set_widget send_error
set_widget-Writes display c cmd sid wid arg args s d ne =
    let (p, go, own) = client_find_screen-OwnedBy c sid s.rotation d ne in
    elim (Bool-cases (p == null)) [
      | inl z ↦ (
        send_error c (codes "Unknown screen id\n") s,
        rw (go, z) refl,
        d,
        inl ((_, refl), (p, go, inl (ground (arith, z)))),
      )
      | inr n ↦
          let (x, at, _) = own n in
          elim (Option-cases (find_widget wid x.widgets)) [
            | inl e ↦ set_unknown display c p cmd sid wid arg args s x go n at d e
            | inr (place, e) ↦ set_known display c p cmd sid wid arg args s x go n at d place e
          ]
    ]

-- widget_set with at least three arguments, from a client that has said hello and a sound state,
-- reads no freed screen and returns 0; it leaves a sound state, and either the client has no
-- such screen or the screen no such widget, and an error is all that is reported; or the widget
-- that the names mean is what the arguments mean by the table of what its type takes, and
-- success is all that is reported, or they mean nothing, it is as it was, and an error is
-- reported first; it keeps its name and its type, no other widget of the screen and nothing else
-- of the screen has changed, and every name leads where it led.
pub widget_set-Writes :
    (display : Display) (c : Ptr) (cmd sid wid arg : Bytes) (args : List Bytes) (s : Server)
    (client : Client)
    → s.clients c ≡ some client
    → client.ack ≡ true
    → Sound s.rotation
    → c ≢ null
    → (s' : Server) × (widget_set_func display c (cmd ∷ sid ∷ wid ∷ arg ∷ args) s
        ≡ some (false, s'))
      × Sound s'.rotation
      × ((Refused c s s' × Unwritable c sid wid s) ⊎ Writes display c sid wid (arg ∷ args) s s')
unfolding widget_set_func
widget_set-Writes display c cmd sid wid arg args s client e a d ne =
    let (s', go, d', w) = set_widget-Writes display c cmd sid wid arg args s d ne in
    (
      s',
      when_ack-some c s client (λ _. set_widget display c (cmd ∷ sid ∷ wid ∷ arg ∷ args) s) e a
          ∙ go,
      d',
      w,
    )
