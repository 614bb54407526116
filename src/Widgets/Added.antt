-- ===== src/Widgets/Added.antt =====
-- `screen_add_widget` of server/screen.c and `screen_find_widget`.
use lcdproc.Prelude.{
  ℕ, ◌++◌, zero, suc, ◌≡◌, refl, subst, Bool, true, false, Option, none, some, [], ◌∷◌,
  Option-cases, inl, inr, arith, some_inj, if◌then◌else◌, Bytes, str_eq, str_eq_refl,
}
use lcdproc.Widgets.{
  Widget, WidgetType, wid_frame, Widgets, empty, plain, framed, Place, over, or_else, further,
  find_widget, widget_at, add_widget, add_in_frame, created,
}

-- Other names lead where they led, and a new name leads to the new widget, in the list of the
-- screen or of the frame at `into`.
pub record Adds (into : Place) (w : Widget) (ws ws' : Widgets) : Type 0 where
  pub others : (id : Bytes) → str_eq w.id id ≡ false → find_widget id ws' ≡ find_widget id ws
  pub new :
      find_widget w.id ws ≡ none
      → (k : ℕ) × (find_widget w.id ws' ≡ some (into ++ k ∷ []))
        × (widget_at (into ++ k ∷ []) ws' ≡ some w)

not_first :
    (b : Bool) (o : Option Place)
    → (if b then some (0 ∷ []) else o) ≡ none
    → (b ≡ false) × (o ≡ none)
not_first true o h = cc
not_first false o h = (refl, h)

over-none : (f : Place → Place) (o : Option Place) → over f o ≡ none → o ≡ none
over-none f none h = refl
over-none f (some p) h = cc

or_else-none : (o o' : Option Place) → or_else o o' ≡ none → (o ≡ none) × (o' ≡ none)
or_else-none none o' h = (refl, h)
or_else-none (some p) o' h = cc

further_plain :
    (v w : Widget) (ws : Widgets) (p : Place)
    → widget_at p ws ≡ some w
    → widget_at (further p) (plain v ws) ≡ some w
unfolding widget_at
further_plain v w ws [] h = cc
further_plain v w ws (i ∷ p) h = h

further_framed :
    (v w : Widget) (subs ws : Widgets) (p : Place)
    → widget_at p ws ≡ some w
    → widget_at (further p) (framed v subs ws) ≡ some w
unfolding widget_at
further_framed v w subs ws [] h = cc
further_framed v w subs ws (i ∷ p) h = h

inside_framed :
    (v w : Widget) (subs ws : Widgets) (p : Place)
    → widget_at p subs ≡ some w
    → widget_at (0 ∷ p) (framed v subs ws) ≡ some w
unfolding widget_at
inside_framed v w subs ws [] h = cc
inside_framed v w subs ws (j ∷ p) h = h

created-Adds : (w : Widget) (type : WidgetType) → Adds [] w empty (created w type empty)
unfolding find_widget widget_at
created-Adds w wid_frame = record {
  others = λ id n. rw n refl;
  new = λ _. (0, rw (str_eq_refl w.id) refl, refl);
}
created-Adds w _ = record {
  others = λ id n. rw n refl;
  new = λ _. (0, rw (str_eq_refl w.id) refl, refl);
}

module _ (w v : Widget) where
  plain-Adds : (ws ws' : Widgets) → Adds [] w ws ws' → Adds [] w (plain v ws) (plain v ws')
  unfolding find_widget
  plain-Adds ws ws' a = record {
    others = λ id n. rw (a.others id n) refl;
    new = λ h.
        let (n, m) = not_first (str_eq v.id w.id) (over further (find_widget w.id ws)) h in
        let (k, go, at) = a.new (over-none further (find_widget w.id ws) m) in
        (suc k, rw (n, go) refl, further_plain v w ws' (k ∷ []) at);
  }

  plain-Adds_in :
      (i : ℕ) (q : Place) (ws ws' : Widgets)
      → Adds (i ∷ q) w ws ws'
      → Adds (suc i ∷ q) w (plain v ws) (plain v ws')
  unfolding find_widget
  plain-Adds_in i q ws ws' a = record {
    others = λ id n. rw (a.others id n) refl;
    new = λ h.
        let (n, m) = not_first (str_eq v.id w.id) (over further (find_widget w.id ws)) h in
        let (k, go, at) = a.new (over-none further (find_widget w.id ws) m) in
        (k, rw (n, go) refl, further_plain v w ws' (i ∷ q ++ k ∷ []) at);
  }

  -- A name that a list with a frame does not have is neither in the frame nor behind it.
  in_neither :
      (subs ws : Widgets)
      → find_widget w.id (framed v subs ws) ≡ none
      → (str_eq v.id w.id ≡ false)
        × (over (◌∷◌ 0) (find_widget w.id subs) ≡ none)
        × (over further (find_widget w.id ws) ≡ none)
  unfolding find_widget
  in_neither subs ws h =
      let found = over (◌∷◌ 0) (find_widget w.id subs) in
      let rest = over further (find_widget w.id ws) in
      let (n, m) = not_first (str_eq v.id w.id) (or_else found rest) h in
      let (k, l) = or_else-none found rest m in (n, k, l)

  framed-Adds :
      (subs ws ws' : Widgets) → Adds [] w ws ws' → Adds [] w (framed v subs ws) (framed v subs ws')
  unfolding find_widget
  framed-Adds subs ws ws' a = record {
    others = λ id n. rw (a.others id n) refl;
    new = λ h.
        let (n, f, l) = in_neither subs ws h in
        let (k, go, at) = a.new (over-none further (find_widget w.id ws) l) in
        (suc k, rw (n, f, go) refl, further_framed v w subs ws' (k ∷ []) at);
  }

  framed-Adds_in :
      (i : ℕ) (q : Place) (subs ws ws' : Widgets)
      → Adds (i ∷ q) w ws ws'
      → Adds (suc i ∷ q) w (framed v subs ws) (framed v subs ws')
  unfolding find_widget
  framed-Adds_in i q subs ws ws' a = record {
    others = λ id n. rw (a.others id n) refl;
    new = λ h.
        let (n, f, l) = in_neither subs ws h in
        let (k, go, at) = a.new (over-none further (find_widget w.id ws) l) in
        (k, rw (n, f, go) refl, further_framed v w subs ws' (i ∷ q ++ k ∷ []) at);
  }

  inside-Adds :
      (q : Place) (subs subs' ws : Widgets)
      → Adds q w subs subs'
      → Adds (0 ∷ q) w (framed v subs ws) (framed v subs' ws)
  unfolding find_widget
  inside-Adds q subs subs' ws a = record {
    others = λ id n. rw (a.others id n) refl;
    new = λ h.
        let (n, f, l) = in_neither subs ws h in
        let (k, go, at) = a.new (over-none (◌∷◌ 0) (find_widget w.id subs) f) in
        (k, rw (n, go) refl, inside_framed v w subs' ws (q ++ k ∷ []) at);
  }

pub add_widget-Adds :
    (w : Widget) (type : WidgetType) (ws : Widgets) → Adds [] w ws (add_widget w type ws)
unfolding add_widget
add_widget-Adds w type empty = created-Adds w type
add_widget-Adds w type (plain v ws) =
    plain-Adds w v ws (add_widget w type ws) (add_widget-Adds w type ws)
add_widget-Adds w type (framed v subs ws) =
    framed-Adds w v subs ws (add_widget w type ws) (add_widget-Adds w type ws)

pub add_in_frame-Adds :
    (p : Place) (w : Widget) (type : WidgetType) (ws ws' : Widgets)
    → add_in_frame p w type ws ≡ some ws'
    → Adds p w ws ws'
unfolding add_in_frame
add_in_frame-Adds [] w type ws ws' e = cc
add_in_frame-Adds (i ∷ p) w type empty ws' e = cc
add_in_frame-Adds (zero ∷ p) w type (plain v ws) ws' e = cc
add_in_frame-Adds (suc i ∷ p) w type (plain v ws) ws' e =
    elim (Option-cases (add_in_frame (i ∷ p) w type ws)) [
      | inl n ↦ absurd (ground (arith, n, e))
      | inr (vs, go) ↦
          subst (Adds (suc i ∷ p) w (plain v ws)) (some_inj (rw go at e))
            (plain-Adds_in w v i p ws vs (add_in_frame-Adds (i ∷ p) w type ws vs go))
    ]
add_in_frame-Adds (zero ∷ []) w type (framed v subs ws) ws' e =
    subst (Adds (0 ∷ []) w (framed v subs ws)) (some_inj e)
      (inside-Adds w v [] subs (add_widget w type subs) ws (add_widget-Adds w type subs))
add_in_frame-Adds (zero ∷ j ∷ p) w type (framed v subs ws) ws' e =
    elim (Option-cases (add_in_frame (j ∷ p) w type subs)) [
      | inl n ↦ absurd (ground (arith, n, e))
      | inr (vs, go) ↦
          subst (Adds (0 ∷ j ∷ p) w (framed v subs ws)) (some_inj (rw go at e))
            (inside-Adds w v (j ∷ p) subs vs ws (add_in_frame-Adds (j ∷ p) w type subs vs go))
    ]
add_in_frame-Adds (suc i ∷ p) w type (framed v subs ws) ws' e =
    elim (Option-cases (add_in_frame (i ∷ p) w type ws)) [
      | inl n ↦ absurd (ground (arith, n, e))
      | inr (vs, go) ↦
          subst (Adds (suc i ∷ p) w (framed v subs ws)) (some_inj (rw go at e))
            (framed-Adds_in w v i p subs ws vs (add_in_frame-Adds (i ∷ p) w type ws vs go))
    ]

-- The widgets of the frame that a pointer leads to; none if it leads to no frame.
unfoldable pub frame_at : Place → Widgets → Option Widgets
frame_at [] ws = none
frame_at (i ∷ p) empty = none
frame_at (zero ∷ p) (plain v ws) = none
frame_at (suc i ∷ p) (plain v ws) = frame_at (i ∷ p) ws
frame_at (zero ∷ []) (framed v subs ws) = some subs
frame_at (zero ∷ j ∷ p) (framed v subs ws) = frame_at (j ∷ p) subs
frame_at (suc i ∷ p) (framed v subs ws) = frame_at (i ∷ p) ws

pub add_in_frame-some :
    (p : Place) (w : Widget) (type : WidgetType) (ws subs : Widgets)
    → frame_at p ws ≡ some subs
    → (ws' : Widgets) × (add_in_frame p w type ws ≡ some ws')
unfolding add_in_frame frame_at
add_in_frame-some [] w type ws subs e = cc
add_in_frame-some (i ∷ p) w type empty subs e = cc
add_in_frame-some (zero ∷ p) w type (plain v ws) subs e = cc
add_in_frame-some (suc i ∷ p) w type (plain v ws) subs e =
    let (ws', go) = add_in_frame-some (i ∷ p) w type ws subs e in (plain v ws', rw go refl)
add_in_frame-some (zero ∷ []) w type (framed v us ws) subs e = (_, refl)
add_in_frame-some (zero ∷ j ∷ p) w type (framed v us ws) subs e =
    let (us', go) = add_in_frame-some (j ∷ p) w type us subs e in (framed v us' ws, rw go refl)
add_in_frame-some (suc i ∷ p) w type (framed v us ws) subs e =
    let (ws', go) = add_in_frame-some (i ∷ p) w type ws subs e in (framed v us ws', rw go refl)

pub add_in_frame-none :
    (p : Place) (w : Widget) (type : WidgetType) (ws : Widgets)
    → frame_at p ws ≡ none
    → add_in_frame p w type ws ≡ none
unfolding add_in_frame frame_at
add_in_frame-none [] w type ws e = refl
add_in_frame-none (i ∷ p) w type empty e = refl
add_in_frame-none (zero ∷ p) w type (plain v ws) e = refl
add_in_frame-none (suc i ∷ p) w type (plain v ws) e =
    rw (add_in_frame-none (i ∷ p) w type ws e) refl
add_in_frame-none (zero ∷ []) w type (framed v us ws) e = cc
add_in_frame-none (zero ∷ j ∷ p) w type (framed v us ws) e =
    rw (add_in_frame-none (j ∷ p) w type us e) refl
add_in_frame-none (suc i ∷ p) w type (framed v us ws) e =
    rw (add_in_frame-none (i ∷ p) w type ws e) refl
