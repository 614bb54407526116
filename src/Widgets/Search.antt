-- ===== src/Widgets/Search.antt =====
-- `screen_find_widget` of server/screen.c against the widgets listed depth first.
use lcdproc.Prelude.{
  ℕ, suc, ◌≡◌, refl, ap, subst, true, Option, none, some, List, [], ◌∷◌, ◌++◌, map, if◌then◌else◌,
  Bool-cases, inl, inr, Bytes, str_eq,
}
use lcdproc.Widgets.{
  Widget, Widgets, empty, plain, framed, Place, further, over, or_else, find_widget, widget_at,
}

-- All the widgets of a list, each with the way to it; those of a frame come behind the frame.
abbrev pub walk : Widgets → List (Place × Widget)
walk empty = []
walk (plain w ws) = (0 ∷ [], w) ∷ map (λ (p, v). (further p, v)) (walk ws)
walk (framed w subs ws) =
    (0 ∷ [], w) ∷ map (λ (p, v). (0 ∷ p, v)) (walk subs) ++ map (λ (p, v). (further p, v)) (walk ws)

-- The first one that has the name.
abbrev pub first_named : Bytes → List (Place × Widget) → Option Place
first_named id [] = none
first_named id ((p, w) ∷ ws) = if str_eq w.id id then some p else first_named id ws

first_named-map :
    (id : Bytes) (f : Place → Place) (ws : List (Place × Widget))
    → first_named id (map (λ (p, v). (f p, v)) ws) ≡ over f (first_named id ws)
first_named-map id f [] = refl
first_named-map id f ((p, w) ∷ ws) = elim (Bool-cases (str_eq w.id id)) [
  | inl y ↦ rw y refl
  | inr n ↦ rw n (first_named-map id f ws)
]

first_named-append :
    (id : Bytes) (ws vs : List (Place × Widget))
    → first_named id (ws ++ vs) ≡ or_else (first_named id ws) (first_named id vs)
first_named-append id [] vs = refl
first_named-append id ((p, w) ∷ ws) vs = elim (Bool-cases (str_eq w.id id)) [
  | inl y ↦ rw y refl
  | inr n ↦ rw n (first_named-append id ws vs)
]

-- For every list of widgets, frames within frames included, screen_find_widget returns the first
-- widget of the name in the listing that puts the widgets of a frame behind the frame, or NULL
-- where the listing has none.
pub find_widget-first_named :
    (id : Bytes) (ws : Widgets) → find_widget id ws ≡ first_named id (walk ws)
unfolding find_widget
find_widget-first_named id empty = refl
find_widget-first_named id (plain w ws) = elim (Bool-cases (str_eq w.id id)) [
  | inl y ↦ rw y refl
  | inr n ↦ rw (n, first_named-map id further (walk ws), find_widget-first_named id ws) refl
]
find_widget-first_named id (framed w subs ws) = elim (Bool-cases (str_eq w.id id)) [
  | inl y ↦ rw y refl
  | inr n ↦
      rw
        (
          n,
          first_named-append id (map (λ (p, v). (0 ∷ p, v)) (walk subs))
              (map (λ (p, v). (further p, v)) (walk ws)),
          first_named-map id (◌∷◌ 0) (walk subs),
          first_named-map id further (walk ws),
          find_widget-first_named id subs,
          find_widget-first_named id ws,
        )
        refl
]

-- The way found leads to a widget of that name.
abbrev pub Leads : Bytes → Widgets → Option Place → Type 0
Leads id ws none = Unit
Leads id ws (some p) =
    (i : ℕ) × (q : Place) × (p ≡ i ∷ q)
    × ((w : Widget) × (widget_at p ws ≡ some w) × (str_eq w.id id ≡ true))

Leads-further_plain :
    (id : Bytes) (w : Widget) (ws : Widgets) (o : Option Place)
    → Leads id ws o
    → Leads id (plain w ws) (over further o)
unfolding widget_at
Leads-further_plain id w ws none h = tt
Leads-further_plain id w ws (some p) (i, q, e, (v, at, y)) =
    (suc i, q, ap further e, (v, rw e (subst (λ p. widget_at p ws ≡ some v) e at), y))

Leads-further_framed :
    (id : Bytes) (w : Widget) (subs ws : Widgets) (o : Option Place)
    → Leads id ws o
    → Leads id (framed w subs ws) (over further o)
unfolding widget_at
Leads-further_framed id w subs ws none h = tt
Leads-further_framed id w subs ws (some p) (i, q, e, (v, at, y)) =
    (suc i, q, ap further e, (v, rw e (subst (λ p. widget_at p ws ≡ some v) e at), y))

Leads-inside :
    (id : Bytes) (w : Widget) (subs ws : Widgets) (o : Option Place)
    → Leads id subs o
    → Leads id (framed w subs ws) (over (◌∷◌ 0) o)
unfolding widget_at
Leads-inside id w subs ws none h = tt
Leads-inside id w subs ws (some p) (i, q, e, (v, at, y)) =
    (0, p, refl, (v, rw e (subst (λ p. widget_at p subs ≡ some v) e at), y))

Leads-or_else :
    (id : Bytes) (ws : Widgets) (o o' : Option Place)
    → Leads id ws o
    → Leads id ws o'
    → Leads id ws (or_else o o')
Leads-or_else id ws none o' h h' = h'
Leads-or_else id ws (some p) o' h h' = h

pub find_widget-Leads : (id : Bytes) (ws : Widgets) → Leads id ws (find_widget id ws)
unfolding find_widget widget_at
find_widget-Leads id empty = tt
find_widget-Leads id (plain w ws) = elim (Bool-cases (str_eq w.id id)) [
  | inl y ↦ rw y (0, [], refl, (w, refl, y))
  | inr n ↦ rw n (Leads-further_plain id w ws (find_widget id ws) (find_widget-Leads id ws))
]
find_widget-Leads id (framed w subs ws) = elim (Bool-cases (str_eq w.id id)) [
  | inl y ↦ rw y (0, [], refl, (w, refl, y))
  | inr n ↦ rw n (
      Leads-or_else id (framed w subs ws) (over (◌∷◌ 0) (find_widget id subs))
        (over further (find_widget id ws))
        (Leads-inside id w subs ws (find_widget id subs) (find_widget-Leads id subs))
        (Leads-further_framed id w subs ws (find_widget id ws) (find_widget-Leads id ws)))
]
