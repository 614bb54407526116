-- ===== src/Widgets/Written.antt =====
-- Writing to a widget that a pointer leads to, for server/commands/widget_commands.c.
use lcdproc.Prelude.{zero, suc, ◌≡◌, ◌≢◌, refl, ap, some, [], ◌∷◌, Bytes, some_inj}
use lcdproc.Widgets.{
  Widget, Widgets, empty, plain, framed, Place, further, find_widget, widget_at, set_at,
}

-- A widget of the same name in the place of another one: every name leads where it led.
pub find_widget-set_at :
    (id : Bytes) (p : Place) (w v : Widget) (ws : Widgets)
    → widget_at p ws ≡ some w
    → v.id ≡ w.id
    → find_widget id (set_at p v ws) ≡ find_widget id ws
unfolding find_widget widget_at set_at
find_widget-set_at id [] w v ws at e = refl
find_widget-set_at id (i ∷ p) w v empty at e = refl
find_widget-set_at id (zero ∷ []) w v (plain u ws) at e = rw (e, ap (λ t. t.id) (some_inj at)) refl
find_widget-set_at id (zero ∷ j ∷ p) w v (plain u ws) at e = refl
find_widget-set_at id (suc i ∷ p) w v (plain u ws) at e =
    rw (find_widget-set_at id (i ∷ p) w v ws at e) refl
find_widget-set_at id (zero ∷ []) w v (framed u subs ws) at e =
    rw (e, ap (λ t. t.id) (some_inj at)) refl
find_widget-set_at id (zero ∷ j ∷ p) w v (framed u subs ws) at e =
    rw (find_widget-set_at id (j ∷ p) w v subs at e) refl
find_widget-set_at id (suc i ∷ p) w v (framed u subs ws) at e =
    rw (find_widget-set_at id (i ∷ p) w v ws at e) refl

pub widget_at-set_at_self :
    (p : Place) (w v : Widget) (ws : Widgets)
    → widget_at p ws ≡ some w
    → widget_at p (set_at p v ws) ≡ some v
unfolding widget_at set_at
widget_at-set_at_self [] w v ws at = cc
widget_at-set_at_self (i ∷ p) w v empty at = cc
widget_at-set_at_self (zero ∷ []) w v (plain u ws) at = refl
widget_at-set_at_self (zero ∷ j ∷ p) w v (plain u ws) at = cc
widget_at-set_at_self (suc i ∷ p) w v (plain u ws) at = widget_at-set_at_self (i ∷ p) w v ws at
widget_at-set_at_self (zero ∷ []) w v (framed u subs ws) at = refl
widget_at-set_at_self (zero ∷ j ∷ p) w v (framed u subs ws) at =
    widget_at-set_at_self (j ∷ p) w v subs at
widget_at-set_at_self (suc i ∷ p) w v (framed u subs ws) at =
    widget_at-set_at_self (i ∷ p) w v ws at

pub widget_at-set_at_ne :
    (p q : Place) (v : Widget) (ws : Widgets) → p ≢ q → widget_at q (set_at p v ws) ≡ widget_at q ws
unfolding widget_at set_at
widget_at-set_at_ne [] q v ws ne = refl
widget_at-set_at_ne (i ∷ p) [] v ws ne = refl
widget_at-set_at_ne (i ∷ p) (j ∷ q) v empty ne = refl
widget_at-set_at_ne (zero ∷ []) (zero ∷ []) v (plain u ws) ne = absurd (ne refl)
widget_at-set_at_ne (zero ∷ []) (zero ∷ j ∷ q) v (plain u ws) ne = refl
widget_at-set_at_ne (zero ∷ []) (suc j ∷ q) v (plain u ws) ne = refl
widget_at-set_at_ne (zero ∷ i ∷ p) q v (plain u ws) ne = refl
widget_at-set_at_ne (suc i ∷ p) (zero ∷ []) v (plain u ws) ne = refl
widget_at-set_at_ne (suc i ∷ p) (zero ∷ j ∷ q) v (plain u ws) ne = refl
widget_at-set_at_ne (suc i ∷ p) (suc j ∷ q) v (plain u ws) ne =
    widget_at-set_at_ne (i ∷ p) (j ∷ q) v ws (λ e. ne (ap further e))
widget_at-set_at_ne (zero ∷ []) (zero ∷ []) v (framed u subs ws) ne = absurd (ne refl)
widget_at-set_at_ne (zero ∷ []) (zero ∷ j ∷ q) v (framed u subs ws) ne = refl
widget_at-set_at_ne (zero ∷ []) (suc j ∷ q) v (framed u subs ws) ne = refl
widget_at-set_at_ne (zero ∷ i ∷ p) (zero ∷ []) v (framed u subs ws) ne = refl
widget_at-set_at_ne (zero ∷ i ∷ p) (zero ∷ j ∷ q) v (framed u subs ws) ne =
    widget_at-set_at_ne (i ∷ p) (j ∷ q) v subs (λ e. ne (ap (◌∷◌ 0) e))
widget_at-set_at_ne (zero ∷ i ∷ p) (suc j ∷ q) v (framed u subs ws) ne = refl
widget_at-set_at_ne (suc i ∷ p) (zero ∷ []) v (framed u subs ws) ne = refl
widget_at-set_at_ne (suc i ∷ p) (zero ∷ j ∷ q) v (framed u subs ws) ne = refl
widget_at-set_at_ne (suc i ∷ p) (suc j ∷ q) v (framed u subs ws) ne =
    widget_at-set_at_ne (i ∷ p) (j ∷ q) v ws (λ e. ne (ap further e))
