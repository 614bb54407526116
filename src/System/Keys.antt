-- ===== src/System/Keys.antt =====
-- Keys that come in: a key in `handle_input` of server/input.c keeps every screen housed and every
-- reservation.
use lcdproc.Prelude.{
  ◌≡◌, ℕ, refl, sym, ◌∙◌, subst, Bool, true, false, ◌||◌, Option, some, ◌==◌, >>=-eq-some,
  Bool-cases, inl, inr, arith, some_inj, Bytes, codes, str_eq,
}
use lcdproc.ScreenList.{Ptr, null, Rotation, screenlist_goto_next, screenlist_goto_prev}
use lcdproc.ScreenList.Memory.{Steady, by_equation, goto_next-Steady, goto_prev-Steady}
use lcdproc.ScreenList.Top.{WellFormed}
use lcdproc.Input.{
  Input, target_of, is_menu_key, toggle_rotate, goto_screen, send_to_client, server_msg,
  internal_key, handle_key,
}
use lcdproc.Input.Total.{handle_key-Handles}
use lcdproc.System.Housed.{Housed, Steady-Housed}

-- The screens, their lists and the reservations are the same.
abbrev Stays : Input → Input → Type 0
Stays i i' = Steady i.rotation i'.rotation × (i'.keylist ≡ i.keylist)

server_msg-Stays :
    (text : Bytes) (expire : ℕ) (i j : Input) → Stays i j → Stays i (server_msg text expire j)
unfolding server_msg
server_msg-Stays text expire i j h = ground (arith, h)

toggle_rotate-Stays : (i : Input) → Stays i (toggle_rotate i)
toggle_rotate-Stays i = elim (Bool-cases i.rotation.autorotate) [
  | inl y ↦ rw y (
      server_msg-Stays (codes "Hold") 4 i
        (record i { rotation = record i.rotation { autorotate = false } })
        ((refl, refl, refl), refl))
  | inr n ↦ rw n (
      server_msg-Stays (codes "Rotate") 4 i
        (record i { rotation = record i.rotation { autorotate = true } })
        ((refl, refl, refl), refl))
]

goto_screen-Stays :
    (go : Rotation → Option (Bool × Rotation)) (text : Bytes) (i i' : Input)
    → ((b : Bool) (r : Rotation) → go i.rotation ≡ some (b, r) → Steady i.rotation r)
    → goto_screen go text i ≡ some i'
    → Stays i i'
goto_screen-Stays go text i i' f e =
    let (q, at, e1) =
      >>=-eq-some (go i.rotation)
        (λ (q : Bool × Rotation). some (server_msg text 4 (record i { rotation = q.1 }))) e in
    by_equation (Stays i) e1
      (server_msg-Stays text 4 i (record i { rotation = q.1 }) (f q.0 q.1 at, refl))

internal_key-Stays : (key : Bytes) (i i' : Input) → internal_key key i ≡ some i' → Stays i i'
unfolding internal_key
internal_key-Stays key i i' e =
    elim (Bool-cases (is_menu_key key i || i.rotation.current_screen == i.menuscreen)) [
      | inl y ↦ by_equation (Stays i) (rw y at e) ((refl, refl, refl), refl)
      | inr n ↦ elim (Bool-cases (str_eq key i.toggle_rotate_key)) [
        | inl y ↦ by_equation (Stays i) (rw (n, y) at e) (toggle_rotate-Stays i)
        | inr n1 ↦ elim (Bool-cases (str_eq key i.prev_screen_key)) [
          | inl y ↦
              goto_screen-Stays screenlist_goto_prev (codes "Prev") i i'
                (goto_prev-Steady i.rotation) (rw (n, n1, y) at e)
          | inr n2 ↦ elim (Bool-cases (str_eq key i.next_screen_key)) [
            | inl y ↦
                goto_screen-Stays screenlist_goto_next (codes "Next") i i'
                  (goto_next-Steady i.rotation) (rw (n, n1, n2, y) at e)
            | inr n3 ↦ by_equation (Stays i) (rw (n, n1, n2, n3) at e) ((refl, refl, refl), refl)
          ]
        ]
      ]
    ]

handle_key-Stays :
    (key : Bytes) (d : Ptr) (i i' : Input) → handle_key key d i ≡ some i' → Stays i i'
unfolding handle_key send_to_client
handle_key-Stays key d i i' e = elim (Bool-cases (target_of key d i == null)) [
  | inl y ↦ internal_key-Stays key i i' (rw y at e)
  | inr n ↦ by_equation (Stays i) (rw n at e) ((refl, refl, refl), refl)
]

pub handle_key-Housed :
    (key : Bytes) (d : Ptr) (i i' : Input)
    → handle_key key d i ≡ some i'
    → Housed i.rotation
    → Housed i'.rotation
      × (i'.rotation.client_screens ≡ i.rotation.client_screens)
      × (i'.keylist ≡ i.keylist)
handle_key-Housed key d i i' e h =
    let (s, same) = handle_key-Stays key d i i' e in
    let (j, go, w) = handle_key-Handles key d i h.sound.well_formed in
    let w' = subst (λ k. WellFormed k.rotation) (some_inj (sym go ∙ e)) w in
    (Steady-Housed i.rotation i'.rotation s w' h, s.1, same)
