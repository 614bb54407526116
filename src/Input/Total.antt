-- ===== src/Input/Total.antt =====
-- `handle_input` of server/input.c from a well-formed state of the screen list.
use lcdproc.Prelude.{
  ℕ, ◌≡◌, refl, sym, subst, Bool, true, false, ◌||◌, Option, some, List, [], ◌∷◌, ◌==◌, Bool-cases,
  inl, inr, arith, Bytes, codes, str_eq,
}
use lcdproc.ScreenList.{Ptr, null, Rotation, get_screen, screenlist_goto_next, screenlist_goto_prev}
use lcdproc.ScreenList.Notices.{InTouch}
use lcdproc.ScreenList.Top.{WellFormed}
use lcdproc.ScreenList.Frame.{current-IsReadable}
use lcdproc.ScreenList.Back.{goto_prev-WellFormed}
use lcdproc.ScreenList.Removal.{goto_next-WellFormed}
use lcdproc.Input.{
  Input, target_of, is_menu_key, toggle_rotate, goto_screen, send_to_client, server_msg,
  internal_key, handle_key, handle_keys, handle_input, current_client,
}

server_msg-rotation :
    (text : Bytes) (expire : ℕ) (i : Input) → (server_msg text expire i).rotation ≡ i.rotation
unfolding server_msg
server_msg-rotation text expire i = ground arith

server_msg-WellFormed :
    (text : Bytes) (expire : ℕ) (i : Input)
    → WellFormed i.rotation
    → WellFormed (server_msg text expire i).rotation
server_msg-WellFormed text expire i w = subst WellFormed (sym (server_msg-rotation text expire i)) w

autorotate-WellFormed :
    (r : Rotation) (b : Bool) → WellFormed r → WellFormed (record r { autorotate = b })
unfolding get_screen
autorotate-WellFormed r b w = record {
  readable = w.readable;
  listed = w.listed;
  in_touch = record {
    in_turn = w.in_touch.in_turn;
    readable = w.in_touch.readable;
    current_is = w.in_touch.current_is;
  };
}

toggle_rotate-WellFormed :
    (i : Input) → WellFormed i.rotation → WellFormed (toggle_rotate i).rotation
toggle_rotate-WellFormed i w = elim (Bool-cases i.rotation.autorotate) [
  | inl y ↦ rw y (
      server_msg-WellFormed (codes "Hold") 4
        (record i { rotation = record i.rotation { autorotate = false } })
        (autorotate-WellFormed i.rotation false w))
  | inr n ↦ rw n (
      server_msg-WellFormed (codes "Rotate") 4
        (record i { rotation = record i.rotation { autorotate = true } })
        (autorotate-WellFormed i.rotation true w))
]

-- A step that ends and leaves the screen list well-formed.
abbrev pub Handles : Option Input → Type 0
Handles result = (i' : Input) × (result ≡ some i') × WellFormed i'.rotation

goto_screen-Handles :
    (go : Rotation → Option (Bool × Rotation)) (text : Bytes) (i : Input) (b : Bool) (r : Rotation)
    → go i.rotation ≡ some (b, r)
    → WellFormed r
    → Handles (goto_screen go text i)
goto_screen-Handles go text i b r e w = (
  server_msg text 4 (record i { rotation = r }),
  rw e,
  server_msg-WellFormed text 4 (record i { rotation = r }) w,
)

no_prev :
    (r : Rotation) → (r.current_screen == null) ≡ true → screenlist_goto_prev r ≡ some (false, r)
unfolding screenlist_goto_prev
no_prev r z = rw z

no_next :
    (r : Rotation) → (r.current_screen == null) ≡ true → screenlist_goto_next r ≡ some (false, r)
unfolding screenlist_goto_next
no_next r z = rw z

prev_key-Handles :
    (i : Input)
    → WellFormed i.rotation
    → Handles (goto_screen screenlist_goto_prev (codes "Prev") i)
prev_key-Handles i w = elim (Bool-cases (i.rotation.current_screen == null)) [
  | inl z ↦
      goto_screen-Handles screenlist_goto_prev (codes "Prev") i false i.rotation
        (no_prev i.rotation z) w
  | inr n ↦
      let (r, go, w') = goto_prev-WellFormed i.rotation w n in
      goto_screen-Handles screenlist_goto_prev (codes "Prev") i true r go w'
]

next_key-Handles :
    (i : Input)
    → WellFormed i.rotation
    → Handles (goto_screen screenlist_goto_next (codes "Next") i)
next_key-Handles i w = elim (Bool-cases (i.rotation.current_screen == null)) [
  | inl z ↦
      goto_screen-Handles screenlist_goto_next (codes "Next") i false i.rotation
        (no_next i.rotation z) w
  | inr n ↦
      let (r, go, w', _) =
        goto_next-WellFormed i.rotation i.rotation.current_screen w.readable w.in_touch n
          (w.listed (ground (arith, n))) in
      goto_screen-Handles screenlist_goto_next (codes "Next") i true r go w'
]

internal_key-Handles :
    (key : Bytes) (i : Input) → WellFormed i.rotation → Handles (internal_key key i)
unfolding internal_key
internal_key-Handles key i w =
    elim (Bool-cases (is_menu_key key i || i.rotation.current_screen == i.menuscreen)) [
      | inl y ↦ rw y (record i { menu_keys = key ∷ i.menu_keys }, refl, w)
      | inr n ↦ rw n (elim (Bool-cases (str_eq key i.toggle_rotate_key)) [
        | inl y ↦ rw y (toggle_rotate i, refl, toggle_rotate-WellFormed i w)
        | inr n1 ↦ rw n1 (elim (Bool-cases (str_eq key i.prev_screen_key)) [
          | inl y ↦ rw y (prev_key-Handles i w)
          | inr n2 ↦ rw n2 (elim (Bool-cases (str_eq key i.next_screen_key)) [
            | inl y ↦ rw y (next_key-Handles i w)
            | inr n3 ↦ rw n3 (i, refl, w)
          ])
        ])
      ])
    ]

pub handle_key-Handles :
    (key : Bytes) (d : Ptr) (i : Input) → WellFormed i.rotation → Handles (handle_key key d i)
unfolding handle_key send_to_client
handle_key-Handles key d i w = elim (Bool-cases (target_of key d i == null)) [
  | inl y ↦ rw y (internal_key-Handles key i w)
  | inr n ↦ rw n (send_to_client (target_of key d i) key i, refl, w)
]

handle_keys-Handles :
    (keys : List Bytes) (d : Ptr) (i : Input)
    → WellFormed i.rotation
    → Handles (handle_keys keys d i)
unfolding handle_keys
handle_keys-Handles [] d i w = (i, refl, w)
handle_keys-Handles (key ∷ keys) d i w =
    let (j, go, w') = handle_key-Handles key d i w in rw go (handle_keys-Handles keys d j w')

current_client_lem : (r : Rotation) → InTouch r → (c : Ptr) × (current_client r ≡ some c)
unfolding current_client
current_client_lem r t = elim (Bool-cases (r.current_screen == null)) [
  | inl z ↦ (null, rw z)
  | inr n ↦ let (x, e) = current-IsReadable r t n in (x.client, rw (n, e))
]

-- From a well-formed state of the screen list, handle_input ends without a read of a freed
-- screen, whatever keys come, and leaves a well-formed state.
pub handle_input-WellFormed :
    (keys : List Bytes) (i : Input)
    → WellFormed i.rotation
    → (i' : Input) × (handle_input keys i ≡ some i') × WellFormed i'.rotation
unfolding handle_input
handle_input-WellFormed keys i w =
    let (c, e) = current_client_lem i.rotation w.in_touch in rw e (handle_keys-Handles keys c i w)
