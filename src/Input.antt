-- ===== src/Input.antt =====
-- server/input.c: which client gets a key, with `is_menu_key` of server/menuscreens.c and
-- `server_msg` of server/render.c. A key that the drivers deliver is given as an argument. The
-- reservations are kept by value: `input_release_key` frees one before the report that reads it.
pub mod Exclusive
pub mod Released
mod Tests
pub mod Total
use lcdproc.Prelude.{
  ℕ, ◌+◌, ◌<◌, Bool, true, false, not, ◌&&◌, ◌||◌, Option, none, some, List, [], ◌∷◌, ◌++◌, ltb,
  leb, ◌==◌, if◌then◌else◌, ◌>>=◌, ◌>>◌, length, Bytes, codes, str_eq,
}
use lcdproc.ScreenList.{
  Ptr, null, Screen, Rotation, get_screen, screenlist_goto_next, screenlist_goto_prev,
}

-- `client` is NULL for the server itself.
pub record KeyReservation : Type 0 where
  pub key : Bytes
  pub exclusive : Bool
  pub client : Ptr

-- The module's variables, those of other modules that it uses, the lines sent to clients, the last
-- one first, and the keys handed to `menuscreen_key_handler`, the last one first.
pub record Input : Type 0 where
  pub keylist : List KeyReservation
  pub toggle_rotate_key : Bytes
  pub prev_screen_key : Bytes
  pub next_screen_key : Bytes
  pub scroll_up_key : Bytes
  pub scroll_down_key : Bytes
  pub menu_key : Option Bytes
  pub menuscreen : Ptr
  pub rotation : Rotation
  pub server_msg_text : Bytes
  pub server_msg_expire : ℕ
  pub key_lines : List (Ptr × Bytes)
  pub menu_keys : List Bytes

-- The test of the loop in `input_reserve_key`.
unfoldable pub interferes : Bytes → Bool → KeyReservation → Bool
interferes key exclusive kr = str_eq kr.key key && (kr.exclusive || exclusive)

unfoldable pub any_interferes : Bytes → Bool → List KeyReservation → Bool
any_interferes key exclusive [] = false
any_interferes key exclusive (kr ∷ keylist) =
    if interferes key exclusive kr then true else any_interferes key exclusive keylist

unfoldable pub reserve_key : Bytes → Bool → Ptr → List KeyReservation → Bool × List KeyReservation
reserve_key key exclusive client keylist =
    if any_interferes key exclusive keylist
    then (false, keylist)
    else (true, keylist ++ record { key = key; exclusive = exclusive; client = client } ∷ [])

unfoldable pub release_key : Bytes → Ptr → List KeyReservation → List KeyReservation
release_key key client [] = []
release_key key client (kr ∷ keylist) =
    if kr.client == client && str_eq kr.key key
    then keylist
    else kr ∷ release_key key client keylist

unfoldable pub release_client_keys : Ptr → List KeyReservation → List KeyReservation
release_client_keys client [] = []
release_client_keys client (kr ∷ keylist) =
    let rest = release_client_keys client keylist in if kr.client == client then rest else kr ∷ rest

unfoldable pub find_key : Bytes → Ptr → List KeyReservation → Option KeyReservation
find_key key client [] = none
find_key key client (kr ∷ keylist) =
    if str_eq kr.key key && (kr.exclusive || client == kr.client)
    then some kr
    else find_key key client keylist

-- `"key %s\n"`, in a buffer that is large enough.
unfoldable pub send_to_client : Ptr → Bytes → Input → Input
send_to_client c key i = record i {
  key_lines = (c, codes "key " ++ (key ++ codes "\n")) ∷ i.key_lines;
}

unfoldable pub is_menu_key : Bytes → Input → Bool
is_menu_key key i = elim i.menu_key [ none ↦ false | some menu_key ↦ str_eq key menu_key ]

unfoldable pub server_msg : Bytes → ℕ → Input → Input
server_msg text expire i =
    if ltb 15 (length text) || leb expire 0
    then i
    else record i { server_msg_text = codes "| " ++ text; server_msg_expire = expire }

abbrev pub toggle_rotate : Input → Input
toggle_rotate i =
    let autorotate = not i.rotation.autorotate in
    let i' = record i { rotation = record i.rotation { autorotate = autorotate } } in
    if autorotate then server_msg (codes "Rotate") 4 i' else server_msg (codes "Hold") 4 i'

-- A rotation by hand, with the message that it shows.
abbrev pub goto_screen : (Rotation → Option (Bool × Rotation)) → Bytes → Input → Option Input
goto_screen go text i = do
  (_, r) ← go i.rotation
  some (server_msg text 4 (record i { rotation = r }))

unfoldable pub internal_key : Bytes → Input → Option Input
internal_key key i =
    if is_menu_key key i || i.rotation.current_screen == i.menuscreen
    then some (record i { menu_keys = key ∷ i.menu_keys })
    else if str_eq key i.toggle_rotate_key
    then some (toggle_rotate i)
    else if str_eq key i.prev_screen_key
    then goto_screen screenlist_goto_prev (codes "Prev") i
    else if str_eq key i.next_screen_key
    then goto_screen screenlist_goto_next (codes "Next") i
    else some i

abbrev pub owner : Option KeyReservation → Ptr
owner none = null
owner (some kr) = kr.client

-- The client that a key is for; NULL for the server.
unfoldable pub target_of : Bytes → Ptr → Input → Ptr
target_of key current_client i = owner (find_key key current_client i.keylist)

unfoldable pub handle_key : Bytes → Ptr → Input → Option Input
handle_key key current_client i =
    let target = target_of key current_client i in
    if target == null then internal_key key i else some (send_to_client target key i)

unfoldable pub handle_keys : List Bytes → Ptr → Input → Option Input
handle_keys [] current_client i = some i
handle_keys (key ∷ keys) current_client i = do
  i' ← handle_key key current_client i
  handle_keys keys current_client i'

unfoldable pub current_client : Rotation → Option Ptr
current_client r =
    if r.current_screen == null
    then some null
    else (do s ← get_screen r r.current_screen; some s.client)

unfoldable pub handle_input : List Bytes → Input → Option Input
handle_input keys i = do client ← current_client i.rotation; handle_keys keys client i
