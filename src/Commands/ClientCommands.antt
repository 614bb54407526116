-- ===== src/Commands/ClientCommands.antt =====
-- server/commands/client_commands.c and `noop` of server/commands/server_commands.c. `argv` has the
-- command's name in front.
use lcdproc.Prelude.{
  ℕ, Bool, true, false, not, some, List, [], ◌∷◌, ◌+◌, ◌++◌, ltb, ◌==◌, if◌then◌else◌, ◌>>=◌,
  length, take, drop, Bytes, codes, str_eq,
}
use lcdproc.Prelude.Int.{pos}
use lcdproc.ScreenList.{Ptr}
use lcdproc.Input.{reserve_key, release_key}
use lcdproc.Commands.{
  Client, Server, Outcome, send_string, send_error, say, complain, success, when_ack, update_client,
  strip_dash, or_bit, show_int,
}

-- `hello`; `greeting` is the line about the server and its display.
unfoldable pub hello_func : Bytes → Ptr → List Bytes → Server → Outcome
hello_func greeting c argv s = do
  x ← s.clients c
  let s1 = if ltb 1 (length argv) then send_error c (codes "extra parameters ignored\n") s else s
  some (false, update_client c (record x { ack = true }) (send_string c greeting s1))

-- `test_func`; `i` is the number of the first argument.
unfoldable pub list_arguments : Ptr → ℕ → List Bytes → Server → Server
list_arguments c i [] s = s
list_arguments c i (arg ∷ argv) s = list_arguments c (i + 1) argv (
    send_string c
      (take 255
        (codes "test_func_func:  " ++ show_int (pos i) (codes " -> " ++ (arg ++ codes "\n"))))
      s)

unfoldable pub test_func_func : Ptr → List Bytes → Server → Outcome
test_func_func c argv s = some (false, list_arguments c 0 argv s)

-- `info`; `text` is what `drivers_get_info` returns.
unfoldable pub info_func : Bytes → Ptr → List Bytes → Server → Outcome
info_func text c argv s =
    let s1 =
      if ltb 1 (length argv) then send_error c (codes "Extra arguments ignored...\n") s else s in
    say c (take 1022 (text ++ codes "\n")) s1

unfoldable pub bye_func : Ptr → List Bytes → Server → Outcome
bye_func c argv s = complain c (codes "\"bye\" is currently ignored\n") s

unfoldable pub noop_func : Ptr → List Bytes → Server → Outcome
noop_func c argv s = say c (codes "noop complete\n") s

-- `strncpy` and `strdup` of a name that fits the buffer.
unfoldable pub set_name : Ptr → Client → Bytes → Server → Server
set_name c x name s = send_string c success (update_client c (record x { name = some name }) s)

-- The loop of `client_set` on the two arguments that its guard lets through.
unfoldable pub client_set_loop : Ptr → Client → List Bytes → Server → Server
client_set_loop c x [] s = s
client_set_loop c x (a ∷ []) s =
    if str_eq (strip_dash a) (codes "name")
    then send_error c (codes "internal error: no parameter #3\n") s
    else send_error c (codes "invalid parameter (" ++ (strip_dash a ++ codes ")\n")) s
client_set_loop c x (a ∷ v ∷ rest) s =
    if str_eq (strip_dash a) (codes "name")
    then (if ltb 255 (length v) then send_error c (codes "name too long\n") s else set_name c x v s)
    else client_set_loop c x (v ∷ rest)
        (send_error c (codes "invalid parameter (" ++ (strip_dash a ++ codes ")\n")) s)

unfoldable pub client_set_func : Ptr → List Bytes → Server → Outcome
client_set_func c argv s = when_ack c s λ x.
    if not (length argv == 3)
    then complain c (codes "Usage: client_set -name <name>\n") s
    else some (false, client_set_loop c x (drop 1 argv) s)

unfoldable pub reserve_keys : Ptr → Bool → List Bytes → Server → Server
reserve_keys c exclusively [] s = s
reserve_keys c exclusively (key ∷ keys) s =
    let (ok, keylist) = reserve_key key exclusively c s.keylist in
    let s' = record s { keylist = keylist } in
    reserve_keys c exclusively keys (
      if ok
      then s'
      else send_error c (codes "Could not reserve key \"" ++ (key ++ codes "\"\n")) s')

-- The option in front of the keys: the mode, the keys, and a complaint about another option.
unfoldable pub key_option : Ptr → List Bytes → Server → Bool × List Bytes × Server
key_option c [] s = (false, [], s)
key_option c ([] ∷ keys) s = (false, [] ∷ keys, s)
key_option c ((d ∷ ds) ∷ keys) s =
    if not (d == b'-')
    then (false, (d ∷ ds) ∷ keys, s)
    else if str_eq (d ∷ ds) (codes "-shared")
    then (false, keys, s)
    else if str_eq (d ∷ ds) (codes "-exclusively")
    then (true, keys, s)
    else (false, keys, send_error c (codes "Invalid option: " ++ ((d ∷ ds) ++ codes "\n")) s)

unfoldable pub client_add_key_func : Ptr → List Bytes → Server → Outcome
client_add_key_func c argv s = when_ack c s λ x.
    if ltb (length argv) 2
    then complain c (codes "Usage: client_add_key [-exclusively|-shared] {<key>}+\n") s
    else (let (exclusively, keys, s') = key_option c (drop 1 argv) s in
        say c success (reserve_keys c exclusively keys s'))

unfoldable pub release_keys : Ptr → List Bytes → Server → Server
release_keys c [] s = s
release_keys c (key ∷ keys) s =
    release_keys c keys (record s { keylist = release_key key c s.keylist })

unfoldable pub client_del_key_func : Ptr → List Bytes → Server → Outcome
client_del_key_func c argv s = when_ack c s λ x.
    if ltb (length argv) 2
    then complain c (codes "Usage: client_del_key {<key>}+\n") s
    else say c success (release_keys c (drop 1 argv) s)

-- The states of the backlight are 0 (off), 1 (on) and 2 (open); 0x100 is blink and 0x200 is flash.
unfoldable pub backlight_of : Bytes → ℕ → ℕ
backlight_of word b =
    if str_eq (codes "on") word
    then 1
    else if str_eq (codes "off") word
    then 0
    else if str_eq (codes "toggle") word
    then (if b == 1 then 0 else if b == 0 then 1 else b)
    else if str_eq (codes "blink") word
    then or_bit 256 b
    else if str_eq (codes "flash") word
    then or_bit 512 b
    else b

unfoldable pub set_client_backlight : Ptr → Client → List Bytes → Server → Outcome
set_client_backlight c x (name ∷ word ∷ []) s =
    say c success (update_client c (record x { backlight = backlight_of word x.backlight }) s)
set_client_backlight c x argv s =
    complain c (codes "Usage: backlight {on|off|toggle|blink|flash}\n") s

unfoldable pub backlight_func : Ptr → List Bytes → Server → Outcome
backlight_func c argv s = when_ack c s λ x. set_client_backlight c x argv s
