-- ===== src/Input/Tests.antt =====
-- Keys for one client and the server, for server/input.c.
use mathlib.Core.List.{mem-cons_self}
use lcdproc.Prelude.{
  ◌≡◌, ◌⊎◌, refl, true, false, none, some, List, [], ◌∷◌, ◌==◌, if◌then◌else◌, arith, Bytes, codes,
  str_eq,
}
use lcdproc.Prelude.Int.{negsuc}
use lcdproc.ScreenList.{screen_create, Screen, get_screen}
use lcdproc.ScreenList.Top.{WellFormed}
use lcdproc.Input.{
  KeyReservation, Input, interferes, any_interferes, reserve_key, release_client_keys, find_key,
  handle_input,
}
use lcdproc.Input.Exclusive.{
  Reachable, start, next, reserve, find_key-exclusive, find_key-reserve_key,
}
use lcdproc.Input.Released.{lines_to, handle_input-release_client_keys}
use lcdproc.Input.Total.{handle_input-WellFormed}

abbrev up : KeyReservation
up = record { key = codes "Up"; exclusive = true; client = 9 }

one_key : Reachable (up ∷ [])
unfolding reserve_key any_interferes
one_key = next start (reserve (codes "Up") true 9)

find_key-exclusive_example : find_key (codes "Up") 7 (up ∷ []) ≡ some up
find_key-exclusive_example = find_key-exclusive [] [] up 7 one_key refl

find_key-reserve_key_example :
    ((false ≡ false) × (up ∷ [] ≡ up ∷ []) × (any_interferes (codes "Up") false (up ∷ []) ≡ true))
    ⊎ ((false ≡ true)
        × ((kr : KeyReservation) × (find_key (codes "Up") 7 (up ∷ []) ≡ some kr)
            × (kr.client ≡ 7)
            × (kr.exclusive ≡ false)))
unfolding reserve_key any_interferes interferes str_eq
find_key-reserve_key_example =
    find_key-reserve_key (codes "Up") false 7 (up ∷ []) (up ∷ []) false refl

abbrev greeting : Screen
greeting = screen_create (record { width = 20; height = 4 }) 32 (negsuc 0) (codes "_server") 0

abbrev idle : Input
idle = record {
  keylist = up ∷ [];
  toggle_rotate_key = codes "Enter";
  prev_screen_key = codes "Left";
  next_screen_key = codes "Right";
  scroll_up_key = codes "Up";
  scroll_down_key = codes "Down";
  menu_key = some (codes "Menu");
  menuscreen = 5;
  rotation = record {
    autorotate = true;
    screenlist = 1 ∷ [];
    current_screen = 1;
    start_time = 0;
    screens = λ p. if p == 1 then some greeting else none;
    client_screens = λ c. [];
    timer = 0;
    sent = [];
  };
  server_msg_text = [];
  server_msg_expire = 0;
  key_lines = [];
  menu_keys = [];
}

abbrev presses : List Bytes
presses = codes "Up" ∷ codes "Left" ∷ codes "Enter" ∷ []

idle-WellFormed : WellFormed idle.rotation
unfolding get_screen
idle-WellFormed = record {
  readable = ((greeting, refl), tt);
  listed = λ _. mem-cons_self;
  in_touch = record { in_turn = tt; readable = λ _. (greeting, refl); current_is = refl };
}

handle_input-WellFormed_example :
    (i' : Input) × (handle_input presses idle ≡ some i') × WellFormed i'.rotation
handle_input-WellFormed_example = handle_input-WellFormed presses idle idle-WellFormed

handle_input-release_client_keys_example :
    (i' : Input) × (handle_input presses (record idle { keylist = release_client_keys 9 (up ∷ []) })
      ≡ some i')
    × (lines_to 9 i'.key_lines ≡ 0)
handle_input-release_client_keys_example =
    handle_input-release_client_keys presses 9 idle idle-WellFormed (λ e. ground (arith, e))
