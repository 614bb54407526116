-- ===== src/ScreenList/Tests.antt =====
-- Two screens of server/screenlist.c: the server's, and one of a client.
use mathlib.Core.List.{mem-cons_self, mem-cons_of_mem}
use lcdproc.Prelude.{◌≡◌, refl, true, none, some, [], ◌∷◌, ◌==◌, if◌then◌else◌, arith, codes}
use lcdproc.Prelude.Int.{ℤ, pos, negsuc}
use lcdproc.ScreenList.{
  screen_create, rank, Screen, Rotation, get_screen, erase, foreground, screenlist_switch,
  screenlist_remove,
}
use lcdproc.ScreenList.Process.{screenlist_process}
use lcdproc.ScreenList.Notices.{InTouch, screenlist_switch-InTouch}
use lcdproc.ScreenList.Top.{WellFormed, Shows}
use lcdproc.ScreenList.Frame.{process-Settles}
use lcdproc.ScreenList.Expiry.{process_faults}
use lcdproc.ScreenList.Removal.{screenlist_remove-WellFormed}

abbrev server_screen : Screen
server_screen = screen_create (record { width = 20; height = 4 }) 32 (negsuc 0) (codes "_server") 0

abbrev client_screen : ℤ → Screen
client_screen t =
    record (screen_create (record { width = 20; height = 4 }) 32 t (codes "clock") 9) {
      priority = rank foreground;
    }

abbrev two_screens : Rotation
two_screens = record {
  autorotate = true;
  screenlist = 1 ∷ 2 ∷ [];
  current_screen = 1;
  start_time = 0;
  screens = λ p.
      if p == 1
      then some server_screen
      else if p == 2
      then some (client_screen (negsuc 0))
      else none;
  client_screens = λ c. if c == 9 then 2 ∷ [] else [];
  timer = 40;
  sent = [];
}

two_screens-InTouch : InTouch two_screens
unfolding get_screen
two_screens-InTouch = record {
  in_turn = tt;
  readable = λ _. (server_screen, refl);
  current_is = refl;
}

two_screens-WellFormed : WellFormed two_screens
unfolding get_screen
two_screens-WellFormed = record {
  readable = ((server_screen, refl), ((client_screen (negsuc 0), refl), tt));
  listed = λ _. mem-cons_self;
  in_touch = two_screens-InTouch;
}

process-Settles_example :
    (r' : Rotation) × (screenlist_process two_screens ≡ some r') × WellFormed r' × Shows r'
unfolding get_screen
process-Settles_example =
    process-Settles two_screens two_screens-WellFormed (λ x e. ground (arith, e))

screenlist_switch-InTouch_example :
    (r' : Rotation) × (screenlist_switch 2 two_screens ≡ some r')
    × InTouch r'
    × (r'.current_screen ≡ 2)
    × (r'.screenlist ≡ 1 ∷ 2 ∷ [])
    × (r'.screens ≡ two_screens.screens)
unfolding get_screen
screenlist_switch-InTouch_example =
    screenlist_switch-InTouch 2 two_screens (client_screen (negsuc 0)) two_screens-InTouch refl

screenlist_remove-WellFormed_example :
    (r' : Rotation) × (screenlist_remove 1 two_screens ≡ some ((erase 1 (1 ∷ 2 ∷ [])).0, r'))
    × (r'.screenlist ≡ (erase 1 (1 ∷ 2 ∷ [])).1)
    × WellFormed r'
screenlist_remove-WellFormed_example =
    screenlist_remove-WellFormed 1 2 two_screens two_screens-WellFormed (λ e. ground (arith, e))
      (λ e. ground (arith, e)) (mem-cons_of_mem 1 mem-cons_self)

-- One screen alone, in the last frame before it expires.
abbrev expiring : Rotation
expiring = record {
  autorotate = true;
  screenlist = 2 ∷ [];
  current_screen = 2;
  start_time = 0;
  screens = λ p. if p == 2 then some (client_screen (pos 1)) else none;
  client_screens = λ c. if c == 9 then 2 ∷ [] else [];
  timer = 1;
  sent = [];
}

process_faults_example : screenlist_process expiring ≡ none
unfolding get_screen
process_faults_example =
    process_faults expiring (client_screen (pos 1)) (λ e. ground (arith, e)) refl (omega arith)
