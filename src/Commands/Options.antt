-- ===== src/Commands/Options.antt =====
-- `screen_set`, for server/commands/screen_commands.c: its arguments as a sequence of steps, each
-- of which does what the table of Rules says and gets one answer. The code writes to the screen as
-- it goes.
use lcdproc.Prelude.{
  ℕ, ◌≡◌, Option, none, some, List, [], ◌∷◌, ◌++◌, if◌then◌else◌, Bytes, codes, str_eq,
}
use lcdproc.ScreenList.{Screen, Ptr, get_screen}
use lcdproc.Commands.{Client, Server, success, strip_dash, client_find_screen}
use lcdproc.Commands.ScreenCommands.{
  Field, name, priority, duration, heartbeat, wid, hgt, timeout, backlight, cursor, cursor_x,
  cursor_y, field_name, store_screen,
}
use lcdproc.Commands.WidgetCommands.{Answer, huh, line, send_all}
use lcdproc.Commands.Rules.{rule, obeyed}
use lcdproc.Commands.Sound.{Sound}

-- An argument that names no option; an option at the end, without its parameter; an option with it.
data Step : Type 0 where
  unknown : Step
  bare : Field → Step
  given : Field → Bytes → Step

find_field : Bytes → List Field → Option Field
find_field p [] = none
find_field p (f ∷ fs) =
    let rest = find_field p fs in if str_eq p (field_name f) then some f else rest

fields : List Field
fields =
    name ∷ priority ∷ duration ∷ heartbeat ∷ wid ∷ hgt ∷ timeout ∷ backlight ∷ cursor ∷ cursor_x
    ∷ cursor_y ∷ []

-- One `-` in front of an option is ignored.
abbrev option : Bytes → Option Field
option a = find_field (strip_dash a) fields

abbrev at_end : Option Field → Step
at_end none = unknown
at_end (some f) = bare f

steps : List Bytes → List Step
steps [] = []
steps (a ∷ []) = at_end (option a) ∷ []
steps (a ∷ word ∷ rest) =
    let skipped = steps (word ∷ rest) in
    let taken = steps rest in
    elim (option a) [ none ↦ unknown ∷ skipped | some f ↦ given f word ∷ taken ]

abbrev answered : Option Screen → Screen → Screen × Answer
answered none x = (x, huh (codes "Cursor position outside screen\n"))
answered (some y) x = (y, line success)

-- The screen after one step, and what the client is told of it.
taken : ℕ → Step → Screen → Screen × Answer
taken b unknown x = (x, huh (codes "invalid parameter\n"))
taken b (bare f) x = (x, huh (codes "-" ++ (field_name f ++ codes " requires a parameter\n")))
taken b (given f w) x = answered (obeyed (rule b f) w x) x

-- The screen after all steps, and one answer for each.
taken_all : ℕ → List Step → Screen → Screen × List Answer
taken_all b [] x = (x, [])
taken_all b (step ∷ more) x =
    let (y, answer) = taken b step x in
    let (z, answers) = taken_all b more y in (z, answer ∷ answers)

pub options_set : ℕ → List Bytes → Screen → Screen × List Answer
options_set b args x = taken_all b (steps args) x

-- What the steps make of the server.
abbrev pub done : Ptr → Ptr → Screen × List Answer → Server → Server
done c p r s = send_all c r.1 (store_screen p r.0 s)

-- The screen that the client means is what the options make of it, and each argument that names an
-- option, with its parameter, and each other one has got its answer.
pub record Sets (c : Ptr) (client : Client) (id : Bytes) (args : List Bytes) (s s' : Server)
    : Type 0 where
  pub screen : Ptr
  pub before : Screen
  pub asked : client_find_screen c id s.rotation ≡ some screen
  pub was : get_screen s.rotation screen ≡ some before
  pub told : s' ≡ done c screen (options_set client.backlight args before) s
