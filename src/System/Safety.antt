-- ===== src/System/Safety.antt =====
-- The lines of a client that run into none of the faults that are known of the commands.
use lcdproc.Prelude.{Option, none, some, List, Bytes}
use lcdproc.Parser.{Parsed, arguments, refused}
use lcdproc.Parser.Grammar.{meaning}
use lcdproc.ScreenList.{Ptr}
use lcdproc.Commands.{Server}
use lcdproc.Commands.Dispatch.{
  Command, get_command_function, widget_add, output, sleep, menu_add_item, menu_del_item,
  menu_set_item, menu_goto, menu_set_main,
}
use lcdproc.System.ClientLines.{InRange}
use lcdproc.System.ScreenLines.{FramesNamed}

-- No command on menus; a name given to `widget_add -in` is the name of a frame, if a widget has
-- it; a number given to `output` or `sleep` is in the range of `strtol`.
abbrev pub Safe : Command → Ptr → List Bytes → Server → Type 0
Safe widget_add c argv s = FramesNamed c argv s
Safe output c argv s = InRange argv
Safe sleep c argv s = InRange argv
Safe menu_add_item c argv s = ⊥
Safe menu_del_item c argv s = ⊥
Safe menu_set_item c argv s = ⊥
Safe menu_goto c argv s = ⊥
Safe menu_set_main c argv s = ⊥
Safe _ c argv s = Unit

abbrev pub SafeCall : Option Command → Ptr → List Bytes → Server → Type 0
SafeCall none c argv s = Unit
SafeCall (some function) c argv s = Safe function c argv s

abbrev pub SafeParsed : Parsed → Ptr → Server → Type 0
SafeParsed refused c s = Unit
SafeParsed (arguments argv) c s = SafeCall (get_command_function argv) c argv s

abbrev pub SafeLine : Ptr → Bytes → Server → Type 0
SafeLine c str s = SafeParsed (meaning str) c s
