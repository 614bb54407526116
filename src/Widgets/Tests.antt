-- ===== src/Widgets/Tests.antt =====
-- A screen of server/screen.c with a string, a frame with a string in it, and a title.
use lcdproc.Prelude.{◌≡◌, codes}
use lcdproc.Widgets.{
  Widgets, wid_string, wid_frame, wid_title, empty, plain, framed, widget_create, find_widget,
}
use lcdproc.Widgets.Search.{walk, first_named, find_widget-first_named}

abbrev three_and_one : Widgets
three_and_one = plain (widget_create (codes "text") wid_string) (
    framed (widget_create (codes "box") wid_frame)
      (plain (widget_create (codes "inner") wid_string) empty)
      (plain (widget_create (codes "title") wid_title) empty))

find_widget-first_named_example :
    find_widget (codes "inner") three_and_one ≡ first_named (codes "inner") (walk three_and_one)
find_widget-first_named_example = find_widget-first_named (codes "inner") three_and_one
