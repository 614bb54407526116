-- ===== src/Parser/Tests.antt =====
-- Lines of the client protocol for `parse_message` of server/parse.c.
use lcdproc.Prelude.{◌≡◌, some, List, [], ◌∷◌, codes, Bytes, arith}
use lcdproc.Parser.{parse_line, arguments}
use lcdproc.Parser.Grammar.{meaning}
use lcdproc.Parser.Correct.{parse_line-meaning}
use lcdproc.Parser.RoundTrip.{quoted, parse_line-quoted}

-- A quote, an escape and braces.
abbrev line : Bytes
line = codes "widget_set s1 w1 1 1 {two words} \"a\\\"b\" c\\n\n"

abbrev title : List Bytes
title = codes "screen_set" ∷ codes "two \"words\"" ∷ [] ∷ []

parse_line-meaning_example : parse_line line ≡ some (meaning line)
parse_line-meaning_example = parse_line-meaning line

parse_line-quoted_example : parse_line (quoted title) ≡ some (arguments title)
parse_line-quoted_example = parse_line-quoted title (ground arith)
