-- ===== src/Render/Tests.antt =====
-- A scroller of eight places for server/render.c.
use lcdproc.Prelude.{List, ℕ, ◌+◌, ◌≡◌, ◌≤◌, some, take, drop, length, min, arith, Bytes, codes}
use lcdproc.Prelude.Int.{pos, negsuc}
use lcdproc.Render.{marquee, wiggle, lines_required, vertical}
use lcdproc.Render.Rows.{vertical-length}
use lcdproc.Render.Scrollers.{marquee-length, wiggle-length}

abbrev news : Bytes
news = codes "LCDproc news"

marquee-length_example :
    (line : Bytes) × (marquee news 8 (negsuc 2) 7 ≡ some line) × (length line ≡ 8)
marquee-length_example = marquee-length news 8 (negsuc 2) 7 (omega arith) (omega arith)

wiggle-length_example :
    (o : ℕ) × (o + 8 ≤ 12) × (wiggle news 8 (pos 3) 20 ≡ some (take 8 (drop o news)))
wiggle-length_example = wiggle-length news 8 (pos 3) 20 (omega arith) (omega arith)

vertical-length_example :
    (ls : List Bytes) × (vertical news 4 2 (negsuc 0) 5 ≡ some ls) × (length ls ≡ min 3 2)
unfolding lines_required
vertical-length_example =
    vertical-length news 4 2 (negsuc 0) 5 (omega arith) (omega arith) (omega arith)
