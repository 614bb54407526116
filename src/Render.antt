-- ===== src/Render.antt =====
-- The scrollers of `render_frame` in server/render.c: what part of its text a widget of the
-- direction `m` (marquee), `h` or `v` shows at a time. A division by 0, a read behind the end of
-- the text and a product that is out of the range of `int` are faults. The time is not negative,
-- and the box is no wider than the buffer.
pub mod Rows
pub mod Scrollers
mod Tests
use lcdproc.Prelude.{
  ℕ, zero, suc, ◌+◌, ◌-◌, ◌*◌, ◌/◌, ◌%◌, Option, none, some, List, [], ◌∷◌, ◌++◌, ltb, leb, ◌==◌,
  if◌then◌else◌, ◌>>=◌, ◌>>◌, length, take, drop, Bytes,
}
use lcdproc.Prelude.Int.{ℤ, pos, negsuc}

-- `a % b` and `a / b`
unfoldable pub rem : ℕ → ℕ → Option ℕ
rem a b = if b == 0 then none else some (a % b)

unfoldable pub quot : ℕ → ℕ → Option ℕ
quot a b = if b == 0 then none else some (a / b)

-- `a * b`, of `int`s.
unfoldable pub product : ℕ → ℕ → Option ℕ
product a b = if ltb (a * b) 2147483648 then some (a * b) else none

-- `&text[offset]`, up to the terminator.
unfoldable pub text_from : Bytes → ℕ → Option Bytes
text_from text offset = if leb offset (length text) then some (drop offset text) else none

-- A speed above 0 is the time for one step, a speed below 0 the steps in one unit of time.
unfoldable pub marquee_offset : ℕ → ℤ → ℕ → Option ℕ
marquee_offset len (pos zero) timer = some 0
marquee_offset len (pos (suc n)) timer =
    product len (suc n) >>= λ cycle. rem timer cycle >>= λ r. some (r / suc n)
marquee_offset len (negsuc n) timer = rem timer (len / suc n) >>= λ r. some (r * suc n)

unfoldable pub marquee : Bytes → ℕ → ℤ → ℕ → Option Bytes
marquee text width speed timer = if leb (length text) width then some text else (do
  offset ← marquee_offset (length text) speed timer
  if leb offset (length text)
      then (do
        t ← text_from text offset
        let room = width - (length text - offset)
        some (take width (take width t ++ (if ltb 0 room then take room text else []))))
      else some [])

-- Forth in the even turns, back in the odd ones.
unfoldable pub wiggle_offset : ℕ → ℤ → ℕ → Option ℕ
wiggle_offset len (pos zero) timer = some 0
wiggle_offset len (pos (suc n)) timer = product len (suc n) >>= λ cycle.
    quot timer cycle >>= λ turn.
    rem timer cycle >>= λ r. some (if turn % 2 == 0 then r / suc n else (cycle - 1 - r) / suc n)
wiggle_offset len (negsuc n) timer = quot timer (len / suc n) >>= λ turn.
    rem timer (len / suc n) >>= λ r. some (if turn % 2 == 0 then r * suc n else len - 1 - r * suc n)

unfoldable pub wiggle : Bytes → ℕ → ℤ → ℕ → Option Bytes
wiggle text width speed timer = if leb (length text + 1) width then some text else (do
  offset ← wiggle_offset (length text + 1 - width) speed timer
  if leb offset (length text + 1)
      then (do t ← text_from text offset; some (take width t))
      else some [])

-- The direction `v`: the lines that the text needs, and those from `i` on.
unfoldable pub lines_required : ℕ → ℕ → ℕ
lines_required len width = len / width + (if len % width == 0 then 0 else 1)

unfoldable pub rows : Bytes → ℕ → ℕ → ℕ → Option (List Bytes)
rows text width i zero = some []
rows text width i (suc n) = text_from text (i * width) >>= λ t.
    rows text width (i + 1) n >>= λ rest. some (take width t ∷ rest)

-- `available` is the height of the box, which is not 0.
unfoldable pub vertical : Bytes → ℕ → ℕ → ℤ → ℕ → Option (List Bytes)
vertical text width available speed timer =
    let required = lines_required (length text) width in
    if leb (length text) width
    then some (text ∷ [])
    else if leb required available
    then rows text width 0 required
    else (wiggle_offset (required - available + 1) speed timer >>= λ begin.
        rows text width begin available)
