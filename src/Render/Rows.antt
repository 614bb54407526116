-- ===== src/Render/Rows.antt =====
-- The vertical scroller of server/render.c.
use native.Mathlib.Nat.{le-div_iff_mul-le}
use lcdproc.Prelude.{
  ℕ, zero, suc, ◌+◌, ◌-◌, ◌*◌, ◌≤◌, ◌<◌, ◌≡◌, inl, inr, refl, ap, false, some, List, [], ◌∷◌, leb,
  length, min, take, drop, Bytes, Bool-cases, arith,
}
use lcdproc.Prelude.Int.{ℤ}
use lcdproc.Render.{lines_required, rows, vertical}
use lcdproc.Render.Scrollers.{Fits, wiggle_offset-lt, text_from_lem}

row_within : (len width i : ℕ) → 0 < width → i < lines_required len width → i * width ≤ len
unfolding lines_required
row_within len width i w h = (le-div_iff_mul-le w).0 (ground (arith, h))

rows-total :
    (text : Bytes) (width i n : ℕ)
    → 0 < width
    → i + n ≤ lines_required (length text) width
    → (ls : List Bytes) × (rows text width i n ≡ some ls) × (length ls ≡ n)
unfolding rows
rows-total text width i zero w h = ([], refl, refl)
rows-total text width i (suc n) w h =
    let (ls, go, e) = rows-total text width (i + 1) n w (omega arith) in
    let at = text_from_lem text (i * width) (row_within (length text) width i w (omega arith)) in
    (take width (drop (i * width) text) ∷ ls, rw (at, go), ap suc e)

-- A vertical scroller whose text is longer than its box is wide, at a speed whose product with
-- the number of its places is in the range of int if it is positive, and which takes no more
-- steps in a unit of time than it has places if it is negative, divides by no 0, has no product
-- out of the range of int, begins no line behind the end of its text at any time, and shows as
-- many lines as it needs, at most as many as the box has.
pub vertical-length :
    (text : Bytes) (width available : ℕ) (speed : ℤ) (timer : ℕ)
    → 0 < width
    → width < length text
    → Fits (lines_required (length text) width - available + 1) speed
    → (ls : List Bytes) × (vertical text width available speed timer ≡ some ls)
      × (length ls ≡ min (lines_required (length text) width) available)
unfolding vertical
vertical-length text width available speed timer w h f =
    let required = lines_required (length text) width in
    let wide : leb (length text) width ≡ false = ground (arith, h) in
    elim (Bool-cases (leb required available)) [
      | inl y ↦
          let (ls, go, e) = rows-total text width 0 required w (omega arith) in
          (ls, rw (wide, y, go), ground (arith, y, e))
      | inr n ↦
          let (o, at, lt) =
            wiggle_offset-lt (required - available + 1) speed timer (omega arith) f in
          let (ls, go, e) = rows-total text width o available w (ground (arith, n, lt)) in
          (ls, rw (wide, n, at, go), ground (arith, n, e))
    ]
