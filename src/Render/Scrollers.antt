-- ===== src/Render/Scrollers.antt =====
-- The scrollers of server/render.c: their window and their text.
use native.Mathlib.Nat.{mod-lt, div-eq_of_lt, div-lt_iff_lt-mul, le-div_iff_mul-le}
use lcdproc.Prelude.{
  ℕ, zero, suc, ◌+◌, ◌-◌, ◌*◌, ◌/◌, ◌%◌, ◌≤◌, ◌<◌, ◌≡◌, inl, inr, refl, true, false, none, some, [],
  ◌++◌, ltb, leb, ◌==◌, length, length-take, length-drop, length-append, take, drop, Bytes,
  Bool-cases, arith,
}
use lcdproc.Prelude.Int.{ℤ, pos, negsuc}
use lcdproc.Render.{rem, quot, product, text_from, marquee_offset, marquee, wiggle_offset, wiggle}

-- A speed above 0 takes a time for all places that is in the range of `int`; a speed below 0 takes
-- no more steps in one unit of time than there are places.
abbrev pub Fits : ℕ → ℤ → Type 0
Fits len (pos n) = len * n < 2147483648
Fits len (negsuc n) = suc n ≤ len

rem_lem : (a b : ℕ) → 0 < b → rem a b ≡ some (a % b)
unfolding rem
rem_lem a b h = let ne : (b == 0) ≡ false = ground (arith, h) in rw ne

quot_lem : (a b : ℕ) → 0 < b → quot a b ≡ some (a / b)
unfolding quot
quot_lem a b h = let ne : (b == 0) ≡ false = ground (arith, h) in rw ne

product_lem : (a b : ℕ) → a * b < 2147483648 → product a b ≡ some (a * b)
unfolding product
product_lem a b h = let fits : ltb (a * b) 2147483648 ≡ true = ground (arith, h) in rw fits

times_pos : (a n : ℕ) → 0 < a → 0 < a * suc n
times_pos a n h = grind arith

-- Slow and fast steps.
slow : (len n t : ℕ) → t < len * suc n → t / suc n < len
slow len n t h = (div-lt_iff_lt-mul (omega arith)).1 h

fast : (len n t : ℕ) → t < len / suc n → t * suc n < len
fast len n t h =
    let m : (t + 1) * suc n ≤ len = (le-div_iff_mul-le (omega arith)).0 (omega arith) in grind arith

fast_pos : (len n : ℕ) → suc n ≤ len → 0 < len / suc n
fast_pos len n h =
    let m : 1 ≤ len / suc n = (le-div_iff_mul-le (omega arith)).1 (omega arith) in omega arith

marquee_offset-lt :
    (len : ℕ) (speed : ℤ) (timer : ℕ)
    → 0 < len
    → Fits len speed
    → (o : ℕ) × (marquee_offset len speed timer ≡ some o) × (o < len)
unfolding marquee_offset
marquee_offset-lt len (pos zero) timer h f = (0, refl, h)
marquee_offset-lt len (pos (suc n)) timer h f =
    let p = times_pos len n h in
    (
      timer % (len * suc n) / suc n,
      rw (product_lem len (suc n) f, rem_lem timer (len * suc n) p),
      slow len n (timer % (len * suc n)) (mod-lt timer p),
    )
marquee_offset-lt len (negsuc n) timer h f =
    let p = fast_pos len n f in
    (
      timer % (len / suc n) * suc n,
      rw (rem_lem timer (len / suc n) p),
      fast len n (timer % (len / suc n)) (mod-lt timer p),
    )

pub wiggle_offset-lt :
    (len : ℕ) (speed : ℤ) (timer : ℕ)
    → 0 < len
    → Fits len speed
    → (o : ℕ) × (wiggle_offset len speed timer ≡ some o) × (o < len)
unfolding wiggle_offset
wiggle_offset-lt len (pos zero) timer h f = (0, refl, h)
wiggle_offset-lt len (pos (suc n)) timer h f =
    let p = times_pos len n h in
    let r = timer % (len * suc n) in
    elim (Bool-cases (timer / (len * suc n) % 2 == 0)) [
      | inl y ↦ (
        r / suc n,
        rw (
          product_lem len (suc n) f,
          quot_lem timer (len * suc n) p,
          rem_lem timer (len * suc n) p,
          y,
        ),
        slow len n r (mod-lt timer p),
      )
      | inr m ↦ (
        (len * suc n - 1 - r) / suc n,
        rw (
          product_lem len (suc n) f,
          quot_lem timer (len * suc n) p,
          rem_lem timer (len * suc n) p,
          m,
        ),
        slow len n (len * suc n - 1 - r) (omega (arith, p)),
      )
    ]
wiggle_offset-lt len (negsuc n) timer h f =
    let p = fast_pos len n f in
    let r = timer % (len / suc n) in
    elim (Bool-cases (timer / (len / suc n) % 2 == 0)) [
      | inl y ↦ (
        r * suc n,
        rw (quot_lem timer (len / suc n) p, rem_lem timer (len / suc n) p, y),
        fast len n r (mod-lt timer p),
      )
      | inr m ↦ (
        len - 1 - r * suc n,
        rw (quot_lem timer (len / suc n) p, rem_lem timer (len / suc n) p, m),
        omega (arith, h),
      )
    ]

pub text_from_lem : (text : Bytes) (o : ℕ) → o ≤ length text → text_from text o ≡ some (drop o text)
unfolding text_from
text_from_lem text o h = let le : leb o (length text) ≡ true = ground (arith, h) in rw le

-- A marquee whose text is longer than its box, at a speed whose product with the length of the
-- text is in the range of int if it is positive, and which takes no more steps in a unit of time
-- than the text has characters if it is negative, divides by no 0, has no product out of the
-- range of int, reads inside its text at any time, and shows exactly as many characters as the
-- box has places.
pub marquee-length :
    (text : Bytes) (width : ℕ) (speed : ℤ) (timer : ℕ)
    → width < length text
    → Fits (length text) speed
    → (line : Bytes) × (marquee text width speed timer ≡ some line) × (length line ≡ width)
unfolding marquee
marquee-length text width speed timer h f =
    let (o, go, lt) = marquee_offset-lt (length text) speed timer (omega arith) f in
    let wide : leb (length text) width ≡ false = ground (arith, h) in
    let within : leb o (length text) ≡ true = ground (arith, lt) in
    let room = width - (length text - o) in
    elim (Bool-cases (ltb 0 room)) [
      | inl y ↦ (
        take width (take width (drop o text) ++ take room text),
        rw (wide, go, within, text_from_lem text o (omega arith), y),
        ground (
          arith,
          y,
          length-take width (take width (drop o text) ++ take room text),
          length-append (take width (drop o text)) (take room text),
          length-take width (drop o text),
          length-take room text,
          length-drop o text,
        ),
      )
      | inr n ↦ (
        take width (take width (drop o text) ++ []),
        rw (wide, go, within, text_from_lem text o (omega arith), n),
        ground (
          arith,
          n,
          length-take width (take width (drop o text) ++ []),
          length-append (take width (drop o text)) [],
          length-take width (drop o text),
          length-drop o text,
        ),
      )
    ]

-- A horizontal scroller whose text with its terminator is longer than its box, at a speed whose
-- product with the number of places for the window is in the range of int if it is positive, and
-- which takes no more steps in a unit of time than there are places for the window if it is
-- negative, divides by no 0, has no product out of the range of int, and shows, at any time, a
-- window of the width of the box that lies inside the text.
pub wiggle-length :
    (text : Bytes) (width : ℕ) (speed : ℤ) (timer : ℕ)
    → width < length text + 1
    → Fits (length text + 1 - width) speed
    → (o : ℕ) × (o + width ≤ length text)
      × (wiggle text width speed timer ≡ some (take width (drop o text)))
unfolding wiggle
wiggle-length text width speed timer h f =
    let (o, go, lt) = wiggle_offset-lt (length text + 1 - width) speed timer (omega arith) f in
    let wide : leb (length text + 1) width ≡ false = ground (arith, h) in
    let within : leb o (length text + 1) ≡ true = ground (arith, lt) in
    (o, omega arith, rw (wide, go, within, text_from_lem text o (omega arith)))

no_turn : (len n : ℕ) → len < suc n → (len / suc n == 0) ≡ true
no_turn len n h = ground (arith, div-eq_of_lt h)

-- At a negative speed of more steps in a unit of time than the text has characters, both
-- horizontal scrollers divide by 0 at any time, if the text is longer than the box and the box
-- has a place.
pub scrollers-fault :
    (text : Bytes) (width n timer : ℕ)
    → 1 ≤ width
    → width < length text
    → length text < suc n
    → (marquee text width (negsuc n) timer ≡ none) × (wiggle text width (negsuc n) timer ≡ none)
unfolding marquee marquee_offset wiggle wiggle_offset rem quot
scrollers-fault text width n timer one h lt =
    let wide : leb (length text) width ≡ false = ground (arith, h) in
    let wide' : leb (length text + 1) width ≡ false = ground (arith, h) in
    let p = no_turn (length text) n lt in
    let q = no_turn (length text + 1 - width) n (omega arith) in (rw (wide, p), rw (wide', q))
