-- ===== src/Menu/Printed.antt =====
-- How many characters `printf` takes for an `int`, in the numeric item of server/menuitem.c.
use lcdproc.Prelude.{
  ℕ, zero, suc, ◌+◌, ◌/◌, ◌≤◌, ◌%◌, Bool, true, false, [], ◌∷◌, arith, Bytes, length, length-take,
}
use lcdproc.Prelude.Int.{ℤ, pos, negsuc}
use lcdproc.Commands.{decimal}
use lcdproc.Menu.Numeric.{Numeric, allow_signed, format, snprintf, max_len}

pub length-decimal : (fuel n : ℕ) (text : Bytes) → length (decimal fuel n text) ≤ fuel + length text
unfolding decimal
length-decimal zero n text = omega arith
length-decimal (suc fuel) n text =
    ground (arith, length-decimal fuel (n / 10) ((b'0' + n % 10) ∷ text))

-- An `int` takes eleven characters at most.
pub length-format : (signed : Bool) (v : ℤ) → length (format signed v) ≤ 11
unfolding format
length-format true (pos n) = omega (arith, length-decimal 10 n [])
length-format true (negsuc n) = omega (arith, length-decimal 10 (n + 1) [])
length-format false (pos n) = omega (arith, length-decimal 10 n [])
length-format false (negsuc n) = omega (arith, length-decimal 10 (n + 1) [])

pub length-snprintf : (signed : Bool) (v : ℤ) → length (snprintf (format signed v)) ≤ 11
unfolding snprintf
length-snprintf signed v = omega (arith, length-take 39 (format signed v), length-format signed v)

pub max_len_le : (item : Numeric) → max_len item ≤ 11
unfolding max_len
max_len_le item = omega (
  arith,
  length-snprintf (allow_signed item) item.minvalue,
  length-snprintf (allow_signed item) item.maxvalue,
)
