-- ===== src/Menu/Rows.antt =====
-- The selector and the scroll of a menu of server/menu.c, as rows of the display.
use lcdproc.Prelude.{
  ℕ, ◌≤◌, ◌<◌, ◌≡◌, inl, inr, true, false, ltb, if◌then◌else◌, Bool-cases, arith, tests,
}
use lcdproc.Prelude.Int.{ℤ, pos, ◌+ℤ◌, ◌-ℤ◌, ◌≤ℤ◌, ltb_ℤ, int_laws}

pub not_ltb : {a b : ℕ} → ltb a b ≡ false → b ≤ a
not_ltb h = ground (arith, h)

-- The row of a selector and a scroll is on a display, and the selector is among the items.
abbrev pub OnDisplay : ℕ → ℕ → ℤ → ℤ → Type 0
OnDisplay height count p t =
    (pos 0 ≤ℤ p) × (p +ℤ pos 1 ≤ℤ pos count) × (t ≤ℤ p +ℤ pos 1) × (p +ℤ pos 2 ≤ℤ t +ℤ pos height)

pub one_up :
    (height count : ℕ) (p t : ℤ)
    → OnDisplay height count p t
    → ltb_ℤ (pos 0) p ≡ true
    → OnDisplay height count (p -ℤ pos 1) (if ltb_ℤ (p -ℤ pos 1 +ℤ pos 1) t then t -ℤ pos 1 else t)
one_up height count p t (a, b, c, d) k = elim (Bool-cases (ltb_ℤ (p -ℤ pos 1 +ℤ pos 1) t)) [
  | inl y ↦ rw y (omega (int_laws, tests), omega int_laws, omega (int_laws, tests), omega int_laws)
  | inr n ↦
      rw n (omega (int_laws, tests), omega int_laws, omega (int_laws, not_ltb n), omega int_laws)
]

pub one_down :
    (height count : ℕ) (p t : ℤ)
    → OnDisplay height count p t
    → ltb_ℤ p (pos count -ℤ pos 1) ≡ true
    → OnDisplay height count
        (p +ℤ pos 1)
        (if ltb_ℤ (pos height) (p +ℤ pos 1 -ℤ t +ℤ pos 2) then t +ℤ pos 1 else t)
one_down height count p t (a, b, c, d) k =
    elim (Bool-cases (ltb_ℤ (pos height) (p +ℤ pos 1 -ℤ t +ℤ pos 2))) [
      | inl y ↦ rw y (
        omega (int_laws, tests),
        omega (int_laws, tests),
        omega (int_laws, tests),
        omega (int_laws, tests),
      )
      | inr n ↦ rw n (
        omega (int_laws, tests),
        omega (int_laws, tests),
        omega (int_laws, tests),
        omega (int_laws, not_ltb n),
      )
    ]

pub to_last :
    (height count : ℕ)
    → 0 < height
    → 0 < count
    → OnDisplay height count (pos count -ℤ pos 1) (pos count -ℤ pos 1 +ℤ pos 2 -ℤ pos height)
unfolding ◌+ℤ◌ ◌-ℤ◌
to_last height count h k = ground (arith, h, k)

pub to_first : (height count : ℕ) → 1 < height → 0 < count → OnDisplay height count (pos 0) (pos 0)
unfolding ◌+ℤ◌
to_first height count h k = ground (arith, h, k)
