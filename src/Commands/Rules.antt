-- ===== src/Commands/Rules.antt =====
-- The options of `screen_set`, for server/commands/screen_commands.c: a table of what each option
-- does to the screen with its parameter, against which the cases of the code are held.
use lcdproc.Prelude.{
  ℕ, ◌≡◌, refl, Bool, true, false, ◌&&◌, Option, none, some, List, [], ◌∷◌, ◌+◌, suc, arith, ◌==◌,
  ltb, leb, if◌then◌else◌, Bool-cases, inl, inr, Bytes, codes, str_eq,
}
use lcdproc.Prelude.Int.{ℤ, pos}
use lcdproc.ScreenList.{Screen}
use lcdproc.Commands.{atoi, or_bit}
use lcdproc.Commands.ScreenCommands.{
  Field, name, priority, duration, heartbeat, wid, hgt, timeout, backlight, cursor, cursor_x,
  cursor_y, positive, to_short, pri_name_to_pri, index_of, set_priority, set_heartbeat,
  set_backlight, set_cursor, set_field,
}

-- What an option does with its parameter: it takes the text; or a number above 0, and ignores
-- another one; or a number above 0 or else the first of some names; or one of some words, and
-- ignores another one; or a number between 1 and a bound, and fails at another one; or it copies a
-- number of the client.
pub data Rule : Type 0 where
  words : (Bytes → Screen → Screen) → Rule
  above_zero : (ℕ → Screen → Screen) → Rule
  number_or_name : List Bytes → (ℕ → Screen → Screen) → Rule
  one_of : List (Bytes × (Screen → Screen)) → Rule
  within : (Screen → ℕ) → (ℤ → Screen → Screen) → Rule
  inherited : (Screen → Screen) → Rule

abbrev light : ℕ → Screen → Screen
light n x = record x { backlight = n }

abbrev names : List Bytes
names =
    codes "hidden"
    ∷ codes "background"
    ∷ codes "info"
    ∷ codes "foreground"
    ∷ codes "alert"
    ∷ codes "input"
    ∷ []

-- The rule of each option, for a client with the given backlight, which is 2 for open.
pub rule : ℕ → Field → Rule
rule b name = words (λ w x. record x { name = some w })
rule b priority = number_or_name names (λ n x. record x { priority = n })
rule b duration = above_zero (λ n x. record x { duration = n })
rule b heartbeat = one_of (
    (codes "on", λ x. record x { heartbeat = 1 })
    ∷ (codes "off", λ x. record x { heartbeat = 0 })
    ∷ (codes "open", λ x. record x { heartbeat = 2 })
    ∷ [])
rule b wid = above_zero (λ n x. record x { width = n })
rule b hgt = above_zero (λ n x. record x { height = n })
rule b timeout = above_zero (λ n x. record x { timeout = pos n })
rule b backlight =
    if b == 2
    then one_of (
        (codes "on", light 1)
        ∷ (codes "off", light 0)
        ∷ (codes "toggle", λ x. if x.backlight == 1 then light 0 x else x)
        ∷ (codes "blink", λ x. light (or_bit 256 x.backlight) x)
        ∷ (codes "flash", λ x. light (or_bit 512 x.backlight) x)
        ∷ [])
    else inherited (light b)
rule b cursor = one_of (
    (codes "off", λ x. record x { cursor = 0 })
    ∷ (codes "on", λ x. record x { cursor = 1 })
    ∷ (codes "under", λ x. record x { cursor = 5 })
    ∷ (codes "block", λ x. record x { cursor = 4 })
    ∷ [])
rule b cursor_x = within (λ x. x.width) (λ n x. record x { cursor_x = n })
rule b cursor_y = within (λ x. x.height) (λ n x. record x { cursor_y = n })

place_of : Bytes → List Bytes → Option ℕ
place_of w [] = none
place_of w (k ∷ more) =
    let rest = place_of w more in
    if str_eq k w then some 0 else elim rest [ none ↦ none | some n ↦ some (suc n) ]

abbrev or_zero : Option ℕ → ℕ
or_zero none = 0
or_zero (some n) = n

pick : List (Bytes × (Screen → Screen)) → Bytes → Screen → Screen
pick [] w x = x
pick ((k, to) ∷ more) w x = let rest = pick more w x in if str_eq w k then to x else rest

-- What the screen becomes, or none if the option fails.
pub obeyed : Rule → Bytes → Screen → Option Screen
obeyed (words to) w x = some (to w x)
obeyed (above_zero to) w x =
    some (if ltb 0 (positive (atoi w)) then to (positive (atoi w)) x else x)
obeyed (number_or_name names to) w x =
    some
      (to (if ltb 0 (positive (atoi w)) then positive (atoi w) else or_zero (place_of w names)) x)
obeyed (one_of table) w x = some (pick table w x)
obeyed (within bound to) w x =
    if ltb 0 (positive (atoi w)) && leb (positive (atoi w)) (bound x)
    then some (to (to_short (positive (atoi w))) x)
    else none
obeyed (inherited to) w x = some (to x)

abbrev pub outcome : Option Screen → Screen → Bool × Screen
outcome none x = (false, x)
outcome (some y) x = (true, y)

abbrev counted : Option ℕ → ℕ → ℕ
counted none i = 0
counted (some n) i = i + n

index_of-place_of :
    (w : Bytes) (ks : List Bytes) (i : ℕ) → index_of w ks i ≡ counted (place_of w ks) i
unfolding index_of place_of
index_of-place_of w [] i = refl
index_of-place_of w (k ∷ ks) i = elim (Bool-cases (str_eq k w)) [
  | inl y ↦ rw y (ground arith)
  | inr n ↦ rw (n, index_of-place_of w ks (i + 1)) (ground arith)
]

pri_name_to_pri-place_of : (w : Bytes) → pri_name_to_pri w ≡ or_zero (place_of w names)
unfolding pri_name_to_pri
pri_name_to_pri-place_of w = rw (index_of-place_of w names 0) (ground arith)

str_eq_sym : (a b : Bytes) → str_eq a b ≡ str_eq b a
unfolding str_eq
str_eq_sym (x ∷ a) (y ∷ b) = ground (arith, str_eq_sym a b)
str_eq_sym [] [] = refl
str_eq_sym [] (y ∷ b) = refl
str_eq_sym (x ∷ a) [] = refl

pub set_field-obeyed :
    (b : ℕ) (f : Field) (w : Bytes) (x : Screen)
    → set_field b f w x ≡ outcome (obeyed (rule b f) w x) x
unfolding set_field set_priority set_heartbeat set_backlight set_cursor obeyed rule pick
set_field-obeyed b name w x = refl
set_field-obeyed b priority w x = ground (arith, pri_name_to_pri-place_of w)
set_field-obeyed b duration w x = refl
set_field-obeyed b heartbeat w x = refl
set_field-obeyed b wid w x = refl
set_field-obeyed b hgt w x = refl
set_field-obeyed b timeout w x = refl
set_field-obeyed b backlight w x = elim (Bool-cases (b == 2)) [
  | inl y ↦
      rw
        (
          y,
          str_eq_sym (codes "on") w,
          str_eq_sym (codes "off") w,
          str_eq_sym (codes "toggle") w,
          str_eq_sym (codes "blink") w,
          str_eq_sym (codes "flash") w,
        )
        refl
  | inr n ↦ rw n refl
]
set_field-obeyed b cursor w x = refl
set_field-obeyed b cursor_x w x = ground arith
set_field-obeyed b cursor_y w x = ground arith
