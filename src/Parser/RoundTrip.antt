-- ===== src/Parser/RoundTrip.antt =====
-- Arguments quoted for `parse_message` of server/parse.c, and read back.
use lcdproc.Prelude.{
  ℕ, ◌≡◌, ◌≢◌, inl, inr, refl, ◌∙◌, ap, Bool, true, false, some, List, [], ◌∷◌, ◌++◌, append_assoc,
  append-nil, length, leb, ◌==◌, ◌||◌, if◌then◌else◌, Bytes, arith, Bool-cases,
}
use lcdproc.Parser.{
  is_whitespace, is_final, is_opening_quote, is_closing_quote, translate, arguments, refused,
  parse_line,
}
use lcdproc.Parser.Grammar.{plain, kind, prefix, scan, meaning}
use lcdproc.Parser.Buffer.{NoNul, AllNoNul}
use lcdproc.Parser.Correct.{
  scan-skip, scan-opening, scan-break, scan-plain, scan-backslash, parse_line-meaning,
}

-- A character inside double quotes: `\n \r \t` are written by their letters, a quote or backslash
-- behind a backslash.
unfoldable pub is_special : ℕ → Bool
is_special c = c == b'\n' || c == b'\r' || c == b'\t' || c == b'"' || c == b'\\'

unfoldable pub letter : ℕ → ℕ
letter c = if c == b'\n' then b'n' else if c == b'\r' then b'r' else if c == b'\t' then b't' else c

unfoldable pub escaped : ℕ → Bytes
escaped c = if is_special c then b'\\' ∷ letter c ∷ [] else c ∷ []

unfoldable pub escape_all : Bytes → Bytes
escape_all [] = []
escape_all (c ∷ cs) = escaped c ++ escape_all cs

-- `"first" "second" `: what a client sends for these arguments.
unfoldable pub quoted : List Bytes → Bytes
quoted [] = []
quoted (a ∷ rest) = b'"' ∷ (escape_all a ++ (b'"' ∷ b' ' ∷ quoted rest))

scan-escape :
    (d : ℕ) (arg cs : Bytes)
    → d ≢ 0
    → scan true b'"' arg (b'\\' ∷ d ∷ cs) ≡ scan true b'"' (arg ++ translate d ∷ []) cs
scan-escape d arg cs ne =
    let ne' : (d == 0) ≡ false = ground arith in
    scan-backslash true b'"' arg b'\\' d cs (unfold kind is_final in refl) ∙ rw ne'

letter_lem : (c : ℕ) → is_special c ≡ true → (translate (letter c) ≡ c) × (letter c ≢ 0)
unfolding is_special letter translate
letter_lem c h = ground arith

kind-not_special : (c : ℕ) → c ≢ 0 → is_special c ≡ false → kind true b'"' c ≡ plain
unfolding is_special kind is_whitespace is_final is_opening_quote is_closing_quote
kind-not_special c ne h = ground arith

scan-escaped :
    (c : ℕ) (arg cs : Bytes)
    → c ≢ 0
    → scan true b'"' arg (escaped c ++ cs) ≡ scan true b'"' (arg ++ c ∷ []) cs
unfolding escaped
scan-escaped c arg cs ne = elim (Bool-cases (is_special c)) [
  | inl y ↦
      let (back, nz) = letter_lem c y in
      rw y (scan-escape (letter c) arg cs nz ∙ ap (λ d. scan true b'"' (arg ++ d ∷ []) cs) back)
  | inr n ↦ rw n (scan-plain true b'"' arg c cs (kind-not_special c ne n))
]

scan-escape_all :
    (a arg cs : Bytes)
    → NoNul a
    → scan true b'"' arg (escape_all a ++ cs) ≡ scan true b'"' (arg ++ a) cs
unfolding escape_all
scan-escape_all [] arg cs h = rw append-nil
scan-escape_all (c ∷ a) arg cs h =
    ap (scan true b'"' arg) (append_assoc (escaped c) (escape_all a) cs)
    ∙ scan-escaped c arg (escape_all a ++ cs) h.0
    ∙ scan-escape_all a (arg ++ c ∷ []) cs h.1
    ∙ ap (λ x. scan true b'"' x cs) (append_assoc arg (c ∷ []) a)

scan-quoted : (args : List Bytes) → AllNoNul args → scan false 0 [] (quoted args) ≡ some args
unfolding quoted
scan-quoted [] h = unfold scan in refl
scan-quoted (a ∷ args) h =
    let rest = b'"' ∷ b' ' ∷ quoted args in
    scan-opening false 0 [] b'"' (escape_all a ++ rest)
      (unfold kind is_whitespace is_final is_opening_quote in refl)
    ∙ scan-escape_all a [] rest h.0
    ∙ scan-break true b'"' a b'"' (b' ' ∷ quoted args)
        (unfold kind is_final is_opening_quote is_closing_quote in refl)
    ∙ ap (prefix a) (
        scan-skip false 0 [] b' ' (quoted args) (unfold kind is_whitespace in refl)
        ∙ scan-quoted args h.1)

-- Arguments of any bytes but NUL, quoted, come out of parse_message as they went in if there are
-- at most 39 of them, and are refused together if there are more.
pub parse_line-quoted :
    (args : List Bytes)
    → AllNoNul args
    → parse_line (quoted args) ≡ some (if leb (length args) 39 then arguments args else refused)
parse_line-quoted args h =
    parse_line-meaning (quoted args) ∙ ap some (unfold meaning in rw (scan-quoted args h))
