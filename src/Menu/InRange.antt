-- ===== src/Menu/InRange.antt =====
-- The values that the user gives a numeric item and a slider of server/menuitem.c.
use lcdproc.Prelude.{
  ℕ, ◌<◌, ◌≡◌, refl, ◌&&◌, inl, inr, Bool, true, false, Option, none, some, List, [], ◌∷◌, arith,
  ltb, leb, ◌==◌, if◌then◌else◌, Bytes, Bool-cases, ◌>>=◌, ltb→lt,
}
use lcdproc.Prelude.Int.{ℤ, ◌≤ℤ◌, ltb_ℤ}
use lcdproc.Menu.{
  MenuToken, menutoken_menu, menutoken_enter, menutoken_up, menutoken_down, menutoken_left,
  menutoken_right, menutoken_other, menuresult_none, menuresult_error, MenuResult, answer, Links,
  Press,
}
use lcdproc.Menu.Editor.{
  Editor, start_over, write_char, go_right, Within, go_right-Within, go_left-Within,
  start_over-Within, error_code-Within, read_char_lem, completed_lem, write_char_lem, c_string_lem,
}
use lcdproc.Menu.Numeric.{
  Numeric, allow_signed, menuitem_create_numeric, menuitem_reset_numeric, max_len, turn_numeric,
  store_numeric, enter_numeric, typed_numeric, numeric_token, scan_int, is_digit, toggle_sign,
  next_digit, previous_digit, menuitem_process_input_numeric,
}
use lcdproc.Menu.Presses.{press_all, Keeps, press_all-keeps}
use lcdproc.Menu.Printed.{max_len_le}
use lcdproc.Menu.Refilled.{Any, InRange, reset-InRange}

module _ (low high : ℤ) (item : Numeric) (r : InRange low high item) where
  edited-InRange :
      (e : Editor) → Within Any 39 (max_len item) e → InRange low high (record item { editor = e })
  unfolding max_len allow_signed
  edited-InRange e w = record {
    low_is = r.low_is;
    high_is = r.high_is;
    low_le = r.low_le;
    le_high = r.le_high;
    within = w;
  }

  answered :
      (e : Editor) (result : MenuResult)
      → Within Any 39 (max_len item) e
      → Keeps (InRange low high) (answer (record item { editor = e }) result)
  answered e result w = (record item { editor = e }, [], result, refl, edited-InRange e w)

  -- A character is written where there is room for one.
  written :
      (c : ℕ)
      → item.editor.edit_pos < max_len item
      → Keeps
          (InRange low high)
          (write_char c item.editor >>= λ w. answer (record item { editor = w }) menuresult_none)
  written c h =
      let (e, eq, w, same) =
        write_char_lem Any 39 (max_len item) item.editor r.within c h
          (omega (arith, max_len_le item)) tt in
      rw eq (answered e menuresult_none w)

  turned-InRange : (next : ℕ → ℕ) → Keeps (InRange low high) (turn_numeric next item)
  unfolding turn_numeric
  turned-InRange next = elim (Bool-cases (leb (max_len item) item.editor.edit_pos)) [
    | inl full ↦ rw full (
        answered (start_over 2 item.editor) menuresult_none
          (start_over-Within Any 39 (max_len item) item.editor r.within 2))
    | inr room ↦
        let inside : item.editor.edit_pos < max_len item = ground (arith, room) in
        let (c, first) = read_char_lem Any 39 (max_len item) item.editor r.within 0 (omega arith) in
        let (d, here) =
          read_char_lem Any 39 (max_len item) item.editor r.within item.editor.edit_pos
            (omega (arith, max_len_le item)) in
        elim (Bool-cases (allow_signed item && item.editor.edit_pos == 0)) [
          | inl y ↦ rw (room, y, first) (written (toggle_sign c) inside)
          | inr n ↦ rw (room, n, here) (written (next d) inside)
        ]
  ]

  taken :
      (v : ℤ)
      → ltb_ℤ v item.minvalue ≡ false
      → ltb_ℤ item.maxvalue v ≡ false
      → InRange low high (record item { value = v })
  unfolding max_len allow_signed
  taken v n m = record {
    low_is = r.low_is;
    high_is = r.high_is;
    low_le = ground (arith, n, r.low_is);
    le_high = ground (arith, m, r.high_is);
    within = r.within;
  }

  stored-InRange : (l : Links) (v : Option ℤ) → Keeps (InRange low high) (store_numeric l v item)
  unfolding store_numeric
  stored-InRange l none = (item, [], menuresult_error, refl, r)
  stored-InRange l (some v) =
      let refused =
        answered (start_over 1 item.editor) menuresult_none
          (start_over-Within Any 39 (max_len item) item.editor r.within 1) in
      elim (Bool-cases (ltb_ℤ v item.minvalue)) [
        | inl y ↦ rw y refused
        | inr n ↦ elim (Bool-cases (ltb_ℤ item.maxvalue v)) [
          | inl y ↦ rw (n, y) refused
          | inr m ↦ rw (n, m) (record item { value = v }, _, _, refl, taken v n m)
        ]
      ]

  right_Within :
      (width : ℕ)
      → Within Any 39 (max_len item) (
          if ltb item.editor.edit_pos (max_len item)
          then go_right width item.editor
          else item.editor)
  right_Within width = elim (Bool-cases (ltb item.editor.edit_pos (max_len item))) [
    | inl y ↦ rw y (go_right-Within Any 39 (max_len item) item.editor r.within width (ltb→lt _ _ y))
    | inr n ↦ rw n r.within
  ]

  entered-InRange :
      (width : ℕ) (all : Bool) (l : Links)
      → Keeps (InRange low high) (enter_numeric width all l item)
  unfolding enter_numeric
  entered-InRange width true l =
      let (s, e, le, each) =
        c_string_lem Any item.editor.edit_str 39 r.within.terminated r.within.each in
      rw e (stored-InRange l (scan_int s))
  entered-InRange width false l = answered _ menuresult_none (right_Within width)

  typed-InRange :
      (width : ℕ) (key : Bytes)
      → item.editor.edit_pos < max_len item
      → (e : Editor) × (typed_numeric width key item.editor ≡ some e)
        × Within Any 39 (max_len item) e
  unfolding typed_numeric
  typed-InRange width (c ∷ []) h =
      let (e, eq, w, same) =
        write_char_lem Any 39 (max_len item) item.editor r.within c h
          (omega (arith, max_len_le item)) tt in
      elim (Bool-cases (is_digit c)) [
        | inl y ↦ (
          go_right width e,
          rw (y, eq) refl,
          go_right-Within Any 39 (max_len item) e w width (omega arith),
        )
        | inr n ↦ (item.editor, rw n refl, r.within)
      ]
  typed-InRange width [] h = (item.editor, refl, r.within)
  typed-InRange width (c ∷ d ∷ cs) h = (item.editor, refl, r.within)

  token-InRange :
      (width : ℕ) (token : MenuToken) (p : Press) (l : Links)
      → Keeps (InRange low high) (numeric_token width token p l item)
  unfolding numeric_token
  token-InRange width menutoken_menu p l = elim (Bool-cases (item.editor.edit_pos == 0)) [
    | inl y ↦ rw y (item, [], _, refl, r)
    | inr n ↦ rw n (
      menuitem_reset_numeric item,
      [],
      menuresult_none,
      refl,
      reset-InRange low high item r.low_is r.high_is r.low_le r.le_high,
    )
  ]
  token-InRange width menutoken_enter p l =
      let (all, e) =
        completed_lem Any 39 (max_len item) item.editor r.within (omega (arith, max_len_le item))
          p.extended in
      rw e (entered-InRange width all l)
  token-InRange width menutoken_up p l = turned-InRange next_digit
  token-InRange width menutoken_down p l = turned-InRange previous_digit
  token-InRange width menutoken_right p l =
      let (c, e) =
        read_char_lem Any 39 (max_len item) item.editor r.within item.editor.edit_pos
          (omega (arith, max_len_le item, r.within.pos_le)) in
      elim (Bool-cases (c == 0)) [
        | inl y ↦ rw (e, y) (answered _ menuresult_none r.within)
        | inr n ↦ rw (e, n) (answered _ menuresult_none (right_Within width))
      ]
  token-InRange width menutoken_left p l =
      answered _ menuresult_none (go_left-Within Any 39 (max_len item) item.editor r.within)
  token-InRange width menutoken_other p l =
      elim (Bool-cases (leb (max_len item) item.editor.edit_pos)) [
        | inl y ↦ rw y (
            answered _ menuresult_none
              (start_over-Within Any 39 (max_len item) item.editor r.within 2))
        | inr n ↦
            let (e, eq, w) = typed-InRange width p.key (ground (arith, n)) in
            rw (n, eq) (answered e menuresult_none w)
      ]

key-InRange :
    (low high : ℤ) (width : ℕ) (l : Links) (p : Press) (item : Numeric)
    → InRange low high item
    → Keeps (InRange low high) (menuitem_process_input_numeric width p l item)
unfolding menuitem_process_input_numeric
key-InRange low high width l p item r =
    let cleared = record item.editor { error_code = 0 } in
    token-InRange low high (record item { editor = cleared })
      (edited-InRange low high item r cleared
        (error_code-Within Any 39 (max_len item) item.editor r.within 0))
      width p.token p l

-- For a numeric item created with a value between its bounds, reset, and given any keys: no
-- access is outside its array of 40 characters, whatever malloc left in it, which then ends with
-- a terminator, the position is at most as far as the longer bound takes characters, the bounds
-- are the same, and the value is between them.
pub press_all-InRange :
    (buffer : Bytes) (low high v : ℤ) (width : ℕ) (l : Links) (ps : List Press)
    → low ≤ℤ v
    → v ≤ℤ high
    → (item : Numeric) × (press_all
          (λ p. menuitem_process_input_numeric width p l)
          ps
          (menuitem_reset_numeric (menuitem_create_numeric buffer low high v))
        ≡ some item)
      × InRange low high item
unfolding menuitem_create_numeric
press_all-InRange buffer low high v width l ps h k =
    press_all-keeps (InRange low high) (λ p. menuitem_process_input_numeric width p l)
      (key-InRange low high width l) ps _
      (reset-InRange low high (menuitem_create_numeric buffer low high v) refl refl h k)
