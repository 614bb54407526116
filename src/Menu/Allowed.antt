-- ===== src/Menu/Allowed.antt =====
-- The text that the user gives an alphanumeric item of server/menuitem.c.
use lcdproc.Prelude.{
  ℕ, ◌+◌, ◌≤◌, ◌<◌, ◌≡◌, refl, ◌≢◌, inl, inr, Bool, true, false, ◌&&◌, Option, some, List, [], ◌∷◌,
  arith, ltb, leb, ◌==◌, Bytes, length, All, All-mono, Bool-cases,
}
use lcdproc.Menu.{
  MenuToken, menutoken_menu, menutoken_enter, menutoken_up, menutoken_down, menutoken_left,
  menutoken_right, menutoken_other, menuresult_none, MenuResult, Links, answer, Press,
}
use lcdproc.Menu.Editor.{
  Editor, go_right, start_over, Within, go_right-Within, go_left-Within, start_over-Within,
  error_code-Within, read_char_lem, completed_lem, write_char_lem, c_string_lem,
}
use lcdproc.Menu.Alpha.{
  Alpha, chars, contains, next_char, previous_char, menuitem_reset_alpha, turn_alpha, store_alpha,
  enter_alpha, typed_alpha, alpha_token, menuitem_process_input_alpha,
}
use lcdproc.Menu.Presses.{press_all, Keeps, press_all-keeps}
use lcdproc.Menu.Characters.{Fits, Typable, next_char-Fits, previous_char-Fits}
use lcdproc.Menu.Refilled.{Allowed, reset-Allowed}

module _ (allowed text : Bytes) (minl maxl : ℕ) (nonempty : allowed ≢ []) (item : Alpha)
    (r : Allowed allowed text minl maxl item) where
  edited-Allowed :
      (e : Editor)
      → Within (Fits allowed) maxl maxl e
      → Allowed allowed text minl maxl (record item { editor = e })
  unfolding chars
  edited-Allowed e w = record {
    chars_are = r.chars_are;
    min_is = r.min_is;
    max_is = r.max_is;
    value_le = r.value_le;
    value_typable = r.value_typable;
    chosen = r.chosen;
    within = w;
  }

  answered :
      (e : Editor) (result : MenuResult)
      → Within (Fits allowed) maxl maxl e
      → Keeps (Allowed allowed text minl maxl) (answer (record item { editor = e }) result)
  answered e result w = (record item { editor = e }, [], result, refl, edited-Allowed e w)

  room_lem : leb item.maxlength item.editor.edit_pos ≡ false → item.editor.edit_pos < maxl
  room_lem h = ground (arith, h, r.max_is)

  refused :
      (code : ℕ)
      → Keeps
          (Allowed allowed text minl maxl)
          (answer (record item { editor = start_over code item.editor }) menuresult_none)
  refused code =
      answered (start_over code item.editor) menuresult_none
        (start_over-Within (Fits allowed) maxl maxl item.editor r.within code)

  turned-Allowed :
      (next : ℕ → Option ℕ)
      → ((c : ℕ) → (d : ℕ) × (next c ≡ some d) × Fits allowed d)
      → Keeps (Allowed allowed text minl maxl) (turn_alpha next item)
  unfolding turn_alpha
  turned-Allowed next total = elim (Bool-cases (leb item.maxlength item.editor.edit_pos)) [
    | inl full ↦ rw full (refused 2)
    | inr room ↦
        let (c, here) =
          read_char_lem (Fits allowed) maxl maxl item.editor r.within item.editor.edit_pos
            r.within.pos_le in
        let (d, n, f) = total c in
        let (e, eq, w, same) =
          write_char_lem (Fits allowed) maxl maxl item.editor r.within d (room_lem room)
            (omega arith) f in
        rw (room, here, n, eq) (answered e menuresult_none w)
  ]

  stored-Allowed :
      (l : Links) (s : Bytes)
      → length s ≤ maxl
      → All (Typable allowed) s
      → Keeps (Allowed allowed text minl maxl) (store_alpha l s item)
  unfolding store_alpha chars
  stored-Allowed l s le typable = elim (Bool-cases (ltb (length s) item.minlength)) [
    | inl y ↦ rw y (
        answered (record item.editor { error_code = 3 }) menuresult_none
          (error_code-Within (Fits allowed) maxl maxl item.editor r.within 3))
    | inr n ↦
        let fits : leb (length s) item.maxlength ≡ true = ground (arith, r.max_is) in
        rw (n, fits)
          (
            record item { value = s },
            _,
            _,
            refl,
            record {
              chars_are = r.chars_are;
              min_is = r.min_is;
              max_is = r.max_is;
              value_le = le;
              value_typable = typable;
              chosen = inr (ground (arith, n, r.min_is));
              within = r.within;
            },
          )
  ]

  entered-Allowed :
      (width : ℕ) (all : Bool) (l : Links)
      → Keeps (Allowed allowed text minl maxl) (enter_alpha width all l item)
  unfolding enter_alpha
  entered-Allowed width true l =
      let (s, e, le, each) =
        c_string_lem (Fits allowed) item.editor.edit_str maxl r.within.terminated r.within.each in
      rw e (stored-Allowed l s le (All-mono _ (Typable allowed) s (λ c h. ground (arith, h)) each))
  entered-Allowed width false l = elim (Bool-cases (ltb item.editor.edit_pos item.maxlength)) [
    | inl y ↦ rw y (
        answered _ menuresult_none (
          go_right-Within (Fits allowed) maxl maxl item.editor r.within width
            (ground (arith, y, r.max_is))))
    | inr n ↦ rw n (answered item.editor menuresult_none r.within)
  ]

  typed-Allowed :
      (width : ℕ) (key : Bytes)
      → item.editor.edit_pos < maxl
      → (e : Editor) × (typed_alpha width (chars item) key item.editor ≡ some e)
        × Within (Fits allowed) maxl maxl e
  unfolding typed_alpha
  typed-Allowed width (c ∷ []) h =
      elim (Bool-cases (leb 32 c && ltb c 128 && contains c (chars item))) [
        | inl y ↦
            let ok : contains c (chars item) ≡ true = ground (arith, y) in
            let (e, eq, w, same) =
              write_char_lem (Fits allowed) maxl maxl item.editor r.within c h (omega arith)
                (inr (rw (← r.chars_are) ok)) in
            (
              go_right width e,
              rw (y, eq) refl,
              go_right-Within (Fits allowed) maxl maxl e w width (omega arith),
            )
        | inr n ↦ (item.editor, rw n refl, r.within)
      ]
  typed-Allowed width [] h = (item.editor, refl, r.within)
  typed-Allowed width (c ∷ d ∷ cs) h = (item.editor, refl, r.within)

  token-Allowed :
      (width : ℕ) (token : MenuToken) (p : Press) (l : Links)
      → Keeps (Allowed allowed text minl maxl) (alpha_token width token p l item)
  unfolding alpha_token
  token-Allowed width menutoken_menu p l =
      let (b, e, k) =
        reset-Allowed allowed text minl maxl item r.chars_are r.min_is r.max_is r.value_le
          r.value_typable r.chosen in
      elim (Bool-cases (item.editor.edit_pos == 0)) [
        | inl y ↦ rw y (item, [], _, refl, r)
        | inr n ↦ rw (n, e) (b, [], menuresult_none, refl, k)
      ]
  token-Allowed width menutoken_enter p l =
      let (all, e) =
        completed_lem (Fits allowed) maxl maxl item.editor r.within (omega arith) p.extended in
      rw e (entered-Allowed width all l)
  token-Allowed width menutoken_up p l =
      turned-Allowed (next_char (chars item)) λ c. rw r.chars_are (next_char-Fits allowed c)
  token-Allowed width menutoken_down p l =
      turned-Allowed (previous_char (chars item))
        λ c. rw r.chars_are (previous_char-Fits allowed c nonempty)
  token-Allowed width menutoken_right p l =
      let (c, e) =
        read_char_lem (Fits allowed) maxl maxl item.editor r.within item.editor.edit_pos
          r.within.pos_le in
      elim (Bool-cases (c == 0)) [
        | inl y ↦ rw (e, y) (answered item.editor menuresult_none r.within)
        | inr n ↦ elim (Bool-cases (ltb (item.editor.edit_pos + 1) item.maxlength)) [
          | inl y ↦
              rw (e, n, y)
                (answered _ menuresult_none (
                  go_right-Within (Fits allowed) maxl maxl item.editor r.within width
                    (ground (arith, y, r.max_is))))
          | inr m ↦ rw (e, n, m) (answered item.editor menuresult_none r.within)
        ]
      ]
  token-Allowed width menutoken_left p l =
      answered _ menuresult_none (go_left-Within (Fits allowed) maxl maxl item.editor r.within)
  token-Allowed width menutoken_other p l =
      elim (Bool-cases (leb item.maxlength item.editor.edit_pos)) [
        | inl y ↦ rw y (refused 2)
        | inr n ↦
            let (e, eq, w) = typed-Allowed width p.key (room_lem n) in
            rw (n, eq) (answered e menuresult_none w)
      ]

key-Allowed :
    (allowed text : Bytes) (minl maxl width : ℕ) (l : Links)
    → allowed ≢ []
    → (p : Press) (item : Alpha) → Allowed allowed text minl maxl item
    → Keeps (Allowed allowed text minl maxl) (menuitem_process_input_alpha width p l item)
unfolding menuitem_process_input_alpha
key-Allowed allowed text minl maxl width l nonempty p item r =
    let cleared = record item.editor { error_code = 0 } in
    token-Allowed allowed text minl maxl nonempty (record item { editor = cleared })
      (edited-Allowed allowed text minl maxl nonempty item r cleared
        (error_code-Within (Fits allowed) maxl maxl item.editor r.within 0))
      width p.token p l

-- For an alphanumeric item that allows some character, and whose value has allowed characters
-- only and fits the maximal length: after menuitem_reset_alpha and any keys no access was
-- outside an array, the array still ends with a terminator and has allowed characters and
-- terminators only, the position is at most the maximal length, and the value has allowed
-- characters only, is no longer than the maximal length, and is the value from before or at
-- least as long as the minimal length.
pub press_all-Allowed :
    (given : Alpha) (width : ℕ) (l : Links) (ps : List Press)
    → chars given ≢ []
    → length given.value ≤ given.maxlength
    → All (Typable (chars given)) given.value
    → (start item : Alpha) × (menuitem_reset_alpha given ≡ some start)
      × (press_all (λ p. menuitem_process_input_alpha width p l) ps start ≡ some item)
      × Allowed (chars given) given.value given.minlength given.maxlength item
press_all-Allowed given width l ps nonempty le typable =
    let (start, e, r) =
      reset-Allowed (chars given) given.value given.minlength given.maxlength given refl refl refl
        le typable (inl refl) in
    let (item, q, k) =
      press_all-keeps (Allowed (chars given) given.value given.minlength given.maxlength)
        (λ p. menuitem_process_input_alpha width p l)
        (key-Allowed (chars given) given.value given.minlength given.maxlength width l nonempty) ps
        start r in
    (start, item, e, q, k)
