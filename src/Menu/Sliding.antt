-- ===== src/Menu/Sliding.antt =====
-- The values that the user gives a slider of server/menuitem.c.
use lcdproc.Prelude.{◌≡◌, refl, some, List, [], ◌∷◌, Bytes, arith}
use lcdproc.Prelude.Int.{ℤ, pos, ◌+ℤ◌, ◌-ℤ◌, ◌≤ℤ◌, +ℤ_parts, -ℤ_parts}
use lcdproc.Menu.{
  MenuToken, menutoken_menu, menutoken_enter, menutoken_up, menutoken_down, menutoken_left,
  menutoken_right, menutoken_other, menuevent_plus, menuevent_minus, menuresult_none, Links, Press,
}
use lcdproc.Menu.Slider.{
  Slider, int_min, int_max, checked_int, min_ℤ, max_ℤ, slide_up, slide_down, slider_token,
  menuitem_create_slider, menuitem_process_input_slider,
}
use lcdproc.Menu.Presses.{press_all, Keeps, press_all-keeps}

-- A range and a step that leave `int` room for a step beyond both ends.
pub record Roomy (low high step : ℤ) : Type 0 where
  pub forward : pos 0 ≤ℤ step
  pub ordered : low ≤ℤ high
  pub above : high +ℤ step ≤ℤ int_max
  pub below : int_min ≤ℤ low -ℤ step

-- The slider has the range and the step that it was made with, and a value in the range.
pub record Between (low high step : ℤ) (s : Slider) : Type 0 where
  pub low_is : s.minvalue ≡ low
  pub high_is : s.maxvalue ≡ high
  pub step_is : s.stepsize ≡ step
  pub room : Roomy s.minvalue s.maxvalue s.stepsize
  pub low_le : s.minvalue ≤ℤ s.value
  pub le_high : s.value ≤ℤ s.maxvalue

checked_int_lem : (a : ℤ) → int_min ≤ℤ a → a ≤ℤ int_max → checked_int a ≡ some a
unfolding checked_int
checked_int_lem a h k = ground arith

min_ℤ_lem : (low a v : ℤ) → low ≤ℤ a → low ≤ℤ v → (low ≤ℤ min_ℤ a v) × (min_ℤ a v ≤ℤ a)
unfolding min_ℤ
min_ℤ_lem low a v h k = ground arith

max_ℤ_lem : (high a v : ℤ) → a ≤ℤ high → v ≤ℤ high → (max_ℤ a v ≤ℤ high) × (a ≤ℤ max_ℤ a v)
unfolding max_ℤ
max_ℤ_lem high a v h k = ground arith

module _ (low high step : ℤ) (s : Slider) (b : Between low high step s) where
  moved-Between :
      (v : ℤ) → s.minvalue ≤ℤ v → v ≤ℤ s.maxvalue → Between low high step (record s { value = v })
  moved-Between v h k = record {
    low_is = b.low_is;
    high_is = b.high_is;
    step_is = b.step_is;
    room = b.room;
    low_le = h;
    le_high = k;
  }

  slide_up-Between : Keeps (Between low high step) (slide_up s)
  unfolding slide_up
  slide_up-Between =
      let v = s.value +ℤ s.stepsize in
      let sum = +ℤ_parts s.value s.stepsize in
      let above = b.room.above in
      let below = b.room.below in
      let top = +ℤ_parts s.maxvalue s.stepsize in
      let bottom = -ℤ_parts s.minvalue s.stepsize in
      let low_v : s.minvalue ≤ℤ v = omega (arith, sum, b.low_le, b.room.forward) in
      let fits =
        checked_int_lem v (omega (arith, sum, bottom, below, b.low_le, b.room.forward))
          (omega (arith, sum, top, above, b.le_high)) in
      let (h, k) = min_ℤ_lem s.minvalue s.maxvalue v b.room.ordered low_v in
      rw fits (
        record s { value = min_ℤ s.maxvalue v },
        menuevent_plus ∷ [],
        menuresult_none,
        refl,
        moved-Between (min_ℤ s.maxvalue v) h k,
      )

  slide_down-Between : Keeps (Between low high step) (slide_down s)
  unfolding slide_down
  slide_down-Between =
      let v = s.value -ℤ s.stepsize in
      let difference = -ℤ_parts s.value s.stepsize in
      let above = b.room.above in
      let below = b.room.below in
      let top = +ℤ_parts s.maxvalue s.stepsize in
      let bottom = -ℤ_parts s.minvalue s.stepsize in
      let v_high : v ≤ℤ s.maxvalue = omega (arith, difference, b.le_high, b.room.forward) in
      let fits =
        checked_int_lem v (omega (arith, difference, bottom, below, b.low_le))
          (omega (arith, difference, top, above, b.le_high, b.room.forward)) in
      let (h, k) = max_ℤ_lem s.maxvalue s.minvalue v b.room.ordered v_high in
      rw fits (
        record s { value = max_ℤ s.minvalue v },
        menuevent_minus ∷ [],
        menuresult_none,
        refl,
        moved-Between (max_ℤ s.minvalue v) k h,
      )

  token-Between :
      (token : MenuToken) (l : Links) → Keeps (Between low high step) (slider_token token l s)
  unfolding slider_token
  token-Between menutoken_menu l = (s, [], _, refl, b)
  token-Between menutoken_enter l = (s, [], _, refl, b)
  token-Between menutoken_up l = slide_up-Between
  token-Between menutoken_right l = slide_up-Between
  token-Between menutoken_down l = slide_down-Between
  token-Between menutoken_left l = slide_down-Between
  token-Between menutoken_other l = (s, [], _, refl, b)

-- For a slider created with a value between its bounds, a step that is not negative, and room in
-- an int for one step beyond both bounds: after any keys no sum has left the range of int, the
-- bounds and the step are the same, and the value is between the bounds.
pub press_all-Between :
    (mintext maxtext : Bytes) (low high step v : ℤ) (l : Links) (ps : List Press)
    → Roomy low high step
    → low ≤ℤ v
    → v ≤ℤ high
    → (s : Slider) × (press_all
          (λ p. menuitem_process_input_slider p l)
          ps
          (menuitem_create_slider mintext maxtext low high step v)
        ≡ some s)
      × Between low high step s
unfolding menuitem_create_slider menuitem_process_input_slider
press_all-Between mintext maxtext low high step v l ps room h k =
    press_all-keeps (Between low high step) (λ p. menuitem_process_input_slider p l)
      (λ p s b. token-Between low high step s b p.token l) ps _
      record { low_is = refl; high_is = refl; step_is = refl; room = room; low_le = h; le_high = k }
