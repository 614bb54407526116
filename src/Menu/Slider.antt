-- ===== src/Menu/Slider.antt =====
-- The slider of server/menuitem.c. A sum that leaves the range of `int` is a fault.
use lcdproc.Prelude.{Option, none, some, ◌&&◌, if◌then◌else◌, not, ◌>>=◌, Bytes}
use lcdproc.Prelude.Int.{ℤ, pos, negsuc, ◌+ℤ◌, ◌-ℤ◌, ltb_ℤ}
use lcdproc.Menu.{
  MenuToken, menutoken_menu, menutoken_enter, menutoken_up, menutoken_down, menutoken_left,
  menutoken_right, menutoken_other, menuresult_error, menuresult_none, menuresult_close,
  menuevent_plus, menuevent_minus, Links, menuitem_predecessor2menuresult,
  menuitem_successor2menuresult, Reaction, answer, inform, Press,
}

pub record Slider : Type 0 where
  pub mintext : Bytes
  pub maxtext : Bytes
  pub minvalue : ℤ
  pub maxvalue : ℤ
  pub stepsize : ℤ
  pub value : ℤ

unfoldable pub menuitem_create_slider : Bytes → Bytes → ℤ → ℤ → ℤ → ℤ → Slider
menuitem_create_slider low high minvalue maxvalue stepsize value = record {
  mintext = low;
  maxtext = high;
  minvalue = minvalue;
  maxvalue = maxvalue;
  stepsize = stepsize;
  value = value;
}

abbrev pub int_min : ℤ
int_min = negsuc 2147483647

abbrev pub int_max : ℤ
int_max = pos 2147483647

-- The result of an operation on `int`s.
unfoldable pub checked_int : ℤ → Option ℤ
checked_int a = if not (ltb_ℤ a int_min) && not (ltb_ℤ int_max a) then some a else none

unfoldable pub min_ℤ : ℤ → ℤ → ℤ
min_ℤ a b = if ltb_ℤ a b then a else b

unfoldable pub max_ℤ : ℤ → ℤ → ℤ
max_ℤ a b = if ltb_ℤ b a then a else b

unfoldable pub slide_up : Slider → Reaction Slider
slide_up s = checked_int (s.value +ℤ s.stepsize) >>= λ v.
    inform (record s { value = min_ℤ s.maxvalue v }) menuevent_plus menuresult_none

unfoldable pub slide_down : Slider → Reaction Slider
slide_down s = checked_int (s.value -ℤ s.stepsize) >>= λ v.
    inform (record s { value = max_ℤ s.minvalue v }) menuevent_minus menuresult_none

unfoldable pub slider_token : MenuToken → Links → Slider → Reaction Slider
slider_token menutoken_menu l s =
    answer s (menuitem_predecessor2menuresult l.predecessor_id menuresult_close)
slider_token menutoken_enter l s =
    answer s (menuitem_successor2menuresult l.successor_id menuresult_close)
slider_token menutoken_up l s = slide_up s
slider_token menutoken_right l s = slide_up s
slider_token menutoken_down l s = slide_down s
slider_token menutoken_left l s = slide_down s
slider_token menutoken_other l s = answer s menuresult_error

unfoldable pub menuitem_process_input_slider : Press → Links → Slider → Reaction Slider
menuitem_process_input_slider p l s = slider_token p.token l s
