-- ===== src/Menu/Overflow.antt =====
-- Values with too many groups in the IP item of server/menuitem.c.
use lcdproc.Prelude.{
  ℕ, zero, suc, ◌+◌, ◌-◌, ◌*◌, ◌≤◌, ◌<◌, ◌≡◌, refl, Bool, true, false, none, some, [], ◌∷◌, arith,
  leb, ◌==◌, if◌then◌else◌, Bytes, length, length-append, length-take, length-replicate, replicate,
  Option-cases, inl, inr,
}
use lcdproc.Prelude.Int.{ℤ, pos, negsuc}
use lcdproc.Menu.Ip.{
  Ip, ip_info, pad, format_group, show_in, behind_sep, groups, joined, int_in, menuitem_reset_ip,
}

-- How many separators a text has.
unfoldable pub separators : ℕ → Bytes → ℕ
separators sep [] = 0
separators sep (c ∷ cs) = if c == sep then suc (separators sep cs) else separators sep cs

-- How many groups an address has.
abbrev pub address_groups : Bool → ℕ
address_groups false = 4
address_groups true = 8

length-pad : (width : ℕ) (text : Bytes) → width ≤ length (pad width text)
unfolding pad
length-pad width text = omega (
  arith,
  length-append (replicate (width - length text) b'0') text,
  length-replicate {A = ℕ} (width - length text) b'0',
)

length-format_group : (v6 : Bool) (v : ℤ) → (ip_info v6).width ≤ length (format_group v6 v)
unfolding format_group
length-format_group false (pos n) =
    let text = pad 3 (show_in 10 10 n []) in
    omega (arith, length-take 4 text, length-pad 3 (show_in 10 10 n []))
length-format_group false (negsuc n) =
    let text = b'-' ∷ pad 2 (show_in 10 10 (suc n) []) in
    omega (arith, length-take 4 text, length-pad 2 (show_in 10 10 (suc n) []))
length-format_group true (pos n) =
    let text = pad 4 (show_in 10 16 n []) in
    omega (arith, length-take 4 text, length-pad 4 (show_in 10 16 n []))
length-format_group true (negsuc n) =
    let text = pad 4 (show_in 10 16 (4294967295 - n) []) in
    omega (arith, length-take 4 text, length-pad 4 (show_in 10 16 (4294967295 - n) []))

separators-behind_sep :
    (sep : ℕ) (s rest : Bytes)
    → behind_sep sep s ≡ some rest
    → separators sep s ≡ suc (separators sep rest)
unfolding separators behind_sep
separators-behind_sep sep [] rest e = cc
separators-behind_sep sep (c ∷ cs) rest e = ground (arith, e, separators-behind_sep sep cs rest)

no_sep : (sep : ℕ) (s : Bytes) → behind_sep sep s ≡ none → separators sep s ≡ 0
unfolding separators behind_sep
no_sep sep [] e = refl
no_sep sep (c ∷ cs) e = ground (arith, e, no_sep sep cs)

one_more : (w k a b : ℕ) → w ≤ a → (w + 1) * k + w ≤ b → (w + 1) * suc k + w ≤ a + suc b
one_more w k a b h l = omega arith

-- Each group takes its width, and a separator in front of all but the first.
length-groups :
    (fuel : ℕ) (v6 : Bool) (s : Bytes)
    → separators (ip_info v6).sep s < fuel
    → ((ip_info v6).width + 1) * separators (ip_info v6).sep s + (ip_info v6).width
      ≤ length (groups fuel v6 (some s))
unfolding groups joined
length-groups zero v6 s h = absurd (omega arith)
length-groups (suc fuel) v6 s h =
    let sep = (ip_info v6).sep in
    let text = format_group v6 (int_in (ip_info v6).base s) in
    let wide = length-format_group v6 (int_in (ip_info v6).base s) in
    elim (Option-cases (behind_sep (ip_info v6).sep s)) [
      | inl n ↦ rw (n, no_sep sep s n) (omega (arith, wide))
      | inr (rest, e) ↦
          let more = separators-behind_sep sep s rest e in
          let next = length-groups fuel v6 rest (omega (arith, more)) in
          rw (e, more, length-append text (sep ∷ groups fuel v6 (some rest)))
            (one_more (ip_info v6).width (separators sep rest) (length text) _ wide next)
    ]

separators_le : (sep : ℕ) (s : Bytes) → separators sep s ≤ length s
unfolding separators
separators_le sep [] = omega arith
separators_le sep (c ∷ cs) = ground (arith, separators_le sep cs)

too_long :
    (v6 : Bool) (s : Bytes)
    → address_groups v6 ≤ separators (ip_info v6).sep s
    → leb (length (groups (length s + 2) v6 (some s))) (ip_info v6).maxlen ≡ false
too_long false s h =
    let fuel : separators b'.' s < length s + 2 = omega (arith, separators_le b'.' s) in
    let long = length-groups (length s + 2) false s fuel in ground (arith, long, h)
too_long true s h =
    let fuel : separators b':' s < length s + 2 = omega (arith, separators_le b':' s) in
    let long = length-groups (length s + 2) true s fuel in ground (arith, long, h)

-- menuitem_reset_ip of an IP item whose value has as many separators as an address has groups,
-- or more, writes behind its array: every group takes its full width there, whatever the value
-- is otherwise.
pub menuitem_reset_ip-overflows :
    (item : Ip)
    → address_groups item.v6 ≤ separators (ip_info item.v6).sep item.value
    → menuitem_reset_ip item ≡ none
unfolding menuitem_reset_ip
menuitem_reset_ip-overflows item h = rw (too_long item.v6 item.value h) refl
