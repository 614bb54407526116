-- ===== src/Menu/Shown.antt =====
-- The loops of the IP item of server/menuitem.c that bring the position into the part that is
-- shown.
use lcdproc.Prelude.{ℕ, zero, suc, ◌+◌, ◌-◌, ◌≤◌, max, ◌≡◌, ◌⊎◌, arith}
use lcdproc.Menu.Editor.{Editor}
use lcdproc.Menu.Ip.{show_position, place_ip}

show_position-max :
    (fuel width p offs : ℕ)
    → p + 2 ≤ width + offs + fuel
    → show_position fuel width p offs ≡ max offs (p + 2 - width)
unfolding show_position
show_position-max zero width p offs h = omega arith
show_position-max (suc fuel) width p offs h =
    ground (arith, show_position-max fuel width p (offs + 1))

-- The loop that moves the offset of the IP editor ends: more fuel than the position and two
-- changes nothing; the position is then on the display, and the offset is as it was or no
-- greater than the position needs.
pub place_ip-ends :
    (width p : ℕ) (e : Editor) (more : ℕ)
    → (show_position (p + 2 + more) width p e.edit_offs ≡ (place_ip width p e).edit_offs)
      × (p + 2 ≤ width + (place_ip width p e).edit_offs)
      × (((place_ip width p e).edit_offs ≡ e.edit_offs)
          ⊎ (p + 2 ≡ width + (place_ip width p e).edit_offs))
unfolding place_ip
place_ip-ends width p e more = ground (
  arith,
  show_position-max (p + 2 + more) width p e.edit_offs,
  show_position-max (p + 2) width p e.edit_offs,
)
