-- ===== src/System/Display.antt =====
-- What the display shows after a frame: `screenlist_process` of server/screenlist.c, from a state
-- that the server can be in.
use mathlib.Core.List.{Mem, not-mem-nil}
use lcdproc.Prelude.{
  ◌≡◌, refl, sym, ◌∙◌, ap, subst, Bool, true, false, some, ltb, ◌==◌, if◌then◌else◌, ◌>>=◌,
  >>=-eq-some, Bool-cases, List-cases, inl, inr, arith, All,
}
use lcdproc.Prelude.Int.{ℤ, pos, negsuc, ◌-ℤ◌}
use lcdproc.ScreenList.{
  Ptr, null, Screen, Rotation, get_screen, take_back, tell, listen, first, next_after, priority_of,
  screenlist_switch, screenlist_goto_next,
}
use lcdproc.ScreenList.Process.{sort_screens, expire, count_down, screenlist_process}
use lcdproc.ScreenList.Memory.{by_equation}
use lcdproc.ScreenList.Top.{IsReadable, WellFormed, Shows, Lasts, readable_not_null}
use lcdproc.ScreenList.Frame.{process-Settles}
use lcdproc.ScreenList.Expiry.{sort_screens-same, get_screen-same}
use lcdproc.System.Housed.{Housed}
use lcdproc.System.Sorted.{sort_screens-Housed}
use lcdproc.System.Frames.{turn, turn-cases, due, round}

-- Some screen is on display.
abbrev pub On : Rotation → Type 0
On r = (r.current_screen == null) ≡ false

-- A switch to a screen puts it on display; a switch to NULL leaves the display as it is.
switch-On :
    (s : Ptr) (r r' : Rotation)
    → screenlist_switch s r ≡ some r'
    → (if s == null then On r else Unit)
    → On r'
unfolding screenlist_switch
switch-On s r r' e h = elim (Bool-cases (s == null)) [
  | inl y ↦ by_equation On (rw y at e) (rw y at h)
  | inr n ↦ elim (Bool-cases (s == r.current_screen)) [
    | inl y ↦
        let same : s ≡ r.current_screen = ground (arith, y) in
        by_equation On (rw (n, y) at e) (subst (λ u. (u == null) ≡ false) same n)
    | inr m ↦
        let (log, _, e1) =
          >>=-eq-some (take_back r)
            (λ sent. get_screen r s >>= λ new.
              some (record r {
                current_screen = s;
                start_time = r.timer;
                sent = tell listen new sent;
              }))
            (rw (n, m) at e) in
        let (new, _, e2) =
          >>=-eq-some (get_screen r s)
            (λ new.
              some
                (record r { current_screen = s; start_time = r.timer; sent = tell listen new log }))
            e1 in
        by_equation On e2 n
  ]
]

stays-On : (s : Ptr) (r r' : Rotation) → screenlist_switch s r ≡ some r' → On r → On r'
stays-On s r r' e h =
    switch-On s r r' e (elim (Bool-cases (s == null)) [ inl y ↦ rw y h | inr n ↦ rw n tt ])

goto_next-On :
    (r : Rotation) (b : Bool) (r' : Rotation) → screenlist_goto_next r ≡ some (b, r') → On r → On r'
unfolding screenlist_goto_next
goto_next-On r b r' e h =
    let s = next_after r.current_screen r.screenlist in
    let (back, _, e1) =
      >>=-eq-some
        (if s == null
          then some true
          else (do p ← priority_of r s; q ← priority_of r r.current_screen; some (ltb p q)))
        (λ back.
          screenlist_switch (if back then first r.screenlist else s) r >>= λ r2. some (true, r2))
        (rw h at e) in
    let (r2, go, e2) =
      >>=-eq-some (screenlist_switch (if back then first r.screenlist else s) r)
        (λ r2. some (true, r2)) e1 in
    by_equation (λ (q : Bool × Rotation). On q.1) e2
      (stays-On (if back then first r.screenlist else s) r r2 go h)

turn-On : (f s : Ptr) (d : Bool) (r r' : Rotation) → turn f s d r ≡ some r' → On r → On r'
turn-On f s d r r' e h = elim (turn-cases f s d r r' e) [
  | inl go ↦ stays-On f r r' go h
  | inr rest ↦ elim rest [ inl (b, go) ↦ goto_next-On r b r' go h | inr same ↦ subst On same h ]
]

-- The countdown of a screen that lasts leaves the display as it is.
expire-current :
    (r r' : Rotation) (s : Ptr) (x : Screen) (t : ℤ)
    → x.timeout ≡ t
    → Lasts t
    → expire s x r ≡ some r'
    → r'.current_screen ≡ r.current_screen
unfolding expire count_down ◌-ℤ◌
expire-current r r' s x (pos n) f l e = ground arith
expire-current r r' s x (negsuc n) f l e = ground arith

round-On :
    (r r' : Rotation)
    → ((x : Screen) → get_screen r r.current_screen ≡ some x → Lasts x.timeout)
    → (first r.screenlist == null) ≡ false
    → round r ≡ some r'
    → On r'
round-On r r' lasts n e = elim (Bool-cases (r.current_screen == null)) [
  | inl z ↦ switch-On (first r.screenlist) r r' (rw (z, n) at e) (rw n tt)
  | inr m ↦
      let (x, at, e1) =
        >>=-eq-some (get_screen r r.current_screen)
          (λ x. expire r.current_screen x r >>= λ r1.
            turn (first r.screenlist) r.current_screen (due r1 x) r1)
          (rw m at e) in
      let (r1, go, e2) =
        >>=-eq-some (expire r.current_screen x r)
          (λ r1. turn (first r.screenlist) r.current_screen (due r1 x) r1) e1 in
      let same = expire-current r r1 r.current_screen x x.timeout refl (lasts x at) go in
      turn-On (first r.screenlist) r.current_screen (due r1 x) r1 r' e2
        (ap (λ u. u == null) same ∙ m)
]

-- The server has a screen, so the list is not empty.
first_not_null : (r : Rotation) → Housed r → (first r.screenlist == null) ≡ false
first_not_null r h = elim (List-cases r.screenlist) [
  | inl e ↦ let (p, m, _) = h.own in absurd (not-mem-nil (subst (Mem p) e m))
  | inr (f, fs, e) ↦
      rw (ap first e)
        (readable_not_null r f (subst (All (IsReadable r)) e h.sound.well_formed.readable).0)
]

pub process-On :
    (r : Rotation)
    → Housed r
    → ((x : Screen) → get_screen r r.current_screen ≡ some x → Lasts x.timeout)
    → (r' : Rotation) × (screenlist_process r ≡ some r') × WellFormed r' × Shows r' × On r'
unfolding screenlist_process
process-On r h lasts =
    let (r', go, w, top) = process-Settles r h.sound.well_formed lasts in
    let (rs, sorted, e1) = >>=-eq-some (sort_screens r) round go in
    let (cur, mem) = sort_screens-same r rs sorted in
    let hs = sort_screens-Housed r rs sorted h in
    (
      r',
      go,
      w,
      top,
      round-On rs r' (λ x at. lasts x (get_screen-same rs r x (sym cur) (sym mem) at))
          (first_not_null rs hs) e1,
    )
