-- ===== src/ScreenList/Expiry.antt =====
-- `screenlist_process` of server/screenlist.c when the current screen expires.
use lcdproc.Prelude.{
  ◌≤◌, ◌≡◌, ◌≢◌, refl, false, none, some, ◌==◌, >>=-eq-some, Option-cases, inl, inr, arith,
}
use lcdproc.Prelude.Int.{ℤ, pos, negsuc, ◌-ℤ◌}
use lcdproc.ScreenList.{Ptr, null, Screen, Rotation, get_screen, priority_of, first}
use lcdproc.ScreenList.Process.{
  sort_screens, set_timeout, destroy_expired, count_down, expire, screen_destroy,
  client_remove_screen, screenlist_process,
}

-- The expiry time is set and at most one frame away.
abbrev pub Expires : ℤ → Type 0
Expires (pos n) = n ≤ 1
Expires (negsuc n) = n ≢ 0

-- A destroyed screen cannot be read.
destroyed_unreadable :
    (s : Ptr) (r r' : Rotation) → screen_destroy s r ≡ some r' → priority_of r' s ≡ none
unfolding screen_destroy priority_of get_screen
destroyed_unreadable s r r' h = ground arith

destroy_expired_unreadable :
    (s : Ptr) (x : Screen) (r r' : Rotation)
    → destroy_expired s x r ≡ some r'
    → priority_of r' s ≡ none
unfolding destroy_expired
destroy_expired_unreadable s x r r' h =
    let (y, a, b) = >>=-eq-some (client_remove_screen x.client s r) (λ z. screen_destroy s z.1) h in
    destroyed_unreadable s y.1 r' b

expire_unreadable :
    (s : Ptr) (x : Screen) (t : ℤ) (r r' : Rotation)
    → x.timeout ≡ t
    → Expires t
    → expire s x r ≡ some r'
    → priority_of r' s ≡ none
unfolding expire count_down ◌-ℤ◌
expire_unreadable s x (pos n) r r' e h go =
    destroy_expired_unreadable s x (set_timeout s x (pos n -ℤ pos 1) r) r' (ground arith)
expire_unreadable s x (negsuc n) r r' e h go =
    destroy_expired_unreadable s x (set_timeout s x (negsuc n -ℤ pos 1) r) r' (ground arith)

pub sort_screens-same :
    (r r' : Rotation)
    → sort_screens r ≡ some r'
    → (r'.current_screen ≡ r.current_screen) × (r'.screens ≡ r.screens)
unfolding sort_screens
sort_screens-same r r' h = ground arith

pub get_screen-same :
    (r r1 : Rotation) (x : Screen)
    → r1.current_screen ≡ r.current_screen
    → r1.screens ≡ r.screens
    → get_screen r r.current_screen ≡ some x
    → get_screen r1 r1.current_screen ≡ some x
unfolding get_screen
get_screen-same r r1 x cur mem at = rw (cur, mem) at

-- When the current screen can be read and its expiry time ends in this frame, screenlist_process
-- faults: it reads the screen that it has destroyed.
pub process_faults :
    (r : Rotation) (x : Screen)
    → r.current_screen ≢ null
    → get_screen r r.current_screen ≡ some x
    → Expires x.timeout
    → screenlist_process r ≡ none
unfolding screenlist_process
process_faults r x ne at h = elim (Option-cases (sort_screens r)) [
  | inl e ↦ rw e
  | inr (r1, e) ↦
      let (cur, mem) = sort_screens-same r r1 e in
      let at' : get_screen r1 r1.current_screen ≡ some x = get_screen-same r r1 x cur mem at in
      let ne' : (r1.current_screen == null) ≡ false = ground (arith, cur) in
      rw (e, ne', at')
        (elim (Option-cases (expire r1.current_screen x r1)) [
          | inl e' ↦ rw e'
          | inr (r2, e') ↦
              let gone = expire_unreadable r1.current_screen x x.timeout r1 r2 refl h e' in
              rw e' (elim (Option-cases (priority_of r2 (first r1.screenlist))) [
                | inl f ↦ rw f
                | inr (p, f) ↦ rw (f, gone)
              ])
        ])
]
