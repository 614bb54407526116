-- ===== src/ScreenList/Process.antt =====
-- `screenlist_process` of server/screenlist.c, run once for each frame, with what it calls of
-- server/client.c and server/screen.c when the current screen expires.
use lcdproc.Prelude.{
  ℕ, ◌+◌, Bool, true, false, ◌&&◌, Option, none, some, List, [], ◌∷◌, ◌++◌, ltb, leb, ◌==◌,
  if◌then◌else◌, ◌>>=◌, length,
}
use lcdproc.Prelude.Int.{ℤ, pos, negsuc, ◌-ℤ◌, ltb_ℤ}
use lcdproc.LinkedList.Sequence.{sort}
use lcdproc.ScreenList.{
  Ptr, null, Screen, Rotation, get_screen, priority_of, screenlist_add, screenlist_switch, first,
  screenlist_goto_next, screenlist_remove, erase,
}

-- The priority that `compare_priority` reads.
unfoldable pub rank_of : Rotation → Ptr → ℕ
rank_of r s = elim (priority_of r s) [ none ↦ 0 | some p ↦ p ]

-- `compare_priority`: `b->priority - a->priority`, and 0 for a NULL.
unfoldable pub compare_priority : Rotation → Ptr → Ptr → ℤ
compare_priority r one two =
    if one == null
    then pos 0
    else if two == null
    then pos 0
    else pos (rank_of r two) -ℤ pos (rank_of r one)

unfoldable pub all_readable : Rotation → List Ptr → Bool
all_readable r [] = true
all_readable r (s ∷ xs) = elim (priority_of r s) [ none ↦ false | some p ↦ all_readable r xs ]

-- `LL_Sort(screenlist, compare_priority)`. One screen or none is not compared.
unfoldable pub sort_screens : Rotation → Option Rotation
sort_screens r =
    if ltb (length r.screenlist) 2
    then some r
    else if all_readable r r.screenlist
    then some (record r { screenlist = sort (compare_priority r) r.screenlist })
    else none

-- `client_add_screen` and `client_remove_screen`; NULL arguments are refused.
unfoldable pub client_add_screen : Ptr → Ptr → Rotation → Bool × Rotation
client_add_screen c s r =
    if c == null
    then (false, r)
    else if s == null
    then (false, r)
    else (let (_, r') = screenlist_add s (record r {
      client_screens = λ d. if d == c then r.client_screens d ++ s ∷ [] else r.client_screens d;
    }) in
        (true, r'))

unfoldable pub client_remove_screen : Ptr → Ptr → Rotation → Option (Bool × Rotation)
client_remove_screen c s r =
    if c == null then some (false, r) else if s == null then some (false, r) else (do
      (_, r') ← screenlist_remove s (record r {
        client_screens =
            λ d. if d == c then (erase s (r.client_screens d)).1 else r.client_screens d;
      })
      some (true, r'))

-- `screen_destroy`: the screen leaves the list and its memory is freed.
unfoldable pub screen_destroy : Ptr → Rotation → Option Rotation
screen_destroy s r = do
  _ ← get_screen r s
  (_, r') ← screenlist_remove s r
  some (record r' { screens = λ t. if t == s then none else r'.screens t })

-- `s->timeout = t`
abbrev pub set_timeout : Ptr → Screen → ℤ → Rotation → Rotation
set_timeout s x t r = record r {
  screens = λ u. if u == s then some (record x { timeout = t }) else r.screens u;
}

-- `client_remove_screen(s->client, s); screen_destroy(s);`
unfoldable pub destroy_expired : Ptr → Screen → Rotation → Option Rotation
destroy_expired s x r = do (_, r') ← client_remove_screen x.client s r; screen_destroy s r'

-- `--(s->timeout)`, and what happens when the expiry time is over.
unfoldable pub count_down : Ptr → Screen → ℤ → Rotation → Option Rotation
count_down s x t r =
    let r' = set_timeout s x t r in if ltb_ℤ (pos 0) t then some r' else destroy_expired s x r'

unfoldable pub expire : Ptr → Screen → Rotation → Option Rotation
expire s x r = elim x.timeout [
  | pos n ↦ count_down s x (pos n -ℤ pos 1) r
  | negsuc n ↦ if n == 0 then some r else count_down s x (negsuc n -ℤ pos 1) r
]

-- `priority > PRI_BACKGROUND && priority <= PRI_FOREGROUND`
abbrev pub rotates : ℕ → Bool
rotates p = ltb 1 p && leb p 3

unfoldable pub screenlist_process : Rotation → Option Rotation
screenlist_process r0 = do
  r ← sort_screens r0
  let f = first r.screenlist
  let s = r.current_screen
  if s == null then (if f == null then some r else screenlist_switch f r) else (do
    x ← get_screen r s
    r1 ← expire s x r
    p ← priority_of r1 f
    q ← priority_of r1 s
    if ltb q p
        then screenlist_switch f r1
        else if r1.autorotate && leb (r1.start_time + x.duration) r1.timer && rotates q
        then (do (_, r2) ← screenlist_goto_next r1; some r2)
        else some r1)
