-- ===== src/System/Frames.antt =====
-- A frame of the server: `screenlist_process` of server/screenlist.c keeps every screen housed.
use lcdproc.Prelude.{
  ℕ, ◌+◌, ◌≡◌, refl, sym, ◌∙◌, subst, Bool, ◌&&◌, Option, none, some, [], ltb, leb, ◌==◌,
  if◌then◌else◌, ◌>>=◌, >>=-eq-some, Bool-cases, ◌⊎◌, inl, inr, arith, some_inj,
}
use lcdproc.Prelude.Int.{ℤ, pos, negsuc, ◌-ℤ◌}
use lcdproc.ScreenList.{
  Ptr, null, Screen, Rotation, get_screen, priority_of, first, screenlist_switch,
  screenlist_goto_next,
}
use lcdproc.ScreenList.Process.{
  sort_screens, set_timeout, count_down, expire, rotates, screenlist_process,
}
use lcdproc.ScreenList.Memory.{Steady, by_equation, switch-Steady, goto_next-Steady}
use lcdproc.ScreenList.Top.{WellFormed, Lasts}
use lcdproc.ScreenList.Frame.{process-Settles}
use lcdproc.ScreenList.Expiry.{Expires, sort_screens-same, get_screen-same, process_faults}
use lcdproc.Commands.{Server}
use lcdproc.Commands.ScreenCommands.{store_screen}
use lcdproc.System.Housed.{Housed, stored-Housed, Steady-Housed}
use lcdproc.System.Sorted.{sort_screens-Housed, sort_screens-lists}

-- A server with the screens, and nothing else.
abbrev only : Rotation → Server
only r = record {
  rotation = r;
  clients = λ c. none;
  keylist = [];
  output_state = pos 0;
  replies = [];
}

set_timeout-Housed :
    (r : Rotation) (s : Ptr) (x : Screen) (t : ℤ)
    → get_screen r s ≡ some x
    → Housed r
    → Housed (set_timeout s x t r)
unfolding store_screen
set_timeout-Housed r s x t at h =
    stored-Housed s x (record x { timeout = t }) (only r) at (refl, refl) h

Lasts-or_Expires : (t : ℤ) → Lasts t ⊎ Expires t
Lasts-or_Expires (pos n) = elim (Bool-cases (ltb 1 n)) [
  | inl y ↦ inl (ground (arith, y))
  | inr m ↦ inr (ground (arith, m))
]
Lasts-or_Expires (negsuc n) = elim (Bool-cases (n == 0)) [
  | inl y ↦ inl (ground (arith, y))
  | inr m ↦ inr (λ e. ground (arith, m, e))
]

-- The screens are housed again, in the same lists of the clients.
abbrev pub Rehoused : Rotation → Rotation → Type 0
Rehoused r r' = Housed r' × (r'.client_screens ≡ r.client_screens)

expire-Housed :
    (r r' : Rotation) (s : Ptr) (x : Screen) (t : ℤ)
    → x.timeout ≡ t
    → Lasts t
    → get_screen r s ≡ some x
    → expire s x r ≡ some r'
    → Housed r
    → Rehoused r r'
unfolding expire count_down ◌-ℤ◌
expire-Housed r r' s x (pos n) f l at e h =
    let same : set_timeout s x (pos n -ℤ pos 1) r ≡ r' = ground (arith, f, e) in
    subst (Rehoused r) same (set_timeout-Housed r s x (pos n -ℤ pos 1) at h, refl)
expire-Housed r r' s x (negsuc n) f l at e h =
    let same : r ≡ r' = ground (arith, f, e) in subst (Rehoused r) same (h, refl)

-- What follows the countdown in `screenlist_process`.
abbrev pub turn : Ptr → Ptr → Bool → Rotation → Option Rotation
turn f s due r = do
  p ← priority_of r f
  q ← priority_of r s
  if ltb q p
      then screenlist_switch f r
      else if due && rotates q
      then (do (_, r2) ← screenlist_goto_next r; some r2)
      else some r

-- It switches to the first screen, goes on to the next, or leaves things as they are.
pub turn-cases :
    (f s : Ptr) (due : Bool) (r r' : Rotation)
    → turn f s due r ≡ some r'
    → (screenlist_switch f r ≡ some r')
      ⊎ (((b : Bool) × (screenlist_goto_next r ≡ some (b, r'))) ⊎ (r ≡ r'))
turn-cases f s due r r' e =
    let tail = λ (p q : ℕ).
      if ltb q p
      then screenlist_switch f r
      else if due && rotates q
      then (do (_, r2) ← screenlist_goto_next r; some r2)
      else some r in
    let (p, _, e1) = >>=-eq-some (priority_of r f) (λ p. priority_of r s >>= tail p) e in
    let (q, _, e2) = >>=-eq-some (priority_of r s) (tail p) e1 in
    elim (Bool-cases (ltb q p)) [
      | inl y ↦ inl (rw y at e2)
      | inr n ↦ elim (Bool-cases (due && rotates q)) [
        | inr m ↦ inr (inr (some_inj (rw (n, m) at e2)))
        | inl z ↦
            let (r2, go, e3) =
              >>=-eq-some (screenlist_goto_next r) (λ (r2 : Bool × Rotation). some r2.1)
                (rw (n, z) at e2) in
            inr (inl (r2.0, by_equation (λ t. screenlist_goto_next r ≡ some (r2.0, t)) e3 go))
      ]
    ]

-- It changes the current screen alone.
turn-Steady : (f s : Ptr) (due : Bool) (r r' : Rotation) → turn f s due r ≡ some r' → Steady r r'
turn-Steady f s due r r' e = elim (turn-cases f s due r r' e) [
  | inl go ↦ switch-Steady f r r' go
  | inr rest ↦ elim rest [
    | inl (b, go) ↦ goto_next-Steady r b r' go
    | inr same ↦ subst (Steady r) same (refl, refl, refl)
  ]
]

abbrev pub due : Rotation → Screen → Bool
due r x = r.autorotate && leb (r.start_time + x.duration) r.timer

-- The round behind the sort.
abbrev pub round : Rotation → Option Rotation
round r =
    if r.current_screen == null
    then (if first r.screenlist == null then some r else screenlist_switch (first r.screenlist) r)
    else (do
      x ← get_screen r r.current_screen
      r1 ← expire r.current_screen x r
      turn (first r.screenlist) r.current_screen (due r1 x) r1)

round-Housed :
    (r r' : Rotation)
    → ((x : Screen) → get_screen r r.current_screen ≡ some x → Lasts x.timeout)
    → round r ≡ some r'
    → WellFormed r'
    → Housed r
    → Rehoused r r'
round-Housed r r' lasts e w h = elim (Bool-cases (r.current_screen == null)) [
  | inl z ↦ elim (Bool-cases (first r.screenlist == null)) [
    | inl y ↦ by_equation (Rehoused r) (rw (z, y) at e) (h, refl)
    | inr n ↦
        let st = switch-Steady (first r.screenlist) r r' (rw (z, n) at e) in
        (Steady-Housed r r' st w h, st.1)
  ]
  | inr n ↦
      let (x, at, e1) =
        >>=-eq-some (get_screen r r.current_screen)
          (λ x. expire r.current_screen x r >>= λ r1.
            turn (first r.screenlist) r.current_screen (due r1 x) r1)
          (rw n at e) in
      let (r1, go, e2) =
        >>=-eq-some (expire r.current_screen x r)
          (λ r1. turn (first r.screenlist) r.current_screen (due r1 x) r1) e1 in
      let st = turn-Steady (first r.screenlist) r.current_screen (due r1 x) r1 r' e2 in
      let (h1, same) = expire-Housed r r1 r.current_screen x x.timeout refl (lasts x at) at go h in
      (Steady-Housed r1 r' st w h1, st.1 ∙ same)
]

-- A frame that does not fault is one in which the current screen lasts.
pub frame-Lasts :
    (r r' : Rotation)
    → screenlist_process r ≡ some r'
    → (x : Screen) → get_screen r r.current_screen ≡ some x
    → Lasts x.timeout
unfolding get_screen
frame-Lasts r r' e x at = elim (Lasts-or_Expires x.timeout) [
  | inl l ↦ l
  | inr h ↦
      let faults : screenlist_process r ≡ none =
        process_faults r x (λ z. ground (arith, z, at)) at h in
      absurd (ground (arith, faults, e))
]

pub screenlist_process-Housed :
    (r r' : Rotation) → screenlist_process r ≡ some r' → Housed r → Rehoused r r'
unfolding screenlist_process
screenlist_process-Housed r r' e h =
    let lasts = frame-Lasts r r' e in
    let (r2, go, w, _) = process-Settles r h.sound.well_formed lasts in
    let w' = subst WellFormed (some_inj (sym go ∙ e)) w in
    let (rs, sorted, e1) = >>=-eq-some (sort_screens r) round e in
    let (cur, mem) = sort_screens-same r rs sorted in
    let (h1, same) =
      round-Housed rs r' (λ x at. lasts x (get_screen-same rs r x (sym cur) (sym mem) at)) e1 w'
        (sort_screens-Housed r rs sorted h) in
    (h1, same ∙ sort_screens-lists r rs sorted)
