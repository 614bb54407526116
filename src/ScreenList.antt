-- ===== src/ScreenList.antt =====
-- server/screenlist.c: the list of screens, the current screen and its rotation. A screen is an
-- address; `screens` is the memory behind it, and reading a screen that is freed is a fault.
pub mod Back
pub mod Expiry
pub mod Frame
pub mod Going
pub mod Memory
pub mod Notices
pub mod Process
pub mod Removal
mod Tests
pub mod Top
use lcdproc.Prelude.{
  ℕ, zero, suc, ◌+◌, ◌-◌, ◌≤◌, ◌≡◌, Bool, true, false, not, ◌&&◌, ◌||◌, Option, none, some, List,
  [], ◌∷◌, ◌++◌, ltb, leb, ◌==◌, if◌then◌else◌, ◌>>=◌, ◌>>◌, Bytes, codes, take,
}
use lcdproc.Prelude.Int.{ℤ, pos, negsuc, ◌-ℤ◌, ltb_ℤ}
use lcdproc.LinkedList.Sequence.{sort}
use lcdproc.Widgets.{Widgets, empty}

abbrev pub Ptr : Type 0
Ptr = ℕ

abbrev pub null : Ptr
null = 0

-- server/screen.h
pub data Priority : Type 0 where
  hidden background info foreground alert input : Priority

-- The numbers of the enumeration.
abbrev pub rank : Priority → ℕ
rank hidden = 0
rank background = 1
rank info = 2
rank foreground = 3
rank alert = 4
rank input = 5

-- A screen; `keys`, which nothing reads, is left out. `priority` is a number, as in C, where any
-- number can be put into an enumeration. `client` is NULL for a screen of the server.
pub record Screen : Type 0 where
  pub id : Bytes
  pub name : Option Bytes
  pub width : ℕ
  pub height : ℕ
  pub duration : ℕ
  pub timeout : ℤ
  pub priority : ℕ
  pub heartbeat : ℕ
  pub backlight : ℕ
  pub cursor : ℕ
  pub cursor_x : ℤ
  pub cursor_y : ℤ
  pub client : Ptr
  pub widgets : Widgets

-- The size of the display that the drivers report.
pub record Display : Type 0 where
  pub width : ℕ
  pub height : ℕ

-- `screen_create`, with `default_duration` and `default_timeout`.
abbrev pub screen_create : Display → ℕ → ℤ → Bytes → Ptr → Screen
screen_create display default_duration default_timeout id client = record {
  id = id;
  name = none;
  width = display.width;
  height = display.height;
  duration = default_duration;
  timeout = default_timeout;
  priority = rank info;
  heartbeat = 2;
  backlight = 2;
  cursor = 0;
  cursor_x = pos 1;
  cursor_y = pos 1;
  client = client;
  widgets = empty;
}

-- What a client is told.
pub data Notice : Type 0 where
  ignore : Ptr → Bytes → Notice
  listen : Ptr → Bytes → Notice

-- The line that is sent: `snprintf` into 256 bytes.
unfoldable pub notice_text : Notice → Bytes
notice_text (ignore c id) = take 255 (codes "ignore " ++ (id ++ codes "\n"))
notice_text (listen c id) = take 255 (codes "listen " ++ (id ++ codes "\n"))

-- The module's variables, the screens that each client has (`Client.screenlist`), the memory of
-- the screens, the server's `timer`, and what has been sent, the last notice first.
pub record Rotation : Type 0 where
  pub autorotate : Bool
  pub screenlist : List Ptr
  pub current_screen : Ptr
  pub start_time : ℕ
  pub screens : Ptr → Option Screen
  pub client_screens : Ptr → List Ptr
  pub timer : ℕ
  pub sent : List Notice

-- `s->…`
unfoldable pub get_screen : Rotation → Ptr → Option Screen
get_screen r s = if s == null then none else r.screens s

unfoldable pub priority_of : Rotation → Ptr → Option ℕ
priority_of r s = get_screen r s >>= λ x. some x.priority

-- `screenlist_add`; `LL_Push` refuses NULL.
unfoldable pub screenlist_add : Ptr → Rotation → Bool × Rotation
screenlist_add s r =
    if s == null then (false, r) else (true, record r { screenlist = r.screenlist ++ s ∷ [] })

-- A notice to the client that owns the screen, if there is one.
abbrev pub tell : (Ptr → Bytes → Notice) → Screen → List Notice → List Notice
tell kind x sent = if x.client == null then sent else kind x.client x.id ∷ sent

-- The first half of `screenlist_switch`: the current screen's client is told to ignore it.
unfoldable pub take_back : Rotation → Option (List Notice)
take_back r =
    if r.current_screen == null
    then some r.sent
    else (do old ← get_screen r r.current_screen; some (tell ignore old r.sent))

unfoldable pub screenlist_switch : Ptr → Rotation → Option Rotation
screenlist_switch s r = if s == null then some r else if s == r.current_screen then some r else (do
  sent ← take_back r
  new ← get_screen r s
  some (record r { current_screen = s; start_time = r.timer; sent = tell listen new sent }))

-- The data of the first node, 0 for NULL.
abbrev pub first : List Ptr → Ptr
first [] = null
first (x ∷ xs) = x

-- `LL_GetNext` behind the loop that looks for `s`: 0 at the end of the list, or if `s` is not in
-- it.
unfoldable pub next_after : Ptr → List Ptr → Ptr
next_after s [] = null
next_after s (x ∷ xs) = if x == s then first xs else next_after s xs

unfoldable pub screenlist_goto_next : Rotation → Option (Bool × Rotation)
screenlist_goto_next r = if r.current_screen == null then some (false, r) else (do
  let s = next_after r.current_screen r.screenlist
  back ←
      (if s == null
        then some true
        else (do p ← priority_of r s; q ← priority_of r r.current_screen; some (ltb p q)))
  r' ← screenlist_switch (if back then first r.screenlist else s) r
  some (true, r'))

-- `LL_GetPrev` behind the loop that looks for `s`: 0 at the front of the list; if `s` is not in
-- the list, the loop has left the cursor on the last node. `before` is what the cursor has passed.
unfoldable pub prev_before : Ptr → Ptr → List Ptr → Ptr
prev_before s before [] = null
prev_before s before (x ∷ []) = before
prev_before s before (x ∷ y ∷ xs) = if x == s then before else prev_before s x (y ∷ xs)

-- `while ((n = LL_GetNext(screenlist)) && n->priority == f->priority) s = n;`
unfoldable pub last_alike : Rotation → ℕ → Ptr → List Ptr → Option Ptr
last_alike r p s [] = some s
last_alike r p s (n ∷ xs) =
    let rest = last_alike r p n xs in (do q ← priority_of r n; if q == p then rest else some s)

-- Its start, from the first screen `f`, whose priority is read only if there is a second one.
unfoldable pub wrap_back : Rotation → List Ptr → Option Ptr
wrap_back r [] = some null
wrap_back r (f ∷ []) = some f
wrap_back r (f ∷ n ∷ xs) = do p ← priority_of r f; last_alike r p f (n ∷ xs)

unfoldable pub screenlist_goto_prev : Rotation → Option (Bool × Rotation)
screenlist_goto_prev r = if r.current_screen == null then some (false, r) else (do
  let s = prev_before r.current_screen null r.screenlist
  target ← (if s == null then wrap_back r r.screenlist else some s)
  r' ← screenlist_switch target r
  some (true, r'))

-- `LL_Remove` of a screen: whether it was there, and the list without it.
unfoldable pub erase : Ptr → List Ptr → Bool × List Ptr
erase s [] = (false, [])
erase s (x ∷ xs) = if x == s then (true, xs) else (let (found, ys) = erase s xs in (found, x ∷ ys))

abbrev pub erase_screen : Ptr → Rotation → Bool × Rotation
erase_screen s r = let (found, xs) = erase s r.screenlist in (found, record r { screenlist = xs })

unfoldable pub screenlist_remove : Ptr → Rotation → Option (Bool × Rotation)
screenlist_remove s r = if not (s == r.current_screen) then some (erase_screen s r) else (do
  (_, r1) ← screenlist_goto_next r
  if not (s == r1.current_screen) then some (erase_screen s r1) else (do
    let (found, r2) = erase_screen s r1
    (_, r3) ← screenlist_goto_next r2
    some (found, r3)))
