-- ===== src/LinkedList/Store.antt =====
-- The memory of one list of shared/LL.h: its nodes at addresses, field by field, with the two that
-- stand in `struct LinkedList`, `head` and `tail`. A read or write at an address that holds no
-- node is a fault. The `data` pointers are numbers here; 0 is NULL.
use lcdproc.Prelude.{ℕ, Bool, true, false, Option, none, some, ◌==◌, if◌then◌else◌}

abbrev pub Ptr : Type 0
Ptr = ℕ

abbrev pub null : Ptr
null = 0

abbrev pub head : Ptr
head = 1

abbrev pub tail : Ptr
tail = 2

-- `live` tells the addresses that hold a node.
pub record LinkedList : Type 0 where
  pub live : Ptr → Bool
  pub next : Ptr → Ptr
  pub prev : Ptr → Ptr
  pub item : Ptr → ℕ
  pub current : Ptr

abbrev pub M : Type 0 → Type 0
M A = LinkedList → Option (A × LinkedList)

abbrev pub pure : {A : Type 0} → A → M A
pure a l = some (a, l)

abbrev pub fault : {A : Type 0} → M A
fault l = none

module _ {A B : Type 0} where
  abbrev pub and_then : Option (A × LinkedList) → (A → M B) → Option (B × LinkedList)
  and_then none f = none
  and_then (some (a, l)) f = f a l

  infixl 5 ◌>>=◌ ◌>>◌
  abbrev pub ◌>>=◌ : M A → (A → M B) → M B
  m >>= f = λ l. and_then (m l) f

  abbrev pub ◌>>◌ : M A → M B → M B
  m >> n = m >>= λ _. n

abbrev pub update {ℓ} : {A : Type ℓ} → (Ptr → A) → Ptr → A → Ptr → A
update f p v q = if q == p then v else f q

-- `list->current`, and an assignment to it.
abbrev pub get_current : M Ptr
get_current l = some (l.current, l)

abbrev pub set_current : Ptr → M (Unit {0})
set_current p l = some (tt, record l { current = p })

-- The access that a node must allow.
abbrev pub when_live : {A : Type 0} → Bool → A × LinkedList → Option (A × LinkedList)
when_live true r = some r
when_live false r = none

-- `p->next`, `p->prev`, `p->data`
abbrev pub get_next_of : Ptr → M Ptr
get_next_of p l = when_live (l.live p) (l.next p, l)

abbrev pub get_prev_of : Ptr → M Ptr
get_prev_of p l = when_live (l.live p) (l.prev p, l)

abbrev pub get_item : Ptr → M ℕ
get_item p l = when_live (l.live p) (l.item p, l)

abbrev pub set_next_of : Ptr → Ptr → M (Unit {0})
set_next_of p q l = when_live (l.live p) (tt, record l { next = update l.next p q })

abbrev pub set_prev_of : Ptr → Ptr → M (Unit {0})
set_prev_of p q l = when_live (l.live p) (tt, record l { prev = update l.prev p q })

abbrev pub set_item : Ptr → ℕ → M (Unit {0})
set_item p v l = when_live (l.live p) (tt, record l { item = update l.item p v })

-- `malloc` gives `fresh`, a new address or NULL; the fields hold anything, here what was there.
abbrev pub malloc : Ptr → M (Unit {0})
malloc fresh l = some (tt, record l { live = update l.live fresh true })

abbrev pub free : Ptr → M (Unit {0})
free p l = when_live (l.live p) (tt, record l { live = update l.live p false })

-- `if (p) … ` without an else branch.
abbrev pub unless_null : Ptr → M (Unit {0}) → M (Unit {0})
unless_null p m = if p == null then pure tt else m
