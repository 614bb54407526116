-- ===== src/Menu/Presses.antt =====
-- A sequence of keys for an item of server/menuitem.c, and what each key keeps.
use lcdproc.Prelude.{◌≡◌, refl, Option, some, List, [], ◌∷◌, ◌>>=◌}
use lcdproc.Menu.{MenuEventType, MenuResult, Reaction, Press}

-- The item after the keys, whatever it answered.
unfoldable pub press_all : {A : Type 0} → (Press → A → Reaction A) → List Press → A → Option A
press_all f [] a = some a
press_all f (p ∷ ps) a = f p a >>= λ r. press_all f ps r.0

-- The reaction is no fault, and the item is such as it should be.
abbrev pub Keeps {ℓ} : {A : Type 0} → (A → Type ℓ) → Reaction A → Type ℓ
Keeps {A = A} Good m =
    (b : A) × (events : List MenuEventType) × (result : MenuResult) × (m ≡ some (b, events, result))
    × Good b

pub press_all-keeps {ℓ} :
    {A : Type 0} (Good : A → Type ℓ) (f : Press → A → Reaction A)
    → ((p : Press) (a : A) → Good a → Keeps Good (f p a))
    → (ps : List Press) (a : A) → Good a
    → (b : A) × (press_all f ps a ≡ some b) × Good b
unfolding press_all
press_all-keeps Good f each [] a g = (a, refl, g)
press_all-keeps Good f each (p ∷ ps) a g =
    let (b, events, result, e, h) = each p a g in
    let (d, r, k) = press_all-keeps Good f each ps b h in (d, rw e r, k)
