-- ===== src/Base/Alloc.antt =====
-- `malloc` may fail: the outcomes of the next calls are a list, and after its end every call
-- succeeds.
use mathlib.Core.Path.{◌≡◌, refl, ap}
use mathlib.Core.Bool.{Bool, true}
use mathlib.Core.List.{List, [], ◌∷◌}

abbrev pub Alloc : Type 0
Alloc = List Bool

unfoldable pub malloc : Alloc → Bool × Alloc
malloc [] = (true, [])
malloc (b ∷ a) = (b, a)

-- No call of `malloc` fails.
abbrev pub Plenty : Alloc → Type 0
Plenty [] = Unit
Plenty (b ∷ a) = (b ≡ true) × Plenty a

pub malloc-Plenty : (a : Alloc) → Plenty a → (a' : Alloc) × (malloc a ≡ (true, a')) × Plenty a'
unfolding malloc
malloc-Plenty [] p = ([], refl, tt)
malloc-Plenty (b ∷ a) p = (a, ap (λ (c : Bool). (c, a)) p.0, p.1)
