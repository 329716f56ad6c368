-- ===== src/Common/Sets.antt =====
-- Sets of numbers, as lists: the standard library's sets. The order of the list stands for the order of
-- iteration.
use Prim.Native.Nat.{ℕ}
use mathlib.Core.Path.{◌≡◌, refl}
use mathlib.Core.Bool.{Bool, true, false}
use mathlib.Core.List.{List, [], ◌∷◌}
use native.Mathlib.Omega.{arith}
use jam_server_prototype.Common.Tests.{◌==◌, if◌then◌else◌}

-- `contains(x)`
unfoldable pub contains : ℕ → List ℕ → Bool
contains x [] = false
contains x (y ∷ ys) = if y == x then true else contains x ys

-- `insert(x)`
unfoldable pub set_insert : ℕ → List ℕ → List ℕ
set_insert x [] = x ∷ []
set_insert x (y ∷ ys) = if y == x then y ∷ ys else y ∷ set_insert x ys

-- `erase(x)`
unfoldable pub set_erase : ℕ → List ℕ → List ℕ
set_erase x [] = []
set_erase x (y ∷ ys) = if y == x then set_erase x ys else y ∷ set_erase x ys

pub contains-set_insert :
    (x asked : ℕ) (xs : List ℕ)
    → contains asked (set_insert x xs) ≡ (if x == asked then true else contains asked xs)
unfolding contains set_insert
contains-set_insert x asked [] = refl
contains-set_insert x asked (y ∷ ys) = ground (arith, contains-set_insert x asked ys)

pub contains-set_erase :
    (x asked : ℕ) (xs : List ℕ)
    → contains asked (set_erase x xs) ≡ (if x == asked then false else contains asked xs)
unfolding contains set_erase
contains-set_erase x asked [] = ground arith
contains-set_erase x asked (y ∷ ys) = ground (arith, contains-set_erase x asked ys)
