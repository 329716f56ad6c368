-- ===== src/Common/Dict.antt =====
-- Dictionaries with number keys, as association lists: the standard library's maps. The order of the
-- list stands for the order of iteration.
use Prim.Native.Nat.{ℕ, ◌+◌, ◌≤◌}
use mathlib.Core.Path.{◌≡◌, refl}
use mathlib.Core.Option.{Option, none, some}
use mathlib.Core.List.{List, [], ◌∷◌}
use native.Mathlib.Omega.{arith}
use jam_server_prototype.Common.Tests.{◌==◌, if◌then◌else◌}
use jam_server_prototype.Common.Lists.{length}

abbrev pub Dict {ℓ} : Type ℓ → Type ℓ
Dict V = List (ℕ × V)

module _ {ℓ} {V : Type ℓ} where
  -- `find(k)`
  unfoldable pub lookup : ℕ → Dict V → Option V
  lookup k [] = none
  lookup k ((j, v) ∷ m) = if j == k then some v else lookup k m

  -- `map[key] = value`
  unfoldable pub insert : ℕ → V → Dict V → Dict V
  insert key value [] = (key, value) ∷ []
  insert key value ((at, old) ∷ rest) =
      if at == key then (at, value) ∷ rest else (at, old) ∷ insert key value rest

  -- `map.insert({k, v})`, which keeps an entry that is there
  unfoldable pub insert_new : ℕ → V → Dict V → Dict V
  insert_new k v [] = (k, v) ∷ []
  insert_new k v ((j, w) ∷ m) = if j == k then (j, w) ∷ m else (j, w) ∷ insert_new k v m

  -- `erase(k)`
  unfoldable pub erase : ℕ → Dict V → Dict V
  erase k [] = []
  erase k ((j, v) ∷ m) = if j == k then erase k m else (j, v) ∷ erase k m

  unfoldable pub keys : Dict V → List ℕ
  keys [] = []
  keys ((j, v) ∷ m) = j ∷ keys m

  pub lookup-insert :
      (key asked : ℕ) (value : V) (entries : Dict V)
      → lookup asked (insert key value entries)
        ≡ (if key == asked then some value else lookup asked entries)
  unfolding lookup insert
  lookup-insert key asked value [] = refl
  lookup-insert key asked value ((at, old) ∷ rest) =
      ground (arith, lookup-insert key asked value rest)

  pub lookup-erase :
      (k j : ℕ) (m : Dict V) → lookup j (erase k m) ≡ (if k == j then none else lookup j m)
  unfolding lookup erase
  lookup-erase k j [] = ground arith
  lookup-erase k j ((i, w) ∷ m) = ground (arith, lookup-erase k j m)

  pub lookup-insert_new :
      (k j : ℕ) (v : V) (m : Dict V)
      → lookup k m ≡ none
      → lookup j (insert_new k v m) ≡ (if k == j then some v else lookup j m)
  unfolding lookup insert_new
  lookup-insert_new k j v [] h = refl
  lookup-insert_new k j v ((i, w) ∷ m) h = ground (arith, lookup-insert_new k j v m)

  pub length-insert_fresh :
      (k : ℕ) (v : V) (m : Dict V) → lookup k m ≡ none → length (insert k v m) ≡ length m + 1
  unfolding lookup insert
  length-insert_fresh k v [] h = omega arith
  length-insert_fresh k v ((i, w) ∷ m) h = ground (arith, length-insert_fresh k v m)

  pub length-insert-le : (k : ℕ) (v : V) (m : Dict V) → length (insert k v m) ≤ length m + 1
  unfolding insert
  length-insert-le k v [] = omega arith
  length-insert-le k v ((i, w) ∷ m) = ground (arith, length-insert-le k v m)

  pub length-erase-le : (k : ℕ) (m : Dict V) → length (erase k m) ≤ length m
  unfolding erase
  length-erase-le k [] = omega arith
  length-erase-le k ((i, w) ∷ m) = ground (arith, length-erase-le k m)
