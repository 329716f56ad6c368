-- ===== src/Snapshots.antt =====
-- The snapshot buffer of a room, GameServer/Room.cpp, `AddSnapshot` and `FindSnapshot`: snapshots with
-- their times, oldest first. Times are whole microseconds, and a cutoff before time 0 is time 0. The
-- library searches a sorted range for the first element past a bound, which is what `upper_bound` and
-- `lower_bound` are here.
pub mod Ordered
mod Examples
use jam_server_prototype.Common.{
  ℕ, ◌-◌, Bool, true, false, not, Option, none, some, List, [], ◌∷◌, ltb, if◌then◌else◌,
}

-- 0.5 seconds
abbrev pub window : ℕ
window = 500000

module _ {S : Type 0} where
  -- insertion at `upper_bound`: before the first later time
  unfoldable pub insert_at : ℕ → S → List (ℕ × S) → List (ℕ × S)
  insert_at timestamp s [] = (timestamp, s) ∷ []
  insert_at timestamp s ((t, x) ∷ buffer) =
      if ltb timestamp t
      then (timestamp, s) ∷ (t, x) ∷ buffer
      else (t, x) ∷ insert_at timestamp s buffer

  -- `erase(remove_if(first < cutoff))`
  unfoldable pub drop_before : ℕ → List (ℕ × S) → List (ℕ × S)
  drop_before cutoff [] = []
  drop_before cutoff ((t, x) ∷ buffer) =
      if ltb t cutoff then drop_before cutoff buffer else (t, x) ∷ drop_before cutoff buffer

  unfoldable pub add_snapshot : ℕ → S → List (ℕ × S) → List (ℕ × S)
  add_snapshot timestamp s buffer = drop_before (timestamp - window) (insert_at timestamp s buffer)

  -- the element at `lower_bound`
  unfoldable pub first_from : ℕ → List (ℕ × S) → Option (ℕ × S)
  first_from timestamp [] = none
  first_from timestamp ((t, x) ∷ buffer) =
      if ltb t timestamp then first_from timestamp buffer else some (t, x)

module _ (S : Type 0) where
  pub data Found : Type 0 where
    -- the trace output reads `front()` of an empty vector
    fault : Found
    missing : Found
    found : ℕ → S → Found

module _ {S : Type 0} where
  abbrev pub to_found : Option (ℕ × S) → Found S
  to_found none = missing
  to_found (some (t, x)) = found t x

  unfoldable pub find_snapshot : ℕ → List (ℕ × S) → Found S
  find_snapshot timestamp [] = fault
  find_snapshot timestamp (entry ∷ buffer) = to_found (first_from timestamp (entry ∷ buffer))
