-- ===== src/Snapshots/Examples.antt =====
-- The snapshot buffer on concrete times.
use jam_server_prototype.Common.{ℕ, ◌≡◌, refl, List, [], ◌∷◌, arith}
use jam_server_prototype.Snapshots.{insert_at, drop_before, add_snapshot}
use jam_server_prototype.Snapshots.Ordered.{SortedFrom, IsSorted, add_snapshot-IsSorted}

-- snapshots 1, 2 and 3 at 0.1, 0.3 and 0.5 seconds
abbrev buffer : List (ℕ × ℕ)
buffer = (100000, 1) ∷ (300000, 2) ∷ (500000, 3) ∷ []

buffer-IsSorted : IsSorted buffer
buffer-IsSorted = (omega arith, (omega arith, (omega arith, tt)))

first_dropped : add_snapshot 700000 4 buffer ≡ (300000, 2) ∷ (500000, 3) ∷ (700000, 4) ∷ []
unfolding add_snapshot insert_at drop_before
first_dropped = refl

add_snapshot-IsSorted_example :
    IsSorted (add_snapshot 700000 4 buffer) × SortedFrom 200000 (add_snapshot 700000 4 buffer)
add_snapshot-IsSorted_example = add_snapshot-IsSorted 700000 4 buffer buffer-IsSorted
