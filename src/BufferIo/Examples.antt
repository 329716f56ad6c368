-- ===== src/BufferIo/Examples.antt =====
-- Concrete bytes.
use jam_server_prototype.Common.{ℕ, ◌≡◌, refl, some, List, [], ◌∷◌, map, length, take, arith}
use jam_server_prototype.BufferIo.{Cursor, IsValid}
use jam_server_prototype.BufferIo.RoundTrip.{write_all, read_all, read_all-write_all}

abbrev cursor : Cursor
cursor = record { buffer = 1 ∷ 0 ∷ 0 ∷ 0 ∷ 0 ∷ []; size = 5; pos = 1 }

abbrev pieces : List (List ℕ)
pieces = (7 ∷ 8 ∷ []) ∷ (9 ∷ []) ∷ []

cursor-IsValid : IsValid cursor
cursor-IsValid = record { sized = refl; within = omega arith; small = omega arith }

read_all-write_all_example :
    (c' : Cursor) × (write_all pieces cursor ≡ some c')
    × (c'.pos ≡ 4)
    × (read_all (map length pieces) (record c' { pos = 1 }) ≡ some pieces)
    × (take 1 c'.buffer ≡ 1 ∷ [])
read_all-write_all_example = read_all-write_all pieces cursor cursor-IsValid (omega arith)
