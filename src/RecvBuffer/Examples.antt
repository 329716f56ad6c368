-- ===== src/RecvBuffer/Examples.antt =====
-- The receive buffer on concrete contents.
use jam_server_prototype.Common.{◌≡◌, refl, [], ◌∷◌, arith}
use jam_server_prototype.RecvBuffer.{RecvBuffer, IsValid, clean}

-- bytes 2 and 3 are unread, and five are free
abbrev some_read : RecvBuffer
some_read = record {
  capacity = 8;
  buffer_size = 4;
  read_pos = 1;
  write_pos = 3;
  buffer = 1 ∷ 2 ∷ 3 ∷ 0 ∷ 0 ∷ 0 ∷ 0 ∷ 0 ∷ [];
}

some_read-IsValid : IsValid some_read
some_read-IsValid = record { ordered = omega arith; within = omega arith; sized = refl }

-- written to its end, with one byte unread
abbrev full : RecvBuffer
full = record {
  capacity = 4;
  buffer_size = 2;
  read_pos = 3;
  write_pos = 4;
  buffer = 1 ∷ 2 ∷ 3 ∷ 4 ∷ [];
}

full-IsValid : IsValid full
full-IsValid = record { ordered = omega arith; within = omega arith; sized = refl }

clean_moves :
    clean some_read
    ≡ record some_read { read_pos = 0; write_pos = 2; buffer = 2 ∷ 3 ∷ 3 ∷ 0 ∷ 0 ∷ 0 ∷ 0 ∷ 0 ∷ [] }
unfolding clean
clean_moves = refl
