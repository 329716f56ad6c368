-- ===== src/SendBuffer/Examples.antt =====
-- Concrete chunks.
use jam_server_prototype.Common.{◌≡◌, refl, some, [], ◌∷◌, false}
use jam_server_prototype.SendBuffer.{Chunk, Manager, open_chunk, close}
use jam_server_prototype.SendBuffer.Chunks.{cut_one, cut}

-- 5900 bytes are used
abbrev nearly_full : Chunk
nearly_full = record { ref = 1; is_open = false; used_size = 5900 }

abbrev manager : Manager
manager = record { current = some nearly_full; chunks = []; next_ref = 2 }

third_does_not_fit :
    cut ((50, 40) ∷ (60, 60) ∷ (1, 1) ∷ []) nearly_full ≡ (5900, 5940) ∷ (5940, 6000) ∷ []
unfolding cut cut_one open_chunk close
third_does_not_fit = refl
