-- ===== src/UdpSession/Window.antt =====
-- Which sequence numbers a session accepts.
use jam_server_prototype.Common.{
  ℕ, zero, suc, ◌+◌, ◌-◌, ◌%◌, ◌≤◌, ◌<◌, ◌≡◌, ◌⊎◌, inl, inr, refl, Bool, true, false, List, [], ◌∷◌,
  ◌==◌, Bool-cases, sub16, arith,
}
use jam_server_prototype.UdpSession.{
  UdpSession, window_size, is_seq_greater, set_slot, check_and_record_receive_history,
}

-- The session after a row of packets, and how many of them it accepted.
pub receive_seqs : List ℕ → UdpSession → UdpSession
receive_seqs [] u = u
receive_seqs (seq ∷ seqs) u = receive_seqs seqs (check_and_record_receive_history seq u).0

abbrev b2n : Bool → ℕ
b2n true = 1
b2n false = 0

pub accepted_count : List ℕ → UdpSession → ℕ
accepted_count [] u = 0
accepted_count (seq ∷ seqs) u =
    b2n (check_and_record_receive_history seq u).1
    + accepted_count seqs (check_and_record_receive_history seq u).0

-- A slot that is set stays set, so no number of its residue class is accepted again.
check-keeps :
    (seq slot : ℕ) (u : UdpSession)
    → u.receive_history slot ≡ true
    → (check_and_record_receive_history seq u).0.receive_history slot ≡ true
unfolding check_and_record_receive_history
check-keeps seq slot u h = ground arith

receive_seqs-keeps :
    (seqs : List ℕ) (slot : ℕ) (u : UdpSession)
    → u.receive_history slot ≡ true
    → (receive_seqs seqs u).receive_history slot ≡ true
unfolding receive_seqs
receive_seqs-keeps [] slot u h = h
receive_seqs-keeps (seq ∷ seqs) slot u h = receive_seqs-keeps seqs slot _ (check-keeps seq slot u h)

check-sets :
    (seq : ℕ) (u : UdpSession)
    → (check_and_record_receive_history seq u).1 ≡ true
    → (check_and_record_receive_history seq u).0.receive_history (seq % window_size) ≡ true
unfolding check_and_record_receive_history
check-sets seq u h = ground arith

check_set :
    (seq : ℕ) (u : UdpSession)
    → u.receive_history (seq % window_size) ≡ true
    → check_and_record_receive_history seq u ≡ (u, false)
unfolding check_and_record_receive_history
check_set seq u h = ground arith

-- Once a session has accepted a number, it rejects that number for good, and with it every number
-- that differs by a multiple of the window, whatever arrives in between.
pub accepted_once :
    (seq again : ℕ) (between : List ℕ) (u : UdpSession)
    → (check_and_record_receive_history seq u).1 ≡ true
    → again % window_size ≡ seq % window_size
    → let later = receive_seqs between (check_and_record_receive_history seq u).0 in
      check_and_record_receive_history again later ≡ (later, false)
accepted_once seq again between u h e =
    check_set again _ (rw e (receive_seqs-keeps between _ _ (check-sets seq u h)))

-- How many of the slots below `n` are set.
count_set : ℕ → (ℕ → Bool) → ℕ
count_set zero history = 0
count_set (suc n) history = b2n (history n) + count_set n history

count_set-le : (n : ℕ) (history : ℕ → Bool) → count_set n history ≤ n
unfolding count_set
count_set-le zero history = omega arith
count_set-le (suc n) history = ground (arith, count_set-le n history)

count_set_above :
    (n slot : ℕ) (history : ℕ → Bool)
    → n ≤ slot
    → count_set n (set_slot slot history) ≡ count_set n history
unfolding count_set
count_set_above zero slot history h = refl
count_set_above (suc n) slot history h = ground (arith, count_set_above n slot history)

count_set-set_slot :
    (n slot : ℕ) (history : ℕ → Bool)
    → slot < n
    → history slot ≡ false
    → count_set n (set_slot slot history) ≡ count_set n history + 1
unfolding count_set
count_set-set_slot zero slot history h e = absurd (omega arith)
count_set-set_slot (suc n) slot history h e = elim (Bool-cases (slot == n)) [
  | inl last ↦ ground (arith, count_set_above n slot history)
  | inr below ↦ ground (arith, count_set-set_slot n slot history)
]

check-count :
    (seq : ℕ) (u : UdpSession)
    → count_set window_size (check_and_record_receive_history seq u).0.receive_history
      ≡ count_set window_size u.receive_history + b2n (check_and_record_receive_history seq u).1
unfolding check_and_record_receive_history
check-count seq u =
    ground (arith, count_set-set_slot window_size (seq % window_size) u.receive_history)

accepted_count-slots :
    (seqs : List ℕ) (u : UdpSession)
    → count_set window_size u.receive_history + accepted_count seqs u
      ≡ count_set window_size (receive_seqs seqs u).receive_history
unfolding accepted_count receive_seqs
accepted_count-slots [] u = omega arith
accepted_count-slots (seq ∷ seqs) u = omega (arith, check-count seq u, accepted_count-slots seqs _)

-- However many packets arrive, a session accepts at most as many as the window has slots: the
-- receive history is never cleared.
pub accepted_count-le : (seqs : List ℕ) (u : UdpSession) → accepted_count seqs u ≤ window_size
accepted_count-le seqs u = omega (
  arith,
  accepted_count-slots seqs u,
  count_set-le window_size (receive_seqs seqs u).receive_history,
)

-- Which packets pass, exactly: a number whose slot is free is accepted if it is less than a window
-- behind the latest number, or ahead of it by less than half the number space less the window, and
-- rejected if it is anywhere else; a rejected packet changes nothing.
pub check_exactly :
    (seq : ℕ) (u : UdpSession)
    → seq < 65536
    → u.latest_seq < 65536
    → u.receive_history (seq % window_size) ≡ false
    → let r = check_and_record_receive_history seq u in
      ((sub16 u.latest_seq seq < window_size) ⊎ (sub16 seq u.latest_seq < 32768 - window_size)
        → r.1 ≡ true)
      × (window_size ≤ sub16 u.latest_seq seq
          → 32768 - window_size ≤ sub16 seq u.latest_seq
          → r ≡ (u, false))
unfolding check_and_record_receive_history is_seq_greater
check_exactly seq u h k free = (λ w. ground arith, λ a b. ground arith)

-- After a packet is accepted, the latest number has not moved back, and the packet's number is less
-- than a window behind it.
pub accepted_in_window :
    (seq : ℕ) (u : UdpSession)
    → seq < 65536
    → u.latest_seq < 65536
    → (check_and_record_receive_history seq u).1 ≡ true
    → let later = (check_and_record_receive_history seq u).0 in
      (sub16 later.latest_seq seq < window_size)
      × (sub16 later.latest_seq u.latest_seq < 32768)
      × (later.latest_seq < 65536)
unfolding check_and_record_receive_history is_seq_greater
accepted_in_window seq u h k a = (ground arith, ground arith, ground arith)
