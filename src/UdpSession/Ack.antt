-- ===== src/UdpSession/Ack.antt =====
-- Acknowledgements: what the receiver reports in a bitfield, and what the sender drops for it.
use jam_server_prototype.Common.{
  ℕ, zero, suc, ◌+◌, ◌-◌, ◌%◌, ◌^◌, ◌≤◌, ◌<◌, ◌≡◌, ◌≢◌, ap, ◌∙◌, Bool, true, false, ◌&&◌, ◌||◌,
  none, ltb, leb, ◌==◌, if◌then◌else◌, Bool-cases, inl, inr, sub16, test_bit, test_bit-set_bit,
  test_bit_above, set_bit-lt, arith,
}
use native.Mathlib.Nat.{pow-suc}
use jam_server_prototype.Common.Dict.{Dict, lookup, lookup-erase}
use jam_server_prototype.UdpSession.{
  UdpSession, PendingPacket, window_size, bitfield_size, is_seq_greater, ack_bit, ack_bits,
  generate_ack_bitfield, ack_one, ack_loop, handle_ack,
}

-- What bit `j` of the bitfield says: whether the packet `j + 1` before `latest` is in the history.
abbrev pub reported : UdpSession → ℕ → ℕ → Bool
reported u latest j = u.receive_history (sub16 latest (suc j) % window_size)

is_seq_greater-sub16 :
    (latest k : ℕ)
    → latest < 65536
    → k < bitfield_size
    → is_seq_greater latest (sub16 latest (suc k)) ≡ true
unfolding is_seq_greater
is_seq_greater-sub16 latest k h lt = ground arith

ack_bit-lt :
    (latest k bitfield : ℕ) (u : UdpSession)
    → bitfield < 2 ^ k
    → ack_bit latest u k bitfield < 2 ^ suc k
unfolding ack_bit
ack_bit-lt latest k bitfield u h = ground (arith, set_bit-lt k bitfield, pow-suc 2 k)

test_bit-ack_bit :
    (latest k j bitfield : ℕ) (u : UdpSession)
    → latest < 65536
    → k < bitfield_size
    → bitfield < 2 ^ k
    → test_bit (ack_bit latest u k bitfield) j
      ≡ (if j == k then reported u latest k else test_bit bitfield j)
unfolding ack_bit
test_bit-ack_bit latest k j bitfield u h lt small =
    rw (is_seq_greater-sub16 latest k h lt)
      (ground (arith, test_bit-set_bit k j bitfield small, test_bit_above k j bitfield small))

test_bit-ack_bits :
    (latest rounds k j bitfield : ℕ) (u : UdpSession)
    → latest < 65536
    → k + rounds ≤ bitfield_size
    → bitfield < 2 ^ k
    → test_bit (ack_bits latest u rounds k bitfield) j ≡ (
        if ltb j k
        then test_bit bitfield j
        else if ltb j (k + rounds)
        then reported u latest j
        else false)
unfolding ack_bits
test_bit-ack_bits latest zero k j bitfield u h le small =
    ground (arith, test_bit_above k j bitfield small)
test_bit-ack_bits latest (suc rounds) k j bitfield u h le small =
    test_bit-ack_bits latest rounds (suc k) j (ack_bit latest u k bitfield) u h (omega arith)
      (ack_bit-lt latest k bitfield u small)
    ∙ ground (arith, test_bit-ack_bit latest k j bitfield u h (omega arith) small)

-- Bit `j` of the bitfield is set exactly when the packet `j + 1` before `latest` was received, for
-- the 32 packets before it, and no other bit is set.
pub test_bit-generate_ack_bitfield :
    (latest j : ℕ) (u : UdpSession)
    → latest < 65536
    → test_bit (generate_ack_bitfield latest u) j
      ≡ (if ltb j bitfield_size then reported u latest j else false)
unfolding generate_ack_bitfield
test_bit-generate_ack_bitfield latest j u h =
    test_bit-ack_bits latest bitfield_size 0 j 0 u h (omega arith) (omega arith) ∙ ground arith

-- Whether an acknowledgement names a number: it is the latest, or the bit for it is set.
abbrev pub names : ℕ → ℕ → ℕ → Bool
names latest bitfield seq =
    sub16 latest seq == 0
    || (leb (sub16 latest seq) bitfield_size && test_bit bitfield (sub16 latest seq - 1))

-- The part of it that the rounds from `i` on see to.
abbrev hit : ℕ → ℕ → ℕ → ℕ → ℕ → Bool
hit latest bitfield i rounds seq =
    leb i (sub16 latest seq)
    && ltb (sub16 latest seq) (i + rounds)
    && (sub16 latest seq == 0 || test_bit bitfield (sub16 latest seq - 1))

lookup-ack_one :
    (latest bitfield i seq : ℕ) (pending : Dict PendingPacket)
    → latest < 65536
    → seq < 65536
    → i ≤ bitfield_size
    → lookup seq (ack_one latest bitfield i pending) ≡ (
        if sub16 latest seq == i
          && (sub16 latest seq == 0 || test_bit bitfield (sub16 latest seq - 1))
        then none
        else lookup seq pending)
unfolding ack_one
lookup-ack_one latest bitfield i seq pending h k le = elim (Bool-cases (sub16 latest seq == i)) [
  | inl same ↦
      let e : sub16 latest seq ≡ i = ground arith in
      rw e (ground (arith, lookup-erase (sub16 latest i) seq pending))
  | inr other ↦ rw other (ground (arith, lookup-erase (sub16 latest i) seq pending))
]

lookup-ack_loop :
    (latest bitfield rounds i seq : ℕ) (pending : Dict PendingPacket)
    → latest < 65536
    → seq < 65536
    → i + rounds ≤ suc bitfield_size
    → lookup seq (ack_loop latest bitfield rounds i pending)
      ≡ (if hit latest bitfield i rounds seq then none else lookup seq pending)
unfolding ack_loop
lookup-ack_loop latest bitfield zero i seq pending h k le = ground arith
lookup-ack_loop latest bitfield (suc rounds) i seq pending h k le =
    lookup-ack_loop latest bitfield rounds (suc i) seq (ack_one latest bitfield i pending) h k
      (omega arith)
    ∙ ground (arith, lookup-ack_one latest bitfield i seq pending h k (omega arith))

-- `HandleAck` drops exactly the packets that the acknowledgement names: the latest, and those up to
-- 32 before it whose bits are set; every other packet stays pending as it was.
pub lookup-handle_ack :
    (latest bitfield seq : ℕ) (u : UdpSession)
    → latest < 65536
    → seq < 65536
    → lookup seq (handle_ack latest bitfield u).pending_ack_map
      ≡ (if names latest bitfield seq then none else lookup seq u.pending_ack_map)
unfolding handle_ack
lookup-handle_ack latest bitfield seq u h k =
    lookup-ack_loop latest bitfield (suc bitfield_size) 0 seq u.pending_ack_map h k (omega arith)
    ∙ ground arith

-- Sender and receiver together: after the sender handles the acknowledgement that the receiver makes
-- for `latest`, a packet up to 32 numbers before `latest` is pending exactly if it was and the
-- receiver's history does not have it; a packet further back, or ahead, is as it was.
pub ack_round_trip :
    (latest seq : ℕ) (sender receiver : UdpSession)
    → latest < 65536
    → seq < 65536
    → seq ≢ latest
    → lookup seq (handle_ack latest (generate_ack_bitfield latest receiver) sender).pending_ack_map
      ≡ (if leb (sub16 latest seq) bitfield_size && receiver.receive_history (seq % window_size)
          then none
          else lookup seq sender.pending_ack_map)
ack_round_trip latest seq sender receiver h k ne =
    lookup-handle_ack latest (generate_ack_bitfield latest receiver) seq sender h k
    ∙ ground (arith, bit)
  where
    back : sub16 latest (suc (sub16 latest seq - 1)) ≡ seq
    back = omega arith

    bit : test_bit (generate_ack_bitfield latest receiver) (sub16 latest seq - 1) ≡ (
        if ltb (sub16 latest seq - 1) bitfield_size
        then receiver.receive_history (seq % window_size)
        else false)
    bit =
        test_bit-generate_ack_bitfield latest (sub16 latest seq - 1) receiver h
        ∙ ap
            (λ s.
              if ltb (sub16 latest seq - 1) bitfield_size
              then receiver.receive_history (s % window_size)
              else false)
            back
