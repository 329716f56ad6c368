-- ===== src/UdpSession.antt =====
-- ServerCore/Session.h and Session.cpp, class `UdpSession`: the reliable layer over UDP. Sequence
-- numbers are uint16 and wrap. Times are whole microseconds of the server's clock, which never goes
-- back; the resend interval is 0.1 seconds. The header of a send buffer is memory that sessions may
-- share: a store gives the sequence number that stands in each buffer.
pub mod Window
pub mod Ack
pub mod Resend
pub mod Growth
pub mod Sharing
mod Examples
use jam_server_prototype.Common.{
  ℕ, zero, suc, ◌+◌, ◌-◌, ◌%◌, Bool, true, false, not, ◌&&◌, ◌||◌, Option, none, some, List, [],
  ◌∷◌, ◌++◌, ltb, leb, ◌==◌, if◌then◌else◌, u16, sub16, test_bit, set_bit,
}
use jam_server_prototype.Common.Dict.{Dict, lookup, insert, erase}

abbrev pub window_size : ℕ
window_size = 1024

abbrev pub bitfield_size : ℕ
bitfield_size = 32

abbrev pub resend_interval : ℕ
resend_interval = 100000

abbrev pub max_retry : ℕ
max_retry = 5

pub record PendingPacket : Type 0 where
  pub buffer : ℕ
  pub sequence : ℕ
  pub timestamp : ℕ
  pub retry_count : ℕ

pub record UdpSession : Type 0 where
  pub connected : Bool
  pub pending_ack_map : Dict PendingPacket
  -- `_receiveHistory.test(slot)`
  pub receive_history : ℕ → Bool
  pub latest_seq : ℕ
  pub send_seq : ℕ
  -- the buffers handed to `WSASendTo`, in order
  pub sent : List ℕ
  -- how often the service was asked to release the session
  pub releases : ℕ

abbrev pub fresh : UdpSession
fresh = record {
  connected = false;
  pending_ack_map = [];
  receive_history = λ _. false;
  latest_seq = 0;
  send_seq = 1;
  sent = [];
  releases = 0;
}

-- The sequence numbers in the headers of the send buffers.
abbrev pub Headers : Type 0
Headers = ℕ → ℕ

abbrev pub write_header : ℕ → ℕ → Headers → Headers
write_header buffer seq headers other = if buffer == other then seq else headers other

-- `static_cast<int16>(a - b) > 0`
unfoldable pub is_seq_greater : ℕ → ℕ → Bool
is_seq_greater a b = ltb 0 (sub16 a b) && ltb (sub16 a b) 32768

abbrev pub set_slot : ℕ → (ℕ → Bool) → ℕ → Bool
set_slot slot history other = if slot == other then true else history other

-- The new session and whether the packet is accepted.
unfoldable pub check_and_record_receive_history : ℕ → UdpSession → UdpSession × Bool
check_and_record_receive_history seq u =
    if not (is_seq_greater seq (sub16 u.latest_seq window_size))
    then (u, false)
    else if u.receive_history (seq % window_size)
    then (u, false)
    else (
      record u {
        receive_history = set_slot (seq % window_size) u.receive_history;
        latest_seq = if is_seq_greater seq u.latest_seq then seq else u.latest_seq;
      },
      true,
    )

-- Round `i` of the loop in `GenerateAckBitfield`, for `i = k + 1`.
unfoldable pub ack_bit : ℕ → UdpSession → ℕ → ℕ → ℕ
ack_bit latest u k bitfield =
    let seq = sub16 latest (suc k) in
    if not (is_seq_greater latest seq)
    then bitfield
    else if u.receive_history (seq % window_size)
    then set_bit bitfield k
    else bitfield

unfoldable pub ack_bits : ℕ → UdpSession → ℕ → ℕ → ℕ → ℕ
ack_bits latest u zero k bitfield = bitfield
ack_bits latest u (suc rounds) k bitfield =
    ack_bits latest u rounds (suc k) (ack_bit latest u k bitfield)

unfoldable pub generate_ack_bitfield : ℕ → UdpSession → ℕ
generate_ack_bitfield latest u = ack_bits latest u bitfield_size 0 0

-- Round `i` of the loop in `HandleAck`.
unfoldable pub ack_one : ℕ → ℕ → ℕ → Dict PendingPacket → Dict PendingPacket
ack_one latest bitfield i pending =
    if i == 0 || test_bit bitfield (i - 1) then erase (sub16 latest i) pending else pending

unfoldable pub ack_loop : ℕ → ℕ → ℕ → ℕ → Dict PendingPacket → Dict PendingPacket
ack_loop latest bitfield zero i pending = pending
ack_loop latest bitfield (suc rounds) i pending =
    ack_loop latest bitfield rounds (suc i) (ack_one latest bitfield i pending)

unfoldable pub handle_ack : ℕ → ℕ → UdpSession → UdpSession
handle_ack latest bitfield u = record u {
  pending_ack_map = ack_loop latest bitfield (suc bitfield_size) 0 u.pending_ack_map;
}

-- `Send` hands the buffer to `WSASendTo` if the session is connected.
unfoldable pub send : ℕ → UdpSession → UdpSession
send buffer u = if u.connected then record u { sent = u.sent ++ buffer ∷ [] } else u

abbrev pub new_packet : ℕ → ℕ → ℕ → PendingPacket
new_packet buffer seq timestamp = record {
  buffer = buffer;
  sequence = seq;
  timestamp = timestamp;
  retry_count = 0;
}

unfoldable pub send_reliable : ℕ → ℕ → Headers → UdpSession → Headers × UdpSession
send_reliable buffer timestamp headers u =
    let seq = u.send_seq in
    (
      write_header buffer seq headers,
      send buffer (record u {
        send_seq = u16 (seq + 1);
        pending_ack_map = insert seq (new_packet buffer seq timestamp) u.pending_ack_map;
      }),
    )

-- `Disconnect`, with `ProcessDisconnect`.
unfoldable pub disconnect : UdpSession → UdpSession
disconnect u = if u.connected then record u { connected = false; releases = u.releases + 1 } else u

unfoldable pub is_due : ℕ → PendingPacket → Bool
is_due now pkt = leb resend_interval (now - pkt.timestamp)

unfoldable pub mark_retry : ℕ → PendingPacket → PendingPacket
unfolding is_due
mark_retry now pkt =
    if is_due now pkt
    then record pkt { timestamp = now; retry_count = pkt.retry_count + 1 }
    else pkt

-- The first loop of `Update`: the entries with their new times and counts, the numbers to send
-- again, and whether some entry was tried too often.
unfoldable pub mark_all : ℕ → Dict PendingPacket → Dict PendingPacket
mark_all now [] = []
mark_all now ((seq, pkt) ∷ m) = (seq, mark_retry now pkt) ∷ mark_all now m

unfoldable pub resend_list : ℕ → Dict PendingPacket → List ℕ
resend_list now [] = []
resend_list now ((seq, pkt) ∷ m) =
    let rest = resend_list now m in if is_due now pkt then seq ∷ rest else rest

unfoldable pub exhausted : ℕ → Dict PendingPacket → Bool
exhausted now [] = false
exhausted now ((seq, pkt) ∷ m) = ltb max_retry (mark_retry now pkt).retry_count || exhausted now m

-- One round of the second loop of `Update`.
unfoldable pub resend_one : Option PendingPacket → ℕ → Headers → UdpSession → Headers × UdpSession
resend_one none now headers u = (headers, u)
resend_one (some pkt) now headers u = send_reliable pkt.buffer now headers u

unfoldable pub resend_all : List ℕ → ℕ → Headers → UdpSession → Headers × UdpSession
resend_all [] now headers u = (headers, u)
resend_all (seq ∷ seqs) now headers u =
    let (headers', u') = resend_one (lookup seq u.pending_ack_map) now headers u in
    resend_all seqs now headers' u'

unfoldable pub update : ℕ → Headers → UdpSession → Headers × UdpSession
update now headers u =
    let marked = record u { pending_ack_map = mark_all now u.pending_ack_map } in
    let alive = if exhausted now u.pending_ack_map then disconnect marked else marked in
    resend_all (resend_list now u.pending_ack_map) now headers alive
