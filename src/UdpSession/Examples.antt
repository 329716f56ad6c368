-- ===== src/UdpSession/Examples.antt =====
-- Sessions on concrete numbers.
use jam_server_prototype.Common.{
  ℕ, ◌+◌, ◌≤◌, ◌≡◌, ◌≢◌, refl, inr, true, false, none, some, [], ◌∷◌, length, test_bit, arith,
}
use jam_server_prototype.Common.Dict.{lookup}
use jam_server_prototype.UdpSession.{
  PendingPacket, UdpSession, fresh, Headers, is_seq_greater, new_packet, set_slot,
  check_and_record_receive_history, generate_ack_bitfield, handle_ack, send_reliable, resend_list,
  is_due, update,
}
use jam_server_prototype.UdpSession.Window.{accepted_count, accepted_count-le, check_exactly}
use jam_server_prototype.UdpSession.Ack.{lookup-handle_ack, ack_round_trip}
use jam_server_prototype.UdpSession.Growth.{length-update}
use jam_server_prototype.UdpSession.Resend.{is_pending}
use jam_server_prototype.UdpSession.Sharing.{send_to_all, shared_header}

abbrev packet : ℕ → PendingPacket
packet seq = new_packet seq seq 0

-- packets 7 and 9 wait for an acknowledgement, the next number is 10
abbrev sender : UdpSession
sender = record fresh {
  connected = true;
  send_seq = 10;
  pending_ack_map = (7, packet 7) ∷ (9, packet 9) ∷ [];
}

-- packets 7 and 8 have come
abbrev receiver : UdpSession
receiver = record fresh {
  connected = true;
  receive_history = set_slot 7 (set_slot 8 (λ _. false));
  latest_seq = 8;
}

abbrev no_headers : Headers
no_headers = λ _. 0

accepted : (check_and_record_receive_history 9 receiver).1 ≡ true
unfolding check_and_record_receive_history is_seq_greater
accepted = refl

accepted_count-le_example : accepted_count (7 ∷ 9 ∷ 9 ∷ []) receiver ≤ 1024
accepted_count-le_example = accepted_count-le (7 ∷ 9 ∷ 9 ∷ []) receiver

check_exactly_example : (check_and_record_receive_history 9 receiver).1 ≡ true
check_exactly_example =
    (check_exactly 9 receiver (omega arith) (omega arith) refl).0 (inr (omega arith))

lookup-handle_ack_example : lookup 7 (handle_ack 9 2 sender).pending_ack_map ≡ none
unfolding test_bit
lookup-handle_ack_example = lookup-handle_ack 9 2 7 sender (omega arith) (omega arith)

ack_round_trip_example :
    lookup 7 (handle_ack 9 (generate_ack_bitfield 9 receiver) sender).pending_ack_map ≡ none
ack_round_trip_example =
    ack_round_trip 9 7 sender receiver (omega arith) (omega arith) (λ e. absurd (omega (arith, e)))

seven-pending : is_pending 7 sender ≡ true
unfolding lookup
seven-pending = refl

length-update_example :
    length (update 100000 no_headers sender).1.pending_ack_map
    ≡ 2 + length (resend_list 100000 sender.pending_ack_map)
length-update_example =
    length-update 100000 no_headers sender (omega arith, (omega arith, tt)) (omega arith)

both_due : resend_list 100000 sender.pending_ack_map ≡ 7 ∷ 9 ∷ []
unfolding resend_list is_due
both_due = refl

shared_header_example :
    let first = send_reliable 5 3 no_headers sender in
    let rest = send_to_all (receiver ∷ []) 5 3 first.0 in
    (lookup 10 first.1.pending_ack_map ≡ some (new_packet 5 10 3))
    × (rest.0 5 ≡ 1)
    × (rest.0 5 ≢ 10)
shared_header_example =
    shared_header sender receiver [] 5 3 no_headers (λ e. absurd (omega (arith, e)))
