-- ===== src/PacketHandler/Duplicates.antt =====
-- What happens to a reliable packet when it comes, and when it comes again.
use jam_server_prototype.Common.{
  ℕ, ◌<◌, ◌≡◌, refl, sym, subst, ◌∙◌, true, false, Option, none, some, List, if◌then◌else◌, drop,
  arith,
}
use jam_server_prototype.Framing.{Packet, udp_header_size}
use jam_server_prototype.UdpSession.{
  UdpSession, check_and_record_receive_history, generate_ack_bitfield,
}
use jam_server_prototype.UdpSession.Window.{receive_seqs, accepted_once}
use jam_server_prototype.PacketHandler.{Handling, call, packet_id, packet_sequence, handle_udp}

-- What a packet with a sequence number does: the session's history decides about the acknowledgement
-- alone, and the handler is called in either case.
handle_udp-reliable :
    (p : Packet) (u : UdpSession)
    → 0 < packet_sequence p
    → let r = check_and_record_receive_history (packet_sequence p) u in
      handle_udp p u ≡ (
        r.0,
        (if r.1
            then some (packet_sequence p, generate_ack_bitfield (packet_sequence p) r.0)
            else none),
        call (packet_id p) (drop udp_header_size p),
      )
unfolding handle_udp
handle_udp-reliable p u h = ground arith

-- What follows a first handling: its acknowledgement, and the handling of the same packet later.
abbrev pub Again : Packet → List ℕ → UdpSession × Option (ℕ × ℕ) × Handling → Type 0
Again p between first =
    (first.1 ≡ some (packet_sequence p, generate_ack_bitfield (packet_sequence p) first.0))
    × (handle_udp p (receive_seqs between first.0) ≡ (receive_seqs between first.0, none, first.2))

-- A reliable packet that the session accepts is acknowledged and handled. When the same packet comes
-- again, after whatever other packets, it is not acknowledged, the session does not change, and the
-- handler is called once more with the same bytes.
pub duplicate_handled :
    (p : Packet) (between : List ℕ) (u : UdpSession)
    → 0 < packet_sequence p
    → (check_and_record_receive_history (packet_sequence p) u).1 ≡ true
    → Again p between (handle_udp p u)
duplicate_handled p between u h accepted =
    let seq = packet_sequence p in
    let r = check_and_record_receive_history seq u in
    let later = receive_seqs between r.0 in
    let again : check_and_record_receive_history seq later ≡ (later, false) =
      accepted_once seq seq between u accepted refl in
    let once : handle_udp p u ≡ (
      r.0,
      some (seq, generate_ack_bitfield seq r.0),
      call (packet_id p) (drop udp_header_size p),
    ) =
      handle_udp-reliable p u h ∙ rw accepted refl in
    let twice : handle_udp p later ≡ (later, none, call (packet_id p) (drop udp_header_size p)) =
      handle_udp-reliable p later h ∙ rw again refl in
    subst (Again p between) (sym once) (refl, twice)
