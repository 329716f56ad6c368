-- ===== src/PacketHandler.antt =====
-- GameServer/ClientPacketHandler.h: the table from packet ids to handlers, the dispatch of a received
-- packet, and the packets that the server makes. A message is its serialised bytes: the protobuf code
-- that parses and serialises it is outside. An access beyond the table is `fault`.
pub mod Wire
pub mod Duplicates
mod Examples
use jam_server_prototype.Common.{
  ℕ, ◌+◌, ◌-◌, ◌*◌, ◌/◌, ◌%◌, Bool, true, false, Option, none, some, List, [], ◌∷◌, ◌++◌, ltb, ◌==◌,
  if◌then◌else◌, length, drop, get_or, u16,
}
use jam_server_prototype.Framing.{Packet, size_of, tcp_header_size, udp_header_size}
use jam_server_prototype.SendBuffer.{send_buffer_chunk_size}
use jam_server_prototype.UdpSession.{
  UdpSession, check_and_record_receive_history, generate_ack_bitfield,
}

pub data Message : Type 0 where
  c_login c_create_room c_enter_room c_sync_roomlist c_enter_game c_ack c_handshake c_chat
        c_sync_time c_spawn_actor c_sync_actor c_player_input c_hit_result :
      Message

pub data Handling : Type 0 where
  -- `Handle_INVALID`
  invalid : Handling
  -- the handler of the message, with the bytes after the header
  handled : Message → List ℕ → Handling
  fault : Handling

-- `UINT16_MAX`, the number of entries
abbrev pub table_size : ℕ
table_size = 65535

-- The ids that `Init` stores a handler for.
abbrev pub entries : List (ℕ × Message)
entries =
    (1000, c_login)
    ∷ (1002, c_create_room)
    ∷ (1004, c_enter_room)
    ∷ (1006, c_sync_roomlist)
    ∷ (1008, c_enter_game)
    ∷ (1010, c_ack)
    ∷ (1012, c_handshake)
    ∷ (1014, c_chat)
    ∷ (1016, c_sync_time)
    ∷ (1018, c_spawn_actor)
    ∷ (1020, c_sync_actor)
    ∷ (1022, c_player_input)
    ∷ (1024, c_hit_result)
    ∷ []

unfoldable pub find_entry : List (ℕ × Message) → ℕ → List ℕ → Handling
find_entry [] id body = invalid
find_entry ((key, message) ∷ rest) id body =
    if key == id then handled message body else find_entry rest id body

-- The entry of a table, called.
unfoldable pub call : ℕ → List ℕ → Handling
unfolding find_entry
call id body = if ltb id table_size then find_entry entries id body else fault

-- The header fields of a packet.
abbrev pub packet_id : Packet → ℕ
packet_id p = get_or p 2 0 + 256 * get_or p 3 0

abbrev pub packet_sequence : Packet → ℕ
packet_sequence p = get_or p 4 0 + 256 * get_or p 5 0

unfoldable pub handle_tcp : Packet → Handling
unfolding call
handle_tcp p = call (packet_id p) (drop tcp_header_size p)

-- The session, the acknowledgement that is sent, as the number and the bitfield, and the handling.
unfoldable pub handle_udp : Packet → UdpSession → UdpSession × Option (ℕ × ℕ) × Handling
unfolding call
handle_udp p u =
    let seq = packet_sequence p in
    let (u', accepted) = check_and_record_receive_history seq u in
    let handling = call (packet_id p) (drop udp_header_size p) in
    if ltb 0 seq
    then if accepted
      then (u', some (seq, generate_ack_bitfield seq u'), handling)
      else (u', none, handling)
    else (u, none, handling)

-- The bytes of a packet that the server makes. `MakeSendBufferImpl` does not write the sequence number
-- of a UDP header: what stands there is what the chunk's memory had.
abbrev pub tcp_wire : ℕ → List ℕ → Packet
tcp_wire id body =
    let size = u16 (u16 (length body) + tcp_header_size) in
    size % 256 ∷ size / 256 ∷ id % 256 ∷ id / 256 ∷ body

abbrev pub udp_wire : ℕ → ℕ → ℕ → List ℕ → Packet
udp_wire stale_low stale_high id body =
    let size = u16 (u16 (length body) + udp_header_size) in
    size % 256 ∷ size / 256 ∷ id % 256 ∷ id / 256 ∷ stale_low ∷ stale_high ∷ body

-- `none` is a fault: the chunk refuses the size; the size wraps, so that the buffer is too small for what is
-- written into it; or the body does not fit its uint16 size.
unfoldable pub make_send_buffer_tcp : ℕ → List ℕ → Option Packet
make_send_buffer_tcp id body =
    let size = u16 (length body) + tcp_header_size in
    if ltb send_buffer_chunk_size (u16 size)
    then none
    else if ltb (u16 size) size
    then none
    else if ltb (u16 (length body)) (length body)
    then none
    else some (tcp_wire id body)

unfoldable pub make_send_buffer_udp : ℕ → ℕ → ℕ → List ℕ → Option Packet
make_send_buffer_udp stale_low stale_high id body =
    let size = u16 (length body) + udp_header_size in
    if ltb send_buffer_chunk_size (u16 size)
    then none
    else if ltb (u16 size) size
    then none
    else if ltb (u16 (length body)) (length body)
    then none
    else some (udp_wire stale_low stale_high id body)
