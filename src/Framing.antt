-- ===== src/Framing.antt =====
-- Packet framing: `TcpSession::IsParsingPacket` of ServerCore/Session.cpp and
-- `UdpReceiver::IsParsingPacket` of ServerCore/UdpReceiver.cpp. A packet starts with its total size,
-- a little-endian uint16. A loop returns the packets that it hands to `OnRecv`, in order, and the
-- length that it has processed; `none` stands for fuel that ran out.
pub mod Frames
pub mod Tcp
pub mod Udp
mod Examples
use jam_server_prototype.Common.{
  ℕ, zero, suc, ◌+◌, ◌-◌, ◌*◌, ◌||◌, Option, none, some, List, [], ◌∷◌, ◌++◌, ltb, if◌then◌else◌,
  take, drop, get_or,
}

abbrev pub Packet : Type 0
Packet = List ℕ

-- The `size` field of the header at the start of some bytes.
abbrev pub size_of : List ℕ → ℕ
size_of bytes = get_or bytes 0 0 + 256 * get_or bytes 1 0

-- `sizeof(TcpPacketHeader)` and `sizeof(UdpPacketHeader)`
abbrev pub tcp_header_size : ℕ
tcp_header_size = 4

abbrev pub udp_header_size : ℕ
udp_header_size = 6

-- `&buffer[pos]` with the length that the handler is told
abbrev pub slice : List ℕ → ℕ → ℕ → Packet
slice buffer pos size = take size (drop pos buffer)

unfoldable pub tcp_loop : ℕ → List ℕ → ℕ → ℕ → List Packet → Option (List Packet × ℕ)
tcp_loop zero buffer len process_len calls = none
tcp_loop (suc fuel) buffer len process_len calls =
    let data_size = len - process_len in
    let size = size_of (drop process_len buffer) in
    let next =
      tcp_loop fuel buffer len (process_len + size) (calls ++ slice buffer process_len size ∷ []) in
    if ltb data_size tcp_header_size
    then some (calls, process_len)
    else if ltb data_size size || ltb size tcp_header_size
    then some (calls, process_len)
    else next

unfoldable pub tcp_is_parsing_packet : List ℕ → ℕ → Option (List Packet × ℕ)
unfolding tcp_loop
tcp_is_parsing_packet buffer len = tcp_loop (suc len) buffer len 0 []

-- The receiver passes the start of the buffer to `OnRecv`, not the packet's.
unfoldable pub udp_loop : ℕ → List ℕ → ℕ → ℕ → List Packet → Option (List Packet × ℕ)
udp_loop zero buffer len process_len calls = none
udp_loop (suc fuel) buffer len process_len calls =
    let data_size = len - process_len in
    let size = size_of (drop process_len buffer) in
    let next = udp_loop fuel buffer len (process_len + size) (calls ++ slice buffer 0 size ∷ []) in
    if ltb data_size udp_header_size
    then some (calls, process_len)
    else if ltb data_size size || ltb size udp_header_size
    then some (calls, process_len)
    else if ltb len (process_len + size)
    then some (calls, process_len)
    else next

unfoldable pub udp_is_parsing_packet : List ℕ → ℕ → Option (List Packet × ℕ)
unfolding udp_loop
udp_is_parsing_packet buffer len = udp_loop (suc len) buffer len 0 []
