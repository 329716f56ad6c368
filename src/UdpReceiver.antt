-- ===== src/UdpReceiver.antt =====
-- ServerCore/UdpReceiver.h and UdpReceiver.cpp: the one receiver of all datagrams, over the receive
-- buffer and the packet loop. `armed` says that a receive is outstanding; only a completion comes
-- while it is. What the handler gets is recorded. `WSARecvFrom` either starts or fails.
pub mod Armed
mod Examples
use jam_server_prototype.Common.{
  ℕ, Bool, true, false, Option, none, some, List, [], ◌∷◌, ◌++◌, ltb, ◌==◌, if◌then◌else◌, length,
}
use jam_server_prototype.RecvBuffer.{
  RecvBuffer, data_size, clean, on_read, on_write, deposit, read_ptr,
}
use jam_server_prototype.Framing.{Packet, udp_is_parsing_packet}

pub record UdpReceiver : Type 0 where
  pub recv_buffer : RecvBuffer
  pub armed : Bool
  -- the session and the bytes of each call of `OnRecv`
  pub delivered : List (ℕ × List Packet)

-- `RegisterRecv`; the argument says whether `WSARecvFrom` starts.
unfoldable pub register_recv : Bool → UdpReceiver → UdpReceiver
register_recv starts r = record r { armed = starts }

-- The end of `ProcessRecv`, from the result of the packet loop on.
unfoldable pub consume : Option (List Packet × ℕ) → ℕ → Bool → UdpReceiver → UdpReceiver
unfolding register_recv
consume none session starts r = r
consume (some (packets, process_len)) session starts r =
    let (b, read) = on_read process_len r.recv_buffer in
    let r' = record r { delivered = r.delivered ++ (session, packets) ∷ [] } in
    if ltb (data_size r.recv_buffer) process_len
    then r'
    else if read
    then register_recv starts (record r' { recv_buffer = clean b })
    else r'

unfoldable pub received : RecvBuffer × Bool → ℕ → Bool → UdpReceiver → UdpReceiver
unfolding consume
received (b, false) session starts r = r
received (b, true) session starts r =
    consume (udp_is_parsing_packet (read_ptr b) (data_size b)) session starts
      (record r { recv_buffer = b })

-- `ProcessRecv`; a session may be null.
unfoldable pub process_recv : ℕ → Option ℕ → Bool → UdpReceiver → UdpReceiver
unfolding received
process_recv n none starts r = r
process_recv n (some session) starts r = received (on_write n r.recv_buffer) session starts r

-- `Dispatch` of a completed receive, the system having stored the bytes. The arguments are what
-- `FindOrCreateUdpSession` answers, none too if the service is gone.
unfoldable pub dispatch : List ℕ → Option ℕ → Bool → UdpReceiver → UdpReceiver
unfolding process_recv
dispatch bytes session starts r =
    let r' = record r { armed = false; recv_buffer = deposit bytes r.recv_buffer } in
    if length bytes == 0 then r' else process_recv (length bytes) session starts r'
