-- ===== src/TcpSession.antt =====
-- ServerCore/Session.h and Session.cpp, class `TcpSession`: connection, receive path and send path.
-- A call of the system either starts an operation, at once or pending, or fails with an error code;
-- the outcome is an argument. Buffers that are sent are named by numbers. `OnRecv` and `OnSend` are
-- the subclass's: what it is given is recorded, and what it does to the session is a step of its own.
pub mod Stream
pub mod Sending
mod Examples
use jam_server_prototype.Common.{
  ℕ, suc, ◌+◌, ◌-◌, ◌<◌, ◌≡◌, Bool, true, false, not, ◌||◌, Option, none, some, List, [], ◌∷◌, ◌++◌,
  ltb, ◌==◌, if◌then◌else◌, length,
}
use jam_server_prototype.RecvBuffer.{RecvBuffer, data_size, clean, on_read, on_write, deposit}
use jam_server_prototype.RecvBuffer
use jam_server_prototype.Framing.{Packet, tcp_is_parsing_packet}

pub data Outcome : Type 0 where
  started : Outcome
  failed : ℕ → Outcome

abbrev wsaeconnaborted : ℕ
wsaeconnaborted = 10053

abbrev wsaeconnreset : ℕ
wsaeconnreset = 10054

pub record TcpSession : Type 0 where
  pub connected : Bool
  pub recv_buffer : RecvBuffer
  -- a receive is outstanding, `_recvEvent.owner` is set
  pub receiving : Bool
  -- a disconnect is outstanding, `_disconnectEvent.owner` is set
  pub disconnecting : Bool
  pub send_queue : List ℕ
  pub send_registered : Bool
  -- `_sendEvent.sendBuffers`
  pub send_buffers : List ℕ
  -- the packets handed to `OnRecv` so far
  pub delivered : List Packet

abbrev pub buffer_size : ℕ
buffer_size = 65536

-- A fresh session whose receive buffer is made of blocks of `size` bytes (`BUFFER_SIZE`).
unfoldable pub fresh : ℕ → TcpSession
unfolding RecvBuffer.init
fresh size = record {
  connected = false;
  recv_buffer = RecvBuffer.init size;
  receiving = false;
  disconnecting = false;
  send_queue = [];
  send_registered = false;
  send_buffers = [];
  delivered = [];
}

unfoldable pub register_disconnect : Outcome → TcpSession → TcpSession
register_disconnect started s = record s { disconnecting = true }
register_disconnect (failed code) s = record s { disconnecting = false }

-- The argument is the outcome of `DisconnectEx`, if it is called.
unfoldable pub disconnect : Outcome → TcpSession → TcpSession
unfolding register_disconnect
disconnect d s = if s.connected then register_disconnect d (record s { connected = false }) else s

unfoldable pub handle_error : ℕ → Outcome → TcpSession → TcpSession
unfolding disconnect
handle_error code d s =
    if code == wsaeconnreset || code == wsaeconnaborted then disconnect d s else s

unfoldable pub recv_outcome : Outcome → Outcome → TcpSession → TcpSession
unfolding handle_error
recv_outcome started d s = record s { receiving = true }
recv_outcome (failed code) d s = record (handle_error code d s) { receiving = false }

-- The outcomes are those of `WSARecv` and of a `DisconnectEx`.
unfoldable pub register_recv : Outcome → Outcome → TcpSession → TcpSession
unfolding recv_outcome
register_recv o d s = if s.connected then recv_outcome o d s else s

-- The end of `ProcessRecv`, from the result of the packet loop on.
unfoldable pub consume : Option (List Packet × ℕ) → Outcome → Outcome → TcpSession → TcpSession
consume none o d s = s
consume (some (packets, process_len)) o d s =
    let (b, read) = on_read process_len s.recv_buffer in
    let s' = record s { delivered = s.delivered ++ packets } in
    if ltb (data_size s.recv_buffer) process_len
    then disconnect d s'
    else if read
    then register_recv o d (record s' { recv_buffer = clean b })
    else disconnect d s'

unfoldable pub received : RecvBuffer × Bool → Outcome → Outcome → TcpSession → TcpSession
received (b, false) o d s = disconnect d s
received (b, true) o d s =
    consume (tcp_is_parsing_packet (RecvBuffer.read_ptr b) (data_size b)) o d
      (record s { recv_buffer = b })

unfoldable pub process_recv : ℕ → Outcome → Outcome → TcpSession → TcpSession
process_recv n o d s =
    let s' = record s { receiving = false } in
    if n == 0 then disconnect d s' else received (on_write n s'.recv_buffer) o d s'

-- A receive completes: the system has stored the bytes and reports their number.
unfoldable pub complete_recv : List ℕ → Outcome → Outcome → TcpSession → TcpSession
complete_recv bytes o d s =
    process_recv (length bytes) o d (record s { recv_buffer = deposit bytes s.recv_buffer })

-- The locked part of `Send`: the buffer is queued, and the answer is whether this caller found
-- `_sendRegistered` unset and so has to call `RegisterSend`.
unfoldable pub send_locked : ℕ → TcpSession → TcpSession × Bool
send_locked buffer s = (
  record s { send_queue = s.send_queue ++ buffer ∷ []; send_registered = true },
  not s.send_registered,
)

-- `Send` up to the end of its lock, with nobody in between.
unfoldable pub send_begin : ℕ → TcpSession → TcpSession × Bool
unfolding send_locked
send_begin buffer s = if s.connected then send_locked buffer s else (s, false)

-- The locked part of `RegisterSend`: the whole queue moves into the send event.
unfoldable pub drain : TcpSession → TcpSession
drain s = record s { send_queue = []; send_buffers = s.send_buffers ++ s.send_queue }

-- What follows `WSASend`.
unfoldable pub send_outcome : Outcome → Outcome → TcpSession → TcpSession
send_outcome started d s = s
send_outcome (failed code) d s = record (handle_error code d s) {
  send_buffers = [];
  send_registered = false;
}

unfoldable pub register_send : Outcome → Outcome → TcpSession → TcpSession
register_send o d s = if s.connected then send_outcome o d (drain s) else s

unfoldable pub send : ℕ → Outcome → Outcome → TcpSession → TcpSession
send buffer o d s =
    let (s', first) = send_begin buffer s in if first then register_send o d s' else s'

-- A send completes with `n` bytes. The outcomes are those of the `WSASend` that may follow and of a
-- `DisconnectEx`.
unfoldable pub process_send : ℕ → Outcome → Outcome → TcpSession → TcpSession
process_send n o d s =
    let s' = record s { send_buffers = [] } in
    if n == 0 then disconnect d s' else elim s'.send_queue [
      | [] ↦ record s' { send_registered = false }
      | _ ∷ _ ↦ register_send o d s'
    ]
