-- ===== src/Connection/Falling.antt =====
-- What the operations of a TCP session, ServerCore/Session.cpp, do to its being connected.
use jam_server_prototype.Common.{
  ℕ, ◌≡◌, ◌⊎◌, not, inl, inr, refl, sym, ◌∙◌, Bool, true, false, Option, none, some, List, [], ◌∷◌,
  ◌++◌, ◌==◌, ◌||◌, ltb, if◌then◌else◌, length,
}
use jam_server_prototype.RecvBuffer
use jam_server_prototype.RecvBuffer.{RecvBuffer, data_size, on_read, on_write, deposit}
use jam_server_prototype.Framing.{Packet, tcp_is_parsing_packet}
use jam_server_prototype.TcpSession.{
  TcpSession, Outcome, started, failed, register_disconnect, disconnect, handle_error, recv_outcome,
  register_recv, consume, received, process_recv, complete_recv, send_begin, send_locked, drain,
  send_outcome, register_send, send, process_send,
}

-- A session that stays as connected as it was, or that disconnects.
abbrev pub Falls : TcpSession → TcpSession → Type 0
Falls s s' =
    ((s'.connected ≡ s.connected) × (s'.disconnecting ≡ s.disconnecting))
    ⊎ ((s.connected ≡ true) × (s'.connected ≡ false))

Falls-refl : (s : TcpSession) → Falls s s
Falls-refl s = inl (refl, refl)

Falls-trans : (r s u : TcpSession) → Falls r s → Falls s u → Falls r u
Falls-trans r s u (inl a) (inl b) = inl (b.0 ∙ a.0, b.1 ∙ a.1)
Falls-trans r s u (inl a) (inr b) = inr (sym a.0 ∙ b.0, b.1)
Falls-trans r s u (inr a) (inl b) = inr (a.0, b.0 ∙ a.1)
Falls-trans r s u (inr a) (inr b) = absurd (cc (a.1, b.0))

disconnect_on :
    (d : Outcome) (s : TcpSession) (b : Bool)
    → s.connected ≡ b
    → Falls s (if b then register_disconnect d (record s { connected = false }) else s)
unfolding register_disconnect
disconnect_on started s true e = inr (e, refl)
disconnect_on (failed code) s true e = inr (e, refl)
disconnect_on d s false e = Falls-refl s

pub disconnect-Falls : (d : Outcome) (s : TcpSession) → Falls s (disconnect d s)
unfolding disconnect
disconnect-Falls d s = disconnect_on d s s.connected refl

handle_error-Falls : (code : ℕ) (d : Outcome) (s : TcpSession) → Falls s (handle_error code d s)
unfolding handle_error
handle_error-Falls code d s =
    chosen s (disconnect d s) (code == 10054 || code == 10053) (disconnect-Falls d s)
  where
    chosen : (s u : TcpSession) (b : Bool) → Falls s u → Falls s (if b then u else s)
    chosen s u true f = f
    chosen s u false f = Falls-refl s

recv_outcome-Falls : (o d : Outcome) (s : TcpSession) → Falls s (recv_outcome o d s)
unfolding recv_outcome
recv_outcome-Falls started d s = inl (refl, refl)
recv_outcome-Falls (failed code) d s = handle_error-Falls code d s

send_outcome-Falls : (o d : Outcome) (s : TcpSession) → Falls s (send_outcome o d s)
unfolding send_outcome
send_outcome-Falls started d s = inl (refl, refl)
send_outcome-Falls (failed code) d s = handle_error-Falls code d s

-- A branch of a step.
either : (s u v : TcpSession) (b : Bool) → Falls s u → Falls s v → Falls s (if b then u else v)
either s u v true f g = f
either s u v false f g = g

pub register_recv-Falls : (o d : Outcome) (s : TcpSession) → Falls s (register_recv o d s)
unfolding register_recv
register_recv-Falls o d s =
    either s (recv_outcome o d s) s s.connected (recv_outcome-Falls o d s) (Falls-refl s)

register_send-Falls : (o d : Outcome) (s : TcpSession) → Falls s (register_send o d s)
unfolding register_send drain
register_send-Falls o d s =
    either s (send_outcome o d (drain s)) s s.connected (send_outcome-Falls o d (drain s))
      (Falls-refl s)

consume-Falls :
    (parsed : Option (List Packet × ℕ)) (o d : Outcome) (s : TcpSession)
    → Falls s (consume parsed o d s)
unfolding consume
consume-Falls none o d s = Falls-refl s
consume-Falls (some (packets, process_len)) o d s =
    let (b, read) = on_read process_len s.recv_buffer in
    let s' = record s { delivered = s.delivered ++ packets } in
    let on = record s' { recv_buffer = RecvBuffer.clean b } in
    either s (disconnect d s') (if read then register_recv o d on else disconnect d s')
      (ltb (data_size s.recv_buffer) process_len) (disconnect-Falls d s')
      (either s (register_recv o d on) (disconnect d s') read (register_recv-Falls o d on)
        (disconnect-Falls d s'))

received-Falls :
    (w : RecvBuffer × Bool) (o d : Outcome) (s : TcpSession) → Falls s (received w o d s)
unfolding received
received-Falls (b, false) o d s = disconnect-Falls d s
received-Falls (b, true) o d s =
    consume-Falls (tcp_is_parsing_packet (RecvBuffer.read_ptr b) (data_size b)) o d
      (record s { recv_buffer = b })

pub complete_recv-Falls :
    (bytes : List ℕ) (o d : Outcome) (s : TcpSession) → Falls s (complete_recv bytes o d s)
unfolding complete_recv process_recv
complete_recv-Falls bytes o d s =
    let s' = record s { recv_buffer = deposit bytes s.recv_buffer; receiving = false } in
    either s (disconnect d s') (received (on_write (length bytes) s'.recv_buffer) o d s')
      (length bytes == 0) (disconnect-Falls d s')
      (received-Falls (on_write (length bytes) s'.recv_buffer) o d s')

abbrev first_of : TcpSession × Bool → TcpSession
first_of r = r.0

begun :
    (s u : TcpSession) (b first : Bool)
    → Falls s u
    → Falls s (first_of (if b then (u, first) else (s, false)))
begun s u true first f = f
begun s u false first f = Falls-refl s

pub send-Falls : (buffer : ℕ) (o d : Outcome) (s : TcpSession) → Falls s (send buffer o d s)
unfolding send send_begin send_locked
send-Falls buffer o d s =
    let (s', first) = send_begin buffer s in
    let f =
      begun s (record s { send_queue = s.send_queue ++ buffer ∷ []; send_registered = true })
        s.connected (not s.send_registered) (inl (refl, refl)) in
    either s (register_send o d s') s' first
      (Falls-trans s s' (register_send o d s') f (register_send-Falls o d s')) f

pub process_send-Falls : (n : ℕ) (o d : Outcome) (s : TcpSession) → Falls s (process_send n o d s)
unfolding process_send
process_send-Falls n o d s =
    let s' = record s { send_buffers = [] } in
    let next : List ℕ → TcpSession = λ queue. elim queue [
      | [] ↦ record s' { send_registered = false }
      | _ ∷ _ ↦ register_send o d s'
    ] in
    either s (disconnect d s') (next s.send_queue) (n == 0) (disconnect-Falls d s')
      (elim s.send_queue
        as (λ queue. Falls s (elim queue [
          | [] ↦ record s' { send_registered = false }
          | _ ∷ _ ↦ register_send o d s'
        ])) [ [] ↦ inl (refl, refl) | _ ∷ _ ↦ register_send-Falls o d s' ])
