-- ===== src/Connection/Leak.antt =====
-- What a failed DisconnectEx leaves behind, ServerCore/Session.cpp and Service.cpp.
use jam_server_prototype.Common.{ℕ, ◌≡◌, inl, inr, ◌∙◌, true, false, arith}
use jam_server_prototype.TcpSession.{
  TcpSession, failed, register_disconnect, disconnect, complete_recv, send, process_send,
}
use jam_server_prototype.Connection.{Connection}
use jam_server_prototype.Connection.Falling.{
  Falls, disconnect-Falls, complete_recv-Falls, send-Falls, process_send-Falls,
}
use jam_server_prototype.Connection.Lifecycle.{
  Step, received, sending, sent, closing, closed, other_added, other_released, Reach, here, next,
  is_held, added_held, released_held,
}

-- A session that neither is connected nor waits for a disconnect stays so, and stays in the set.
record Stuck (c : Connection) : Type 0 where
  off : c.session.connected ≡ false
  idle : c.session.disconnecting ≡ false
  held : is_held c ≡ true

session-Stuck :
    (c : Connection) (s : TcpSession)
    → Falls c.session s
    → Stuck c
    → Stuck (record c { session = s })
session-Stuck c s (inl (e, f)) k = record { off = e ∙ k.off; idle = f ∙ k.idle; held = k.held }
session-Stuck c s (inr (e, f)) k = absurd (cc (e, k.off))

Step-Stuck : {c d : Connection} → Step c d → Stuck c → Stuck d
Step-Stuck {c} (received bytes o d) k =
    session-Stuck c (complete_recv bytes o d c.session) (complete_recv-Falls bytes o d c.session) k
Step-Stuck {c} (sending buffer o d) k =
    session-Stuck c (send buffer o d c.session) (send-Falls buffer o d c.session) k
Step-Stuck {c} (sent n o d) k =
    session-Stuck c (process_send n o d c.session) (process_send-Falls n o d c.session) k
Step-Stuck {c} (closing d) k =
    session-Stuck c (disconnect d c.session) (disconnect-Falls d c.session) k
Step-Stuck {c} (closed {c'} h e) k = absurd (cc (h, k.idle))
Step-Stuck {c} (other_added other ne) k = record {
  off = k.off;
  idle = k.idle;
  held = added_held other c.ref c.service ne ∙ k.held;
}
Step-Stuck {c} (other_released other {service} ne e) k = record {
  off = k.off;
  idle = k.idle;
  held = released_held other c.ref c.service service ne e ∙ k.held;
}

Reach-Stuck : {c d : Connection} → Stuck c → Reach c d → Stuck d
Reach-Stuck k here = k
Reach-Stuck k (next r s) = Step-Stuck s (Reach-Stuck k r)

failed_lem :
    (code : ℕ) (s : TcpSession)
    → s.connected ≡ true
    → ((disconnect (failed code) s).connected ≡ false)
      × ((disconnect (failed code) s).disconnecting ≡ false)
unfolding disconnect register_disconnect
failed_lem code s on = (ground (arith, on), ground (arith, on))

failed-Stuck :
    (code : ℕ) (c : Connection)
    → c.session.connected ≡ true
    → is_held c ≡ true
    → Stuck (record c { session = disconnect (failed code) c.session })
failed-Stuck code c on held =
    let l = failed_lem code c.session on in record { off = l.0; idle = l.1; held = held }

-- If DisconnectEx fails when a session is disconnected, no later step releases the session: it is neither
-- connected nor disconnecting, and it stays in the service's set for good.
pub failed_disconnect_leaks :
    (code : ℕ) (c c' : Connection)
    → c.session.connected ≡ true
    → is_held c ≡ true
    → Reach (record c { session = disconnect (failed code) c.session }) c'
    → (c'.session.connected ≡ false) × (c'.session.disconnecting ≡ false) × (is_held c' ≡ true)
failed_disconnect_leaks code c c' on held r =
    let k = Reach-Stuck (failed-Stuck code c on held) r in (k.off, k.idle, k.held)
