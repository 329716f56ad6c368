-- ===== src/Connection/Examples.antt =====
-- A session that is connected and disconnects.
use jam_server_prototype.Common.{◌≡◌, refl, true, false, some, []}
use jam_server_prototype.TcpSession.{
  started, failed, register_disconnect, disconnect, recv_outcome, register_recv, fresh,
}
use jam_server_prototype.Service.{Service, add_tcp_session, set_insert}
use jam_server_prototype.Connection.{Connection, process_connect, process_disconnect}
use jam_server_prototype.Connection.Lifecycle.{closing, here, next, is_held, release_succeeds}
use jam_server_prototype.Connection.Leak.{failed_disconnect_leaks}

abbrev empty_service : Service
empty_service = record {
  tcp_sessions = [];
  tcp_session_count = 0;
  udp_sessions = [];
  udp_session_count = 0;
  pending_udp_sessions = [];
}

abbrev accepted : Connection
accepted = record { ref = 4; id = 9; session = fresh 16; service = empty_service; sessions = [] }

abbrev connected : Connection
connected = process_connect started started accepted

accepted_idle : accepted.session.disconnecting ≡ false
unfolding fresh
accepted_idle = refl

disconnecting : (disconnect started connected.session).disconnecting ≡ true
unfolding disconnect register_disconnect process_connect register_recv recv_outcome fresh
disconnecting = refl

release_succeeds_example :
    (released : Connection) × (process_disconnect
        (record connected { session = disconnect started connected.session })
      ≡ some released)
release_succeeds_example =
    release_succeeds started started accepted
      (record connected { session = disconnect started connected.session }) accepted_idle
      (next here (closing started)) disconnecting

connected_on : connected.session.connected ≡ true
unfolding process_connect register_recv recv_outcome fresh
connected_on = refl

connected_held : is_held connected ≡ true
unfolding process_connect add_tcp_session set_insert
connected_held = refl

failed_disconnect_leaks_example :
    ((disconnect (failed 1) connected.session).connected ≡ false)
    × ((disconnect (failed 1) connected.session).disconnecting ≡ false)
    × (is_held (record connected { session = disconnect (failed 1) connected.session }) ≡ true)
failed_disconnect_leaks_example =
    failed_disconnect_leaks 1 connected
      (record connected { session = disconnect (failed 1) connected.session }) connected_on
      connected_held here
