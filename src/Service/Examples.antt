-- ===== src/Service/Examples.antt =====
-- Concrete peers.
use jam_server_prototype.Common.{◌≡◌, refl, some, [], ◌∷◌, arith}
use jam_server_prototype.Service.{UdpPeer, Service, session_at, find_or_create_udp_session}
use jam_server_prototype.Service.Peers.{Inv, udp_session_of, Serves, find_or_create-Serves}

abbrev peer : UdpPeer
peer = record { ref = 3; address = 70 }

abbrev service : Service
service = record {
  tcp_sessions = [];
  tcp_session_count = 0;
  udp_sessions = peer ∷ [];
  udp_session_count = 1;
  pending_udp_sessions = [];
}

service-Inv : Inv service
unfolding session_at
service-Inv = record { idle = refl; distinct = (tt, refl, tt); counted = refl }

find_or_create-Serves_example : Serves 4 80 70 service (find_or_create_udp_session 4 80 service)
find_or_create-Serves_example =
    find_or_create-Serves 4 80 70 service service-Inv ((λ e. absurd (omega (arith, e))), tt)

at_seventy : udp_session_of 70 service ≡ some 3
unfolding session_at
at_seventy = refl
