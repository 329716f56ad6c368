-- ===== src/SessionManager/Examples.antt =====
-- The session map on concrete users.
use jam_server_prototype.Common.{◌≡◌, refl, none, some, [], ◌∷◌}
use jam_server_prototype.Common.Dict.{lookup}
use jam_server_prototype.SessionManager.{protocol_tcp, protocol_udp, Session, SessionMap, multicast}
use jam_server_prototype.SessionManager.Pairing.{session_at}

-- user 1 has both sessions
abbrev users : SessionMap
users = (1, record { tcp_session = some 10; udp_session = some 11 }) ∷ []

abbrev handshake : Session
handshake = record { ref = 20; id = 2; protocol = protocol_udp }

two-missing : lookup 2 users ≡ none
unfolding lookup
two-missing = refl

both_get_it : multicast protocol_udp users ≡ some (11 ∷ [])
unfolding multicast
both_get_it = refl

two-unpaired : session_at protocol_tcp 2 users ≡ none
unfolding lookup
two-unpaired = refl
