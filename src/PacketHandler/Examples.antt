-- ===== src/PacketHandler/Examples.antt =====
-- Concrete packets.
use jam_server_prototype.Common.{ℕ, ◌≡◌, refl, true, some, List, [], ◌∷◌, length, concat, arith}
use jam_server_prototype.Framing.{Packet, tcp_is_parsing_packet}
use jam_server_prototype.UdpSession.{fresh, check_and_record_receive_history, is_seq_greater}
use jam_server_prototype.PacketHandler.{c_login, handled, handle_tcp, find_entry, call}
use jam_server_prototype.PacketHandler.Wire.{wires, tcp_parse-wires}

abbrev login : Packet
login = 6 ∷ 0 ∷ 232 ∷ 3 ∷ 1 ∷ 2 ∷ []

login_handled : handle_tcp login ≡ handled c_login (1 ∷ 2 ∷ [])
unfolding handle_tcp call find_entry
login_handled = refl

abbrev beyond : Packet
beyond = 4 ∷ 0 ∷ 255 ∷ 255 ∷ []

abbrev two_messages : List (ℕ × List ℕ)
two_messages = (1001, 5 ∷ []) ∷ (1003, []) ∷ []

tcp_parse-wires_example :
    tcp_is_parsing_packet (concat (wires two_messages)) (length (concat (wires two_messages)))
    ≡ some (wires two_messages, length (concat (wires two_messages)))
tcp_parse-wires_example =
    tcp_parse-wires two_messages (omega arith, omega arith, (omega arith, omega arith, tt))

-- a handshake under the number 7
abbrev handshake : Packet
handshake = 6 ∷ 0 ∷ 244 ∷ 3 ∷ 7 ∷ 0 ∷ []

seven_accepted : (check_and_record_receive_history 7 fresh).1 ≡ true
unfolding check_and_record_receive_history is_seq_greater
seven_accepted = refl
