-- ===== src/Framing/Examples.antt =====
-- The packet loops on concrete bytes.
use jam_server_prototype.Common.{ℕ, ◌≡◌, refl, some, List, [], ◌∷◌, ◌++◌, take, arith}
use jam_server_prototype.Framing.{
  Packet, tcp_header_size, udp_header_size, tcp_loop, tcp_is_parsing_packet, udp_is_parsing_packet,
}
use jam_server_prototype.Framing.Frames.{IsFrame}
use jam_server_prototype.Framing.Tcp.{Parsed, tcp_parse-Parsed}
use jam_server_prototype.Framing.Udp.{udp_parse_repeats}

abbrev ping : Packet
ping = 6 ∷ 0 ∷ 1 ∷ 0 ∷ 7 ∷ 8 ∷ []

abbrev bare : Packet
bare = 4 ∷ 0 ∷ 2 ∷ 0 ∷ []

abbrev move_a : Packet
move_a = 7 ∷ 0 ∷ 3 ∷ 0 ∷ 1 ∷ 0 ∷ 5 ∷ []

abbrev move_b : Packet
move_b = 7 ∷ 0 ∷ 3 ∷ 0 ∷ 2 ∷ 0 ∷ 6 ∷ []

-- two packets and a byte of the third
abbrev stream : List ℕ
stream = 6 ∷ 0 ∷ 1 ∷ 0 ∷ 7 ∷ 8 ∷ 4 ∷ 0 ∷ 2 ∷ 0 ∷ 9 ∷ []

parse_two : tcp_is_parsing_packet stream 11 ≡ some (ping ∷ bare ∷ [], 10)
unfolding tcp_is_parsing_packet tcp_loop
parse_two = refl

-- a size field of 3 is less than a header: nothing is processed
parse_stalls : tcp_is_parsing_packet (3 ∷ 0 ∷ 1 ∷ 0 ∷ 7 ∷ []) 5 ≡ some ([], 0)
unfolding tcp_is_parsing_packet tcp_loop
parse_stalls = refl

ping-IsFrame : IsFrame tcp_header_size ping
ping-IsFrame = record { sized = refl; headed = omega arith }

bare-IsFrame : IsFrame tcp_header_size bare
bare-IsFrame = record { sized = refl; headed = omega arith }

move_a-IsFrame : IsFrame udp_header_size move_a
move_a-IsFrame = record { sized = refl; headed = omega arith }

move_b-IsFrame : IsFrame udp_header_size move_b
move_b-IsFrame = record { sized = refl; headed = omega arith }

tcp_parse-Parsed_example : Parsed (take 11 stream) (tcp_is_parsing_packet stream 11)
tcp_parse-Parsed_example = tcp_parse-Parsed stream 11 (omega arith)

udp_parse_repeats_example :
    udp_is_parsing_packet (move_a ++ move_b) 14 ≡ some (move_a ∷ move_a ∷ [], 14)
udp_parse_repeats_example = udp_parse_repeats move_a move_b move_a-IsFrame move_b-IsFrame refl
