-- ===== src/PacketHandler/Wire.antt =====
-- The packets that the server makes are frames, and a stream of them is parsed back into them.
use jam_server_prototype.Common.{
  ℕ, ◌≤◌, ◌<◌, ◌≡◌, ◌↔◌, inl, refl, sym, ap, ap₂, ◌∙◌, none, some, List, [], ◌∷◌, length, drop,
  concat, arith, append-nil,
}
use jam_server_prototype.Framing.{Packet, tcp_header_size, tcp_is_parsing_packet}
use jam_server_prototype.Framing.Frames.{IsFrame, AllFrames}
use jam_server_prototype.Framing.Tcp.{tcp_parse-frames}
use jam_server_prototype.PacketHandler.{
  Message, fault, entries, find_entry, call, packet_id, handle_tcp, tcp_wire, make_send_buffer_tcp,
}

tcp_wire-IsFrame :
    (id : ℕ) (body : List ℕ) → length body < 65532 → IsFrame tcp_header_size (tcp_wire id body)
tcp_wire-IsFrame id body h = record { sized = omega arith; headed = omega arith }

-- A TCP packet that the server makes of a body of up to 5996 bytes fits a chunk, is one whole frame,
-- and gives back its id and its body; for any larger body the server faults.
pub make_send_buffer_tcp_lem :
    (id : ℕ) (body : List ℕ)
    → id < 65536
    → (length body ≤ 5996
        → (p : Packet) × (make_send_buffer_tcp id body ≡ some p)
          × IsFrame tcp_header_size p
          × (packet_id p ≡ id)
          × (drop tcp_header_size p ≡ body))
      × (5996 < length body → make_send_buffer_tcp id body ≡ none)
unfolding make_send_buffer_tcp
make_send_buffer_tcp_lem id body h = (
  λ fits. (
    tcp_wire id body,
    ground arith,
    tcp_wire-IsFrame id body (omega (arith, fits)),
    omega (arith, h),
    refl,
  ),
  λ large. ground arith,
)

-- Ids and bodies as the server sends them.
abbrev pub AllSendable : List (ℕ × List ℕ) → Type 0
AllSendable [] = Unit {0}
AllSendable ((id, body) ∷ messages) = (id < 65536) × (length body ≤ 5996) × AllSendable messages

abbrev pub wires : List (ℕ × List ℕ) → List Packet
wires [] = []
wires ((id, body) ∷ messages) = tcp_wire id body ∷ wires messages

AllFrames-wires :
    (messages : List (ℕ × List ℕ))
    → AllSendable messages
    → AllFrames tcp_header_size (wires messages)
AllFrames-wires [] a = tt
AllFrames-wires ((id, body) ∷ messages) a =
    (tcp_wire-IsFrame id body (omega (arith, a.1)), AllFrames-wires messages a.2)

-- Whatever messages the server sends over TCP, one after another, the packet loop at the other end
-- takes exactly their packets out of the bytes, in order, with nothing left.
pub tcp_parse-wires :
    (messages : List (ℕ × List ℕ))
    → AllSendable messages
    → tcp_is_parsing_packet (concat (wires messages)) (length (concat (wires messages)))
      ≡ some (wires messages, length (concat (wires messages)))
tcp_parse-wires messages a =
    ap₂ tcp_is_parsing_packet (sym (rw append-nil refl)) (omega arith)
    ∙ tcp_parse-frames (wires messages) [] [] (AllFrames-wires messages a) (inl (omega arith))

find_entry-works :
    (table : List (ℕ × Message)) (id : ℕ) (body : List ℕ) → find_entry table id body ≡ fault → ⊥
unfolding find_entry
find_entry-works [] id body e = cc
find_entry-works ((key, message) ∷ table) id body e = ground (arith, find_entry-works table id body)

-- The dispatch of a packet goes beyond the handler table exactly if its id is 65535.
pub handle_tcp-fault :
    (p : Packet) → packet_id p < 65536 → ((handle_tcp p ≡ fault) ↔ (packet_id p ≡ 65535))
unfolding handle_tcp call
handle_tcp-fault p h =
    let works = find_entry-works entries (packet_id p) (drop tcp_header_size p) in
    (λ e. ground (arith, works), λ e. ground arith)

-- A message of the server's own table, sent as a TCP packet, reaches the handler of its id with the
-- bytes that were sent.
pub handle_tcp-tcp_wire :
    (id : ℕ) (body : List ℕ)
    → id < 65535
    → handle_tcp (tcp_wire id body) ≡ find_entry entries id body
unfolding handle_tcp call
handle_tcp-tcp_wire id body h =
    let same : packet_id (tcp_wire id body) ≡ id = omega (arith, h) in
    ap (λ k. call k body) same ∙ ground arith
