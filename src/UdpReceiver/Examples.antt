-- ===== src/UdpReceiver/Examples.antt =====
-- Concrete datagrams.
use jam_server_prototype.Common.{◌≡◌, refl, true, some, [], ◌∷◌, arith}
use jam_server_prototype.RecvBuffer.{IsValid, free_size, unread}
use jam_server_prototype.Framing.{Packet, udp_header_size}
use jam_server_prototype.Framing.Frames.{IsFrame}
use jam_server_prototype.UdpReceiver.{UdpReceiver, dispatch}
use jam_server_prototype.UdpReceiver.Armed.{dispatch_frame}

abbrev receiver : UdpReceiver
receiver = record {
  recv_buffer = record {
    capacity = 10;
    buffer_size = 1;
    read_pos = 0;
    write_pos = 0;
    buffer = 0 ∷ 0 ∷ 0 ∷ 0 ∷ 0 ∷ 0 ∷ 0 ∷ 0 ∷ 0 ∷ 0 ∷ [];
  };
  armed = true;
  delivered = [];
}

abbrev frame : Packet
frame = 6 ∷ 0 ∷ 1 ∷ 0 ∷ 2 ∷ 0 ∷ []

receiver-IsValid : IsValid receiver.recv_buffer
receiver-IsValid = record { ordered = omega arith; within = omega arith; sized = refl }

frame-IsFrame : IsFrame udp_header_size frame
frame-IsFrame = record { sized = refl; headed = omega arith }

dispatch_frame_example :
    let r' = dispatch frame (some 4) true receiver in
    (r'.delivered ≡ (4, frame ∷ []) ∷ [])
    × (r'.armed ≡ true)
    × IsValid r'.recv_buffer
    × (unread r'.recv_buffer ≡ [])
    × (free_size r'.recv_buffer ≡ r'.recv_buffer.capacity)
dispatch_frame_example =
    dispatch_frame frame 4 true receiver receiver-IsValid refl frame-IsFrame (omega arith)
