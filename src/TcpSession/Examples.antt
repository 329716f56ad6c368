-- ===== src/TcpSession/Examples.antt =====
-- A session on concrete bytes and steps.
use jam_server_prototype.Common.{ℕ, ◌≡◌, ◌⊎◌, ◌++◌, refl, true, false, inl, List, [], ◌∷◌, arith}
use jam_server_prototype.RecvBuffer.{RecvBuffer, IsValid}
use jam_server_prototype.RecvBuffer
use jam_server_prototype.Framing.{tcp_is_parsing_packet, tcp_loop}
use jam_server_prototype.TcpSession.{
  started, TcpSession, recv_outcome, register_recv, consume, received, process_recv, complete_recv,
  send_locked, drain,
}
use jam_server_prototype.TcpSession.Stream.{InStream, receive_all, AllFit, delivered_by_stream}
use jam_server_prototype.TcpSession.Sending.{
  Sender, enqueue, register, Reach, here, later, Inv, IsUnused, Reach-Inv, IsStranded, Step,
  SentSince, enqueued, post_refused, post_failed-IsStranded,
}

abbrev session : TcpSession
session = record {
  connected = true;
  recv_buffer = record {
    capacity = 10;
    buffer_size = 1;
    read_pos = 0;
    write_pos = 0;
    buffer = 0 ∷ 0 ∷ 0 ∷ 0 ∷ 0 ∷ 0 ∷ 0 ∷ 0 ∷ 0 ∷ 0 ∷ [];
  };
  receiving = true;
  disconnecting = false;
  send_queue = [];
  send_registered = false;
  send_buffers = [];
  delivered = [];
}

session-InStream : InStream [] session
session-InStream = record {
  valid = record { ordered = omega arith; within = omega arith; sized = refl };
  whole = tt;
  waiting = inl (omega arith);
  joined = refl;
}

-- the packet 5 0 1 0 7 in one piece, and in two
abbrev whole_packet : List (List ℕ)
whole_packet = (5 ∷ 0 ∷ 1 ∷ 0 ∷ 7 ∷ []) ∷ []

abbrev two_pieces : List (List ℕ)
two_pieces = (5 ∷ 0 ∷ []) ∷ (1 ∷ 0 ∷ 7 ∷ []) ∷ []

whole_packet-AllFit : AllFit started started whole_packet session
whole_packet-AllFit = (omega arith, omega arith, tt)

two_pieces-AllFit : AllFit started started two_pieces session
unfolding complete_recv process_recv received consume register_recv recv_outcome RecvBuffer.on_write
    RecvBuffer.deposit RecvBuffer.on_read RecvBuffer.clean tcp_is_parsing_packet tcp_loop
two_pieces-AllFit = (omega arith, omega arith, (omega arith, omega arith, tt))

delivered_by_stream_example :
    (receive_all started started whole_packet session).delivered
    ≡ (receive_all started started two_pieces session).delivered
delivered_by_stream_example =
    delivered_by_stream started started whole_packet two_pieces [] session session-InStream
      whole_packet-AllFit two_pieces-AllFit refl

abbrev idle : Sender
idle = record {
  session = session;
  owed = 0;
  posting = 0;
  in_flight = 0;
  accepted = [];
  retired = [];
}

idle-IsUnused : IsUnused idle
idle-IsUnused = record {
  no_work = refl;
  nothing_sent = refl;
  nothing_queued = refl;
  no_history = (refl, refl);
}

-- one buffer is queued and about to be posted
abbrev posting : Sender
posting = record {
  session = drain (send_locked 1 session).0;
  owed = 0;
  posting = 1;
  in_flight = 0;
  accepted = 1 ∷ [];
  retired = [];
}

idle-Reach : Reach idle posting
unfolding send_locked drain
idle-Reach = later (later here (enqueue 1)) (register (omega arith))

Reach-Inv_example : Inv posting
Reach-Inv_example = Reach-Inv idle-IsUnused idle-Reach

posting-connected : (drain (send_locked 1 session).0).connected ≡ true
unfolding send_locked drain
posting-connected = refl

post_failed-IsStranded_example :
    let u = post_refused 10055 started (enqueued 2 posting) in
    Step posting (enqueued 2 posting)
    × Step (enqueued 2 posting) u
    × IsStranded u
    × (u.session.send_queue ≡ posting.session.send_queue ++ 2 ∷ [])
    × ((w : Sender) → Reach u w → SentSince u w ⊎ (w.session.send_queue ≡ u.session.send_queue))
post_failed-IsStranded_example =
    post_failed-IsStranded posting 2 10055 started (Reach-Inv idle-IsUnused idle-Reach)
      (omega arith) posting-connected (λ e. absurd (omega (arith, e)))
      (λ e. absurd (omega (arith, e)))
