-- ===== src/TcpSession/Stream.antt =====
-- The receive path as a stream: the packets delivered are those of the bytes received, however the
-- bytes were cut into completions.
use jam_server_prototype.Common.{
  ℕ, ◌+◌, ◌≤◌, ◌<◌, ◌≡◌, refl, sym, ap, ap₂, ◌∙◌, true, false, Option, some, List, [], ◌∷◌, ◌++◌,
  ltb, ◌==◌, le→ltb_false, length, drop, concat, arith, append_assoc, append-nil, length-append,
  length-drop, concat-append, drop_prefix,
}
use jam_server_prototype.RecvBuffer.{
  RecvBuffer, IsValid, data_size, free_size, unread, clean, on_read, on_write, deposit, read_ptr,
}
use jam_server_prototype.RecvBuffer.Fifo.{
  length-unread, clean-IsValid, unread-clean, on_read_lem, receive_lem,
}
use jam_server_prototype.Framing.{Packet, tcp_header_size, tcp_is_parsing_packet}
use jam_server_prototype.Framing.Frames.{AllFrames, IsPartial, Split}
use jam_server_prototype.Framing.Tcp.{Parsed, tcp_parse-Parsed, tcp_parse-frames}
use jam_server_prototype.TcpSession.{
  Outcome, started, failed, TcpSession, disconnect, handle_error, recv_outcome, register_recv,
  consume, received, process_recv, complete_recv,
}

-- Where the receive path stands in a stream: every byte received is in a delivered packet or unread,
-- the packets are whole frames, and no further packet can be taken from what is unread.
pub record InStream (total : List ℕ) (s : TcpSession) : Type 0 where
  pub valid : IsValid s.recv_buffer
  pub whole : AllFrames tcp_header_size s.delivered
  pub waiting : IsPartial tcp_header_size (unread s.recv_buffer)
  pub joined : concat s.delivered ++ unread s.recv_buffer ≡ total

AllFrames-append :
    (header : ℕ) (ps qs : List Packet)
    → AllFrames header ps
    → AllFrames header qs
    → AllFrames header (ps ++ qs)
AllFrames-append header [] qs a b = b
AllFrames-append header (p ∷ ps) qs a b = (a.0, AllFrames-append header ps qs a.1 b)

-- `RegisterRecv` and `Disconnect` leave the receive path alone.
disconnect-recv :
    (d : Outcome) (s : TcpSession)
    → ((disconnect d s).recv_buffer ≡ s.recv_buffer) × ((disconnect d s).delivered ≡ s.delivered)
unfolding disconnect
disconnect-recv started s = ground arith
disconnect-recv (failed code) s = ground arith

register_recv-recv :
    (o d : Outcome) (s : TcpSession)
    → ((register_recv o d s).recv_buffer ≡ s.recv_buffer)
      × ((register_recv o d s).delivered ≡ s.delivered)
unfolding register_recv recv_outcome handle_error
register_recv-recv started d s = ground arith
register_recv-recv (failed code) d s = ground (arith, disconnect-recv d s)

InStream-same :
    {total : List ℕ} (s t : TcpSession)
    → (t.recv_buffer ≡ s.recv_buffer) × (t.delivered ≡ s.delivered)
    → InStream total s
    → InStream total t
InStream-same s t e i = record {
  valid = rw e.0 i.valid;
  whole = rw e.1 i.whole;
  waiting = rw e.0 i.waiting;
  joined = rw (e.0, e.1) i.joined;
}

module _ (total : List ℕ) (o d : Outcome) (s : TcpSession) (v : IsValid s.recv_buffer)
    (w : AllFrames tcp_header_size s.delivered)
    (j : concat s.delivered ++ unread s.recv_buffer ≡ total)
    (parts : Split tcp_header_size (unread s.recv_buffer)) where
  abbrev taken : ℕ
  taken = length (concat parts.frames)

  taken-le : taken ≤ length (unread s.recv_buffer)
  taken-le = omega (arith, length-append (concat parts.frames) parts.rest, ap length parts.joined)

  left : drop taken (unread s.recv_buffer) ≡ parts.rest
  left = rw (← parts.joined) (drop_prefix taken (concat parts.frames) parts.rest refl)

  abbrev after : TcpSession
  after = record s {
    delivered = s.delivered ++ parts.frames;
    recv_buffer = clean (on_read taken s.recv_buffer).0;
  }

  unread_after : unread after.recv_buffer ≡ parts.rest
  unread_after =
      let r = (on_read_lem taken s.recv_buffer v).0 taken-le in
      unread-clean (on_read taken s.recv_buffer).0 r.1 ∙ (r.2 ∙ left)

  after-InStream : InStream total after
  after-InStream = record {
    valid = clean-IsValid _ ((on_read_lem taken s.recv_buffer v).0 taken-le).1;
    whole = AllFrames-append tcp_header_size s.delivered parts.frames w parts.all_frames;
    waiting = rw unread_after parts.is_partial;
    joined =
        ap₂ (λ xs ys. xs ++ ys) (concat-append s.delivered parts.frames) unread_after
        ∙ (append_assoc (concat s.delivered) (concat parts.frames) parts.rest
            ∙ (ap (λ ys. concat s.delivered ++ ys) parts.joined ∙ j));
  }

  consume-InStream : InStream total (consume (some (parts.frames, taken)) o d s)
  unfolding consume
  consume-InStream =
      let r = (on_read_lem taken s.recv_buffer v).0 taken-le in
      let enough : ltb (data_size s.recv_buffer) taken ≡ false =
        le→ltb_false _ _ (omega (arith, taken-le, length-unread s.recv_buffer v)) in
      rw (enough, r.0)
        (InStream-same after (register_recv o d after) (register_recv-recv o d after)
          after-InStream)

module _ (o d : Outcome) where
  -- A completion with at least one byte, and no more than were asked for, extends the stream by its
  -- bytes, whatever the next `WSARecv` answers.
  pub complete_recv-InStream :
      (total bytes : List ℕ) (s : TcpSession)
      → InStream total s
      → 0 < length bytes
      → length bytes ≤ free_size s.recv_buffer
      → InStream (total ++ bytes) (complete_recv bytes o d s)
  unfolding complete_recv process_recv received
  complete_recv-InStream total bytes s i some_bytes fit =
      rw (nonzero, r.0, received, parsed.result)
        (consume-InStream (total ++ bytes) o d at r.1 i.whole joined parsed.parts)
    where
      r :
          ((on_write (length bytes) (deposit bytes s.recv_buffer)).1 ≡ true)
          × IsValid (on_write (length bytes) (deposit bytes s.recv_buffer)).0
          × (unread (on_write (length bytes) (deposit bytes s.recv_buffer)).0
              ≡ unread s.recv_buffer ++ bytes)
      r = receive_lem bytes s.recv_buffer i.valid fit

      b : RecvBuffer
      b = (on_write (length bytes) (deposit bytes s.recv_buffer)).0

      at : TcpSession
      at = record s { recv_buffer = b; receiving = false }

      nonzero : (length bytes == 0) ≡ false
      nonzero = ground arith

      joined : concat s.delivered ++ unread b ≡ total ++ bytes
      joined = rw r.2 (
          sym (append_assoc (concat s.delivered) (unread s.recv_buffer) bytes)
          ∙ ap (λ xs. xs ++ bytes) i.joined)

      parsed : Parsed (unread b) (tcp_is_parsing_packet (read_ptr b) (data_size b))
      parsed =
          tcp_parse-Parsed (read_ptr b) (data_size b)
            (omega (arith, length-drop b.read_pos b.buffer, r.1.sized, r.1.within))

  -- One completion after another.
  pub receive_all : List (List ℕ) → TcpSession → TcpSession
  receive_all [] s = s
  receive_all (bytes ∷ chunks) s = receive_all chunks (complete_recv bytes o d s)

  -- Each completion has at least a byte, and no more than the free space that was offered.
  abbrev pub AllFit : List (List ℕ) → TcpSession → Type 0
  AllFit [] s = Unit {0}
  AllFit (bytes ∷ chunks) s =
      (0 < length bytes)
      × (length bytes ≤ free_size s.recv_buffer)
      × AllFit chunks (complete_recv bytes o d s)

  receive_all-InStream :
      (chunks : List (List ℕ)) (total : List ℕ) (s : TcpSession)
      → InStream total s
      → AllFit chunks s
      → InStream (total ++ concat chunks) (receive_all chunks s)
  unfolding receive_all
  receive_all-InStream [] total s i f = rw append-nil i
  receive_all-InStream (bytes ∷ chunks) total s i f = rw (← append_assoc) (
      receive_all-InStream chunks (total ++ bytes) (complete_recv bytes o d s)
        (complete_recv-InStream total bytes s i f.0 f.1) f.2)

first_of_some :
    (ps qs : List Packet) (m n : ℕ)
    → ◌≡◌ {A = Option (List Packet × ℕ)} (some (ps, m)) (some (qs, n))
    → ps ≡ qs
first_of_some ps qs m n e = cc

-- A byte string splits into frames in one way.
frames_unique :
    (ps qs : List Packet) (rest rest' : List ℕ)
    → AllFrames tcp_header_size ps
    → AllFrames tcp_header_size qs
    → IsPartial tcp_header_size rest
    → IsPartial tcp_header_size rest'
    → concat ps ++ rest ≡ concat qs ++ rest'
    → ps ≡ qs
frames_unique ps qs rest rest' a b h k e =
    first_of_some ps qs (length (concat ps)) (length (concat qs)) (
      sym (tcp_parse-frames ps rest [] a h)
      ∙ (ap₂ tcp_is_parsing_packet same size ∙ tcp_parse-frames qs rest' [] b k))
  where
    same : concat ps ++ (rest ++ []) ≡ concat qs ++ (rest' ++ [])
    same = rw (append-nil, append-nil) e

    size : length (concat ps) + length rest ≡ length (concat qs) + length rest'
    size =
        omega (arith, length-append (concat ps) rest, length-append (concat qs) rest', ap length e)

-- The same bytes, cut into completions in two ways that fit, give the same packets in the same
-- order: delivery does not depend on how the network cuts the stream.
pub delivered_by_stream :
    (o d : Outcome) (cs ds : List (List ℕ)) (total : List ℕ) (s : TcpSession)
    → InStream total s
    → AllFit o d cs s
    → AllFit o d ds s
    → concat cs ≡ concat ds
    → (receive_all o d cs s).delivered ≡ (receive_all o d ds s).delivered
delivered_by_stream o d cs ds total s i f g e =
    frames_unique _ _ _ _ a.whole b.whole a.waiting b.waiting
      (a.joined ∙ (ap (λ xs. total ++ xs) e ∙ sym b.joined))
  where
    a : InStream (total ++ concat cs) (receive_all o d cs s)
    a = receive_all-InStream o d cs total s i f

    b : InStream (total ++ concat ds) (receive_all o d ds s)
    b = receive_all-InStream o d ds total s i g
