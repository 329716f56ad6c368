-- ===== src/UdpReceiver/Armed.antt =====
-- When the receiver goes on receiving, and when it stops for good.
use jam_server_prototype.Common.{
  ℕ, ◌≤◌, ◌<◌, ◌≡◌, refl, sym, ap, ◌∙◌, ◌⊎◌, inl, inr, Bool, true, false, Option, none, some, List,
  [], ◌∷◌, ◌++◌, ltb, ◌==◌, ne→==_false, le→ltb_false, drop, take-append-drop, ap₂, drop_all,
  length, arith,
}
use jam_server_prototype.RecvBuffer.{
  RecvBuffer, IsValid, data_size, free_size, unread, clean, on_read, on_write, deposit, read_ptr,
}
use jam_server_prototype.RecvBuffer.Fifo.{
  length-unread, on_read_lem, receive_lem, clean-IsValid, unread-clean, free_size-clean,
  clean_capacity,
}
use jam_server_prototype.Framing.{Packet, udp_header_size, udp_is_parsing_packet}
use jam_server_prototype.Framing.Frames.{IsFrame}
use jam_server_prototype.Framing.Udp.{udp_parse_one}
use jam_server_prototype.UdpReceiver.{
  UdpReceiver, register_recv, consume, received, process_recv, dispatch,
}

-- The state after one frame came into an empty buffer.
abbrev after : Packet → ℕ → Bool → RecvBuffer → UdpReceiver → UdpReceiver
after p session starts b r = record {
  recv_buffer = clean (on_read (length p) b).0;
  armed = starts;
  delivered = r.delivered ++ (session, p ∷ []) ∷ [];
}

module _ (p : Packet) (session : ℕ) (starts : Bool) (r : UdpReceiver) (v : IsValid r.recv_buffer)
    (empty : unread r.recv_buffer ≡ []) (frame : IsFrame udp_header_size p)
    (fit : length p ≤ free_size r.recv_buffer) where
  abbrev b : RecvBuffer
  b = (on_write (length p) (deposit p r.recv_buffer)).0

  got : ((on_write (length p) (deposit p r.recv_buffer)).1 ≡ true) × IsValid b × (unread b ≡ p)
  got = let l = receive_lem p r.recv_buffer v fit in (l.0, l.1, l.2 ∙ ap (λ xs. xs ++ p) empty)

  sized : data_size b ≡ length p
  sized = omega (arith, length-unread b got.1, ap length got.2)

  shape : read_ptr b ≡ p ++ drop (data_size b) (read_ptr b)
  shape =
      sym (take-append-drop (data_size b) (read_ptr b))
      ∙ ap (λ xs. xs ++ drop (data_size b) (read_ptr b)) got.2

  parse : udp_is_parsing_packet (read_ptr b) (data_size b) ≡ some (p ∷ [], length p)
  parse =
      ap₂ udp_is_parsing_packet shape sized
      ∙ udp_parse_one p (drop (data_size b) (read_ptr b)) frame

  taken :
      ((on_read (length p) b).1 ≡ true)
      × IsValid (on_read (length p) b).0
      × (unread (on_read (length p) b).0 ≡ drop (length p) (unread b))
  taken = (on_read_lem (length p) b got.1).0 (omega (arith, ap length got.2))

  dispatch-after : dispatch p (some session) starts r ≡ after p session starts b r
  unfolding dispatch process_recv received consume register_recv
  dispatch-after =
      let nonzero : (length p == 0) ≡ false =
        ne→==_false (length p) 0 (λ e. absurd (omega (arith, e, frame.headed))) in
      let enough : ltb (data_size b) (length p) ≡ false = le→ltb_false _ _ (omega (arith, sized)) in
      rw (nonzero, got.0, received, parse, enough, taken.0) refl

  -- A datagram that is one whole frame, into an empty buffer with room for it: the session's handler
  -- gets that frame and nothing else, the buffer is empty again with all its room back, and the next
  -- receive is registered if the socket lets it.
  pub dispatch_frame :
      let r' = dispatch p (some session) starts r in
      (r'.delivered ≡ r.delivered ++ (session, p ∷ []) ∷ [])
      × (r'.armed ≡ starts)
      × IsValid r'.recv_buffer
      × (unread r'.recv_buffer ≡ [])
      × (free_size r'.recv_buffer ≡ r'.recv_buffer.capacity)
  dispatch_frame =
      let read = (on_read (length p) b).0 in
      let nothing : unread read ≡ [] =
        taken.2 ∙ (ap (drop (length p)) got.2 ∙ drop_all (length p) p (omega arith)) in
      rw dispatch-after (
        refl,
        refl,
        clean-IsValid read taken.1,
        unread-clean read taken.1 ∙ nothing,
        (free_size-clean read taken.1).1
              (omega (arith, length-unread read taken.1, ap length nothing))
            ∙ sym (clean_capacity read),
      )

-- A datagram of no bytes, one for which there is no session, and one longer than the free space are
-- the end: no further receive is registered, whatever the socket would answer.
pub dispatch_ends :
    (bytes : List ℕ) (session : Option ℕ) (starts : Bool) (r : UdpReceiver)
    → (length bytes ≡ 0) ⊎ ((session ≡ none) ⊎ (free_size r.recv_buffer < length bytes))
    → (dispatch bytes session starts r).armed ≡ false
unfolding dispatch process_recv received on_write deposit
dispatch_ends bytes none starts r h = ground arith
dispatch_ends bytes (some session) starts r (inl e) = ground arith
dispatch_ends bytes (some session) starts r (inr (inl e)) = absurd cc
dispatch_ends bytes (some session) starts r (inr (inr h)) = ground arith
