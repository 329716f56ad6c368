-- ===== src/UdpSession/Resend.antt =====
-- What `SendReliable` and `Update` do to the packets that are pending.
use jam_server_prototype.Common.{
  ℕ, suc, ◌+◌, ◌≤◌, ◌≡◌, refl, ap, ◌∙◌, Bool, true, false, Option, none, some, List, [], ◌∷◌, ◌++◌,
  ◌==◌, if◌then◌else◌, length, u16, arith,
}
use jam_server_prototype.Common.Dict.{Dict, lookup, insert, lookup-insert}
use jam_server_prototype.UdpSession.{
  UdpSession, PendingPacket, new_packet, Headers, send, send_reliable, disconnect, mark_retry,
  mark_all, resend_list, exhausted, resend_one, resend_all, update,
}

-- A reliable send takes the next number, writes it into the header, and makes the packet pending
-- under it with no retry; nothing else that was pending changes, and the buffer is handed to the
-- socket exactly if the session is connected.
pub send_reliable_lem :
    (buffer timestamp seq : ℕ) (headers : Headers) (u : UdpSession)
    → let r = send_reliable buffer timestamp headers u in
      (r.0 buffer ≡ u.send_seq)
      × (r.1.send_seq ≡ u16 (u.send_seq + 1))
      × (lookup seq r.1.pending_ack_map ≡ (
          if u.send_seq == seq
          then some (new_packet buffer u.send_seq timestamp)
          else lookup seq u.pending_ack_map))
      × (r.1.sent ≡ (if u.connected then u.sent ++ buffer ∷ [] else u.sent))
unfolding send_reliable send
send_reliable_lem buffer timestamp seq headers u =
    let old =
      lookup-insert u.send_seq seq (new_packet buffer u.send_seq timestamp) u.pending_ack_map in
    (ground arith, ground arith, ground (arith, old), ground arith)

pub send_reliable-pending :
    (buffer timestamp : ℕ) (headers : Headers) (u : UdpSession)
    → let r = send_reliable buffer timestamp headers u in
      (r.1.pending_ack_map
        ≡ insert u.send_seq (new_packet buffer u.send_seq timestamp) u.pending_ack_map)
      × (r.1.send_seq ≡ u16 (u.send_seq + 1))
unfolding send_reliable send
send_reliable-pending buffer timestamp headers u = ground arith

abbrev pub is_some : Option PendingPacket → Bool
is_some none = false
is_some (some pkt) = true

-- Whether a number is pending.
abbrev pub is_pending : ℕ → UdpSession → Bool
is_pending seq u = is_some (lookup seq u.pending_ack_map)

abbrev mark_some : ℕ → Option PendingPacket → Option PendingPacket
mark_some now none = none
mark_some now (some pkt) = some (mark_retry now pkt)

lookup-mark_all :
    (now seq : ℕ) (m : Dict PendingPacket)
    → lookup seq (mark_all now m) ≡ mark_some now (lookup seq m)
unfolding mark_all lookup
lookup-mark_all now seq [] = refl
lookup-mark_all now seq ((j, pkt) ∷ m) = ground (arith, lookup-mark_all now seq m)

pub length-mark_all : (now : ℕ) (m : Dict PendingPacket) → length (mark_all now m) ≡ length m
unfolding mark_all
length-mark_all now [] = refl
length-mark_all now ((j, pkt) ∷ m) = ap suc (length-mark_all now m)

pub resend_list-pending : (now : ℕ) (m : Dict PendingPacket) → length (resend_list now m) ≤ length m
unfolding resend_list
resend_list-pending now [] = omega arith
resend_list-pending now ((j, pkt) ∷ m) = ground (arith, resend_list-pending now m)

send_reliable-keeps :
    (buffer now seq : ℕ) (headers : Headers) (u : UdpSession)
    → is_pending seq u ≡ true
    → is_pending seq (send_reliable buffer now headers u).1 ≡ true
send_reliable-keeps buffer now seq headers u h =
    let r = send_reliable-pending buffer now headers u in
    let p = lookup-insert u.send_seq seq (new_packet buffer u.send_seq now) u.pending_ack_map in
    ground (arith, r, p)

pub resend_one-keeps :
    (p : Option PendingPacket) (now seq : ℕ) (headers : Headers) (u : UdpSession)
    → is_pending seq u ≡ true
    → is_pending seq (resend_one p now headers u).1 ≡ true
unfolding resend_one
resend_one-keeps none now seq headers u h = h
resend_one-keeps (some pkt) now seq headers u h = send_reliable-keeps pkt.buffer now seq headers u h

resend_all-keeps :
    (seqs : List ℕ) (now seq : ℕ) (headers : Headers) (u : UdpSession)
    → is_pending seq u ≡ true
    → is_pending seq (resend_all seqs now headers u).1 ≡ true
unfolding resend_all
resend_all-keeps [] now seq headers u h = h
resend_all-keeps (s ∷ seqs) now seq headers u h =
    resend_all-keeps seqs now seq _ _
      (resend_one-keeps (lookup s u.pending_ack_map) now seq headers u h)

disconnect-pending :
    (u : UdpSession)
    → ((disconnect u).pending_ack_map ≡ u.pending_ack_map) × ((disconnect u).send_seq ≡ u.send_seq)
unfolding disconnect
disconnect-pending u = ground arith

-- What `Update` resends from.
pub marked : ℕ → UdpSession → UdpSession
marked now u =
    let m = record u { pending_ack_map = mark_all now u.pending_ack_map } in
    if exhausted now u.pending_ack_map then disconnect m else m

pub marked-pending :
    (now : ℕ) (u : UdpSession)
    → ((marked now u).pending_ack_map ≡ mark_all now u.pending_ack_map)
      × ((marked now u).send_seq ≡ u.send_seq)
unfolding marked
marked-pending now u =
    ground
      (arith, disconnect-pending (record u { pending_ack_map = mark_all now u.pending_ack_map }))

pub update-marked :
    (now : ℕ) (headers : Headers) (u : UdpSession)
    → update now headers u
      ≡ resend_all (resend_list now u.pending_ack_map) now headers (marked now u)
unfolding update marked
update-marked now headers u = refl

pub marked-is_pending :
    (now seq : ℕ) (u : UdpSession) → is_pending seq u ≡ true → is_pending seq (marked now u) ≡ true
marked-is_pending now seq u h =
    ap (λ m. is_some (lookup seq m)) (marked-pending now u).0
    ∙ ground (arith, lookup-mark_all now seq u.pending_ack_map)

-- `Update` makes no number of a pending packet free: what is resent stays pending under its old
-- number, though the resent packet carries a new one.
pub update-keeps :
    (now seq : ℕ) (headers : Headers) (u : UdpSession)
    → is_pending seq u ≡ true
    → is_pending seq (update now headers u).1 ≡ true
update-keeps now seq headers u h = rw (update-marked now headers u) (
    resend_all-keeps (resend_list now u.pending_ack_map) now seq headers (marked now u)
      (marked-is_pending now seq u h))
