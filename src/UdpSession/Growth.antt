-- ===== src/UdpSession/Growth.antt =====
-- How many packets are pending after an `Update`.
use jam_server_prototype.Common.{
  ℕ, ◌+◌, ◌≤◌, ◌<◌, ◌≡◌, inl, inr, refl, ap, ◌∙◌, true, Option, none, some, List, [], ◌∷◌,
  Bool-cases, length, arith,
}
use jam_server_prototype.Common.Dict.{Dict, lookup, insert, length-insert_fresh}
use jam_server_prototype.UdpSession.{
  UdpSession, PendingPacket, new_packet, Headers, send_reliable, is_due, mark_all, resend_list,
  resend_one, resend_all, update,
}
use jam_server_prototype.UdpSession.Resend.{
  is_some, is_pending, resend_one-keeps, marked, marked-pending, update-marked, marked-is_pending,
  send_reliable-pending, length-mark_all, resend_list-pending,
}

-- The numbers that are pending lie below `bound`.
abbrev pub Below : ℕ → Dict PendingPacket → Type 0
Below bound [] = Unit {0}
Below bound ((j, pkt) ∷ m) = (j < bound) × Below bound m

Below-lookup :
    (bound seq : ℕ) (m : Dict PendingPacket) → Below bound m → bound ≤ seq → lookup seq m ≡ none
unfolding lookup
Below-lookup bound seq [] b h = refl
Below-lookup bound seq ((j, pkt) ∷ m) b h = ground (arith, Below-lookup bound seq m b.1 h)

Below-mono : (a b : ℕ) (m : Dict PendingPacket) → a ≤ b → Below a m → Below b m
Below-mono a b [] h l = tt
Below-mono a b ((j, pkt) ∷ m) h l = (omega arith, Below-mono a b m h l.1)

Below-insert :
    (bound k : ℕ) (pkt : PendingPacket) (m : Dict PendingPacket)
    → Below bound m
    → k < bound
    → Below bound (insert k pkt m)
unfolding insert
Below-insert bound k pkt [] b h = (h, tt)
Below-insert bound k pkt ((j, p) ∷ m) b h = ground (arith, Below-insert bound k pkt m b.1 h)

Below-mark_all :
    (bound now : ℕ) (m : Dict PendingPacket) → Below bound m → Below bound (mark_all now m)
unfolding mark_all
Below-mark_all bound now [] b = tt
Below-mark_all bound now ((j, p) ∷ m) b = (b.0, Below-mark_all bound now m b.1)

head_key :
    (j : ℕ) (pkt : PendingPacket) (m : Dict PendingPacket)
    → is_some (lookup j ((j, pkt) ∷ m)) ≡ true
unfolding lookup
head_key j pkt m = ground arith

-- All of a list are pending.
abbrev AllPending : List ℕ → UdpSession → Type 0
AllPending [] u = Unit {0}
AllPending (seq ∷ seqs) u = (is_pending seq u ≡ true) × AllPending seqs u

module _ (now : ℕ) where
  resend_one-grows :
      (p : Option PendingPacket) (headers : Headers) (u : UdpSession)
      → is_some p ≡ true
      → Below u.send_seq u.pending_ack_map
      → u.send_seq + 1 < 65536
      → let v = (resend_one p now headers u).1 in
        (length v.pending_ack_map ≡ length u.pending_ack_map + 1)
        × (v.send_seq ≡ u.send_seq + 1)
        × Below v.send_seq v.pending_ack_map
  unfolding resend_one
  resend_one-grows none headers u e b w = absurd (ground arith)
  resend_one-grows (some pkt) headers u e b w =
      let r = send_reliable-pending pkt.buffer now headers u in
      let new = new_packet pkt.buffer u.send_seq now in
      let free = Below-lookup u.send_seq u.send_seq u.pending_ack_map b (omega arith) in
      let next : (send_reliable pkt.buffer now headers u).1.send_seq ≡ u.send_seq + 1 =
        r.1 ∙ omega arith in
      (
        ap length r.0 ∙ length-insert_fresh u.send_seq new u.pending_ack_map free,
        next,
        rw (next, r.0)
            (Below-insert (u.send_seq + 1) u.send_seq new u.pending_ack_map
              (Below-mono u.send_seq (u.send_seq + 1) u.pending_ack_map (omega arith) b)
              (omega arith)),
      )

  AllPending-resend_one :
      (p : Option PendingPacket) (seqs : List ℕ) (headers : Headers) (u : UdpSession)
      → AllPending seqs u
      → AllPending seqs (resend_one p now headers u).1
  AllPending-resend_one p [] headers u a = tt
  AllPending-resend_one p (seq ∷ seqs) headers u a =
      (resend_one-keeps p now seq headers u a.0, AllPending-resend_one p seqs headers u a.1)

  resend_all-grows :
      (seqs : List ℕ) (headers : Headers) (u : UdpSession)
      → AllPending seqs u
      → Below u.send_seq u.pending_ack_map
      → u.send_seq + length seqs < 65536
      → length (resend_all seqs now headers u).1.pending_ack_map
        ≡ length u.pending_ack_map + length seqs
  unfolding resend_all
  resend_all-grows [] headers u a b w = omega arith
  resend_all-grows (seq ∷ seqs) headers u a b w =
      let p = lookup seq u.pending_ack_map in
      let g = resend_one-grows p headers u a.0 b (omega arith) in
      omega (
        arith,
        g.0,
        resend_all-grows seqs (resend_one p now headers u).0 (resend_one p now headers u).1
            (AllPending-resend_one p seqs headers u a.1) g.2 (omega (arith, g.1)),
      )

  is_some-cons :
      (j seq : ℕ) (pkt : PendingPacket) (m : Dict PendingPacket)
      → is_some (lookup seq m) ≡ true
      → is_some (lookup seq ((j, pkt) ∷ m)) ≡ true
  unfolding lookup
  is_some-cons j seq pkt m h = ground arith

  -- Every number of a list is a key.
  abbrev AllKeys : List ℕ → Dict PendingPacket → Type 0
  AllKeys [] m = Unit {0}
  AllKeys (seq ∷ seqs) m = (is_some (lookup seq m) ≡ true) × AllKeys seqs m

  AllKeys-cons :
      (seqs : List ℕ) (j : ℕ) (pkt : PendingPacket) (m : Dict PendingPacket)
      → AllKeys seqs m
      → AllKeys seqs ((j, pkt) ∷ m)
  AllKeys-cons [] j pkt m a = tt
  AllKeys-cons (seq ∷ seqs) j pkt m a =
      (is_some-cons j seq pkt m a.0, AllKeys-cons seqs j pkt m a.1)

  resend_list-AllKeys : (m : Dict PendingPacket) → AllKeys (resend_list now m) m
  unfolding resend_list
  resend_list-AllKeys [] = tt
  resend_list-AllKeys ((j, pkt) ∷ m) = elim (Bool-cases (is_due now pkt)) [
    | inl due ↦
        rw (due, resend_list)
          (head_key j pkt m, AllKeys-cons (resend_list now m) j pkt m (resend_list-AllKeys m))
    | inr early ↦
        rw (early, resend_list) (AllKeys-cons (resend_list now m) j pkt m (resend_list-AllKeys m))
  ]

  AllKeys-AllPending :
      (seqs : List ℕ) (u : UdpSession)
      → AllKeys seqs u.pending_ack_map
      → AllPending seqs (marked now u)
  AllKeys-AllPending [] u a = tt
  AllKeys-AllPending (seq ∷ seqs) u a =
      (marked-is_pending now seq u a.0, AllKeys-AllPending seqs u a.1)

-- Before the numbers wrap, an `Update` that resends `n` packets leaves `n` more packets pending than
-- there were.
pub length-update :
    (now : ℕ) (headers : Headers) (u : UdpSession)
    → Below u.send_seq u.pending_ack_map
    → u.send_seq + length u.pending_ack_map < 65536
    → length (update now headers u).1.pending_ack_map
      ≡ length u.pending_ack_map + length (resend_list now u.pending_ack_map)
length-update now headers u b w =
    ap (λ r. length r.1.pending_ack_map) (update-marked now headers u)
    ∙ (resend_all-grows now (resend_list now u.pending_ack_map) headers (marked now u)
          (AllKeys-AllPending now (resend_list now u.pending_ack_map) u
            (resend_list-AllKeys now u.pending_ack_map))
          (rw ((marked-pending now u).0, (marked-pending now u).1)
            (Below-mark_all u.send_seq now u.pending_ack_map b))
          (omega (arith, (marked-pending now u).1, resend_list-pending now u.pending_ack_map))
        ∙ ap (λ k. k + length (resend_list now u.pending_ack_map))
            (ap length (marked-pending now u).0 ∙ length-mark_all now u.pending_ack_map))
