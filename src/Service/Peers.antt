-- ===== src/Service/Peers.antt =====
-- One session for one address.
use jam_server_prototype.Common.{
  ℕ, ◌+◌, ◌-◌, ◌≡◌, ◌≢◌, inl, inr, refl, sym, subst, false, Option, none, some, List, [], ◌∷◌, ◌==◌,
  if◌then◌else◌, Bool-cases, Option-cases, length, arith,
}
use jam_server_prototype.Common.Dict.{lookup, insert, erase}
use jam_server_prototype.Service.{
  UdpPeer, Service, peer_insert, peer_erase, add_udp_session, release_udp_session,
  complete_udp_handshake, session_at, create_udp_session, find_or_create_udp_session,
}

-- No session of the list has this reference.
abbrev pub NoRef : ℕ → List UdpPeer → Type 0
NoRef ref [] = Unit {0}
NoRef ref (p ∷ peers) = (p.ref ≢ ref) × NoRef ref peers

-- References and addresses do not repeat.
abbrev pub AllDistinct : List UdpPeer → Type 0
AllDistinct [] = Unit {0}
AllDistinct (p ∷ peers) =
    NoRef p.ref peers × (session_at p.address peers ≡ none) × AllDistinct peers

-- Between calls nothing is pending, every address has one session, and the count is right.
pub record Inv (s : Service) : Type 0 where
  pub idle : s.pending_udp_sessions ≡ []
  pub distinct : AllDistinct s.udp_sessions
  pub counted : s.udp_session_count ≡ length s.udp_sessions

peer_insert_lem :
    (peer : UdpPeer) (peers : List UdpPeer) (other : ℕ)
    → NoRef peer.ref peers
    → session_at peer.address peers ≡ none
    → (length (peer_insert peer peers) ≡ length peers + 1)
      × (session_at other (peer_insert peer peers)
          ≡ (if peer.address == other then some peer.ref else session_at other peers))
unfolding peer_insert session_at
peer_insert_lem peer [] other h n = (refl, refl)
peer_insert_lem peer (p ∷ peers) other h n = ground (arith, peer_insert_lem peer peers other h.1)

NoRef-peer_insert :
    (ref : ℕ) (peer : UdpPeer) (peers : List UdpPeer)
    → ref ≢ peer.ref
    → NoRef ref peers
    → NoRef ref (peer_insert peer peers)
unfolding peer_insert
NoRef-peer_insert ref peer [] ne h = (λ e. ne (sym e), tt)
NoRef-peer_insert ref peer (p ∷ peers) ne h =
    ground (arith, NoRef-peer_insert ref peer peers ne h.1)

AllDistinct-peer_insert :
    (peer : UdpPeer) (peers : List UdpPeer)
    → NoRef peer.ref peers
    → session_at peer.address peers ≡ none
    → AllDistinct peers
    → AllDistinct (peer_insert peer peers)
unfolding peer_insert session_at
AllDistinct-peer_insert peer [] h n d = (tt, refl, tt)
AllDistinct-peer_insert peer (p ∷ peers) h n d =
    let other : (p.ref == peer.ref) ≡ false = ground arith in
    let ne : p.address ≢ peer.address = λ e. ground (arith, e) in
    let rest : session_at peer.address peers ≡ none = ground arith in
    let found = (peer_insert_lem peer peers p.address h.1 rest).1 in
    rw other (
      NoRef-peer_insert p.ref peer peers h.0 d.0,
      ground (arith, found, ne, d.1),
      AllDistinct-peer_insert peer peers h.1 rest d.2,
    )

-- The session of an address.
abbrev pub udp_session_of : ℕ → Service → Option ℕ
udp_session_of from s = session_at from s.udp_sessions

create_udp_session_lem :
    (created from : ℕ) (s : Service)
    → s.pending_udp_sessions ≡ []
    → create_udp_session created from s
      ≡ add_udp_session (record { ref = created; address = from }) s
unfolding create_udp_session complete_udp_handshake add_udp_session lookup insert erase
create_udp_session_lem created from s h = ground arith

find_existing :
    (created from ref : ℕ) (s : Service)
    → udp_session_of from s ≡ some ref
    → find_or_create_udp_session created from s ≡ (ref, s)
unfolding find_or_create_udp_session
find_existing created from ref s e = ground arith

find_new :
    (created from : ℕ) (s : Service)
    → s.pending_udp_sessions ≡ []
    → udp_session_of from s ≡ none
    → find_or_create_udp_session created from s
      ≡ (created, add_udp_session (record { ref = created; address = from }) s)
unfolding find_or_create_udp_session lookup
find_new created from s h e = ground (arith, create_udp_session_lem created from s h)

-- What the answer to a datagram from `from` should be, seen also from another address.
abbrev pub Serves : ℕ → ℕ → ℕ → Service → ℕ × Service → Type 0
Serves created from other s r =
    Inv r.1
    × (udp_session_of from r.1 ≡ some r.0)
    × ((ref : ℕ) → udp_session_of from s ≡ some ref → r ≡ (ref, s))
    × (udp_session_of from s ≡ none
        → (r.0 ≡ created) × (r.1.udp_session_count ≡ s.udp_session_count + 1))
    × (other ≢ from → udp_session_of other r.1 ≡ udp_session_of other s)

some_not_none : (o : Option ℕ) (a : ℕ) → o ≡ some a → o ≡ none → ⊥
some_not_none o a e n = cc

serve_existing :
    (created from other ref : ℕ) (s : Service)
    → Inv s
    → udp_session_of from s ≡ some ref
    → Serves created from other s (ref, s)
serve_existing created from other ref s i e =
    (i, e, λ k f. cc, λ n. absurd (some_not_none (udp_session_of from s) ref e n), λ ne. refl)

serve_new :
    (created from other : ℕ) (s : Service)
    → Inv s
    → NoRef created s.udp_sessions
    → udp_session_of from s ≡ none
    → Serves created from other s
        (created, add_udp_session (record { ref = created; address = from }) s)
unfolding add_udp_session
serve_new created from other s i fresh n =
    let peer : UdpPeer = record { ref = created; address = from } in
    let at_from = peer_insert_lem peer s.udp_sessions from fresh n in
    let at_other = peer_insert_lem peer s.udp_sessions other fresh n in
    (
      record {
        idle = i.idle;
        distinct = AllDistinct-peer_insert peer s.udp_sessions fresh n i.distinct;
        counted = omega (arith, i.counted, at_from.0);
      },
      ground (arith, at_from.1),
      λ k f. absurd (some_not_none (udp_session_of from s) k f n),
      λ _. (refl, refl),
      λ ne. ground (arith, at_other.1),
    )

-- For a datagram from an address that has a session, that session is found and nothing changes.
-- From another address the session that the factory makes is connected at once, under that address
-- and no other, and counted. Either way the address has the returned session afterwards, references
-- and addresses do not repeat, and nothing is left pending.
pub find_or_create-Serves :
    (created from other : ℕ) (s : Service)
    → Inv s
    → NoRef created s.udp_sessions
    → Serves created from other s (find_or_create_udp_session created from s)
find_or_create-Serves created from other s i fresh = elim (Option-cases (udp_session_of from s)) [
  | inr (ref, e) ↦
      subst (Serves created from other s) (sym (find_existing created from ref s e))
        (serve_existing created from other ref s i e)
  | inl e ↦
      subst (Serves created from other s) (sym (find_new created from s i.idle e))
        (serve_new created from other s i fresh e)
]

NoRef-session_at :
    (ref from : ℕ) (peers : List UdpPeer) → NoRef ref peers → session_at from peers ≡ some ref → ⊥
unfolding session_at
NoRef-session_at ref from [] h e = cc
NoRef-session_at ref from (p ∷ peers) h e = ground (arith, NoRef-session_at ref from peers h.1)

peer_erase_lem :
    (p : UdpPeer) (peers : List UdpPeer) (from : ℕ)
    → AllDistinct peers
    → session_at p.address peers ≡ some p.ref
    → (rest : List UdpPeer) × (peer_erase p.ref peers ≡ some rest)
      × (length rest + 1 ≡ length peers)
      × (session_at from rest ≡ (if p.address == from then none else session_at from peers))
unfolding peer_erase session_at
peer_erase_lem p [] from d e = cc
peer_erase_lem p (q ∷ peers) from d e = elim (Bool-cases (q.ref == p.ref)) [
  | inl same ↦
      let no_more = NoRef-session_at q.ref p.address peers d.0 in
      (peers, ground arith, omega arith, ground (arith, no_more, d.1))
  | inr other ↦
      let apart : q.address ≢ p.address = λ a. ground (arith, a) in
      let (rest, r, l, f) = peer_erase_lem p peers from d.2 (ground (arith, apart)) in
      (q ∷ rest, ground (arith, r), omega (arith, l), ground (arith, f, apart))
]

-- Releasing the session of an address succeeds: the address has no session afterwards, every other
-- address keeps its own, and the count is one less. The next datagram from the address gets a new one.
pub release_lem :
    (p : UdpPeer) (other : ℕ) (s : Service)
    → Inv s
    → udp_session_of p.address s ≡ some p.ref
    → (s' : Service) × (release_udp_session p.ref s ≡ some s')
      × (udp_session_of other s' ≡ (if p.address == other then none else udp_session_of other s))
      × (s'.udp_session_count + 1 ≡ s.udp_session_count)
unfolding release_udp_session
release_lem p other s i e =
    let (rest, r, l, f) = peer_erase_lem p s.udp_sessions other i.distinct e in
    (
      record s { udp_sessions = rest; udp_session_count = s.udp_session_count - 1 },
      ground (arith, r),
      f,
      omega (arith, i.counted, l),
    )
