-- ===== src/Service.antt =====
-- ServerCore/Service.h and Service.cpp: the sets of connected sessions with their counts, and how a
-- datagram finds its session. Sessions and addresses are named by numbers; a failed `ASSERT_CRASH` is
-- `none`. `CreateSession` for UDP is the session factory, which always makes a session: the session it
-- makes is an argument.
pub mod Peers
mod Examples
use jam_server_prototype.Common.{
  ℕ, ◌+◌, ◌-◌, Option, none, some, List, [], ◌∷◌, ◌==◌, if◌then◌else◌,
}
use jam_server_prototype.Common.Dict.{Dict, lookup, insert, erase}

pub record UdpPeer : Type 0 where
  pub ref : ℕ
  pub address : ℕ

pub record Service : Type 0 where
  pub tcp_sessions : List ℕ
  pub tcp_session_count : ℕ
  pub udp_sessions : List UdpPeer
  pub udp_session_count : ℕ
  -- `_pendingUdpSessions`, by address
  pub pending_udp_sessions : Dict UdpPeer

-- Insertion into a set and erasing from it.
unfoldable pub set_insert : ℕ → List ℕ → List ℕ
set_insert ref [] = ref ∷ []
set_insert ref (r ∷ refs) = if r == ref then r ∷ refs else r ∷ set_insert ref refs

unfoldable pub set_erase : ℕ → List ℕ → Option (List ℕ)
set_erase ref [] = none
set_erase ref (r ∷ refs) =
    let rest = set_erase ref refs in
    if r == ref then some refs else elim rest [ none ↦ none | some rs ↦ some (r ∷ rs) ]

unfoldable pub peer_insert : UdpPeer → List UdpPeer → List UdpPeer
peer_insert peer [] = peer ∷ []
peer_insert peer (p ∷ peers) = if p.ref == peer.ref then p ∷ peers else p ∷ peer_insert peer peers

unfoldable pub peer_erase : ℕ → List UdpPeer → Option (List UdpPeer)
peer_erase ref [] = none
peer_erase ref (p ∷ peers) =
    let rest = peer_erase ref peers in
    if p.ref == ref then some peers else elim rest [ none ↦ none | some ps ↦ some (p ∷ ps) ]

unfoldable pub add_tcp_session : ℕ → Service → Service
add_tcp_session ref s = record s {
  tcp_session_count = s.tcp_session_count + 1;
  tcp_sessions = set_insert ref s.tcp_sessions;
}

unfoldable pub release_tcp_session : ℕ → Service → Option Service
release_tcp_session ref s = elim (set_erase ref s.tcp_sessions) [
  | none ↦ none
  | some refs ↦ some (record s { tcp_sessions = refs; tcp_session_count = s.tcp_session_count - 1 })
]

unfoldable pub add_udp_session : UdpPeer → Service → Service
add_udp_session peer s = record s {
  udp_session_count = s.udp_session_count + 1;
  udp_sessions = peer_insert peer s.udp_sessions;
}

unfoldable pub release_udp_session : ℕ → Service → Option Service
release_udp_session ref s = elim (peer_erase ref s.udp_sessions) [
  | none ↦ none
  | some peers ↦
      some (record s { udp_sessions = peers; udp_session_count = s.udp_session_count - 1 })
]

unfoldable pub complete_udp_handshake : ℕ → Service → Service
unfolding add_udp_session
complete_udp_handshake from s = elim (lookup from s.pending_udp_sessions) [
  | none ↦ s
  | some peer ↦
      let s' = add_udp_session peer s in
      record s' { pending_udp_sessions = erase from s'.pending_udp_sessions }
]

-- The first loop of `FindOrCreateUdpSession`.
unfoldable pub session_at : ℕ → List UdpPeer → Option ℕ
session_at from [] = none
session_at from (p ∷ peers) = if p.address == from then some p.ref else session_at from peers

-- The new session, with `ProcessConnect`, which completes the handshake at once.
unfoldable pub create_udp_session : ℕ → ℕ → Service → Service
unfolding complete_udp_handshake
create_udp_session created from s =
    let peer : UdpPeer = record { ref = created; address = from } in
    complete_udp_handshake from
      (record s { pending_udp_sessions = insert from peer s.pending_udp_sessions })

-- The session that is found or made, and the service after.
unfoldable pub find_or_create_udp_session : ℕ → ℕ → Service → ℕ × Service
unfolding create_udp_session
find_or_create_udp_session created from s = elim (session_at from s.udp_sessions) [
  | some ref ↦ (ref, s)
  | none ↦ elim (lookup from s.pending_udp_sessions) [
    | some peer ↦ (peer.ref, s)
    | none ↦ (created, create_udp_session created from s)
  ]
]
