-- ===== src/SessionManager/Pairing.antt =====
-- What the session map promises, and when a multicast goes through a null session.
use jam_server_prototype.Common.{
  ℕ, ◌≡◌, refl, ◌∙◌, Bool, true, false, ◌&&◌, Option, none, some, List, [], ◌∷◌, ◌==◌,
  if◌then◌else◌, Option-cases, inl, inr, arith,
}
use jam_server_prototype.Common.Dict.{lookup, insert, lookup-insert}
use jam_server_prototype.SessionManager.{
  ProtocolType, protocol_tcp, protocol_udp, SessionBundle, empty_bundle, is_null, Session,
  SessionMap, or_empty, with_session, session_of, add, multicast, get_session_by_user_id,
}

-- The session of a user under a protocol, as a later lookup finds it.
abbrev pub session_at : ProtocolType → ℕ → SessionMap → Option ℕ
session_at protocol id m = session_of protocol (or_empty (lookup id m))

abbrev pub same_protocol : ProtocolType → ProtocolType → Bool
same_protocol protocol_tcp protocol_tcp = true
same_protocol protocol_udp protocol_udp = true
same_protocol _ _ = false

-- Adding a session sets that session of that user, and no other.
pub session_at-add :
    (s : Session) (p : ProtocolType) (id : ℕ) (m : SessionMap)
    → session_at p id (add s m)
      ≡ (if s.id == id && same_protocol s.protocol p then some s.ref else session_at p id m)
unfolding add
session_at-add s p id m =
    let b = or_empty (lookup s.id m) in
    let b' = with_session s.protocol (some s.ref) b in
    let outer = lookup-insert s.id id b' (insert s.id b m) in
    let inner = lookup-insert s.id id b m in go s.protocol p outer inner
  where
    go :
        (q p : ProtocolType)
        → (lookup id (
              insert s.id
                (with_session q (some s.ref) (or_empty (lookup s.id m)))
                (insert s.id (or_empty (lookup s.id m)) m))
            ≡ (if s.id == id
                then some (with_session q (some s.ref) (or_empty (lookup s.id m)))
                else lookup id (insert s.id (or_empty (lookup s.id m)) m)))
        → (lookup id (insert s.id (or_empty (lookup s.id m)) m)
            ≡ (if s.id == id then some (or_empty (lookup s.id m)) else lookup id m))
        → session_at p id (
            insert s.id
              (with_session q (some s.ref) (or_empty (lookup s.id m)))
              (insert s.id (or_empty (lookup s.id m)) m))
          ≡ (if s.id == id && same_protocol q p then some s.ref else session_at p id m)
    go protocol_tcp protocol_tcp outer inner = ground arith
    go protocol_tcp protocol_udp outer inner = ground arith
    go protocol_udp protocol_tcp outer inner = ground arith
    go protocol_udp protocol_udp outer inner = ground arith

-- Every bundle of the map has a session of the protocol.
abbrev pub AllHave : ProtocolType → SessionMap → Type 0
AllHave p [] = Unit {0}
AllHave p ((id, b) ∷ m) = (is_null (session_of p b) ≡ false) × AllHave p m

-- A multicast goes through exactly if every bundle has a session of the protocol.
pub multicast_total :
    (p : ProtocolType) (m : SessionMap)
    → AllHave p m
    → (refs : List ℕ) × (multicast p m ≡ some refs)
unfolding multicast
multicast_total p [] a = ([], refl)
multicast_total p ((id, b) ∷ m) a =
    let (refs, e) = multicast_total p m a.1 in
    elim (Option-cases (session_of p b)) [
      | inl n ↦ absurd (ground arith)
      | inr (ref, o) ↦ (ref ∷ refs, rw (o, multicast, e))
    ]

multicast_null :
    (p : ProtocolType) (id : ℕ) (m : SessionMap) (b : SessionBundle)
    → lookup id m ≡ some b
    → session_of p b ≡ none
    → multicast p m ≡ none
unfolding multicast lookup
multicast_null p id [] b h n = cc
multicast_null p id ((j, c) ∷ m) b h n = ground (arith, multicast_null p id m b)

lookup-insert_self :
    (id : ℕ) (b : SessionBundle) (m : SessionMap) → lookup id (insert id b m) ≡ some b
lookup-insert_self id b m = ground (arith, lookup-insert id id b m)

session_of-other :
    (q p : ProtocolType) (r : Option ℕ) (b : SessionBundle)
    → same_protocol q p ≡ false
    → session_of p (with_session q r b) ≡ session_of p b
session_of-other protocol_tcp protocol_tcp r b h = cc
session_of-other protocol_tcp protocol_udp r b h = refl
session_of-other protocol_udp protocol_tcp r b h = refl
session_of-other protocol_udp protocol_udp r b h = cc

session_of-empty : (p : ProtocolType) → session_of p empty_bundle ≡ none
session_of-empty protocol_tcp = refl
session_of-empty protocol_udp = refl

-- If the session that a user has under the other protocol is all there is in the bundle, a multicast
-- under this one goes through a null session: one session whose handshake has come without a login,
-- or the other way round, is enough.
pub multicast-add_unpaired :
    (s : Session) (p : ProtocolType) (m : SessionMap)
    → same_protocol s.protocol p ≡ false
    → session_at p s.id m ≡ none
    → multicast p (add s m) ≡ none
unfolding add
multicast-add_unpaired s p m other alone =
    multicast_null p s.id (add s m)
      (with_session s.protocol (some s.ref) (or_empty (lookup s.id m)))
      (lookup-insert_self s.id _ (insert s.id (or_empty (lookup s.id m)) m))
      (session_of-other s.protocol p (some s.ref) (or_empty (lookup s.id m)) other ∙ alone)

-- Asking for the session of a user who has none leaves an empty bundle behind, and the next
-- multicast, under either protocol, goes through a null session.
pub multicast-get_missing :
    (asked p : ProtocolType) (id : ℕ) (m : SessionMap)
    → lookup id m ≡ none
    → let r = get_session_by_user_id asked id m in (r.0 ≡ none) × (multicast p r.1 ≡ none)
unfolding get_session_by_user_id
multicast-get_missing asked p id m h = (
  rw h (session_of-empty asked),
  multicast_null p id _ empty_bundle (rw h (lookup-insert_self id empty_bundle m))
      (session_of-empty p),
)
