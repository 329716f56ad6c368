-- ===== src/SessionManager.antt =====
-- GameServer/SessionManager.h and SessionManager.cpp: the sessions of the users, by user id. Sessions
-- are named by numbers. `operator[]` makes an empty bundle where there is none; a call through a null
-- session is a fault, written `none`.
pub mod Pairing
mod Examples
use jam_server_prototype.Common.{
  ℕ, Bool, true, false, not, ◌&&◌, Option, none, some, List, [], ◌∷◌, if◌then◌else◌,
}
use jam_server_prototype.Common.Dict.{Dict, lookup, insert, erase}

pub data ProtocolType : Type 0 where
  protocol_tcp protocol_udp : ProtocolType

pub record SessionBundle : Type 0 where
  pub tcp_session : Option ℕ
  pub udp_session : Option ℕ

abbrev pub empty_bundle : SessionBundle
empty_bundle = record { tcp_session = none; udp_session = none }

abbrev pub is_null : Option ℕ → Bool
is_null none = true
is_null (some ref) = false

unfoldable pub is_paired : SessionBundle → Bool
is_paired b = not (is_null b.tcp_session) && not (is_null b.udp_session)

-- A session as its callers see it: `GetId()` and `IsTcp()`.
pub record Session : Type 0 where
  pub ref : ℕ
  pub id : ℕ
  pub protocol : ProtocolType

abbrev pub SessionMap : Type 0
SessionMap = Dict SessionBundle

abbrev pub or_empty : Option SessionBundle → SessionBundle
or_empty none = empty_bundle
or_empty (some b) = b

-- `_sessionMap[id]`: the bundle, with the map in which it now is.
unfoldable pub subscript : ℕ → SessionMap → SessionBundle × SessionMap
subscript id m = let b = or_empty (lookup id m) in (b, insert id b m)

abbrev pub with_session : ProtocolType → Option ℕ → SessionBundle → SessionBundle
with_session protocol_tcp r b = record b { tcp_session = r }
with_session protocol_udp r b = record b { udp_session = r }

abbrev pub session_of : ProtocolType → SessionBundle → Option ℕ
session_of protocol_tcp b = b.tcp_session
session_of protocol_udp b = b.udp_session

unfoldable pub add : Session → SessionMap → SessionMap
unfolding subscript
add s m = let (b, m') = subscript s.id m in insert s.id (with_session s.protocol (some s.ref) b) m'

unfoldable pub remove : Session → SessionMap → SessionMap
unfolding subscript
remove s m =
    let (b, m') = subscript s.id m in
    let b' = with_session s.protocol none b in
    if is_null b'.tcp_session && is_null b'.udp_session then erase s.id m' else insert s.id b' m'

-- The sessions that the buffer is sent on, in order; `none` if one of them is null.
unfoldable pub multicast : ProtocolType → SessionMap → Option (List ℕ)
multicast protocol [] = some []
multicast protocol ((id, b) ∷ m) =
    let rest = multicast protocol m in
    elim (session_of protocol b) [
      | none ↦ none
      | some ref ↦ elim rest [ none ↦ none | some refs ↦ some (ref ∷ refs) ]
    ]

unfoldable pub get_session_by_user_id : ProtocolType → ℕ → SessionMap → Option ℕ × SessionMap
unfolding subscript
get_session_by_user_id protocol user_id m =
    let (b, m') = subscript user_id m in (session_of protocol b, m')
