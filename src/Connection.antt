-- ===== src/Connection.antt =====
-- How TCP sessions come and go: ServerCore/Listener.cpp, the connecting and disconnecting part of class
-- `TcpSession` in ServerCore/Session.cpp, and Start and CreateSession of ServerCore/Service.cpp. What WinSock
-- answers is an argument. `none` is a crash: a null session that is used, or a failed assertion.
pub mod Falling
pub mod Lifecycle
pub mod Leak
mod Examples
use jam_server_prototype.Common.{
  ℕ, zero, suc, ◌+◌, Bool, true, false, not, ◌&&◌, ◌||◌, Option, none, some, List, [], ◌∷◌,
  if◌then◌else◌, length,
}
use jam_server_prototype.TcpSession.{
  TcpSession, Outcome, started, failed, register_recv, fresh, buffer_size,
}
use jam_server_prototype.Service.{Service, add_tcp_session, release_tcp_session}
use jam_server_prototype.SessionManager.{SessionMap, protocol_tcp, remove}

-- What `ConnectEx` and the calls before it answer.
pub record ConnectCalls : Type 0 where
  pub reuse_address : Bool
  pub bind_any_address : Bool
  pub connect_ex : Outcome

-- The answer of `RegisterConnect`, and whether a connect is outstanding, `_connectEvent.owner`.
unfoldable pub register_connect : ConnectCalls → TcpSession → Bool × Bool
register_connect calls s =
    if s.connected
    then (false, false)
    else if not calls.reuse_address
    then (false, false)
    else if not calls.bind_any_address
    then (false, false)
    else elim calls.connect_ex [ started ↦ (true, true) | failed code ↦ (false, false) ]

-- A session by its reference, with its user's id, the service, and the session manager.
pub record Connection : Type 0 where
  pub ref : ℕ
  pub id : ℕ
  pub session : TcpSession
  pub service : Service
  pub sessions : SessionMap

-- The outcomes are those of the `WSARecv` that follows and of a `DisconnectEx`.
unfoldable pub process_connect : Outcome → Outcome → Connection → Connection
process_connect o d c = record c {
  session = register_recv o d (record c.session { connected = true });
  service = add_tcp_session c.ref c.service;
}

-- `GameTcpSession::OnDisconnected` takes the session out of the session manager.
abbrev pub on_disconnected : Connection → SessionMap
on_disconnected c = remove (record { ref = c.ref; id = c.id; protocol = protocol_tcp }) c.sessions

unfoldable pub process_disconnect : Connection → Option Connection
process_disconnect c = elim (release_tcp_session c.ref c.service) [
  | none ↦ none
  | some service ↦ some (record c {
    session = record c.session { disconnecting = false };
    service = service;
    sessions = on_disconnected c;
  })
]

-- `CreateSession` for TCP: the session that the factory makes, or null if the completion port does not
-- take it.
unfoldable pub create_tcp_session : Bool → ℕ → Option ℕ
create_tcp_session registered made = if registered then some made else none

-- The answers that `Start` gets, in order.
pub record StartCalls : Type 0 where
  pub has_factory : Bool
  pub make_listener : Bool
  pub start_accept : Bool
  pub has_receiver : Bool
  pub receiver_start : Bool

unfoldable pub start : StartCalls → Bool
start calls =
    if not calls.has_factory
    then false
    else if not calls.make_listener
    then false
    else if not calls.start_accept
    then false
    else if not calls.has_receiver
    then false
    else if not calls.receiver_start
    then false
    else true

-- What an accept event waits for, `AcceptEx` on its session.
pub data Accept : Type 0 where
  -- outstanding, for this session
  armed : ℕ → Accept
  -- `AcceptEx` failed, and nothing is outstanding
  lost : ℕ → Accept

-- The answers of the calls of one `RegisterAccept`: the session that is made, and whether the completion
-- port takes it and `AcceptEx` starts, at once or pending.
pub record AcceptCalls : Type 0 where
  pub made : ℕ
  pub registered : Bool
  pub accept_ex : Bool

unfoldable pub register_accept : AcceptCalls → Option Accept
unfolding create_tcp_session
register_accept calls = elim (create_tcp_session calls.registered calls.made) [
  | none ↦ none
  | some session ↦ some (if calls.accept_ex then armed session else lost session)
]

-- The answers of the calls of one `StartAccept`.
pub record ListenCalls : Type 0 where
  pub create_socket : Bool
  pub register_listener : Bool
  pub set_options : Bool
  pub bind : Bool
  pub listen : Bool

unfoldable pub register_accepts : List AcceptCalls → Option (List Accept)
register_accepts [] = some []
register_accepts (calls ∷ rest) =
    let events = register_accepts rest in
    elim (register_accept calls) [
      | none ↦ none
      | some event ↦ elim events [ none ↦ none | some es ↦ some (event ∷ es) ]
    ]

-- The answer and the accept events, one for each of `_maxTcpSessionCount`.
unfoldable pub start_accept : ListenCalls → List AcceptCalls → Option (Bool × List Accept)
unfolding register_accepts
start_accept calls accepts =
    if not calls.create_socket
      || not calls.register_listener
      || not calls.set_options
      || not calls.bind
      || not calls.listen
    then some (false, [])
    else elim (register_accepts accepts) [ none ↦ none | some events ↦ some (true, events) ]

-- An accept completes: whether the socket takes over the listener's state and has a peer's address; the
-- session that was accepted, if it was, and the event after.
unfoldable pub process_accept : Bool → Bool → AcceptCalls → ℕ → Option (Option ℕ × Accept)
unfolding register_accept
process_accept updated has_peer calls session =
    let accepted = if updated && has_peer then some session else none in
    elim (register_accept calls) [ none ↦ none | some event ↦ some (accepted, event) ]
