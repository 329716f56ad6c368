-- ===== src/Connection/Lifecycle.antt =====
-- A TCP session from its connection to its release, ServerCore/Session.cpp and Service.cpp.
use jam_server_prototype.Common.{
  ℕ, ◌+◌, ◌-◌, ◌≡◌, ◌≢◌, inl, inr, refl, sym, ap, ◌∙◌, Bool, true, false, some, List, [], ◌∷◌, ◌==◌,
  if◌then◌else◌, Bool-cases, Option-cases, ==_self, arith,
}
use jam_server_prototype.TcpSession.{
  TcpSession, Outcome, disconnect, register_recv, complete_recv, send, process_send,
}
use jam_server_prototype.Service.{
  Service, set_insert, set_erase, add_tcp_session, release_tcp_session,
}
use jam_server_prototype.Connection.{
  Connection, process_connect, process_disconnect, on_disconnected,
}
use jam_server_prototype.Connection.Falling.{
  Falls, disconnect-Falls, complete_recv-Falls, send-Falls, process_send-Falls, register_recv-Falls,
}

-- Whether a set has the reference.
abbrev pub holds : ℕ → List ℕ → Bool
holds ref [] = false
holds ref (r ∷ refs) = if r == ref then true else holds ref refs

holds-set_insert :
    (ref other : ℕ) (refs : List ℕ)
    → holds ref (set_insert other refs) ≡ (if other == ref then true else holds ref refs)
unfolding set_insert
holds-set_insert ref other [] = refl
holds-set_insert ref other (r ∷ refs) = ground (arith, holds-set_insert ref other refs)

set_erase_total :
    (ref : ℕ) (refs : List ℕ)
    → holds ref refs ≡ true
    → (rest : List ℕ) × (set_erase ref refs ≡ some rest)
unfolding set_erase
set_erase_total ref [] h = absurd (cc h)
set_erase_total ref (r ∷ refs) h = elim (Bool-cases (r == ref)) [
  | inl e ↦ (refs, rw e refl)
  | inr ne ↦
      let (rest, f) = set_erase_total ref refs (rw ne at h) in
      (r ∷ rest, rw (ne, f, set_erase) refl)
]

holds-set_erase :
    (ref other : ℕ) (refs rest : List ℕ)
    → other ≢ ref
    → set_erase other refs ≡ some rest
    → holds ref rest ≡ holds ref refs
unfolding set_erase
holds-set_erase ref other [] rest ne e = absurd (cc e)
holds-set_erase ref other (r ∷ refs) rest ne e = elim (Option-cases (set_erase other refs)) [
  | inl f ↦ ground (arith, f)
  | inr (tail, f) ↦ ground (arith, f, holds-set_erase ref other refs tail ne f)
]

-- What happens after a session was connected: its receives and sends, a disconnect from outside, the
-- completion of a disconnect that is outstanding, and other sessions that come and go.
pub data Step (c : Connection) : Connection → Type 0 where
  received :
      (bytes : List ℕ) (o d : Outcome)
      → Step c (record c { session = complete_recv bytes o d c.session })
  sending : (buffer : ℕ) (o d : Outcome) → Step c (record c { session = send buffer o d c.session })
  sent : (n : ℕ) (o d : Outcome) → Step c (record c { session = process_send n o d c.session })
  closing : (d : Outcome) → Step c (record c { session = disconnect d c.session })
  closed :
      {c' : Connection}
      → c.session.disconnecting ≡ true
      → process_disconnect c ≡ some c'
      → Step c c'
  other_added :
      (other : ℕ) → other ≢ c.ref → Step c (record c { service = add_tcp_session other c.service })
  other_released :
      (other : ℕ) {service : Service}
      → other ≢ c.ref
      → release_tcp_session other c.service ≡ some service
      → Step c (record c { service = service })

pub data Reach (c : Connection) : Connection → Type 0 where
  here : Reach c c
  next : {d e : Connection} → Reach c d → Step d e → Reach c e

abbrev pub is_held : Connection → Bool
is_held c = holds c.ref c.service.tcp_sessions

-- A session that is connected or disconnecting is in the service's set, and is not both.
pub record Inv (c : Connection) : Type 0 where
  pub connected_held : c.session.connected ≡ true → is_held c ≡ true
  pub disconnecting_held : c.session.disconnecting ≡ true → is_held c ≡ true
  pub not_both : c.session.connected ≡ true → c.session.disconnecting ≡ false

-- A step of the session only.
session-Inv :
    (c : Connection) (s : TcpSession) → Falls c.session s → Inv c → Inv (record c { session = s })
session-Inv c s (inl (e, f)) v = record {
  connected_held = λ h. v.connected_held (sym e ∙ h);
  disconnecting_held = λ h. v.disconnecting_held (sym f ∙ h);
  not_both = λ h. f ∙ v.not_both (sym e ∙ h);
}
session-Inv c s (inr (e, f)) v = record {
  connected_held = λ h. v.connected_held e;
  disconnecting_held = λ h. v.connected_held e;
  not_both = λ h. absurd (cc (f, h));
}

-- A step of the service only, after which the session is in the set as before.
service-Inv :
    (c : Connection) (service : Service)
    → holds c.ref service.tcp_sessions ≡ is_held c
    → Inv c
    → Inv (record c { service = service })
service-Inv c service same v = record {
  connected_held = λ h. same ∙ v.connected_held h;
  disconnecting_held = λ h. same ∙ v.disconnecting_held h;
  not_both = v.not_both;
}

pub added_held :
    (other ref : ℕ) (s : Service)
    → other ≢ ref
    → holds ref (add_tcp_session other s).tcp_sessions ≡ holds ref s.tcp_sessions
unfolding add_tcp_session
added_held other ref s ne = ground (arith, holds-set_insert ref other s.tcp_sessions)

pub released_held :
    (other ref : ℕ) (s s' : Service)
    → other ≢ ref
    → release_tcp_session other s ≡ some s'
    → holds ref s'.tcp_sessions ≡ holds ref s.tcp_sessions
unfolding release_tcp_session
released_held other ref s s' ne e = elim (Option-cases (set_erase other s.tcp_sessions)) [
  | inl f ↦ absurd (ground (arith, f))
  | inr (rest, f) ↦ ground (arith, f, holds-set_erase ref other s.tcp_sessions rest ne f)
]

process_disconnect_total :
    (c : Connection) → is_held c ≡ true → (c' : Connection) × (process_disconnect c ≡ some c')
unfolding process_disconnect release_tcp_session
process_disconnect_total c h =
    let (rest, f) = set_erase_total c.ref c.service.tcp_sessions h in
    (
      record c {
        session = record c.session { disconnecting = false };
        service = record c.service {
          tcp_sessions = rest;
          tcp_session_count = c.service.tcp_session_count - 1;
        };
        sessions = on_disconnected c;
      },
      ground (arith, f),
    )

process_disconnect_lem :
    (c c' : Connection)
    → process_disconnect c ≡ some c'
    → (c'.session.connected ≡ c.session.connected) × (c'.session.disconnecting ≡ false)
unfolding process_disconnect
process_disconnect_lem c c' e = elim (Option-cases (release_tcp_session c.ref c.service)) [
  | inl f ↦ absurd (ground (arith, f))
  | inr (service, f) ↦
      let eq : record c {
        session = record c.session { disconnecting = false };
        service = service;
        sessions = on_disconnected c;
      }
          ≡ c' =
        ground (arith, f) in
      (
        ap (λ (x : Connection). x.session.connected) (sym eq),
        ap (λ (x : Connection). x.session.disconnecting) (sym eq),
      )
]

Step-Inv : {c d : Connection} → Step c d → Inv c → Inv d
Step-Inv {c} (received bytes o d) v =
    session-Inv c (complete_recv bytes o d c.session) (complete_recv-Falls bytes o d c.session) v
Step-Inv {c} (sending buffer o d) v =
    session-Inv c (send buffer o d c.session) (send-Falls buffer o d c.session) v
Step-Inv {c} (sent n o d) v =
    session-Inv c (process_send n o d c.session) (process_send-Falls n o d c.session) v
Step-Inv {c} (closing d) v = session-Inv c (disconnect d c.session) (disconnect-Falls d c.session) v
Step-Inv {c} (closed {c'} h e) v =
    let l = process_disconnect_lem c c' e in
    record {
      connected_held = λ on. absurd (cc (v.not_both (sym l.0 ∙ on), h));
      disconnecting_held = λ on. absurd (cc (l.1, on));
      not_both = λ on. l.1;
    }
Step-Inv {c} (other_added other ne) v =
    service-Inv c (add_tcp_session other c.service) (added_held other c.ref c.service ne) v
Step-Inv {c} (other_released other {service} ne e) v =
    service-Inv c service (released_held other c.ref c.service service ne e) v

Reach-Inv : {c d : Connection} → Inv c → Reach c d → Inv d
Reach-Inv v here = v
Reach-Inv v (next r s) = Step-Inv s (Reach-Inv v r)

process_connect-Inv :
    (o d : Outcome) (c : Connection) → c.session.disconnecting ≡ false → Inv (process_connect o d c)
unfolding process_connect add_tcp_session
process_connect-Inv o d c idle =
    let held : holds c.ref (set_insert c.ref c.service.tcp_sessions) ≡ true =
      rw (holds-set_insert c.ref c.ref c.service.tcp_sessions, ==_self c.ref) refl in
    let joined = record c {
      session = record c.session { connected = true };
      service = record c.service {
        tcp_session_count = c.service.tcp_session_count + 1;
        tcp_sessions = set_insert c.ref c.service.tcp_sessions;
      };
    } in
    session-Inv joined (register_recv o d joined.session) (register_recv-Falls o d joined.session)
      (record {
        connected_held = λ on. held;
        disconnecting_held = λ on. held;
        not_both = λ on. idle;
      })

-- From the connection of a session that was not disconnecting, through any receives, sends and disconnects
-- of its own and any coming and going of other sessions: when its disconnect completes, the service still
-- has it, so the assertion in ReleaseTcpSession holds.
pub release_succeeds :
    (o d : Outcome) (c c' : Connection)
    → c.session.disconnecting ≡ false
    → Reach (process_connect o d c) c'
    → c'.session.disconnecting ≡ true
    → (released : Connection) × (process_disconnect c' ≡ some released)
release_succeeds o d c c' idle r h =
    process_disconnect_total c'
      ((Reach-Inv (process_connect-Inv o d c idle) r).disconnecting_held h)
