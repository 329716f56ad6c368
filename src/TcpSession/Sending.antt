-- ===== src/TcpSession/Sending.antt =====
-- The send path under interleaving. `Send` and `RegisterSend` lock separately, so other threads may
-- run between the two, and between the locked part of `RegisterSend` and the answer of `WSASend`. Both
-- look at `IsConnected` before they lock, and another thread may disconnect in between: a step that
-- locks does not ask whether the session is connected.
use jam_server_prototype.Common.{
  ℕ, ◌+◌, ◌-◌, ◌≤◌, ◌<◌, ◌≡◌, refl, Bool, true, false, List, [], ◌∷◌, ◌++◌, ◌≢◌, ◌⊎◌, inl, inr, ap,
  ◌∙◌, length, length-append, arith, append_assoc, append-nil,
}
use jam_server_prototype.TcpSession.{
  Outcome, started, failed, TcpSession, disconnect, handle_error, send_locked, drain, send_outcome,
}

-- The session with what its threads are about to do: callers of `Send` that have to register, calls
-- of `WSASend` that have not answered, and sends that have not completed. `accepted` are the buffers
-- queued so far, `retired` those that have left the send event, in order.
pub record Sender : Type 0 where
  pub session : TcpSession
  pub open session use *
  pub owed : ℕ
  pub posting : ℕ
  pub in_flight : ℕ
  pub accepted : List ℕ
  pub retired : List ℕ

abbrev b2n : Bool → ℕ
b2n true = 1
b2n false = 0

abbrev retire : Sender → List ℕ
retire t = t.retired ++ t.session.send_buffers

-- `Send` up to the end of its lock.
abbrev pub enqueued : ℕ → Sender → Sender
enqueued buffer t = record t {
  session = (send_locked buffer t.session).0;
  owed = t.owed + b2n (send_locked buffer t.session).1;
  accepted = t.accepted ++ buffer ∷ [];
}

-- `WSASend` fails.
abbrev pub post_refused : ℕ → Outcome → Sender → Sender
post_refused code d t = record t {
  session = send_outcome (failed code) d t.session;
  posting = t.posting - 1;
  retired = retire t;
}

pub data Step (t : Sender) : Sender → Type 0 where
  enqueue : (buffer : ℕ) → Step t (enqueued buffer t)
  -- `RegisterSend` finds the session disconnected
  register_closed :
      0 < t.owed → t.session.connected ≡ false → Step t (record t { owed = t.owed - 1 })
  -- `RegisterSend` up to `WSASend`
  register :
      0 < t.owed
      → Step t (record t { session = drain t.session; owed = t.owed - 1; posting = t.posting + 1 })
  post_started :
      0 < t.posting → Step t (record t { posting = t.posting - 1; in_flight = t.in_flight + 1 })
  post_failed : (code : ℕ) (d : Outcome) → 0 < t.posting → Step t (post_refused code d t)
  -- `ProcessSend`, which runs under the lock; its `RegisterSend` is `complete_more` and a post
  complete_none :
      (d : Outcome)
      → 0 < t.in_flight
      → Step t (record t {
        session = disconnect d (record (t.session) { send_buffers = [] });
        in_flight = t.in_flight - 1;
        retired = retire t;
      })
  complete_last :
      0 < t.in_flight
      → t.session.send_queue ≡ []
      → Step t (record t {
        session = record (t.session) { send_buffers = []; send_registered = false };
        in_flight = t.in_flight - 1;
        retired = retire t;
      })
  complete_more :
      0 < t.in_flight
      → t.session.send_queue ≢ []
      → Step t (record t {
        session = drain (record (t.session) { send_buffers = [] });
        in_flight = t.in_flight - 1;
        posting = t.posting + 1;
        retired = retire t;
      })
  complete_closed :
      0 < t.in_flight
      → t.session.send_queue ≢ []
      → t.session.connected ≡ false
      → Step t (record t {
        session = record (t.session) { send_buffers = [] };
        in_flight = t.in_flight - 1;
        retired = retire t;
      })
  close : (d : Outcome) → Step t (record t { session = disconnect d t.session })

pub data Reach (s : Sender) : Sender → Type 0 where
  here : Reach s s
  later : {t u : Sender} → Reach s t → Step t u → Reach s u

-- At most one thread is responsible for the send event, and it is while `_sendRegistered` is set;
-- the event is empty unless a send is being posted or is in flight; no buffer is lost or overtaken.
pub record Inv (t : Sender) : Type 0 where
  pub single : t.owed + t.posting + t.in_flight ≤ b2n t.session.send_registered
  pub quiet : t.posting + t.in_flight ≡ 0 → t.session.send_buffers ≡ []
  pub ordered : t.accepted ≡ t.retired ++ (t.session.send_buffers ++ t.session.send_queue)

disconnect-send :
    (d : Outcome) (s : TcpSession)
    → ((disconnect d s).send_queue ≡ s.send_queue)
      × ((disconnect d s).send_registered ≡ s.send_registered)
      × ((disconnect d s).send_buffers ≡ s.send_buffers)
unfolding disconnect
disconnect-send started s = ground arith
disconnect-send (failed code) s = ground arith

handle_error-send :
    (code : ℕ) (d : Outcome) (s : TcpSession) → (handle_error code d s).send_queue ≡ s.send_queue
unfolding handle_error
handle_error-send code d s = ground (arith, disconnect-send d s)

-- The buffers of a send event that has ended are retired in front of the queue.
regroup :
    {accepted : List ℕ} (retired sent queue : List ℕ)
    → accepted ≡ retired ++ (sent ++ queue)
    → accepted ≡ (retired ++ sent) ++ queue
regroup retired sent queue e = rw append_assoc e

queued :
    {accepted : List ℕ} (retired sent queue more : List ℕ)
    → accepted ≡ retired ++ (sent ++ queue)
    → accepted ++ more ≡ retired ++ (sent ++ (queue ++ more))
queued retired sent queue more e = rw e (simp append_assoc)

-- Every step of every thread keeps the invariant.
pub Step-Inv : {t u : Sender} → Step t u → Inv t → Inv u
unfolding send_locked drain send_outcome
Step-Inv {t} (enqueue buffer) i = record {
  single = ground arith;
  quiet = ground arith;
  ordered = queued t.retired t.session.send_buffers t.session.send_queue _ i.ordered;
}
Step-Inv (register_closed h c) i = ground arith
Step-Inv {t} (register h) i = record {
  single = ground arith;
  quiet = ground arith;
  ordered = rw append-nil i.ordered;
}
Step-Inv (post_started h) i = ground arith
Step-Inv {t} (post_failed code d h) i = record {
  single = ground arith;
  quiet = ground arith;
  ordered =
      rw (handle_error-send code d t.session)
        (regroup t.retired t.session.send_buffers t.session.send_queue i.ordered);
}
Step-Inv {t} (complete_none d h) i =
    let e = disconnect-send d (record (t.session) { send_buffers = [] }) in
    record {
      single = rw e.1 (omega (arith, i.single));
      quiet = λ _. e.2;
      ordered =
          rw (e.0, e.2) (regroup t.retired t.session.send_buffers t.session.send_queue i.ordered);
    }
Step-Inv {t} (complete_last h e) i = record {
  single = ground arith;
  quiet = ground arith;
  ordered = regroup t.retired t.session.send_buffers t.session.send_queue i.ordered;
}
Step-Inv {t} (complete_more h e) i = record {
  single = ground arith;
  quiet = ground arith;
  ordered = rw append-nil (regroup t.retired t.session.send_buffers t.session.send_queue i.ordered);
}
Step-Inv {t} (complete_closed h e c) i = record {
  single = ground arith;
  quiet = ground arith;
  ordered = regroup t.retired t.session.send_buffers t.session.send_queue i.ordered;
}
Step-Inv {t} (close d) i = ground (arith, disconnect-send d t.session)

-- A session nobody has sent on.
pub record IsUnused (t : Sender) : Type 0 where
  pub no_work : t.owed + t.posting + t.in_flight ≡ 0
  pub nothing_sent : t.session.send_buffers ≡ []
  pub nothing_queued : t.session.send_queue ≡ []
  pub no_history : (t.accepted ≡ []) × (t.retired ≡ [])

IsUnused-Inv : (t : Sender) → IsUnused t → Inv t
IsUnused-Inv t u = record {
  single = omega (arith, u.no_work);
  quiet = λ _. u.nothing_sent;
  ordered = rw (u.nothing_sent, u.nothing_queued, u.no_history.0, u.no_history.1);
}

-- From an unused session, in every interleaving: at most one thread posts or awaits a send, and the
-- buffers accepted are, in order, those retired, those in the send event and those queued.
pub Reach-Inv : {s t : Sender} → IsUnused s → Reach s t → Inv t
Reach-Inv {s} u here = IsUnused-Inv s u
Reach-Inv u (later r st) = Step-Inv st (Reach-Inv u r)

-- A buffer is stranded: it waits in the queue of a connected session, the flag says that nobody is
-- sending, and nobody is.
pub record IsStranded (t : Sender) : Type 0 where
  pub alive : t.session.connected ≡ true
  pub waits : t.session.send_queue ≢ []
  pub unregistered : t.session.send_registered ≡ false
  pub idle : t.owed + t.posting + t.in_flight ≡ 0

append-ne-nil : (xs : List ℕ) (x : ℕ) → xs ++ x ∷ [] ≢ []
append-ne-nil [] x e = cc
append-ne-nil (y ∷ xs) x e = cc

handle_error_other :
    (code : ℕ) (d : Outcome) (s : TcpSession)
    → code ≢ 10053
    → code ≢ 10054
    → handle_error code d s ≡ s
unfolding handle_error
handle_error_other code d s a r = ground arith

-- Nothing is under way, and these are the queue and what was accepted.
record Rests (queue accepted : List ℕ) (t : Sender) : Type 0 where
  at_rest : t.owed + t.posting + t.in_flight ≡ 0
  same_queue : t.session.send_queue ≡ queue
  same_accepted : t.accepted ≡ accepted

-- Something was accepted after all of this.
abbrev pub SentSince : Sender → Sender → Type 0
SentSince t u = length t.accepted < length u.accepted

accepted-grows : {t u : Sender} → Step t u → length t.accepted ≤ length u.accepted
accepted-grows {t} (enqueue buffer) = omega (arith, length-append t.accepted (buffer ∷ []))
accepted-grows (register_closed h c) = omega arith
accepted-grows (register h) = omega arith
accepted-grows (post_started h) = omega arith
accepted-grows (post_failed code d h) = omega arith
accepted-grows (complete_none d h) = omega arith
accepted-grows (complete_last h e) = omega arith
accepted-grows (complete_more h e) = omega arith
accepted-grows (complete_closed h e c) = omega arith
accepted-grows (close d) = omega arith

Step-Rests :
    {t u : Sender} {queue accepted : List ℕ}
    → Step t u
    → Rests queue accepted t
    → SentSince t u ⊎ Rests queue accepted u
Step-Rests {t} (enqueue buffer) r = inl (omega (arith, length-append t.accepted (buffer ∷ [])))
Step-Rests (register_closed h c) r = absurd (omega (arith, h, r.at_rest))
Step-Rests (register h) r = absurd (omega (arith, h, r.at_rest))
Step-Rests (post_started h) r = absurd (omega (arith, h, r.at_rest))
Step-Rests (post_failed code d h) r = absurd (omega (arith, h, r.at_rest))
Step-Rests (complete_none d h) r = absurd (omega (arith, h, r.at_rest))
Step-Rests (complete_last h e) r = absurd (omega (arith, h, r.at_rest))
Step-Rests (complete_more h e) r = absurd (omega (arith, h, r.at_rest))
Step-Rests (complete_closed h e c) r = absurd (omega (arith, h, r.at_rest))
Step-Rests {t} (close d) r = inr (record {
  at_rest = r.at_rest;
  same_queue = (disconnect-send d t.session).0 ∙ r.same_queue;
  same_accepted = r.same_accepted;
})

Reach-Rests :
    {t u : Sender}
    → Reach t u
    → t.owed + t.posting + t.in_flight ≡ 0
    → SentSince t u ⊎ Rests t.session.send_queue t.accepted u
Reach-Rests here rest = inr (record { at_rest = rest; same_queue = refl; same_accepted = refl })
Reach-Rests {t} {u} (later {t = v} reach step) rest = elim (Reach-Rests reach rest) [
  | inl since ↦ inl (omega (arith, since, accepted-grows step))
  | inr r ↦ elim (Step-Rests step r) [
    | inl since ↦ inl (omega (arith, since, ap length r.same_accepted))
    | inr s ↦ inr s
  ]
]

-- A `Send` comes between the locked part of a `RegisterSend` and its `WSASend`, which fails with an error
-- that does not disconnect. Both are steps; after them the new buffer is at the end of the queue of a
-- connected session, the flag says that nobody is sending, and nobody is. Whatever the threads do then,
-- the queue stays as it is until another `Send`.
pub post_failed-IsStranded :
    (t : Sender) (buffer code : ℕ) (d : Outcome)
    → Inv t
    → 0 < t.posting
    → t.session.connected ≡ true
    → code ≢ 10053
    → code ≢ 10054
    → let u = post_refused code d (enqueued buffer t) in
      Step t (enqueued buffer t)
      × Step (enqueued buffer t) u
      × IsStranded u
      × (u.session.send_queue ≡ t.session.send_queue ++ buffer ∷ [])
      × ((w : Sender) → Reach u w → SentSince u w ⊎ (w.session.send_queue ≡ u.session.send_queue))
unfolding send_locked send_outcome
post_failed-IsStranded t buffer code d i posting open_ a r =
    let same = handle_error_other code d (send_locked buffer t.session).0 a r in
    let idle : (post_refused code d (enqueued buffer t)).owed
          + (post_refused code d (enqueued buffer t)).posting
          + (post_refused code d (enqueued buffer t)).in_flight
        ≡ 0 =
      ground (arith, i.single, posting) in
    (
      enqueue buffer,
      post_failed code d (omega (arith, posting)),
      record {
        alive = rw same open_;
        waits = rw same (append-ne-nil t.session.send_queue buffer);
        unregistered = refl;
        idle = idle;
      },
      rw same refl,
      λ w reach. elim (Reach-Rests reach idle) [ inl since ↦ inl since | inr s ↦ inr s.same_queue ],
    )
