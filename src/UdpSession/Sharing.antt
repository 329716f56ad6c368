-- ===== src/UdpSession/Sharing.antt =====
-- One send buffer handed to several sessions, as `Room::Multicast` and `SessionManager::Multicast` of
-- GameServer do: every `SendReliable` writes its own number into the one header.
use jam_server_prototype.Common.{ℕ, ◌≡◌, ◌≢◌, sym, ◌∙◌, some, List, [], ◌∷◌, ◌++◌, arith}
use jam_server_prototype.Common.Dict.{lookup}
use jam_server_prototype.UdpSession.{UdpSession, new_packet, Headers, send_reliable}
use jam_server_prototype.UdpSession.Resend.{send_reliable_lem}

-- `SendReliable` of one buffer on each session in turn, over the shared headers.
unfoldable pub send_to_all : List UdpSession → ℕ → ℕ → Headers → Headers × List UdpSession
send_to_all [] buffer timestamp headers = (headers, [])
send_to_all (u ∷ us) buffer timestamp headers =
    let (headers', u') = send_reliable buffer timestamp headers u in
    let (headers'', us') = send_to_all us buffer timestamp headers' in (headers'', u' ∷ us')

-- The header after the loop is the one that the last session wrote.
header_last :
    (us : List UdpSession) (v : UdpSession) (buffer timestamp : ℕ) (headers : Headers)
    → (send_to_all (us ++ v ∷ []) buffer timestamp headers).0 buffer ≡ v.send_seq
unfolding send_to_all
header_last [] v buffer timestamp headers = (send_reliable_lem buffer timestamp 0 headers v).0
header_last (u ∷ us) v buffer timestamp headers = header_last us v buffer timestamp _

-- After a buffer was sent reliably to `u` and then to further sessions of which the last is `v`, `u`
-- waits for an acknowledgement of its own number, while the buffer, which the pending packet refers
-- to and which a resend would send again, carries the number of `v`.
pub shared_header :
    (u v : UdpSession) (us : List UdpSession) (buffer timestamp : ℕ) (headers : Headers)
    → u.send_seq ≢ v.send_seq
    → let first = send_reliable buffer timestamp headers u in
      let rest = send_to_all (us ++ v ∷ []) buffer timestamp first.0 in
      (lookup u.send_seq first.1.pending_ack_map ≡ some (new_packet buffer u.send_seq timestamp))
      × (rest.0 buffer ≡ v.send_seq)
      × (rest.0 buffer ≢ u.send_seq)
shared_header u v us buffer timestamp headers ne =
    let last = header_last us v buffer timestamp (send_reliable buffer timestamp headers u).0 in
    let entry = (send_reliable_lem buffer timestamp u.send_seq headers u).2 in
    (ground (arith, entry), last, λ e. ne (sym e ∙ last))
