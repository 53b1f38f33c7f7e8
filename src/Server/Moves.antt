-- ===== src/Server/Moves.antt =====
-- A round of `service_connection` of src/server.c, as a move between the states of a connection.
use sdrproxy.Prelude.{
  ℕ, ◌≡◌, ◌≢◌, ◌⊎◌, ◌∙◌, ap, leb, refl, Bool, true, ◌&&◌, not, ltb, List, ◌==◌, Bool-cases,
  Option-cases, inl, inr, ℤ, pos, negsuc,
}
use sdrproxy.Buffer.{bytes_stored, bytes_free, delete, view}
use sdrproxy.Buffer.Valid.{IsValid}
use sdrproxy.Server.Heard.{Event, said, Says, Keeps, incoming-Heard}
use sdrproxy.Util.{ChannelInfo}
use sdrproxy.Databfr.{Outcome, done, fault, failed, blocked, ◌>>=◌}
use sdrproxy.Databfr.Ops.{Allocator}
use sdrproxy.Server.{
  ServrState, inactive, init, sendchan, sendadc, shutdown, ConnectionData, World, Received, Sent,
  sent, maxpacketsize, send_again, broken_pipe, send_error, is_sending, is_inactive, send_to_client,
  service_incoming, service_state, service_outgoing, service_connection,
}
use sdrproxy.Server.States.{answered, Returns, service_state-answered, Returns-weaker}

module _ (writable : Bool) (send : List ℕ → Sent) (ret : ℤ) (w : World) where
  abbrev kept : Outcome (ℤ × ConnectionData) → Outcome (ℤ × World)
  kept o = (o >>= λ r. done (record w { conn = r.1 })) >>= λ w'. done (ret, w')

  abbrev Same : World → Type 0
  Same w' = w'.conn.state ≡ w.conn.state

  sent-state :
      (rv : Sent)
      → Returns Same (
          kept (elim rv [
            | sent n ↦
                done (pos n, record (w.conn) { send_ring = (delete (pos n) w.conn.send_ring).1 })
            | send_again ↦ done (pos 0, w.conn)
            | broken_pipe ↦ done (negsuc 0, w.conn)
            | send_error ↦ failed
          ]))
  sent-state (sent n) = refl
  sent-state send_again = refl
  sent-state broken_pipe = refl
  sent-state send_error = tt

  send_to_client-state : Returns Same (kept (send_to_client send w.conn))
  unfolding send_to_client
  send_to_client-state =
      elim (Option-cases (view (bytes_stored w.conn.send_ring) w.conn.send_ring)) [
        | inl nothing ↦ rw (nothing, send_to_client) tt
        | inr (bytes, there) ↦
            elim (Bool-cases (ltb maxpacketsize (bytes_stored w.conn.send_ring))) [
              | inl long ↦ rw (there, long, send_to_client) tt
              | inr short ↦ rw (there, short, send_to_client) (sent-state (send bytes))
            ]
      ]

  outgoing-state : Returns Same (service_outgoing writable send w >>= λ w'. done (ret, w'))
  unfolding service_outgoing
  outgoing-state =
      elim (Bool-cases
        (not (bytes_stored w.conn.send_ring == 0) && (writable && is_sending w.conn.state))) [
          | inl sends ↦ rw (sends, service_outgoing) send_to_client-state
          | inr rests ↦ rw (rests, service_outgoing) refl
        ]

Returns-then :
    (P Q : World → Type 0) (o : Outcome (ℤ × World)) (f : ℤ × World → Outcome (ℤ × World))
    → Returns P o
    → ((ret : ℤ) (w : World) → P w → Returns Q (f (ret, w)))
    → Returns Q (o >>= f)
Returns-then P Q (done (ret, w)) f p h = h ret w p
Returns-then P Q fault f p h = tt
Returns-then P Q failed f p h = tt
Returns-then P Q blocked f p h = tt

module _ (readable : Bool) (recv : ℕ → Received) (w : World) where
  -- A connection that is free stays as it is. Of one that is in use the state is that of what its
  -- client says, then answered.
  abbrev pub Round : World → Type 0
  Round w' =
      ((w.conn.state ≡ inactive) × (w' ≡ w))
      ⊎ ((w.conn.state ≢ inactive)
          × ((e : Event) × Says recv w.conn readable e
              × (w'.conn.state
                  ≡ answered (w.conn.idle_timer == 0) (leb 25 (bytes_free w.conn.send_ring))
                      (said e w.conn.state))))

is_inactive_lem : (s : ServrState) → is_inactive s ≡ true → s ≡ inactive
is_inactive_lem inactive e = refl
is_inactive_lem init e = cc
is_inactive_lem sendchan e = cc
is_inactive_lem sendadc e = cc
is_inactive_lem shutdown e = cc

-- If a connection's receive ring is valid and recv gives at most the bytes that it is asked for,
-- then a round of service_connection that returns leaves a free connection as it is, and brings one
-- in use to just this state: if recv fails or finds the end it is free again; otherwise, where the
-- request SEND AD stands in the bytes received so far, with those that come in this round, it goes
-- on from SRVR_STATE_SENDCHAN, and else from where it is; from there, SRVR_STATE_SENDCHAN becomes
-- SRVR_STATE_SENDADC if the send ring has room for the channel information, SRVR_STATE_INIT becomes
-- SRVR_STATE_SHUTDOWN if its timer is at zero, SRVR_STATE_SHUTDOWN becomes free, and else it stays.
pub service_connection-Round :
    (m : Allocator) (c : ChannelInfo) (now : ℤ) (readable writable : Bool) (recv : ℕ → Received)
    (send : List ℕ → Sent) (w : World)
    → IsValid w.conn.rcv_ring
    → Keeps recv w.conn
    → Returns (Round readable recv w) (service_connection m c now readable writable recv send w)
unfolding service_connection
service_connection-Round m c now readable writable recv send w v keeps =
    elim (Bool-cases (is_inactive w.conn.state)) [
      | inl free ↦ rw (free, service_connection) (inl (is_inactive_lem w.conn.state free, refl))
      | inr used ↦
          let heard = record w { conn = service_incoming readable recv w.conn } in
          let (e, says, (state, timer, ring)) = incoming-Heard recv w.conn v keeps readable in
          let Answered : World → Type 0 = λ w'.
            w'.conn.state
            ≡ answered (heard.conn.idle_timer == 0) (leb 25 (bytes_free heard.conn.send_ring))
                heard.conn.state in
          rw (used, service_connection)
            (Returns-then Answered (Round readable recv w)
              (service_state m c now heard heard.conn.state)
              (λ r. service_outgoing writable send r.1 >>= λ w'. done (r.0, w'))
              (service_state-answered m c now heard heard.conn.state refl)
              (λ ret w' acts.
                Returns-weaker m c now w' (λ w''. w''.conn.state ≡ w'.conn.state)
                  (Round readable recv w)
                  (service_outgoing writable send w' >>= λ w''. done (ret, w''))
                  (λ w'' same. inr (
                    λ free. let idle = ap is_inactive free in cc,
                    (e, says, same ∙ rw (timer, ring, state) at acts),
                  ))
                  (outgoing-state writable send ret w')))
    ]
