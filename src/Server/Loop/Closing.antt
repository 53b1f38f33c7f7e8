-- ===== src/Server/Loop/Closing.antt =====
-- The socket of a connection under `service_connection` of src/server.c.
use sdrproxy.Prelude.{
  ℕ, ◌==◌, ◌≡◌, ◌⊎◌, refl, sym, ap, subst, ◌∙◌, Bool, true, false, ◌&&◌, not, min, Bool-cases, inl,
  inr, Option, none, some, [], List, length, ltb, if◌then◌else◌, ℤ, pos, negsuc, ltb_ℤ,
  Option-cases, ◌-◌,
}
use sdrproxy.Buffer.{RingSet, ring_retr, bytes_free, bytes_stored, store, view, delete}
use sdrproxy.Util.{ChannelInfo}
use sdrproxy.Databfr.{Outcome, done, failed, ◌>>=◌}
use sdrproxy.Databfr.Ops.{Allocator, data_ring_ops}
use sdrproxy.Databfr.Spec.{Packet}
use sdrproxy.Descriptors.{close}
use sdrproxy.Outcomes.{Ensures, Ensures-bind, Ensures-any, Ensures-weaker}
use sdrproxy.History.{ConnHistData}
use sdrproxy.Server.{
  ServrState, inactive, init, sendchan, sendadc, shutdown, ConnectionData, World, Received,
  received, try_again, connection_error, closed_by_peer, Sent, sent, send_again, broken_pipe,
  send_error, maxpacketsize, history_of, unread, put_channel_data, put_packet, put_adc_data,
  server_rcv_to_ring, check_server_incoming, service_incoming, service_state, service_outgoing,
  send_to_client, is_sending, is_inactive, service_connection,
}

-- The connection is the same, with the same socket open.
abbrev Same : World → World → Type 0
Same w w' =
    (w'.conn.csocket ≡ w.conn.csocket)
    × (is_inactive w'.conn.state ≡ is_inactive w.conn.state)
    × (w'.fds ≡ w.fds)

-- It is the same, or its socket is closed and it is free.
abbrev pub Closes : World → World → Type 0
Closes w w' =
    Same w w' ⊎ ((is_inactive w'.conn.state ≡ true) × (w'.fds ≡ close w.conn.csocket w.fds))

put_packet-Same :
    (w : World) (now : ℤ) (h : ConnHistData) (w' : World) (o : Option Packet)
    → Same w w'
    → Ensures (λ r. Same w r.1) (put_packet now h w' o)
unfolding put_packet
put_packet-Same w now h w' none e = e
put_packet-Same w now h w' (some p) e = elim (Bool-cases (ltb maxpacketsize p.0.packet_len)) [
  | inl long ↦ rw (long, put_packet) tt
  | inr short ↦ elim (Bool-cases (ltb (bytes_free w'.conn.send_ring) p.0.packet_len)) [
    | inl full ↦ rw (short, full, put_packet) e
    | inr room ↦ rw (short, room, put_packet) e
  ]
]

module _ (w : World) (m : Allocator) (c : ChannelInfo) (now : ℤ) where
  put_adc_data-Same : Ensures (λ r. Same w r.1) (put_adc_data m c now w)
  unfolding put_adc_data
  put_adc_data-Same =
      Ensures-bind (λ h. Unit {0}) (λ r. Same w r.1) (history_of w) _ (Ensures-any _ _ (λ h. tt))
        (λ h _.
          Ensures-bind (λ r. Unit {0}) (λ r. Same w r.1)
            (data_ring_ops m c unread [] h.last_packet_time ring_retr w.data_ring) _
            (Ensures-any _ _ (λ r. tt))
            (λ r _. put_packet-Same w now h (record w { data_ring = r.2 }) r.1 (refl, refl, refl)))

  state-Closes :
      (s : ServrState) → s ≡ w.conn.state → Ensures (λ r. Closes w r.1) (service_state m c now w s)
  unfolding service_state
  state-Closes inactive e = inl (refl, refl, refl)
  state-Closes shutdown e = inr (refl, refl)
  state-Closes sendadc e =
      Ensures-weaker (λ r. Same w r.1) (λ r. Closes w r.1) (put_adc_data m c now w)
        (λ r same. inl same) put_adc_data-Same
  state-Closes sendchan e =
      Ensures-bind (λ r. Unit {0}) (λ r. Closes w r.1) (put_channel_data c w.conn.send_ring) _
        (Ensures-any _ _ (λ r. tt)) (λ r _. by_case (ltb_ℤ r.0 (pos 0)) r.1)
    where
      by_case :
          (b : Bool) (ring : RingSet)
          → Closes w (record w {
            conn =
                if b
                then record (w.conn) { send_ring = ring }
                else record (w.conn) { send_ring = ring; state = sendadc };
          })
      by_case true ring = inl (refl, refl, refl)
      by_case false ring = inl (refl, ap is_inactive e, refl)
  state-Closes init e = by_case (w.conn.idle_timer == 0)
    where
      by_case :
          (b : Bool)
          → Closes w (record w {
            conn =
                if b
                then record (w.conn) { state = shutdown }
                else record (w.conn) { idle_timer = w.conn.idle_timer - 1 };
          })
      by_case true = inl (refl, ap is_inactive e, refl)
      by_case false = inl (refl, refl, refl)

module _ (writable : Bool) (send : List ℕ → Sent) (w : World) where
  -- The same state and socket, and the same descriptors open.
  abbrev Kept : World → Type 0
  Kept w' = (w'.conn.csocket ≡ w.conn.csocket) × (w'.conn.state ≡ w.conn.state) × (w'.fds ≡ w.fds)

  abbrev put : Outcome (ℤ × ConnectionData) → Outcome World
  put o = o >>= λ r. done (record w { conn = r.1 })

  sent-Kept :
      (rv : Sent)
      → Ensures Kept (
          put (elim rv [
            | sent n ↦
                done (pos n, record (w.conn) { send_ring = (delete (pos n) w.conn.send_ring).1 })
            | send_again ↦ done (pos 0, w.conn)
            | broken_pipe ↦ done (negsuc 0, w.conn)
            | send_error ↦ failed
          ]))
  sent-Kept (sent n) = (refl, refl, refl)
  sent-Kept send_again = (refl, refl, refl)
  sent-Kept broken_pipe = (refl, refl, refl)
  sent-Kept send_error = tt

  send_to_client-Kept : Ensures Kept (put (send_to_client send w.conn))
  unfolding send_to_client
  send_to_client-Kept =
      elim (Option-cases (view (bytes_stored w.conn.send_ring) w.conn.send_ring)) [
        | inl nothing ↦ rw (nothing, send_to_client) tt
        | inr (bytes, there) ↦
            elim (Bool-cases (ltb maxpacketsize (bytes_stored w.conn.send_ring))) [
              | inl long ↦ rw (there, long, send_to_client) tt
              | inr short ↦ rw (there, short, send_to_client) (sent-Kept (send bytes))
            ]
      ]

  outgoing-Kept : Ensures Kept (service_outgoing writable send w)
  unfolding service_outgoing
  outgoing-Kept =
      elim (Bool-cases
        (not (bytes_stored w.conn.send_ring == 0) && (writable && is_sending w.conn.state))) [
          | inl sends ↦ rw (sends, service_outgoing) send_to_client-Kept
          | inr rests ↦ rw (rests, service_outgoing) (refl, refl, refl)
        ]

-- A connection in use is still in use, with its socket, when its client has been heard.
abbrev Used : ConnectionData → ConnectionData → Type 0
Used conn after = (after.csocket ≡ conn.csocket) × (is_inactive after.state ≡ false)

heard-Used :
    (is_lost some_bytes found : Bool) (conn got checked : ConnectionData)
    → Used conn got
    → Used conn checked
    → Used conn (
        if is_lost
        then record got { state = shutdown }
        else (if some_bytes
            then (if found then record checked { state = sendchan } else checked)
            else got))
heard-Used true some_bytes found conn got checked u u' = (u.0, refl)
heard-Used false true true conn got checked u u' = (u'.0, refl)
heard-Used false true false conn got checked u u' = u'
heard-Used false false found conn got checked u u' = u

rcv-Used :
    (recv : ℕ → Received) (conn : ConnectionData)
    → is_inactive conn.state ≡ false
    → Used conn (server_rcv_to_ring recv conn).1
unfolding server_rcv_to_ring
rcv-Used recv conn used =
    by_case (min 300 (bytes_free conn.rcv_ring) == 0) (recv (min 300 (bytes_free conn.rcv_ring)))
  where
    left : ℤ × ConnectionData → ConnectionData
    left (ret, after) = after

    by_case :
        (b : Bool) (got : Received)
        → Used conn (
            left (
              if b then (pos 0, conn) else elim got [
                | received bfr ↦ (
                  pos (length bfr),
                  record conn { rcv_ring = (store bfr (length bfr) conn.rcv_ring).1 },
                )
                | try_again ↦ (pos 0, conn)
                | connection_error ↦ (negsuc 0, conn)
                | closed_by_peer ↦ (negsuc 1, conn)
              ]))
    by_case true got = (refl, used)
    by_case false (received bfr) = (refl, used)
    by_case false try_again = (refl, used)
    by_case false connection_error = (refl, used)
    by_case false closed_by_peer = (refl, used)

incoming-Used :
    (readable : Bool) (recv : ℕ → Received) (conn : ConnectionData)
    → is_inactive conn.state ≡ false
    → Used conn (service_incoming readable recv conn)
unfolding service_incoming check_server_incoming
incoming-Used false recv conn used = (refl, used)
incoming-Used true recv conn used =
    let got = server_rcv_to_ring recv conn in
    let u = rcv-Used recv conn used in
    heard-Used (ltb_ℤ got.0 (pos 0)) (ltb_ℤ (pos 0) got.0) (check_server_incoming got.1).0 conn
      got.1 (check_server_incoming got.1).1 u u

-- A round of a connection in use leaves it in use with its socket open, or free with its socket
-- closed.
pub service_connection-Closes :
    (m : Allocator) (c : ChannelInfo) (now : ℤ) (readable writable : Bool) (recv : ℕ → Received)
    (send : List ℕ → Sent) (w : World)
    → is_inactive w.conn.state ≡ false
    → Ensures (λ r. Closes w r.1) (service_connection m c now readable writable recv send w)
unfolding service_connection
service_connection-Closes m c now readable writable recv send w used =
    let heard = record w { conn = service_incoming readable recv w.conn } in
    let whole : service_connection m c now readable writable recv send w ≡ (
        service_state m c now heard heard.conn.state >>= λ r.
        service_outgoing writable send r.1 >>= λ w'. done (r.0, w')) =
      rw (used, service_connection) refl in
    subst (Ensures (λ r. Closes w r.1)) (sym whole) (
      Ensures-bind (λ r. Closes heard r.1) (λ r. Closes w r.1)
        (service_state m c now heard heard.conn.state) _
        (state-Closes heard m c now heard.conn.state refl)
        (λ r closes.
          Ensures-bind (Kept writable send r.1) (λ r'. Closes w r'.1)
            (service_outgoing writable send r.1) _ (outgoing-Kept writable send r.1)
            (λ w' kept. last w' r.1 kept closes)))
  where
    last :
        (w' mid : World)
        → (w'.conn.csocket ≡ mid.conn.csocket)
          × (w'.conn.state ≡ mid.conn.state)
          × (w'.fds ≡ mid.fds)
        → Closes (record w { conn = service_incoming readable recv w.conn }) mid
        → Closes w w'
    last w' mid (s, t, f) (inl (s', t', f')) =
        let (socket, still) = incoming-Used readable recv w.conn used in
        inl (s ∙ s' ∙ socket, ap is_inactive t ∙ t' ∙ still ∙ sym used, f ∙ f')
    last w' mid (s, t, f) (inr (t', f')) =
        let (socket, still) = incoming-Used readable recv w.conn used in
        inr (ap is_inactive t ∙ t', f ∙ f' ∙ ap (λ k. close k w.fds) socket)
