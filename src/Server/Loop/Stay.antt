-- ===== src/Server/Loop/Stay.antt =====
-- The records of the history under `service_connection` of src/server.c.
use sdrproxy.Prelude.{
  ℕ, ◌==◌, ◌≡◌, refl, ◌∙◌, Bool, true, false, ◌&&◌, not, Bool-cases, inl, inr, Option, none, some,
  [], List, length, length-set, ltb, if◌then◌else◌, ℤ,
}
use sdrproxy.Buffer.{ring_retr, bytes_free, bytes_stored}
use sdrproxy.Util.{ChannelInfo}
use sdrproxy.Databfr.{done, ◌>>=◌}
use sdrproxy.Databfr.Ops.{Allocator, data_ring_ops}
use sdrproxy.Databfr.Spec.{Packet}
use sdrproxy.Outcomes.{Ensures, Ensures-bind, Ensures-any}
use sdrproxy.History.{ConnHistData}
use sdrproxy.Server.{
  ServrState, inactive, init, sendchan, sendadc, shutdown, World, Received, Sent, maxpacketsize,
  history_of, unread, put_channel_data, put_packet, put_adc_data, service_incoming, service_state,
  service_outgoing, send_to_client, is_sending, is_inactive, service_connection,
}

module _ (w : World) where
  abbrev pub Stays : ℤ × World → Type 0
  Stays r = length r.1.hist ≡ length w.hist

  put_packet-Stays :
      (now : ℤ) (h : ConnHistData) (w' : World) (o : Option Packet)
      → w'.hist ≡ w.hist
      → Ensures Stays (put_packet now h w' o)
  unfolding put_packet
  put_packet-Stays now h w' none e = rw e refl
  put_packet-Stays now h w' (some p) e = elim (Bool-cases (ltb maxpacketsize p.0.packet_len)) [
    | inl long ↦ rw (long, put_packet) tt
    | inr short ↦ elim (Bool-cases (ltb (bytes_free w'.conn.send_ring) p.0.packet_len)) [
      | inl full ↦ rw (short, full, put_packet) (rw e refl)
      | inr room ↦
          rw (short, room, put_packet)
            (length-set w'.hist w'.conn.history
                (record h { last_packet_time = p.0.packet_time; last_update = now })
              ∙ rw e refl)
    ]
  ]

  put_adc_data-Stays :
      (m : Allocator) (c : ChannelInfo) (now : ℤ) → Ensures Stays (put_adc_data m c now w)
  unfolding put_adc_data
  put_adc_data-Stays m c now =
      Ensures-bind (λ h. Unit {0}) Stays (history_of w) _ (Ensures-any _ _ (λ h. tt))
        (λ h _.
          Ensures-bind (λ r. Unit {0}) Stays
            (data_ring_ops m c unread [] h.last_packet_time ring_retr w.data_ring) _
            (Ensures-any _ _ (λ r. tt))
            (λ r _. put_packet-Stays now h (record w { data_ring = r.2 }) r.1 refl))

  state-Stays :
      (m : Allocator) (c : ChannelInfo) (now : ℤ) (s : ServrState)
      → Ensures Stays (service_state m c now w s)
  unfolding service_state
  state-Stays m c now inactive = refl
  state-Stays m c now shutdown = refl
  state-Stays m c now sendchan =
      Ensures-bind (λ r. Unit {0}) Stays (put_channel_data c w.conn.send_ring) _
        (Ensures-any _ _ (λ r. tt)) (λ r _. refl)
  state-Stays m c now sendadc = put_adc_data-Stays m c now
  state-Stays m c now init = refl

outgoing-Stays :
    (writable : Bool) (send : List ℕ → Sent) (w : World)
    → Ensures (λ w'. w'.hist ≡ w.hist) (service_outgoing writable send w)
unfolding service_outgoing
outgoing-Stays writable send w =
    by_case (not (bytes_stored w.conn.send_ring == 0) && (writable && is_sending w.conn.state))
  where
    by_case :
        (b : Bool)
        → Ensures
            (λ w'. w'.hist ≡ w.hist)
            (if b
              then (send_to_client send w.conn >>= λ r. done (record w { conn = r.1 }))
              else done w)
    by_case true =
        Ensures-bind (λ r. Unit {0}) (λ w'. w'.hist ≡ w.hist) (send_to_client send w.conn) _
          (Ensures-any _ _ (λ r. tt)) (λ r _. refl)
    by_case false = refl

pub service_connection-Stays :
    (m : Allocator) (c : ChannelInfo) (now : ℤ) (readable writable : Bool) (recv : ℕ → Received)
    (send : List ℕ → Sent) (w : World)
    → Ensures (Stays w) (service_connection m c now readable writable recv send w)
unfolding service_connection
service_connection-Stays m c now readable writable recv send w =
    elim (Bool-cases (is_inactive w.conn.state)) [
      | inl free ↦ rw (free, service_connection) refl
      | inr used ↦
          let heard = record w { conn = service_incoming readable recv w.conn } in
          rw (used, service_connection)
            (Ensures-bind (Stays w) (Stays w) (service_state m c now heard heard.conn.state) _
              (state-Stays heard m c now heard.conn.state)
              (λ r stays.
                Ensures-bind (λ w'. w'.hist ≡ r.1.hist) (Stays w)
                  (service_outgoing writable send r.1) _ (outgoing-Stays writable send r.1)
                  (λ w' same. rw same stays)))
    ]
