-- ===== src/Server/States.antt =====
-- The states of a connection of src/server.c, and what serving them changes.
use sdrproxy.Prelude.{
  ◌≡◌, ◌∙◌, refl, sym, Bool, length, ltb, leb, Option, none, some, [], ◌==◌, Bool-cases, inl, inr,
  ℤ, if◌then◌else◌,
}
use sdrproxy.Buffer.{ring_retr, bytes_free}
use sdrproxy.History.{ConnHistData}
use sdrproxy.Databfr.Spec.{Packet}
use sdrproxy.Util.{ChannelInfo}
use sdrproxy.Databfr.{Outcome, done, fault, failed, blocked, ◌>>=◌}
use sdrproxy.Databfr.Ops.{Allocator, data_ring_ops}
use sdrproxy.Server.{
  ServrState, inactive, init, sendchan, sendadc, shutdown, history_of, unread, World, maxpacketsize,
  print_chan_info, put_channel_data, put_packet, put_adc_data, service_state,
}

-- The state after the service of a state: whether the timer has run out, and whether there is room
-- for the channel information.
abbrev pub answered : Bool → Bool → ServrState → ServrState
answered timed_out room inactive = inactive
answered timed_out room init = if timed_out then shutdown else init
answered timed_out room sendchan = if room then sendadc else sendchan
answered timed_out room sendadc = sendadc
answered timed_out room shutdown = inactive

-- Of a call that returns, and of what it leaves.
abbrev pub Returns : (World → Type 0) → Outcome (ℤ × World) → Type 0
Returns P (done (ret, w)) = P w
Returns P fault = Unit {0}
Returns P failed = Unit {0}
Returns P blocked = Unit {0}

Returns-bind :
    {A : Type 0} (P : World → Type 0) (o : Outcome A) (f : A → Outcome (ℤ × World))
    → ((a : A) → Returns P (f a))
    → Returns P (o >>= f)
Returns-bind P (done a) f h = h a
Returns-bind P fault f h = tt
Returns-bind P failed f h = tt
Returns-bind P blocked f h = tt

module _ (now : ℤ) (h : ConnHistData) (w : World) where
  put_packet-state :
      (o : Option Packet) → Returns (λ w'. w'.conn.state ≡ w.conn.state) (put_packet now h w o)
  unfolding put_packet
  put_packet-state none = refl
  put_packet-state (some p) = elim (Bool-cases (ltb maxpacketsize p.0.packet_len)) [
    | inl long ↦ rw (long, put_packet) tt
    | inr short ↦ elim (Bool-cases (ltb (bytes_free w.conn.send_ring) p.0.packet_len)) [
      | inl full ↦ rw (short, full, put_packet) refl
      | inr room ↦ rw (short, room, put_packet) refl
    ]
  ]

module _ (m : Allocator) (c : ChannelInfo) (now : ℤ) (w : World) where
  put_adc_data-state : Returns (λ w'. w'.conn.state ≡ w.conn.state) (put_adc_data m c now w)
  unfolding put_adc_data
  put_adc_data-state =
      let Same : World → Type 0 = λ w'. w'.conn.state ≡ w.conn.state in
      Returns-bind Same (history_of w)
        (λ h. data_ring_ops m c unread [] h.last_packet_time ring_retr w.data_ring >>= λ r.
          put_packet now h (record w { data_ring = r.2 }) r.1)
        (λ h.
          Returns-bind Same (data_ring_ops m c unread [] h.last_packet_time ring_retr w.data_ring)
            (λ r. put_packet now h (record w { data_ring = r.2 }) r.1)
            (λ r. put_packet-state now h (record w { data_ring = r.2 }) r.1))

  pub Returns-weaker :
      (P Q : World → Type 0) (o : Outcome (ℤ × World))
      → ((w' : World) → P w' → Q w')
      → Returns P o
      → Returns Q o
  Returns-weaker P Q (done (ret, w')) h p = h w' p
  Returns-weaker P Q fault h p = tt
  Returns-weaker P Q failed h p = tt
  Returns-weaker P Q blocked h p = tt

  pub service_state-answered :
      (s : ServrState)
      → s ≡ w.conn.state
      → Returns
          (λ w'.
            w'.conn.state
            ≡ answered (w.conn.idle_timer == 0) (leb 25 (bytes_free w.conn.send_ring)) s)
          (service_state m c now w s)
  unfolding service_state put_channel_data
  service_state-answered inactive e = sym e
  service_state-answered shutdown e = refl
  service_state-answered sendadc e =
      Returns-weaker (λ w'. w'.conn.state ≡ w.conn.state) (λ w'. w'.conn.state ≡ sendadc)
        (put_adc_data m c now w) (λ w' same. same ∙ sym e) put_adc_data-state
  service_state-answered sendchan e = elim (Bool-cases (leb 25 (bytes_free w.conn.send_ring))) [
    | inr full ↦ rw (full, put_channel_data) (sym e)
    | inl room ↦ elim (Bool-cases (ltb 25 (length (print_chan_info c)))) [
      | inl long ↦ rw (room, long, put_channel_data) tt
      | inr fits ↦ rw (room, fits, put_channel_data) refl
    ]
  ]
  service_state-answered init e = elim (Bool-cases (w.conn.idle_timer == 0)) [
    | inl over ↦ rw (over, service_state) refl
    | inr left ↦ rw (left, service_state) (sym e)
  ]
