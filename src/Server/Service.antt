-- ===== src/Server/Service.antt =====
-- A round of `service_connection` of src/server.c, on a connection for which the invariant holds.
use sdrproxy.Prelude.{
  ℕ, zero, suc, ◌-◌, ◌≤◌, ◌≡◌, ◌≢◌, refl, sym, ap, subst, arith, Bool, true, false, ◌&&◌, not,
  Bool-cases, inl, inr, Option, none, some, List, [], ◌∷◌, length, get_elem?, set, ltb_no, leb,
  ◌==◌, if◌then◌else◌, ℤ, pos, ltb_ℤ,
}
use sdrproxy.Buffer.{RingSet, bytes_free, bytes_stored}
use sdrproxy.Buffer.Valid.{store-bfrsize, IsValid, store-IsValid, free-add-stored}
use sdrproxy.Buffer.Contents.{contents}
use sdrproxy.Util.{ChannelInfo}
use sdrproxy.Databfr.{Outcome, done, fault, failed, blocked, ◌>>=◌}
use sdrproxy.Databfr.Valid
use sdrproxy.Databfr.Spec.{Packet, next_after}
use sdrproxy.Databfr.Ops.{Allocator}
use sdrproxy.History.{ConnHistData}
use sdrproxy.Descriptors.{close}
use sdrproxy.Server.{
  ServrState, inactive, init, sendchan, sendadc, shutdown, ConnectionData, World, chaninfolen,
  Received, Sent, sent, send_again, broken_pipe, send_error, print_chan_info, put_channel_data,
  put_adc_data, send_to_client, service_incoming, service_state, service_outgoing, is_sending,
  is_inactive, service_connection,
}
use sdrproxy.Server.Outgoing.{Placed, Puts, put_adc_data-Puts}
use sdrproxy.Server.Sending.{Sends, send_to_client-Sends}
use sdrproxy.Server.Invariant.{IsSound, with_rcv, with_send, with_fds, incoming-Keeps}

-- A round that returns, and leaves the invariant.
abbrev pub Sound : ℕ → Outcome (ℤ × World) → Type 0
Sound size (done (ret, w)) = IsSound size w
Sound size fault = ⊥
Sound size failed = ⊥
Sound size blocked = ⊥

get_elem?-set :
    {A : Type 0} (xs : List A) (i : ℕ) (v : A)
    → (a : A) × (get_elem? xs i ≡ some a)
    → (a : A) × (get_elem? (set xs i v) i ≡ some a)
get_elem?-set [] i v (a, e) = (a, e)
get_elem?-set (x ∷ xs) zero v e = (v, refl)
get_elem?-set (x ∷ xs) (suc i) v e = get_elem?-set xs i v e

module _ (size : ℕ) (now : ℤ) (w : World) (sound : IsSound size w) where
  Placed-recorded :
      (h : ConnHistData) (o : Option Packet) (ret : ℤ) (w' : World)
      → Placed now w h o ret w'
      → (h' : ConnHistData) × (get_elem? w'.hist w.conn.history ≡ some h')
  Placed-recorded h none ret w' (e, (same, hist)) = rw hist sound.recorded
  Placed-recorded h (some p) ret w' (inl (full, e, (same, hist))) = rw hist sound.recorded
  Placed-recorded h (some p) ret w' (inr (room, e, put, hist)) =
      rw hist (get_elem?-set w.hist w.conn.history _ sound.recorded)

  pub Puts-Sound : (h : ConnHistData) (o : Outcome (ℤ × World)) → Puts now w h size o → Sound size o
  Puts-Sound h (done (ret, w')) (sends, stored, unlocked, same, conn, same_size, placed) = record {
    receives = subst IsValid (sym (ap (λ t. t.rcv_ring) conn)) sound.receives;
    sends = sends;
    sendbfr = rw same_size sound.sendbfr;
    stored = stored;
    slots = sound.slots;
    unlocked = unlocked;
    recorded = rw (ap (λ t. t.history) conn) (
        Placed-recorded h (next_after h.last_packet_time (Valid.contents w.data_ring)) ret w'
          placed);
  }
  Puts-Sound h fault e = elim e [ ]
  Puts-Sound h failed e = elim e [ ]
  Puts-Sound h blocked e = elim e [ ]

  module _ (m : Allocator) (c : ChannelInfo)
      (printed : length (print_chan_info c) ≤ chaninfolen) where
    abbrev Put : Outcome (ℤ × RingSet) → Type 0
    Put (done (ret, ring)) = IsValid ring × (ring.bfrsize ≡ w.conn.send_ring.bfrsize)
    Put fault = ⊥
    Put failed = ⊥
    Put blocked = ⊥

    put_channel_data-Put : Put (put_channel_data c w.conn.send_ring)
    unfolding put_channel_data
    put_channel_data-Put = elim (Bool-cases (leb chaninfolen (bytes_free w.conn.send_ring))) [
      | inr full ↦ rw (full, put_channel_data) (sound.sends, refl)
      | inl room ↦
          rw (room, ltb_no chaninfolen (length (print_chan_info c)) printed, put_channel_data)
            (
              store-IsValid sound.sends (print_chan_info c) chaninfolen,
              store-bfrsize (print_chan_info c) chaninfolen w.conn.send_ring,
            )
    ]

    Put-Sound :
        (o : Outcome (ℤ × RingSet))
        → Put o
        → Sound size (
            o >>= λ r. done (
              pos 0,
              record w {
                conn =
                    if ltb_ℤ r.0 (pos 0)
                    then record (w.conn) { send_ring = r.1 }
                    else record (w.conn) { send_ring = r.1; state = sendadc };
              },
            ))
    Put-Sound (done (ret, ring)) (v, same) = by_case (ltb_ℤ ret (pos 0))
      where
        by_case :
            (b : Bool)
            → IsSound size (record w {
              conn =
                  if b
                  then record (w.conn) { send_ring = ring }
                  else record (w.conn) { send_ring = ring; state = sendadc };
            })
        by_case true =
            with_send size w sound (record (w.conn) { send_ring = ring }) v same refl refl
        by_case false =
            with_send size w sound (record (w.conn) { send_ring = ring; state = sendadc }) v same
              refl refl
    Put-Sound fault h = elim h [ ]
    Put-Sound failed h = elim h [ ]
    Put-Sound blocked h = elim h [ ]

    state-Sound : (s : ServrState) → Sound size (service_state m c now w s)
    unfolding service_state
    state-Sound inactive = sound
    state-Sound shutdown =
        with_fds size (record w { conn = record (w.conn) { state = inactive } })
          (close w.conn.csocket w.fds)
          (with_send size w sound (record (w.conn) { state = inactive }) sound.sends refl refl refl)
    state-Sound sendchan = Put-Sound (put_channel_data c w.conn.send_ring) put_channel_data-Put
    state-Sound sendadc =
        let (h, placed) = sound.recorded in
        Puts-Sound h (put_adc_data m c now w)
          (put_adc_data-Puts now w h sound.sends sound.stored sound.slots m c placed sound.unlocked)
    state-Sound init = by_case (w.conn.idle_timer == 0)
      where
        by_case :
            (b : Bool)
            → IsSound size (record w {
              conn =
                  if b
                  then record (w.conn) { state = shutdown }
                  else record (w.conn) { idle_timer = w.conn.idle_timer - 1 };
            })
        by_case true =
            with_send size w sound (record (w.conn) { state = shutdown }) sound.sends refl refl refl
        by_case false =
            with_send size w sound (record (w.conn) { idle_timer = w.conn.idle_timer - 1 })
              sound.sends refl refl refl

-- A socket takes at most the bytes that it is given, and fails only with EAGAIN or EPIPE.
pub record IsSocket (send : List ℕ → Sent) : Type 0 where
  pub at_most : (bytes : List ℕ) (n : ℕ) → send bytes ≡ sent n → n ≤ length bytes
  pub no_error : (bytes : List ℕ) → send bytes ≢ send_error

module _ (send : List ℕ → Sent) (socket : IsSocket send) (size : ℕ) (ret : ℤ) (w : World)
    (sound : IsSound size w) where
  Sends-Sound :
      (answer : Sent) (o : Outcome (ℤ × ConnectionData))
      → answer ≢ send_error
      → Sends w.conn answer o
      → Sound size ((o >>= λ r. done (record w { conn = r.1 })) >>= λ w'. done (ret, w'))
  Sends-Sound (sent n) (done (rv, after)) fine (e, v, same, same_size, bytes) =
      with_send size w sound after v same_size (ap (λ t. t.rcv_ring) same)
        (ap (λ t. t.history) same)
  Sends-Sound send_again (done (rv, after)) fine (e, same) = rw same sound
  Sends-Sound broken_pipe (done (rv, after)) fine (e, same) = rw same sound
  Sends-Sound send_error o fine s = absurd (fine refl)
  Sends-Sound (sent n) fault fine s = elim s [ ]
  Sends-Sound (sent n) failed fine s = elim s [ ]
  Sends-Sound (sent n) blocked fine s = elim s [ ]
  Sends-Sound send_again fault fine s = elim s [ ]
  Sends-Sound send_again failed fine s = elim s [ ]
  Sends-Sound send_again blocked fine s = elim s [ ]
  Sends-Sound broken_pipe fault fine s = elim s [ ]
  Sends-Sound broken_pipe failed fine s = elim s [ ]
  Sends-Sound broken_pipe blocked fine s = elim s [ ]

  outgoing-Sound :
      (writable : Bool) → Sound size (service_outgoing writable send w >>= λ w'. done (ret, w'))
  unfolding service_outgoing
  outgoing-Sound writable =
      elim (Bool-cases
        (not (bytes_stored w.conn.send_ring == 0) && (writable && is_sending w.conn.state))) [
          | inl sends ↦
              rw (sends, service_outgoing)
                (Sends-Sound (send (contents w.conn.send_ring)) (send_to_client send w.conn)
                  (socket.no_error (contents w.conn.send_ring))
                  (send_to_client-Sends w.conn send sound.sends
                    (let fits = sound.sendbfr in omega (arith, free-add-stored sound.sends))
                    socket.at_most))
          | inr rests ↦ rw (rests, service_outgoing) sound
        ]

Sound-then :
    (size : ℕ) (o : Outcome (ℤ × World)) (f : ℤ × World → Outcome (ℤ × World))
    → Sound size o
    → ((ret : ℤ) (w : World) → IsSound size w → Sound size (f (ret, w)))
    → Sound size (o >>= f)
Sound-then size (done (ret, w)) f p h = h ret w p
Sound-then size fault f p h = elim p [ ]
Sound-then size failed f p h = elim p [ ]
Sound-then size blocked f p h = elim p [ ]

-- If the rings and the data ring of a connection are valid, what they hold fits the buffers of
-- MAXPACKETSIZE bytes, the mutex is free, the connection has a record in the history, the channel
-- information prints in CHANINFOLEN bytes, and the socket takes at most what it is given and fails
-- only with EAGAIN or EPIPE, then a round of service_connection returns, whatever the client sends,
-- and all of this still holds.
pub service_connection-Sound :
    (m : Allocator) (c : ChannelInfo) (now : ℤ) (readable writable : Bool) (recv : ℕ → Received)
    (send : List ℕ → Sent) (size : ℕ) (w : World)
    → length (print_chan_info c) ≤ chaninfolen
    → IsSocket send
    → IsSound size w
    → Sound size (service_connection m c now readable writable recv send w)
unfolding service_connection
service_connection-Sound m c now readable writable recv send size w printed socket sound =
    elim (Bool-cases (is_inactive w.conn.state)) [
      | inl free ↦ rw (free, service_connection) sound
      | inr used ↦
          let heard = record w { conn = service_incoming readable recv w.conn } in
          let kept = incoming-Keeps size w sound readable recv in
          let still : IsSound size heard =
            with_rcv size w sound (service_incoming readable recv w.conn) kept.0 kept.1 kept.2 in
          rw (used, service_connection)
            (Sound-then size (service_state m c now heard heard.conn.state)
              (λ r. service_outgoing writable send r.1 >>= λ w'. done (r.0, w'))
              (state-Sound size now heard still m c printed heard.conn.state)
              (λ ret w' sound'. outgoing-Sound send socket size ret w' sound' writable))
    ]
