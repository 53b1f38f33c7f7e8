-- ===== src/Client/Thread/Moves.antt =====
-- The states of `client_thread` of src/client.c, and what a round of its loop may change.
use sdrproxy.Prelude.{
  ◌≡◌, refl, Bool, true, false, ◌&&◌, not, Bool-cases, inl, inr, Option, none, some, ℤ, pos, ltb_ℤ,
  eqb_ℤ, if◌then◌else◌, ◌-ℤ◌,
}
use sdrproxy.Buffer.{RingSet, isfull, isempty}
use sdrproxy.Util.{ChannelInfo}
use sdrproxy.Databfr.{done, failed, blocked, ◌>>=◌}
use sdrproxy.Databfr.Ops.{Allocator}
use sdrproxy.Outcomes.{Ensures, Ensures-bind, Ensures-any, Ensures-weaker}
use sdrproxy.Socket.{send_to_host, get_socket, sdr_connect}
use sdrproxy.Client.{Tm, ClientData, check_data}
use sdrproxy.Client.Thread.{
  RcvState, invalid, get_addr, getting_socket, reconnect, connect, requesting, get_data,
  is_communicating, ClientThread, Answers, client_rcv_to_ring, send_channel_request, heard, hear,
  differs, notify, receive_data, act, send_pending, client_round, postconnectiontimout,
  clientcycletimer,
}

-- What hearing the server may change: it may be lost, or be silent for too long.
pub data Hears : RcvState → RcvState → Type 0 where
  quiet : {s : RcvState} → Hears s s
  lost : {s : RcvState} → is_communicating s ≡ true → Hears s reconnect
  silent : {s : RcvState} → is_communicating s ≡ true → Hears s requesting

-- What the `switch` may change.
pub data Acts : RcvState → RcvState → Type 0 where
  opens : Acts getting_socket connect
  closes : Acts reconnect getting_socket
  connects : Acts connect requesting
  asks : Acts requesting get_data
  waits : Acts requesting requesting
  reads : Acts get_data get_data

-- What sending may change.
pub data Sends : RcvState → RcvState → Type 0 where
  calm : {s : RcvState} → Sends s s
  dropped : {s : RcvState} → is_communicating s ≡ true → Sends s reconnect

pub data Round (s s' : RcvState) : Type 0 where
  round : (mid next : RcvState) → Hears s mid → Acts mid next → Sends next s' → Round s s'

heard-Hears :
    (r : ℤ × RingSet) (t : ClientThread)
    → is_communicating t.state ≡ true
    → Hears t.state (heard r t).state
unfolding heard
heard-Hears r t talks = by_case (ltb_ℤ r.0 (pos 0)) (eqb_ℤ r.0 (pos 0))
  where
    over :
        (b : Bool) (told : ClientThread)
        → Hears t.state told.state
        → Hears t.state (if b then told else record told { state = requesting }).state
    over true told h = h
    over false told h = silent talks

    by_case :
        (is_lost no_bytes : Bool)
        → let got = record t { input = record (t.input) { ring = r.1 } } in
          let told =
            if is_lost
            then record got { state = reconnect }
            else (if no_bytes
                then record got { failtimer = t.failtimer -ℤ clientcycletimer }
                else record got { failtimer = postconnectiontimout }) in
          Hears t.state
            (if ltb_ℤ (pos 0) told.failtimer
              then told
              else record told { state = requesting }).state
    by_case true no_bytes =
        over (ltb_ℤ (pos 0) t.failtimer)
          (record t { input = record (t.input) { ring = r.1 }; state = reconnect }) (lost talks)
    by_case false true =
        over (ltb_ℤ (pos 0) (t.failtimer -ℤ clientcycletimer))
          (record t {
            input = record (t.input) { ring = r.1 };
            failtimer = t.failtimer -ℤ clientcycletimer;
          })
          quiet
    by_case false false =
        over true
          (record t { input = record (t.input) { ring = r.1 }; failtimer = postconnectiontimout })
          quiet

hear-Hears : (a : Answers) (t : ClientThread) → Ensures (λ h. Hears t.state h.state) (hear a t)
unfolding hear
hear-Hears a t = by_case (is_communicating t.state) a.select_fails refl
  where
    seen : ClientThread
    seen = record t { writefds = a.writable }

    got :
        (b : Bool)
        → is_communicating t.state ≡ true
        → Hears t.state
            (if b then heard (client_rcv_to_ring a.recv t.input.ring) seen else seen).state
    got true talks = heard-Hears (client_rcv_to_ring a.recv t.input.ring) seen talks
    got false talks = quiet

    by_case :
        (talks fails : Bool)
        → is_communicating t.state ≡ talks
        → Ensures
            (λ h. Hears t.state h.state)
            (if talks
              then (if fails
                  then failed
                  else done (
                      if not (isfull t.send_ring) && a.readable
                      then heard (client_rcv_to_ring a.recv t.input.ring) seen
                      else seen))
              else done t)
    by_case false fails e = quiet
    by_case true true e = tt
    by_case true false e = got (not (isfull t.send_ring) && a.readable) e

pub notify-state : (d : ClientData) (t : ClientThread) → (notify d t).state ≡ t.state
unfolding notify
notify-state d t = by_case (differs t.old_chan_info d.new_channel_info)
  where
    by_case :
        (b : Bool)
        → (if b
            then record t {
              input = d;
              chanchange = true;
              old_chan_info = t.chan_info;
              chan_info = d.new_channel_info;
            }
            else record t { input = d }).state
          ≡ t.state
    by_case true = refl
    by_case false = refl

send_pending-Sends :
    (a : Answers) (t : ClientThread) → Ensures (λ t'. Sends t.state t'.state) (send_pending a t)
unfolding send_pending
send_pending-Sends a t =
    by_case (is_communicating t.state) (not (isempty t.send_ring) && t.writefds) refl
  where
    after :
        (b : Bool)
        → is_communicating t.state ≡ true
        → Sends t.state (if b then reconnect else t.state)
    after true talks = dropped talks
    after false talks = calm

    by_case :
        (talks some_bytes : Bool)
        → is_communicating t.state ≡ talks
        → Ensures
            (λ t'. Sends t.state t'.state)
            (if talks && some_bytes
              then (send_to_host a.send t.send_ring >>= λ r. done (record t {
                send_ring = r.1;
                state = if ltb_ℤ r.0 (pos 0) then reconnect else t.state;
              }))
              else done t)
    by_case false some_bytes e = calm
    by_case true false e = calm
    by_case true true e =
        Ensures-bind (λ r. Unit {0}) (λ t'. Sends t.state t'.state)
          (send_to_host a.send t.send_ring) _ (Ensures-any _ _ (λ r. tt))
          (λ r h. after (ltb_ℤ r.0 (pos 0)) e)

module _ (timegm : Tm → ℤ) (m : Allocator) (c : ChannelInfo) (client_no : ℤ) (a : Answers) where
  act-Acts :
      (s : RcvState) (t : ClientThread)
      → t.state ≡ s
      → Ensures (λ t'. Acts s t'.state) (act timegm m c client_no a s t)
  unfolding act receive_data
  act-Acts getting_socket t e =
      by_case (ltb_ℤ (get_socket a.socket t.good_addr a.cli_addr).0 (pos 0))
    where
      by_case :
          (b : Bool)
          → Ensures
              (λ t'. Acts getting_socket t'.state)
              (if b
                then failed
                else done (record t {
                  good_addr = (get_socket a.socket t.good_addr a.cli_addr).1;
                  state = connect;
                }))
      by_case true = tt
      by_case false = opens
  act-Acts reconnect t e = by_case a.close_fails
    where
      by_case :
          (b : Bool)
          → Ensures
              (λ t'. Acts reconnect t'.state)
              (if b then failed else done (record t { state = getting_socket }))
      by_case true = tt
      by_case false = closes
  act-Acts connect t e = elim (Bool-cases (ltb_ℤ (sdr_connect a.connects) (pos 0))) [
    | inl fails ↦ rw (fails, act) tt
    | inr works ↦ rw (works, act) connects
  ]
  act-Acts requesting t e =
      by_case t.writefds (eqb_ℤ (send_channel_request t.send_ring client_no).0 (pos 0))
    where
      by_case :
          (writable put : Bool)
          → Acts requesting
              (if writable
                then record t {
                  send_ring = (send_channel_request t.send_ring client_no).1;
                  state = if put then get_data else t.state;
                }
                else t).state
      by_case true true = asks
      by_case true false = rw e waits
      by_case false put = rw e waits
  act-Acts get_data t e =
      Ensures-bind (λ o. Unit {0}) (λ t'. Acts get_data t'.state)
        (check_data timegm m c t.chanchange
          (record (t.input) { new_channel_info = t.old_chan_info }))
        _ (Ensures-any _ _ (λ o. tt)) (λ o h. told o)
    where
      told :
          (o : Option ClientData)
          → Ensures
              (λ t'. Acts get_data t'.state)
              (elim o [ none ↦ blocked | some d ↦ done (notify d t) ])
      told none = tt
      told (some d) = rw (notify-state d t, e) reads
  act-Acts invalid t e = tt
  act-Acts get_addr t e = tt

  -- A round of the client's thread that returns moves its state only as the states allow: the
  -- server may be lost or silent for too long, then the switch takes one step from getting the
  -- socket over connecting and requesting to getting the data, or from reconnecting to getting the
  -- socket, and then the connection may be dropped.
  pub client_round-Round :
      (t : ClientThread)
      → Ensures (λ t'. Round t.state t'.state) (client_round timegm m c client_no a t)
  unfolding client_round
  client_round-Round t =
      let Q : ClientThread → Type 0 = λ t'. Round t.state t'.state in
      Ensures-bind (λ h. Hears t.state h.state) Q (hear a t) _ (hear-Hears a t)
        (λ h hears.
          Ensures-bind (λ t'. Acts h.state t'.state) Q (act timegm m c client_no a h.state h) _
            (act-Acts h.state h refl)
            (λ t' acts.
              Ensures-weaker (λ t''. Sends t'.state t''.state) Q (send_pending a t')
                (λ t'' sends. round h.state t'.state hears acts sends) (send_pending-Sends a t')))
