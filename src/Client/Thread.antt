-- ===== src/Client/Thread.antt =====
-- `client_thread` of src/client.c: the state machine of the connection with the remote server. What
-- the system answers in one round of its loop is a parameter; logging and the delays are left out.
pub mod Moves
pub mod Invariant
pub mod Heard
pub mod Sound
pub mod Inhibited
pub mod Request
pub mod Changes
pub mod Connecting
mod Tests
use sdrproxy.Prelude.{
  ℕ, ◌+◌, ◌==◌, min, Bool, true, false, ◌&&◌, ◌||◌, not, Option, none, some, List, [], ◌∷◌, ◌++◌,
  length, take, ltb, leb, if◌then◌else◌, ℤ, pos, negsuc, ◌-ℤ◌, ltb_ℤ, eqb_ℤ,
}
use sdrproxy.Buffer.{RingSet, bytes_free, isempty, isfull}
use sdrproxy.Buffer
use sdrproxy.Util.{ChannelInfo}
use sdrproxy.Databfr.{Outcome, done, fault, failed, blocked, ◌>>=◌}
use sdrproxy.Databfr.Ops.{Allocator}
use sdrproxy.Server.{
  Received, received, try_again, connection_error, closed_by_peer, chanrequest, decimal,
}
use sdrproxy.Socket.{SendResult, AddrInfo, Connected, send_to_host, get_socket, sdr_connect}
use sdrproxy.Client.{Tm, ClientData, bfrsize, check_data}

-- `enum rcvstate_t`
pub data RcvState : Type 0 where
  invalid get_addr getting_socket reconnect connect requesting get_data : RcvState

-- `state >= CLI_STATE_SEND_CHANNEL_REQUEST`
abbrev pub is_communicating : RcvState → Bool
is_communicating requesting = true
is_communicating get_data = true
is_communicating _ = false

-- POSTCONNECTIONTIMOUT and CLIENTCYCLETIMER
abbrev pub postconnectiontimout : ℤ
postconnectiontimout = pos 15000

abbrev pub clientcycletimer : ℤ
clientcycletimer = pos 100

-- The variables of `client_thread`, and `struct clientcomm`, whose flag CHANCHANGE is `chanchange`.
-- `input` holds the receive ring, the new channel information and the data ring. `writefds` says
-- whether the socket is in the set of that name, which is kept from round to round.
pub record ClientThread : Type 0 where
  pub state : RcvState
  pub failtimer : ℤ
  pub good_addr : AddrInfo
  pub writefds : Bool
  pub input : ClientData
  pub send_ring : RingSet
  pub old_chan_info : ChannelInfo
  pub chanchange : Bool
  pub chan_info : ChannelInfo

-- What the system answers in one round, and the addresses of the host.
pub record Answers : Type 0 where
  pub select_fails : Bool
  pub readable : Bool
  pub writable : Bool
  pub recv : ℕ → Received
  pub send : List ℕ → SendResult
  pub cli_addr : List AddrInfo
  pub socket : AddrInfo → ℤ
  pub close_fails : Bool
  pub connects : Connected

-- `client_rcv_to_ring`
unfoldable pub client_rcv_to_ring : (ℕ → Received) → RingSet → ℤ × RingSet
client_rcv_to_ring recv rcv_ring =
    let free_bytes = min bfrsize (bytes_free rcv_ring) in
    if free_bytes == 0 then (pos 0, rcv_ring) else elim (recv free_bytes) [
      | received rcv_bfr ↦
          (pos (length rcv_bfr), (Buffer.store rcv_bfr (length rcv_bfr) rcv_ring).1)
      | try_again ↦ (pos 0, rcv_ring)
      | connection_error ↦ (negsuc 0, rcv_ring)
      | closed_by_peer ↦ (negsuc 1, rcv_ring)
    ]

-- "SEND%dAD", or CHANREQUEST
unfoldable pub request_text : ℤ → List ℕ
request_text (pos client_no) =
    (83 ∷ 69 ∷ 78 ∷ 68 ∷ []) ++ (decimal (client_no + 1) client_no ++ (65 ∷ 68 ∷ []))
request_text (negsuc _) = chanrequest

-- `send_channel_request`: CHANREQUESTLEN bytes of the text, as many as CHANREQUEST has.
unfoldable pub send_channel_request : RingSet → ℤ → ℤ × RingSet
send_channel_request send_ring client_no =
    if leb (length chanrequest) (bytes_free send_ring)
    then (pos 0, (Buffer.store (request_text client_no) (length chanrequest) send_ring).1)
    else (negsuc 0, send_ring)

-- What is done with the return of `client_rcv_to_ring`.
unfoldable pub heard : ℤ × RingSet → ClientThread → ClientThread
heard (rv, rcv_ring) t =
    let got = record t { input = record (t.input) { ring = rcv_ring } } in
    let told =
      if ltb_ℤ rv (pos 0)
      then record got { state = reconnect }
      else (if eqb_ℤ rv (pos 0)
          then record got { failtimer = t.failtimer -ℤ clientcycletimer }
          else record got { failtimer = postconnectiontimout }) in
    if ltb_ℤ (pos 0) told.failtimer then told else record told { state = requesting }

-- The first part of a round: what the remote server has to say.
unfoldable pub hear : Answers → ClientThread → Outcome ClientThread
hear a t =
    if is_communicating t.state
    then (if a.select_fails
        then failed
        else (let seen = record t { writefds = a.writable } in
            done (
              if not (isfull t.send_ring) && a.readable
              then heard (client_rcv_to_ring a.recv t.input.ring) seen
              else seen)))
    else done t

-- `old_chan_info.sps != new_chan_info.sps || ...`
abbrev pub differs : ChannelInfo → ChannelInfo → Bool
differs old new = not (old.sps == new.sps) || not (old.num_channels == new.num_channels)

-- The main thread is told of new channel information.
unfoldable pub notify : ClientData → ClientThread → ClientThread
notify d t =
    if differs t.old_chan_info d.new_channel_info
    then record t {
      input = d;
      chanchange = true;
      old_chan_info = t.chan_info;
      chan_info = d.new_channel_info;
    }
    else record t { input = d }

-- The last part of a round: sending what the ring holds.
unfoldable pub send_pending : Answers → ClientThread → Outcome ClientThread
send_pending a t =
    if is_communicating t.state && (not (isempty t.send_ring) && t.writefds)
    then (send_to_host a.send t.send_ring >>= λ r.
        done
          (record t { send_ring = r.1; state = if ltb_ℤ r.0 (pos 0) then reconnect else t.state }))
    else done t

module _ (timegm : Tm → ℤ) (m : Allocator) (c : ChannelInfo) (client_no : ℤ) where
  -- CLI_STATE_GET_DATA. A `check_data` that does not end is a thread that is blocked.
  unfoldable pub receive_data : ClientThread → Outcome ClientThread
  receive_data t =
      check_data timegm m c t.chanchange (record (t.input) { new_channel_info = t.old_chan_info })
      >>= λ o. elim o [ none ↦ blocked | some d ↦ done (notify d t) ]

  -- The `switch`
  unfoldable pub act : Answers → RcvState → ClientThread → Outcome ClientThread
  act a getting_socket t =
      let (rsocket, good_addr) = get_socket a.socket t.good_addr a.cli_addr in
      if ltb_ℤ rsocket (pos 0)
      then failed
      else done (record t { good_addr = good_addr; state = connect })
  act a reconnect t = if a.close_fails then failed else done (record t { state = getting_socket })
  act a connect t =
      if ltb_ℤ (sdr_connect a.connects) (pos 0)
      then failed
      else done (record t {
        input = record (t.input) { ring = Buffer.init t.input.ring };
        send_ring = Buffer.init t.send_ring;
        state = requesting;
      })
  act a requesting t =
      let (rv, send_ring) = send_channel_request t.send_ring client_no in
      done (
        if t.writefds
        then record t {
          send_ring = send_ring;
          state = if eqb_ℤ rv (pos 0) then get_data else t.state;
        }
        else t)
  act a get_data t = receive_data t
  act a invalid t = failed
  act a get_addr t = failed

  -- One round of the main loop.
  unfoldable pub client_round : Answers → ClientThread → Outcome ClientThread
  client_round a t = hear a t >>= λ h. act a h.state h >>= λ t'. send_pending a t'
