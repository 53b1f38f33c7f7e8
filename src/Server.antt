-- ===== src/Server.antt =====
-- One connection of src/server.c: `struct connectiondata`, what is received from its client, what is
-- put on its send ring and sent, and `service_connection`. What `recv` and `send` do is a parameter.
pub mod Incoming
pub mod Outgoing
pub mod Sending
pub mod Heard
pub mod States
pub mod Moves
pub mod Idle
pub mod Invariant
pub mod Service
pub mod Stream
pub mod Loop
pub mod Setup
pub mod Thread
mod Tests
use sdrproxy.Prelude.{
  ℕ, zero, suc, ◌+◌, ◌-◌, ◌*◌, ◌/◌, ◌%◌, Bool, true, false, ◌&&◌, ◌||◌, not, Option, none, some,
  List, [], ◌∷◌, ◌++◌, length, get_elem?, set, min, ltb, leb, ◌==◌, if◌then◌else◌, ℤ, pos, negsuc,
  ltb_ℤ,
}
use sdrproxy.Buffer.{RingSet, ring_retr, bytes_free, bytes_stored, alloc}
use sdrproxy.Buffer
use sdrproxy.Buffer.Search.{search_ring}
use sdrproxy.Util.{ChannelInfo}
use sdrproxy.Databfr.{PacketInfo, DataRing, Outcome, done, fault, failed, blocked, ◌>>=◌}
use sdrproxy.Databfr.Ops.{Allocator, Reply, data_ring_ops}
use sdrproxy.History.{ConnHistData}
use sdrproxy.Descriptors.{Descriptors, close}

-- `enum servr_state`
pub data ServrState : Type 0 where
  inactive init sendchan sendadc shutdown : ServrState

-- SERVERRCVBFRSIZE, CHANREQUEST, CHANINFOLEN and MAXPACKETSIZE
abbrev pub serverrcvbfrsize : ℕ
serverrcvbfrsize = 300

abbrev pub chanrequest : List ℕ
chanrequest = 83 ∷ 69 ∷ 78 ∷ 68 ∷ 32 ∷ 65 ∷ 68 ∷ []

abbrev pub chaninfolen : ℕ
chaninfolen = 25

abbrev pub maxpacketsize : ℕ
maxpacketsize = 6431

-- `struct connectiondata`; `history` is the place of its record in the history. The address and what
-- only the log reads are left out.
pub record ConnectionData : Type 0 where
  pub csocket : ℕ
  pub state : ServrState
  pub history : ℕ
  pub idle_timer : ℕ
  pub rcv_ring : RingSet
  pub send_ring : RingSet

-- What `recv` gives: bytes, an EAGAIN, another error, or the end of the connection.
pub data Received : Type 0 where
  received : List ℕ → Received
  try_again connection_error closed_by_peer : Received

-- `server_rcv_to_ring`. `recv n` is what the socket gives when asked for `n` bytes at most.
unfoldable pub server_rcv_to_ring : (ℕ → Received) → ConnectionData → ℤ × ConnectionData
server_rcv_to_ring recv conn_data =
    let free_bytes = min serverrcvbfrsize (bytes_free conn_data.rcv_ring) in
    if free_bytes == 0 then (pos 0, conn_data) else elim (recv free_bytes) [
      | received bfr ↦ (
        pos (length bfr),
        record conn_data { rcv_ring = (Buffer.store bfr (length bfr) conn_data.rcv_ring).1 },
      )
      | try_again ↦ (pos 0, conn_data)
      | connection_error ↦ (negsuc 0, conn_data)
      | closed_by_peer ↦ (negsuc 1, conn_data)
    ]

-- What `check_server_incoming` takes off the receive ring, for what its search gave.
unfoldable pub take_request : ℤ → RingSet → Bool × RingSet
take_request (pos rpos) ring =
    let before = if ltb 0 rpos then (Buffer.retr rpos ring).1 else ring in
    (true, (Buffer.delete (pos (length chanrequest)) before).1)
take_request (negsuc _) ring =
    let rpos = bytes_stored ring in
    (
      false,
      if ltb (length chanrequest) rpos
          then (Buffer.retr (rpos - length chanrequest) ring).1
          else ring,
    )

-- `check_server_incoming`
unfoldable pub check_server_incoming : ConnectionData → Bool × ConnectionData
check_server_incoming conn_data =
    let (found, ring) =
      take_request (search_ring chanrequest conn_data.rcv_ring) conn_data.rcv_ring in
    (found, record conn_data { rcv_ring = ring })

-- The digits of a number, as `%d` prints them; a number has fewer digits than its value plus one.
unfoldable pub decimal : ℕ → ℕ → List ℕ
decimal zero n = []
decimal (suc fuel) n =
    let front = decimal fuel (n / 10) in
    if ltb n 10 then (48 + n) ∷ [] else front ++ ((48 + n % 10) ∷ [])

-- `%*d`: spaces first, up to the width.
unfoldable pub pad : ℕ → List ℕ → List ℕ
pad zero text = text
pad (suc width) text =
    let rest = pad width text in if ltb (length rest) (suc width) then 32 ∷ rest else rest

-- "SPS: %3d Chans: %1d Type: %1d"
unfoldable pub print_chan_info : ChannelInfo → List ℕ
print_chan_info c =
    (83 ∷ 80 ∷ 83 ∷ 58 ∷ 32 ∷ [])
    ++ (pad 3 (decimal (c.sps + 1) c.sps)
        ++ ((32 ∷ 67 ∷ 104 ∷ 97 ∷ 110 ∷ 115 ∷ 58 ∷ 32 ∷ [])
            ++ (decimal (c.num_channels + 1) c.num_channels
                ++ ((32 ∷ 84 ∷ 121 ∷ 112 ∷ 101 ∷ 58 ∷ 32 ∷ []) ++ decimal (c.type + 1) c.type))))

-- `put_channel_data`. A text longer than its buffer of CHANINFOLEN + 1 bytes is written past it.
unfoldable pub put_channel_data : ChannelInfo → RingSet → Outcome (ℤ × RingSet)
put_channel_data c ring =
    if leb chaninfolen (bytes_free ring)
    then (if ltb chaninfolen (length (print_chan_info c))
        then fault
        else done (pos 0, (Buffer.store (print_chan_info c) chaninfolen ring).1))
    else done (negsuc 0, ring)

-- What one connection works on: itself, the history, the data ring, and the descriptors open.
pub record World : Type 0 where
  pub conn : ConnectionData
  pub hist : List ConnHistData
  pub data_ring : DataRing
  pub fds : Descriptors

-- `conn_data->history`
unfoldable pub history_of : World → Outcome ConnHistData
history_of w = elim (get_elem? w.hist w.conn.history) [ none ↦ fault | some h ↦ done h ]

-- The rest of `put_adc_data` once RING_RETR has answered. A packet longer than `bfr` is written past
-- it by RING_RETR.
unfoldable pub put_packet :
    ℤ → ConnHistData → World → Option (PacketInfo × List ℕ) → Outcome (ℤ × World)
put_packet now h w none = done (pos 0, w)
put_packet now h w (some (element, bfr)) =
    if ltb maxpacketsize element.packet_len
    then fault
    else (if ltb (bytes_free w.conn.send_ring) element.packet_len
        then done (pos 0, w)
        else done (
          pos 1,
          record w {
            conn = record (w.conn) {
              send_ring = (Buffer.store bfr element.packet_len w.conn.send_ring).1;
            };
            hist =
                set w.hist w.conn.history
                  (record h { last_packet_time = element.packet_time; last_update = now });
          },
        ))

-- What is not read of the `element` and `bfr` that RING_RETR fills.
abbrev pub unread : PacketInfo
unread = record { packet_len = 0; packet_time = pos 0; packet_id = 0; valid = false }

-- `put_adc_data`, at the time `now`.
unfoldable pub put_adc_data : Allocator → ChannelInfo → ℤ → World → Outcome (ℤ × World)
put_adc_data m c now w = history_of w >>= λ h.
    data_ring_ops m c unread [] h.last_packet_time ring_retr w.data_ring >>= λ r.
    put_packet now h (record w { data_ring = r.2 }) r.1

-- What `send` does with the bytes that it is given, of which there is one at least: it takes some of
-- them, or fails with an EAGAIN, an EPIPE or another error. It then never takes none, so `sent 0`
-- stands for nothing that it does.
pub data Sent : Type 0 where
  sent : ℕ → Sent
  send_again broken_pipe send_error : Sent

-- `send_to_client`. A send ring that holds more than `sendbfr` is copied past its end.
unfoldable pub send_to_client : (List ℕ → Sent) → ConnectionData → Outcome (ℤ × ConnectionData)
send_to_client send conn_data =
    elim (Buffer.view (bytes_stored conn_data.send_ring) conn_data.send_ring) [
      | none ↦ fault
      | some sendbfr ↦
          if ltb maxpacketsize (bytes_stored conn_data.send_ring)
          then fault
          else elim (send sendbfr) [
            | sent rv ↦ done (
              pos rv,
              record conn_data { send_ring = (Buffer.delete (pos rv) conn_data.send_ring).1 },
            )
            | send_again ↦ done (pos 0, conn_data)
            | broken_pipe ↦ done (negsuc 0, conn_data)
            | send_error ↦ failed
          ]
    ]

abbrev with_conn : World → ConnectionData → World
with_conn w conn_data = record w { conn = conn_data }

-- The first part of `service_connection`: what the client has to say.
unfoldable pub service_incoming : Bool → (ℕ → Received) → ConnectionData → ConnectionData
service_incoming readable recv conn_data =
    if readable
    then (let (rv, got) = server_rcv_to_ring recv conn_data in
        let (found, checked) = check_server_incoming got in
        if ltb_ℤ rv (pos 0)
        then record got { state = shutdown }
        else (if ltb_ℤ (pos 0) rv
            then (if found then record checked { state = sendchan } else checked)
            else got))
    else conn_data

-- Its `switch`: the value of `packet_sent`, and what is left.
unfoldable pub service_state :
    Allocator → ChannelInfo → ℤ → World → ServrState → Outcome (ℤ × World)
service_state m c now w inactive = done (pos 0, w)
service_state m c now w shutdown = done (
  pos 0,
  record w { conn = record (w.conn) { state = inactive }; fds = close w.conn.csocket w.fds },
)
service_state m c now w sendchan = put_channel_data c w.conn.send_ring >>= λ r.
    let put = record (w.conn) { send_ring = r.1 } in
    done (pos 0, with_conn w (if ltb_ℤ r.0 (pos 0) then put else record put { state = sendadc }))
service_state m c now w sendadc = put_adc_data m c now w
service_state m c now w init = done (
  pos 0,
  with_conn w (
      if w.conn.idle_timer == 0
      then record (w.conn) { state = shutdown }
      else record (w.conn) { idle_timer = w.conn.idle_timer - 1 }),
)

abbrev pub is_sending : ServrState → Bool
is_sending sendchan = true
is_sending sendadc = true
is_sending _ = false

-- Its last part: sending what the ring holds.
unfoldable pub service_outgoing : Bool → (List ℕ → Sent) → World → Outcome World
service_outgoing writable send w =
    if not (bytes_stored w.conn.send_ring == 0) && (writable && is_sending w.conn.state)
    then (send_to_client send w.conn >>= λ r. done (with_conn w r.1))
    else done w

abbrev pub is_inactive : ServrState → Bool
is_inactive inactive = true
is_inactive _ = false

-- `service_connection`, whole. `readable` and `writable` are what `select` found of the socket.
unfoldable pub service_connection :
    Allocator
    → ChannelInfo
    → ℤ
    → Bool
    → Bool
    → (ℕ → Received)
    → (List ℕ → Sent)
    → World
    → Outcome (ℤ × World)
service_connection m c now readable writable recv send w =
    if is_inactive w.conn.state
    then done (pos 0, w)
    else (let heard = with_conn w (service_incoming readable recv w.conn) in
        service_state m c now heard heard.conn.state >>= λ r.
        service_outgoing writable send r.1 >>= λ w'. done (r.0, w'))
