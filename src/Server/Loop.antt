-- ===== src/Server/Loop.antt =====
-- `server_thread` of src/server.c: a round of its loop over all connections, and the making of a new
-- one. What `accept`, `select`, `recv`, `send` and `malloc` do is a parameter; addresses are left
-- out, but for that of a client, as a string.
pub mod Stay
pub mod Closing
pub mod Sockets
pub mod Safe
pub mod Remembering
pub mod Accepting
pub mod Rounds
pub mod Tests
use sdrproxy.Prelude.{
  ℕ, zero, suc, ◌+◌, ◌*◌, Bool, true, false, ◌||◌, not, Option, none, some, List, [], ◌∷◌,
  get_elem?, set, ltb, if◌then◌else◌, ℤ, pos, negsuc, ◌-ℤ◌, eqb_ℤ,
}
use sdrproxy.Buffer.{RingSet}
use sdrproxy.Buffer
use sdrproxy.Util.{ChannelInfo, prehdrlen, datahdrlen}
use sdrproxy.Databfr.{DataRing, datasize, Outcome, done, fault, failed, blocked, ◌>>=◌}
use sdrproxy.Databfr.Ops.{Allocator}
use sdrproxy.Descriptors.{Descriptors, close}
use sdrproxy.History.{ConnHistData, clhistory_lookup, id_add, id_retr, id_remove_old}
use sdrproxy.Server.{
  ServrState, inactive, init, ConnectionData, World, Received, Sent, serverrcvbfrsize, is_inactive,
  service_connection,
}

-- MAXCLIENTCONNECTIONS, MAX_OUTGOING_PORTS, SERVERPORTNO, SRVR_IDLE_TIMEOUT, ADCDATASIZE and
-- DATASIZE; SECONDS_OVERLAP in milliseconds.
abbrev pub maxclientconnections : ℕ
maxclientconnections = 10

abbrev pub serverportno : ℕ
serverportno = 16065

abbrev pub srvr_idle_timeout : ℕ
srvr_idle_timeout = 150

abbrev pub adcdatasize : ℕ
adcdatasize = 4

abbrev pub seconds_overlap : ℤ
seconds_overlap = pos 4000

-- The variables of `server_thread`; `first_id_lst` and `server_conn_history` are its two lists of
-- records, and `data_ring` is what src/databfr.c keeps.
pub record ServerThread : Type 0 where
  pub conn_data : List ConnectionData
  pub first_id_lst : List ConnHistData
  pub server_conn_history : List ConnHistData
  pub data_ring : DataRing
  pub packet_sent : Bool
  pub prev_exp_time : ℤ
  pub fds : Descriptors

-- The `while` of `create_connection_data`: the first connection that is inactive.
unfoldable pub first_inactive : List ConnectionData → Option ℕ
first_inactive [] = none
first_inactive (conn ∷ rest) =
    let later = first_inactive rest in
    if is_inactive conn.state then some 0 else elim later [ none ↦ none | some i ↦ some (suc i) ]

-- The size of a new send ring.
abbrev pub send_bfr_size : ChannelInfo → ℕ
send_bfr_size c = prehdrlen + datahdrlen + c.sps * c.num_channels * adcdatasize + 1

-- `create_connection_data`: the number of the connection and its rings, or `none` for -1.
unfoldable pub create_connection_data :
    (ℕ → Option (List ℕ))
    → ChannelInfo
    → List ConnectionData
    → Outcome (Option (ℕ × RingSet × RingSet))
create_connection_data malloc c conn_data = elim (first_inactive conn_data) [
  | none ↦ done none
  | some conn_no ↦ elim (Buffer.alloc malloc serverrcvbfrsize) [
    | none ↦ failed
    | some rcv_ring ↦ elim (Buffer.alloc malloc (send_bfr_size c)) [
      | none ↦ failed
      | some send_ring ↦ done (some (conn_no, rcv_ring, send_ring))
    ]
  ]
]

-- The time that a client that comes back is set to. It is computed in `double`s, where dividing by 60
-- and multiplying by 60 gives the same number, but for its rounding.
abbrev pub set_back : ℤ → ℤ
set_back last_packet_time = last_packet_time -ℤ seconds_overlap

-- The record of the client in the history, made or set back: its place, and the list.
unfoldable pub client_record : ℤ → List ℕ → ℕ → List ConnHistData → Outcome (ℕ × List ConnHistData)
client_record unset remote_ip server_port hist =
    elim (clhistory_lookup unset hist remote_ip server_port (pos 0) id_retr) [
      | none ↦ fault
      | some (some at, hist') ↦ elim (get_elem? hist' at) [
        | none ↦ fault
        | some h ↦
            done (at, set hist' at (record h { last_packet_time = set_back h.last_packet_time }))
      ]
      | some (none, hist') ↦
          elim (clhistory_lookup unset hist' remote_ip server_port (pos 0) id_add) [
            | none ↦ fault
            | some (none, hist'') ↦ fault
            | some (some at, hist'') ↦ done (at, hist'')
          ]
    ]

-- `client_hist_record->last_update = time(NULL)`
unfoldable pub touch : ℤ → ℕ → List ConnHistData → List ConnHistData
touch now at hist = elim (get_elem? hist at) [
  | none ↦ hist
  | some h ↦ set hist at (record h { last_update = now })
]

-- `get_new_connection`. `accepted` is the descriptor and the address of the client, or `none` if
-- `accept` fails.
unfoldable pub get_new_connection :
    (ℕ → Option (List ℕ))
    → ℤ
    → ChannelInfo
    → ℤ
    → Option (ℕ × List ℕ)
    → ℕ
    → ServerThread
    → Outcome (ℤ × ServerThread)
get_new_connection malloc unset c now none listener_no s = done (negsuc 0, s)
get_new_connection malloc unset c now (some (newfd, remote_ip)) listener_no s =
    create_connection_data malloc c s.conn_data >>= λ o. elim o [
      | none ↦ done (negsuc 0, record s { fds = close newfd (newfd ∷ s.fds) })
      | some (new_conn, rcv_ring, send_ring) ↦
          client_record unset remote_ip (serverportno + listener_no) s.first_id_lst >>= λ r. done (
            pos 0,
            record s {
              conn_data = set s.conn_data new_conn (record {
                csocket = newfd;
                state = init;
                history = r.0;
                idle_timer = srvr_idle_timeout;
                rcv_ring = rcv_ring;
                send_ring = send_ring;
              });
              first_id_lst = touch now r.0 r.1;
              fds = newfd ∷ s.fds;
            },
          )
    ]

-- What the system answers in one round: which sockets `select` finds, by the number of the
-- connection, and the new clients, by the number of the listener, where there are any: `arrives` is
-- what `accept` gives of the address, `newfd` the descriptor that it gives.
pub record Answers : Type 0 where
  pub select_fails : Bool
  pub readable : ℕ → Bool
  pub writable : ℕ → Bool
  pub recv : ℕ → ℕ → Received
  pub send : ℕ → List ℕ → Sent
  pub arrives : ℕ → Option (Option (List ℕ))
  pub newfd : Descriptors → ℕ
  pub now : ℤ

abbrev pub with_descriptor : ℕ → Option (List ℕ) → Option (ℕ × List ℕ)
with_descriptor newfd none = none
with_descriptor newfd (some remote_ip) = some (newfd, remote_ip)

-- A connection is put back after its service.
abbrev pub put_back : ℕ → Bool → World → ServerThread → ServerThread
put_back conn_no sent w s = record s {
  conn_data = set s.conn_data conn_no w.conn;
  first_id_lst = w.hist;
  data_ring = w.data_ring;
  packet_sent = s.packet_sent || sent;
  fds = w.fds;
}

-- What SRV_CLOSECMD asks for: the socket of every connection in use is closed, and the connection is
-- free.
unfoldable pub close_sockets : List ConnectionData → Descriptors → Descriptors
close_sockets [] fds = fds
close_sockets (conn ∷ rest) fds =
    close_sockets rest (if is_inactive conn.state then fds else close conn.csocket fds)

unfoldable pub close_all : List ConnectionData → List ConnectionData
close_all [] = []
close_all (conn ∷ rest) =
    (if is_inactive conn.state then conn else record conn { state = inactive }) ∷ close_all rest

module _ (m : Allocator) (malloc : ℕ → Option (List ℕ)) (unset : ℤ) (c : ChannelInfo)
    (a : Answers) where
  -- `packet_sent |= service_connection(conn_data,conn_no,&readfds,&writefds)`
  unfoldable pub service : ℕ → ServerThread → Outcome ServerThread
  service conn_no s = elim (get_elem? s.conn_data conn_no) [
    | none ↦ fault
    | some conn ↦
        service_connection m c a.now (a.readable conn_no) (a.writable conn_no) (a.recv conn_no)
          (a.send conn_no)
          (record { conn = conn; hist = s.first_id_lst; data_ring = s.data_ring; fds = s.fds })
        >>= λ r. done (put_back conn_no (not (eqb_ℤ r.0 (pos 0))) r.1 s)
  ]

  -- The `for` over the connections: `left` more, from `conn_no` on.
  unfoldable pub service_all : ℕ → ℕ → ServerThread → Outcome ServerThread
  service_all zero conn_no s = done s
  service_all (suc left) conn_no s = service conn_no s >>= λ s'. service_all left (conn_no + 1) s'

  -- A listener that has a new client.
  unfoldable pub listen : ℕ → ServerThread → Outcome ServerThread
  listen listener_no s = elim (a.arrives listener_no) [
    | none ↦ done s
    | some accepted ↦
        get_new_connection malloc unset c a.now (with_descriptor (a.newfd s.fds) accepted)
          listener_no s
        >>= λ r. done r.1
  ]

  -- The expiry of connections.
  unfoldable pub expire : ServerThread → Outcome ServerThread
  expire s =
      let expirery_time = a.now -ℤ pos datasize in
      if eqb_ℤ expirery_time s.prev_exp_time
      then done s
      else elim (clhistory_lookup unset s.server_conn_history [] 0 expirery_time id_remove_old) [
        | none ↦ fault
        | some (_, left) ↦
            done (record s { server_conn_history = left; prev_exp_time = expirery_time })
      ]

  -- The rest of a round, where SRV_CLOSECMD is not set.
  unfoldable pub server_round : ServerThread → Outcome ServerThread
  server_round s =
      if a.select_fails
      then failed
      else (service_all maxclientconnections 0 s >>= λ s'.
          listen 0 s' >>= λ s''. listen 1 s'' >>= λ s'''. expire s''')

  -- One round of the loop: whether the thread ends, and what is left. `closecmd` is SRV_CLOSECMD; the
  -- listening sockets are closed in `server_thread` (Server/Thread).
  unfoldable pub server_loop : Bool → ServerThread → Outcome (Bool × ServerThread)
  server_loop closecmd s =
      if closecmd
      then done (
        true,
        record s { conn_data = close_all s.conn_data; fds = close_sockets s.conn_data s.fds },
      )
      else (server_round s >>= λ s'. done (false, s'))
