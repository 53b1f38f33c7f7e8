-- ===== src/Server/Thread.antt =====
-- `server_thread` of src/server.c from its start to its end: its connections, its listening sockets,
-- and its loop, a round for each answer of the system.
pub mod Orderly
pub mod Life
mod Tests
use sdrproxy.Prelude.{
  ℕ, zero, suc, ◌||◌, Bool, true, false, Option, none, some, List, [], ◌∷◌, replicate,
  if◌then◌else◌, ℤ, pos,
}
use sdrproxy.Buffer.{RingSet}
use sdrproxy.Util.{ChannelInfo}
use sdrproxy.Databfr.{DataRing, Outcome, done, fault, failed, blocked, ◌>>=◌}
use sdrproxy.Databfr.Ops.{Allocator}
use sdrproxy.Server.{ServrState, inactive, ConnectionData}
use sdrproxy.Server.Loop.{ServerThread, Answers, maxclientconnections, serverportno, server_loop}
use sdrproxy.Descriptors.{Descriptors}
use sdrproxy.Server.Setup.{Network, server_setup, close_listeners}

-- MAX_OUTGOING_PORTS
abbrev pub max_outgoing_ports : ℕ
max_outgoing_ports = 2

-- The memory of a connection as `calloc` gives it, in the state that is set then.
abbrev unused_ring : RingSet
unused_ring = record { readptr = 0; writeptr = 0; bfrsize = 0; ring = [] }

abbrev pub unused_connection : ConnectionData
unused_connection = record {
  csocket = 0;
  state = inactive;
  history = 0;
  idle_timer = 0;
  rcv_ring = unused_ring;
  send_ring = unused_ring;
}

-- The variables where the loop begins.
unfoldable pub server_start : DataRing → Descriptors → ServerThread
server_start data_ring fds = record {
  conn_data = replicate maxclientconnections unused_connection;
  first_id_lst = [];
  server_conn_history = [];
  data_ring = data_ring;
  packet_sent = false;
  prev_exp_time = pos 0;
  fds = fds;
}

-- A round of the loop: whether SRV_CLOSECMD is set, what the system answers, and what the other threads
-- have done to the data ring since the last round.
pub record Round : Type 0 where
  pub closecmd : Bool
  pub answers : Answers
  pub others : DataRing → DataRing

module _ (m : Allocator) (malloc : ℕ → Option (List ℕ)) (unset : ℤ) (c : ChannelInfo) where
  -- The loop, for these rounds: whether the thread ends in one of them.
  unfoldable pub server_run : List Round → ServerThread → Outcome (Bool × ServerThread)
  server_run [] s = done (false, s)
  server_run (now ∷ rest) s =
      server_loop m malloc unset c now.answers now.closecmd
        (record s { data_ring = now.others s.data_ring })
      >>= λ r. if r.0 then done r else server_run rest r.1

  -- What is left after these rounds: whether the thread has ended, and its variables. `calloc` is
  -- whether there is memory for the connections.
  unfoldable pub server_thread :
      {Addr : Type 0}
      → Network Addr
      → Bool
      → List Round
      → DataRing
      → Descriptors
      → Outcome (Bool × ServerThread)
  server_thread net calloc rounds data_ring fds =
      if calloc
      then (server_setup net max_outgoing_ports serverportno fds >>= λ l.
          server_run rounds (server_start data_ring l.1) >>= λ r.
          if r.0
          then (close_listeners l.0 (r.1).fds >>= λ fds'. done (true, record (r.1) { fds = fds' }))
          else done (false, r.1))
      else failed
