-- ===== src/Server/Loop/Tests.antt =====
-- `server_thread` of src/server.c with ten connections, of which one is used.
use sdrproxy.Prelude.{
  ℕ, zero, suc, ◌≤◌, refl, ap, arith, min, max, true, false, ltb, if◌then◌else◌, Option, none, some,
  List, [], ◌∷◌, length, replicate, length-replicate, pos,
}
use sdrproxy.Buffer.{RingSet}
use sdrproxy.Buffer.Valid.{IsValid}
use sdrproxy.Databfr.Tests.{ring_of, ring_of-IsValid, channels}
use sdrproxy.History.{ConnHistData}
use sdrproxy.Server.{
  ServrState, inactive, sendadc, ConnectionData, received, Sent, sent, send_error, chaninfolen,
  print_chan_info, decimal, pad,
}
use sdrproxy.Server.Service.{IsSocket}
use sdrproxy.Server.Loop.{ServerThread, Answers, get_new_connection}
use sdrproxy.Server.Loop.Safe.{AllUsable, IsSafe}
use sdrproxy.Server.Loop.Accepting.{Supplies, Accepts, get_new_connection-Accepts}

abbrev some_bytes : RingSet
some_bytes = record { readptr = 3; writeptr = 1; bfrsize = 4; ring = 9 ∷ 0 ∷ 0 ∷ 7 ∷ [] }

some_bytes-IsValid : IsValid some_bytes
some_bytes-IsValid = record { read_in = omega arith; write_in = omega arith; whole = refl }

abbrev connection : ServrState → ConnectionData
connection state = record {
  csocket = 7;
  state = state;
  history = 0;
  idle_timer = 2;
  rcv_ring = some_bytes;
  send_ring = some_bytes;
}

abbrev client : ConnHistData
client = record {
  last_update = pos 0;
  last_packet_time = pos 9000;
  ip = 49 ∷ [];
  server_port = 16065;
}

abbrev server : ServerThread
server = record {
  conn_data = connection sendadc ∷ replicate 9 (connection inactive);
  first_id_lst = client ∷ [];
  server_conn_history = [];
  data_ring = ring_of 2;
  packet_sent = false;
  prev_exp_time = pos 0;
  fds = 3 ∷ 4 ∷ 7 ∷ [];
}

unused : (n : ℕ) → AllUsable 1 (replicate n (connection inactive))
unused zero = tt
unused (suc n) = (λ used. cc, unused n)

server-IsSafe : IsSafe 2 server
server-IsSafe = record {
  usable = (λ used. (some_bytes-IsValid, some_bytes-IsValid, omega arith, omega arith), unused 9);
  ten = refl;
  stored = ring_of-IsValid 2 (omega arith);
  slots = omega arith;
  unlocked = refl;
  forgotten = refl;
}

abbrev pub malloc : ℕ → Option (List ℕ)
malloc n = some (replicate n 0)

abbrev length_of : Option (List ℕ) → ℕ
length_of none = 0
length_of (some mem) = length mem

pub malloc-Supplies : Supplies malloc
malloc-Supplies = record {
  enough = λ n mem e. let same = ap length_of e in omega (arith, length-replicate {A = ℕ} n 0);
  always = λ n e. cc;
}

abbrev took : Sent → ℕ
took (sent n) = n
took _ = 0

abbrev failures : Sent → ℕ
failures send_error = 1
failures _ = 0

abbrev pub one_byte : List ℕ → Sent
one_byte bytes = sent (min 1 (length bytes))

pub one_byte-IsSocket : IsSocket one_byte
one_byte-IsSocket = record {
  at_most = λ bytes n e. let same = ap took e in omega arith;
  no_error = λ bytes e. let same = ap failures e in omega arith;
}

abbrev pub largest : List ℕ → ℕ
largest [] = 0
largest (fd ∷ fds) = max fd (largest fds)

-- The client comes a second time, to the first listener.
abbrev pub answers : Answers
answers = record {
  select_fails = false;
  readable = λ i. true;
  writable = λ i. true;
  recv = λ i n. received (65 ∷ []);
  send = λ i. one_byte;
  arrives = λ i. if ltb i 1 then some (some (49 ∷ [])) else none;
  newfd = λ fds. suc (largest fds);
  now = pos 20000;
}

pub printed : length (print_chan_info channels) ≤ chaninfolen
unfolding print_chan_info decimal pad
printed = omega arith

get_new_connection-Accepts_example :
    Accepts malloc malloc-Supplies
      (pos 0)
      channels
      (pos 20000)
      0
      server
      (some (8, 49 ∷ []))
      (get_new_connection malloc (pos 0) channels (pos 20000) (some (8, 49 ∷ [])) 0 server)
get_new_connection-Accepts_example =
    get_new_connection-Accepts malloc malloc-Supplies (pos 0) channels (pos 20000) 0 server
      (some (8, 49 ∷ []))
