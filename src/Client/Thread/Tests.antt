-- ===== src/Client/Thread/Tests.antt =====
-- `client_thread` of src/client.c with small rings.
use sdrproxy.Prelude.{
  ℕ, ◌≤◌, ◌≡◌, refl, arith, min, true, false, List, [], ◌∷◌, length, ℤ, pos, negsuc,
}
use sdrproxy.Buffer.{RingSet, bytes_stored, bytes_free}
use sdrproxy.Buffer.Valid.{IsValid}
use sdrproxy.Buffer.Contents.{contents}
use sdrproxy.Util.{ChannelInfo}
use sdrproxy.Databfr.Tests.{ring_of, allocator, channels}
use sdrproxy.Server.{
  ConnectionData, Received, received, init, server_rcv_to_ring, check_server_incoming,
}
use sdrproxy.Socket.{SendResult, taken, af_inet, other_family, AddrInfo, connected}
use sdrproxy.Outcomes.{Ensures}
use sdrproxy.Client.{Tm, ClientData}
use sdrproxy.Client.Thread.{
  ClientThread, Answers, get_data, reconnect, client_round, send_channel_request, notify,
}
use sdrproxy.Client.Thread.Moves.{Round, client_round-Round}
use sdrproxy.Client.Thread.Changes.{first, second, notify_again}
use sdrproxy.Buffer
use sdrproxy.Client.Thread.Request.{request-found}

abbrev timegm : Tm → ℤ
timegm tm = pos 0

abbrev empty_ring : RingSet
empty_ring = record {
  readptr = 2;
  writeptr = 2;
  bfrsize = 9;
  ring = 0 ∷ 0 ∷ 0 ∷ 0 ∷ 0 ∷ 0 ∷ 0 ∷ 0 ∷ 0 ∷ [];
}

empty_ring-IsValid : IsValid empty_ring
empty_ring-IsValid = record { read_in = omega arith; write_in = omega arith; whole = refl }

-- The bytes 7 and 9, of which one has wrapped.
abbrev some_bytes : RingSet
some_bytes = record { readptr = 3; writeptr = 1; bfrsize = 4; ring = 9 ∷ 0 ∷ 0 ∷ 7 ∷ [] }

abbrev no_channels : ChannelInfo
no_channels = record { sps = 0; num_channels = 0; type = 0 }

abbrev input : ClientData
input = record {
  pre_hdr = record { datalen = 0; type = 0; flags = 0 };
  packet_id = 0;
  new_channel_info = channels;
  ring = some_bytes;
  data_ring = ring_of 2;
}

abbrev host : AddrInfo
host = record { ai_family = af_inet; ai_addr = 1 }

abbrev receiving : ClientThread
receiving = record {
  state = get_data;
  failtimer = pos 100;
  good_addr = host;
  writefds = true;
  input = input;
  send_ring = some_bytes;
  old_chan_info = no_channels;
  chanchange = true;
  chan_info = no_channels;
}

abbrev send : List ℕ → SendResult
send bytes = taken (min 1 (length bytes))

abbrev answers : Answers
answers = record {
  select_fails = false;
  readable = true;
  writable = true;
  recv = λ n. received (5 ∷ []);
  send = send;
  cli_addr = host ∷ [];
  socket = λ p. pos 3;
  close_fails = false;
  connects = connected;
}

client_round-Round_example :
    Ensures
      (λ t'. Round get_data t'.state)
      (client_round timegm allocator channels (negsuc 0) answers receiving)
client_round-Round_example =
    client_round-Round timegm allocator channels (negsuc 0) answers receiving

notify_again_example :
    let t = receiving in
    ((notify input t).chanchange ≡ true)
    × ((notify input t).chan_info ≡ channels)
    × ((notify input (first t input input input)).chanchange ≡ true)
    × ((notify input (first t input input input)).chan_info ≡ channels)
    × ((notify input (second t input input input)).chanchange ≡ false)
    × ((notify input (second t input input input)).chan_info ≡ channels)
notify_again_example = notify_again receiving input input input refl refl refl refl

abbrev new_connection : ConnectionData
new_connection = record {
  csocket = 7;
  state = init;
  history = 0;
  idle_timer = 150;
  rcv_ring = empty_ring;
  send_ring = empty_ring;
}

free_bytes : 7 ≤ bytes_free empty_ring
unfolding bytes_free
free_bytes = omega arith

empty_contents : contents empty_ring ≡ []
unfolding bytes_stored
empty_contents = refl

abbrev arriving : ℤ → ℕ → Received
arriving client_no n = received (contents (send_channel_request empty_ring client_no).1)

-- The default request is found; that of the client 3 is not.
request-found_example :
    (check_server_incoming (server_rcv_to_ring (arriving (pos 3)) new_connection).1).0 ≡ false
request-found_example =
    request-found (pos 3) (omega arith) empty_ring empty_ring-IsValid empty_contents free_bytes
      new_connection empty_ring-IsValid empty_contents free_bytes (arriving (pos 3)) refl

-- A thread whose server is lost and whose send ring is empty.
abbrev lost_server : ClientThread
lost_server = record receiving { state = reconnect; send_ring = empty_ring }

abbrev other_host : AddrInfo
other_host = record { ai_family = other_family; ai_addr = 2 }

-- The socket takes all, and the server says nothing.
abbrev obliging : Answers
obliging = record answers {
  readable = false;
  send = λ bytes. taken (length bytes);
  cli_addr = other_host ∷ host ∷ [];
}

abbrev how_many : SendResult → ℕ
how_many (taken n) = n
how_many _ = 0
