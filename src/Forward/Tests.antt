-- ===== src/Forward/Tests.antt =====
-- Two packets that come to the client, and a connection of the server that has been sent none.
use sdrproxy.Prelude.{refl, arith, [], ◌∷◌, pos, replicate}
use sdrproxy.Buffer.{RingSet}
use sdrproxy.Buffer.Valid.{IsValid}
use sdrproxy.Databfr.Tests.{allocator, channels}
use sdrproxy.History.{ConnHistData}
use sdrproxy.Server.{sendadc, World}
use sdrproxy.Client.Stream.{with_packets}
use sdrproxy.Client.Tests.{
  packets, begun, stream_ring-IsValid, stream_held, stream_ring-IsBytes, no_info, no_token,
  packets-AllPackets, empty_ring, empty_ring-IsValid, receiving, seconds,
}
use sdrproxy.Forward.{forward, Forwards, forward-Forwards}

abbrev send_ring : RingSet
send_ring = record { readptr = 15; writeptr = 15; bfrsize = 40; ring = replicate 40 0 }

send_ring-IsValid : IsValid send_ring
send_ring-IsValid = record { read_in = omega arith; write_in = omega arith; whole = refl }

abbrev client : ConnHistData
client = record { last_update = pos 0; last_packet_time = pos 0; ip = 49 ∷ []; server_port = 16065 }

abbrev world : World
world = record {
  conn = record {
    csocket = 7;
    state = sendadc;
    history = 0;
    idle_timer = 2;
    rcv_ring = send_ring;
    send_ring = send_ring;
  };
  hist = client ∷ [];
  data_ring = empty_ring;
  fds = 3 ∷ 7 ∷ [];
}

forward-Forwards_example :
    Forwards seconds allocator channels 35
      (pos 20)
      world
      client
      (with_packets seconds allocator channels 35 [] packets)
      (forward seconds allocator channels 35 (pos 20) receiving world)
forward-Forwards_example =
    forward-Forwards seconds allocator channels 35 (pos 20) world client send_ring-IsValid
      (omega arith) refl packets begun receiving no_token packets-AllPackets stream_ring-IsValid
      stream_held stream_ring-IsBytes no_info empty_ring-IsValid refl
