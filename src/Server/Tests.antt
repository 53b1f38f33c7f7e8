-- ===== src/Server/Tests.antt =====
-- One connection of src/server.c on small rings.
use sdrproxy.Prelude.{
  ℕ, inl, ◌+◌, ◌-◌, ◌≤◌, ◌≡◌, refl, ap, subst, arith, true, List, [], ◌∷◌, ◌++◌, length, get_or,
  if◌then◌else◌, pos, ltb,
}
use sdrproxy.Util.Search.{IsBytes, all_bytes-IsBytes}
use sdrproxy.Buffer.{RingSet, bytes_stored, bytes_free}
use sdrproxy.Buffer.Valid.{IsValid}
use sdrproxy.Buffer.Contents.{contents}
use sdrproxy.Buffer.Search.{search_ring, Holds}
use sdrproxy.Databfr.{done}
use sdrproxy.Databfr.Tests.{info, ring_of, ring_of-IsValid, allocator, channels}
use sdrproxy.Descriptors.{close}
use sdrproxy.History.{ConnHistData}
use sdrproxy.Server.{
  print_chan_info, decimal, pad, chaninfolen, send_error, init, inactive, sendadc, chanrequest,
  ConnectionData, World, Received, received, try_again, Sent, sent, check_server_incoming,
  take_request, put_adc_data, service_connection,
}
use sdrproxy.Server.Incoming.{Takes, check_server_incoming-Takes, check_server_incoming-split}
use sdrproxy.Server.Outgoing.{Puts, put_adc_data-Puts}
use sdrproxy.Server.Heard.{Keeps, room}
use sdrproxy.Server.States.{Returns}
use sdrproxy.Server.Moves.{Round, service_connection-Round}
use sdrproxy.Server.Invariant.{IsSound}
use sdrproxy.Server.Service.{Sound, IsSocket, service_connection-Sound}
use sdrproxy.Server.Stream.{later, served, Turn, rounds, Ready, Served}
use sdrproxy.Server.Stream.Rounds.{rounds-Served}
use sdrproxy.Server.Stream.Feed.{
  Feed, begin, serve, arrive, arrives, kept, Fed, GoesOn, Feed-Delivers,
}
use sdrproxy.Databfr.Ops.{Reply}
use sdrproxy.Server.Stream.Whole.{TakesAll, TakesAll-IsSocket, All, rounds-All}
use sdrproxy.Databfr.Valid
use sdrproxy.Server.Idle.{unheard, unheard-inactive}

-- "SEND AD" and two bytes more, of which the first have wrapped.
abbrev requested : RingSet
requested = record {
  readptr = 6;
  writeptr = 4;
  bfrsize = 11;
  ring = 32 ∷ 65 ∷ 68 ∷ 9 ∷ 0 ∷ 0 ∷ 8 ∷ 83 ∷ 69 ∷ 78 ∷ 68 ∷ [];
}

-- The request up to its last byte.
abbrev begun : RingSet
begun = record {
  readptr = 0;
  writeptr = 6;
  bfrsize = 8;
  ring = 83 ∷ 69 ∷ 78 ∷ 68 ∷ 32 ∷ 65 ∷ 0 ∷ 0 ∷ [];
}

requested-IsValid : IsValid requested
requested-IsValid = record { read_in = omega arith; write_in = omega arith; whole = refl }

begun-IsValid : IsValid begun
begun-IsValid = record { read_in = omega arith; write_in = omega arith; whole = refl }

abbrev connection : RingSet → ConnectionData
connection rcv_ring = record {
  csocket = 7;
  state = sendadc;
  history = 0;
  idle_timer = 2;
  rcv_ring = rcv_ring;
  send_ring = requested;
}

abbrev client : ConnHistData
client = record {
  last_update = pos 0;
  last_packet_time = pos 1000;
  ip = 49 ∷ [];
  server_port = 16065;
}

abbrev world : World
world = record {
  conn = connection requested;
  hist = client ∷ [];
  data_ring = ring_of 2;
  fds = 3 ∷ 7 ∷ 4 ∷ [];
}

abbrev takes_three : List ℕ → Sent
takes_three bytes = sent (if ltb (length bytes) 3 then length bytes else 3)

requested-IsBytes : IsBytes (contents requested)
unfolding bytes_stored
requested-IsBytes = all_bytes-IsBytes (contents requested) refl

begun-IsBytes : IsBytes (contents begun)
unfolding bytes_stored
begun-IsBytes = all_bytes-IsBytes (contents begun) refl

check_server_incoming-Takes_example :
    IsValid (check_server_incoming (connection requested)).1.rcv_ring
    × Takes (contents requested) (
      (check_server_incoming (connection requested)).0,
      contents (check_server_incoming (connection requested)).1.rcv_ring,
    )
check_server_incoming-Takes_example =
    check_server_incoming-Takes (connection requested) requested-IsValid requested-IsBytes

request_completed : Holds (contents begun ++ (68 ∷ [])) chanrequest 0
unfolding bytes_stored
request_completed = (omega arith, λ k h. ap (λ i. get_or chanrequest i 0) {x = 0 + k} (omega arith))

check_server_incoming-split_example :
    (length (contents begun) - length chanrequest ≤ 0)
    × Holds
        (contents (check_server_incoming (connection begun)).1.rcv_ring ++ (68 ∷ []))
        chanrequest
        (0 - (length (contents begun) - length chanrequest))
unfolding check_server_incoming search_ring bytes_stored take_request
check_server_incoming-split_example =
    check_server_incoming-split (connection begun) (68 ∷ []) 0 begun-IsValid begun-IsBytes refl
      request_completed

put_adc_data-Puts_example :
    Puts (pos 50) world client 2 (put_adc_data allocator channels (pos 50) world)
put_adc_data-Puts_example =
    put_adc_data-Puts (pos 50) world client requested-IsValid (ring_of-IsValid 2 (omega arith))
      (omega arith) allocator channels refl refl

abbrev failures : Sent → ℕ
failures send_error = 1
failures _ = 0

abbrev took : Sent → ℕ
took (sent n) = n
took _ = 0

at_most : (bytes : List ℕ) (n : ℕ) → takes_three bytes ≡ sent n → n ≤ length bytes
at_most bytes n e = let same = ap took e in ground arith

-- A client that asks with its second packet.
abbrev asking : World
asking = record world { conn = record (connection begun) { state = init } }

abbrev last_byte : ℕ → Received
last_byte n = received (68 ∷ [])

abbrev bytes_got : Received → List ℕ
bytes_got (received bfr) = bfr
bytes_got _ = []

last_byte-Keeps : Keeps last_byte asking.conn
unfolding bytes_free bytes_stored
last_byte-Keeps bfr e =
    subst (λ t. (length t ≤ room last_byte asking.conn) × IsBytes (contents begun ++ t))
      (ap bytes_got e) (omega arith, all_bytes-IsBytes (contents begun ++ (68 ∷ [])) refl)

service_connection-Round_example :
    Returns
      (Round true last_byte asking)
      (service_connection allocator channels (pos 50) true true last_byte takes_three asking)
service_connection-Round_example =
    service_connection-Round allocator channels (pos 50) true true last_byte takes_three asking
      begun-IsValid last_byte-Keeps

abbrev silent : World
silent = record world { conn = record (world.conn) { state = init } }

unheard-inactive_example :
    unheard allocator channels (λ n. pos n) (λ n. true) (λ n. try_again) (λ n. takes_three) 4 silent
    ≡ done (record world {
      conn = record (world.conn) { state = inactive; idle_timer = 0 };
      fds = 3 ∷ 4 ∷ [];
    })
unfolding close
unheard-inactive_example =
    unheard-inactive allocator channels (λ n. pos n) (λ n. true) (λ n. try_again) (λ n. takes_three)
      2 world

takes_three-IsSocket : IsSocket takes_three
takes_three-IsSocket = record {
  at_most = at_most;
  no_error = λ bytes e. let same = ap failures e in omega arith;
}

world-IsSound : IsSound 2 world
world-IsSound = record {
  receives = requested-IsValid;
  sends = requested-IsValid;
  sendbfr = omega arith;
  stored = ring_of-IsValid 2 (omega arith);
  slots = omega arith;
  unlocked = refl;
  recorded = (client, refl);
}

printed : length (print_chan_info channels) ≤ chaninfolen
unfolding print_chan_info decimal pad
printed = omega arith

service_connection-Sound_example :
    Sound 2
      (service_connection allocator channels (pos 50) true true (λ n. try_again) takes_three world)
service_connection-Sound_example =
    service_connection-Sound allocator channels (pos 50) true true (λ n. try_again) takes_three 2
      world printed takes_three-IsSocket world-IsSound

abbrev turn : Turn
turn = record { now = pos 50; writable = true; send = takes_three }

world-Ready : Ready 2 (Valid.contents (ring_of 2)) (pos 1000) world
world-Ready = record {
  sound = world-IsSound;
  sending = refl;
  held = refl;
  last_sent = (client, (refl, refl));
}

rounds-Served_example :
    Served 2
      (Valid.contents (ring_of 2))
      (pos 1000)
      world
      (rounds allocator channels (turn ∷ turn ∷ []) world)
rounds-Served_example =
    rounds-Served 2 (Valid.contents (ring_of 2)) allocator channels (turn ∷ turn ∷ []) (pos 1000)
      world (takes_three-IsSocket, (takes_three-IsSocket, tt)) world-Ready

abbrev all_taken : List ℕ → Sent
all_taken bytes = sent (length bytes)

abbrev eager : Turn
eager = record { now = pos 50; writable = true; send = all_taken }

abbrev nothing_held : RingSet
nothing_held = record (requested) { readptr = 4 }

-- The same connection with nothing on its send ring.
abbrev drained : World
drained = record world { conn = record (world.conn) { send_ring = nothing_held } }

drained-Ready : Ready 2 (Valid.contents (ring_of 2)) (pos 1000) drained
drained-Ready = record {
  sound = record {
    receives = requested-IsValid;
    sends = record { read_in = omega arith; write_in = omega arith; whole = refl };
    sendbfr = omega arith;
    stored = ring_of-IsValid 2 (omega arith);
    slots = omega arith;
    unlocked = refl;
    recorded = (client, refl);
  };
  sending = refl;
  held = refl;
  last_sent = (client, (refl, refl));
}

eager-TakesAll : TakesAll eager
eager-TakesAll = record { ready = refl; all = λ bytes. refl }

rounds-All_example :
    All 2
      (Valid.contents (ring_of 2))
      (pos 1000)
      (rounds allocator channels (eager ∷ eager ∷ []) drained)
unfolding bytes_stored
rounds-All_example =
    rounds-All 2 (Valid.contents (ring_of 2)) allocator channels (eager ∷ eager ∷ []) (pos 1000)
      drained (eager-TakesAll, (eager-TakesAll, tt)) drained-Ready refl (omega arith) (omega arith)

-- A packet of the fifth second comes, and the connection is served.
fed_at_first : Feed allocator channels 2 drained [] [] drained
fed_at_first = begin

came : (r : Reply) × (arrives allocator channels 2 (info 5) (8 ∷ 9 ∷ []) drained.data_ring ≡ done r)
came =
    (Feed-Delivers allocator channels 2 (Valid.contents (ring_of 2)) (pos 1000) drained-Ready
        fed_at_first).1.1
      (info 5) (8 ∷ 9 ∷ []) (omega arith) (omega arith)

abbrev fed : World
fed = record drained { data_ring = came.0.2 }

fed_one :
    Feed allocator channels 2 drained [] (kept allocator channels 2 (info 5) (8 ∷ 9 ∷ []) ∷ []) fed
fed_one =
    arrive fed_at_first (info 5) (8 ∷ 9 ∷ []) (omega arith) (omega arith) client refl (omega arith)
      (omega arith, (omega arith, tt)) (inl (omega arith)) came.1

went : (r : List ℕ × World) × (served allocator channels eager fed ≡ done r)
went =
    (Feed-Delivers allocator channels 2 (Valid.contents (ring_of 2)) (pos 1000) drained-Ready
        fed_one).1.0
      eager (TakesAll-IsSocket eager eager-TakesAll)

Feed-Delivers_example :
    Fed allocator channels 2
      (later (pos 1000) (Valid.contents (ring_of 2)))
      drained
      went.0.0
      (kept allocator channels 2 (info 5) (8 ∷ 9 ∷ []) ∷ [])
      went.0.1
    × GoesOn allocator channels 2 went.0.1
Feed-Delivers_example =
    Feed-Delivers allocator channels 2 (Valid.contents (ring_of 2)) (pos 1000) drained-Ready
      (serve fed_one eager (TakesAll-IsSocket eager eager-TakesAll) went.1)
