-- ===== src/Client/Tests.antt =====
-- A packet of one byte on the receive ring of src/client.c.
use sdrproxy.Prelude.{
  ap, ◌∙◌, get_or-append, ℕ, ◌+◌, ◌<◌, List, get_or, set, replicate, ℤ, ◌≡◌, refl, arith, [], ◌∷◌,
  ◌++◌, false, pos,
}
use sdrproxy.Buffer.{RingSet, bytes_stored, view, copy_bytes}
use sdrproxy.Memory.{slice}
use sdrproxy.Buffer.Search.{search_ring, search_ring-IsFirst, Holds}
use sdrproxy.Util.{bytes_in_bytes, match_loop, increment, load, do_crc}
use sdrproxy.Util.Search.{IsBytes, all_bytes-IsBytes}
use sdrproxy.Channels.{chantoken}
use sdrproxy.Databfr.{DataRing}
use sdrproxy.Databfr.Valid
use sdrproxy.Client.Stored.{IsPacket}
use sdrproxy.Client.Damaged.{process_packet-refused}
use sdrproxy.Client.Stream.{stream, AllPackets, Streams, check_data-Streams}
use sdrproxy.Buffer.Contents.{contents}
use sdrproxy.Databfr.{done, failed}
use sdrproxy.Client.Refused.{get_adc_data-failed}
use sdrproxy.Buffer.Valid.{IsValid}
use sdrproxy.Databfr.Tests.{info, ring_of, allocator, channels}
use sdrproxy.Client.{Tm, ClientData, adctoken, get_adc_data, process_packet, check_data}

abbrev received : RingSet
received = record {
  readptr = 0;
  writeptr = 9;
  bfrsize = 11;
  ring = 170 ∷ 85 ∷ 136 ∷ 68 ∷ 1 ∷ 0 ∷ 2 ∷ 0 ∷ 3 ∷ 0 ∷ 0 ∷ [];
}

abbrev client : ClientData
client = record {
  pre_hdr = record { datalen = 0; type = 0; flags = 0 };
  packet_id = 0;
  new_channel_info = channels;
  ring = received;
  data_ring = ring_of 2;
}

-- The token, a length of 256, and three bytes more.
abbrev refused : RingSet
refused = record {
  readptr = 9;
  writeptr = 7;
  bfrsize = 11;
  ring = 136 ∷ 68 ∷ 0 ∷ 1 ∷ 3 ∷ 0 ∷ 5 ∷ 0 ∷ 0 ∷ 170 ∷ 85 ∷ [];
}

refused-IsValid : IsValid refused
refused-IsValid = record { read_in = omega arith; write_in = omega arith; whole = refl }

contents-refused : contents refused ≡ [] ++ (adctoken ++ (0 ∷ (1 ∷ 3 ∷ 0 ∷ 5 ∷ [])))
unfolding bytes_stored
contents-refused = refl

get_adc_data-failed_example :
    get_adc_data (λ tm. pos 0) allocator channels 0 (record client { ring = refused }) ≡ failed
get_adc_data-failed_example =
    get_adc_data-failed (λ tm. pos 0) allocator channels (record client { ring = refused }) []
      (1 ∷ 3 ∷ 0 ∷ 5 ∷ []) refused-IsValid contents-refused (omega arith)

-- Two packets of one sample, of which the second is of an earlier time, and the first bytes of a
-- third; the first forty bytes stand at the end of the memory.
abbrev sample : ℕ → ℕ → ℕ → ℕ → ℕ → List ℕ
sample flags sec msec packet_id value =
    27 ∷ 0 ∷ 3 ∷ flags ∷ 234 ∷ 7 ∷ 11 ∷ 0 ∷ 0 ∷ 0 ∷ 26 ∷ 0 ∷ 9 ∷ 0 ∷ 30 ∷ 0 ∷ sec ∷ 0 ∷ msec ∷ 0
    ∷ packet_id ∷ 1 ∷ 0 ∷ 0 ∷ 0 ∷ 0 ∷ value ∷ 0 ∷ 0 ∷ 0 ∷ []

abbrev packet : List ℕ → ℕ → List ℕ
packet checked crc = adctoken ++ (checked ++ (crc ∷ []))

abbrev later : List ℕ
later = packet (sample 0 7 250 44 254) 221

abbrev earlier : List ℕ
earlier = packet (sample 7 5 0 45 77) 144

abbrev pub packets : List (List ℕ)
packets = later ∷ earlier ∷ []

abbrev pub begun : List ℕ
begun = 170 ∷ 85 ∷ []

abbrev pub stream_ring : RingSet
stream_ring = record {
  readptr = 36;
  writeptr = 32;
  bfrsize = 76;
  ring =
      0 ∷ 3 ∷ 7 ∷ 234 ∷ 7 ∷ 11 ∷ 0 ∷ 0 ∷ 0 ∷ 26 ∷ 0 ∷ 9 ∷ 0 ∷ 30 ∷ 0 ∷ 5 ∷ 0 ∷ 0 ∷ 0 ∷ 45 ∷ 1 ∷ 0
      ∷ 0 ∷ 0 ∷ 0 ∷ 77 ∷ 0 ∷ 0 ∷ 0 ∷ 144 ∷ 170 ∷ 85 ∷ 0 ∷ 0 ∷ 0 ∷ 0 ∷ 170 ∷ 85 ∷ 136 ∷ 68 ∷ 27 ∷ 0
      ∷ 3 ∷ 0 ∷ 234 ∷ 7 ∷ 11 ∷ 0 ∷ 0 ∷ 0 ∷ 26 ∷ 0 ∷ 9 ∷ 0 ∷ 30 ∷ 0 ∷ 7 ∷ 0 ∷ 250 ∷ 0 ∷ 44 ∷ 1 ∷ 0
      ∷ 0 ∷ 0 ∷ 0 ∷ 254 ∷ 0 ∷ 0 ∷ 0 ∷ 221 ∷ 170 ∷ 85 ∷ 136 ∷ 68 ∷ 27 ∷ [];
}

pub stream_ring-IsValid : IsValid stream_ring
stream_ring-IsValid = record { read_in = omega arith; write_in = omega arith; whole = refl }

pub stream_held : contents stream_ring ≡ stream packets begun
unfolding bytes_stored
stream_held = refl

pub stream_ring-IsBytes : IsBytes (contents stream_ring)
unfolding bytes_stored
stream_ring-IsBytes = all_bytes-IsBytes (contents stream_ring) refl

pub no_info : (p : ℕ) → ¬ Holds (contents stream_ring) chantoken p
unfolding search_ring bytes_stored view copy_bytes slice bytes_in_bytes match_loop increment load
no_info =
    search_ring-IsFirst stream_ring-IsValid chantoken stream_ring-IsBytes
      (all_bytes-IsBytes chantoken refl) (omega arith)

pub no_token : (p : ℕ) → ¬ Holds begun adctoken p
no_token p (room, same) = omega arith

later-IsPacket : IsPacket later
unfolding load do_crc slice
later-IsPacket = record {
  whole = refl;
  low = λ e. omega arith;
  samples = refl;
  checked = refl;
  fits = omega arith;
}

earlier-IsPacket : IsPacket earlier
unfolding load do_crc slice
earlier-IsPacket = record {
  whole = refl;
  low = λ e. omega arith;
  samples = refl;
  checked = refl;
  fits = omega arith;
}

pub packets-AllPackets : AllPackets 35 packets
packets-AllPackets = (
  (later-IsPacket, omega arith, omega arith, (omega arith, at_front (sample 0 7 250 44 254) 221)),
  (
    (earlier-IsPacket, omega arith, omega arith, (omega arith, at_front (sample 7 5 0 45 77) 144)),
    tt,
  ),
)
  where
    at_front :
        (checked : List ℕ) (crc k : ℕ)
        → k < 4
        → get_or (packet checked crc) (0 + k) 0 ≡ get_or adctoken k 0
    at_front checked crc k h =
        ap (λ i. get_or (packet checked crc) i 0) {y = k} (omega arith)
        ∙ get_or-append adctoken (checked ++ (crc ∷ [])) k 0 (omega arith)

-- A data ring with 35 bytes a slot, that holds nothing.
abbrev pub empty_ring : DataRing
empty_ring = record (ring_of 0) {
  store = λ i. record { packet_info = info i; sdr_packet = replicate 35 0 };
}

pub empty_ring-IsValid : Valid.IsValid 35 empty_ring
empty_ring-IsValid = record {
  start_in = omega arith;
  count_in = omega arith;
  end_at = omega arith;
  is_live = refl;
  distinct = λ i j hi hj e. e;
  roomy = λ i h. refl;
  fits = λ k h. elim h [ ];
  sorted = λ i j lt h. elim h [ ];
}

abbrev pub receiving : ClientData
receiving = record client { ring = stream_ring; data_ring = empty_ring }

abbrev pub seconds : Tm → ℤ
seconds tm = tm.tm_sec

check_data-Streams_example :
    Streams seconds allocator channels 35 [] packets begun
      (check_data seconds allocator channels false receiving)
check_data-Streams_example =
    check_data-Streams seconds allocator channels 35 begun no_token packets receiving
      packets-AllPackets stream_ring-IsValid stream_held stream_ring-IsBytes no_info
      empty_ring-IsValid refl

-- The flags of the second packet arrive as 6.
abbrev damaged : ClientData
damaged = record receiving { pre_hdr = record { datalen = 27; type = 3; flags = 6 } }

process_packet-refused_example :
    process_packet seconds allocator channels (set earlier 7 6) damaged ≡ done (pos 0, damaged)
unfolding load
process_packet-refused_example =
    process_packet-refused seconds allocator channels earlier earlier-IsPacket 3 6 damaged
      (omega arith) (omega arith) (λ e. omega arith) refl
