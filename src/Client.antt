-- ===== src/Client.antt =====
-- What src/client.c does with the bytes that it has received: `get_adc_data`, `add_to_data_ring` and
-- `check_data`, with the times of src/time.c. `timegm` is a parameter. A packet that is too short for
-- its time and its id is a `fault`: the code then reads what `rcv_bfr` held before.
pub mod Taken
pub mod Rounds
pub mod Refused
pub mod Stored
pub mod Behind
pub mod Stream
pub mod Damaged
pub mod Thread
pub mod Tests
use sdrproxy.Prelude.{
  ℕ, zero, suc, ◌+◌, ◌-◌, ◌*◌, Bool, true, false, ◌&&◌, ◌||◌, not, Option, none, some, List, [],
  ◌∷◌, length, get_or, drop, ltb, leb, ◌==◌, if◌then◌else◌, ℤ, pos, negsuc, sub_ℕ, pos_part,
  neg_part, ◌+ℤ◌, ltb_ℤ, eqb_ℤ,
}
use sdrproxy.Memory.{slice}
use sdrproxy.Buffer.{RingSet, bytes_stored, ring_store}
use sdrproxy.Buffer
use sdrproxy.Buffer.Search.{search_ring}
use sdrproxy.Util.{ChannelInfo, load, do_crc, prehdrlen}
use sdrproxy.Databfr.{PacketInfo, DataRing, Outcome, done, fault, failed, blocked, ◌>>=◌}
use sdrproxy.Databfr.Ops.{Allocator, Reply, data_ring_ops}
use sdrproxy.Channels.{get_chan_info, find_chan_info}

-- What the fields of `struct tm` that the code fills are.
pub record Tm : Type 0 where
  pub tm_year : ℤ
  pub tm_mon : ℤ
  pub tm_mday : ℤ
  pub tm_hour : ℤ
  pub tm_min : ℤ
  pub tm_sec : ℤ

-- A `short` at a place of an array, the low byte first.
unfoldable pub short_at : ℕ → List ℕ → ℤ
short_at at bytes = let raw = load 2 at bytes in if ltb raw 32768 then pos raw else sub_ℕ raw 65536

-- `get_packet_time`, in seconds
unfoldable pub get_packet_time : (Tm → ℤ) → List ℕ → ℤ
get_packet_time timegm data_hdr = timegm (record {
  tm_year = short_at 0 data_hdr +ℤ negsuc 1899;
  tm_mon = short_at 2 data_hdr +ℤ negsuc 0;
  tm_mday = short_at 6 data_hdr;
  tm_hour = short_at 8 data_hdr;
  tm_min = short_at 10 data_hdr;
  tm_sec = short_at 12 data_hdr;
})

-- Seconds in milliseconds.
unfoldable pub milliseconds : ℤ → ℤ
milliseconds t = sub_ℕ (1000 * pos_part t) (1000 * neg_part t)

-- `decode_pkt_time`, in milliseconds
unfoldable pub decode_pkt_time : (Tm → ℤ) → List ℕ → ℤ
decode_pkt_time timegm data_hdr =
    milliseconds (get_packet_time timegm data_hdr) +ℤ short_at 14 data_hdr

-- ADCTOKEN and BFRSIZE
abbrev pub adctoken : List ℕ
adctoken = 170 ∷ 85 ∷ 136 ∷ 68 ∷ []

abbrev pub bfrsize : ℕ
bfrsize = 5000

-- Where the id of a packet ends: DATAHDR_POS_PACKETID, and 4 bytes more.
abbrev pub packetid_end : ℕ
packetid_end = 28

-- `struct prehdr`, without its id.
pub record PreHdr : Type 0 where
  pub datalen : ℕ
  pub type : ℕ
  pub flags : ℕ

-- What `check_data` works on: what it is given pointers to, and the data ring.
pub record ClientData : Type 0 where
  pub pre_hdr : PreHdr
  pub packet_id : ℕ
  pub new_channel_info : ChannelInfo
  pub ring : RingSet
  pub data_ring : DataRing

-- `!strcmp(rcv_bfr, text)`: the array holds the text and then a zero byte.
unfoldable pub is_string : List ℕ → List ℕ → Bool
is_string rcv_bfr [] = get_or rcv_bfr 0 0 == 0
is_string [] (c ∷ text) = false
is_string (b ∷ rcv_bfr) (c ∷ text) = (b == c) && is_string rcv_bfr text

-- What `check_data` does when it has looked at everything.
unfoldable pub clear_inhibited : Bool → ClientData → ClientData
clear_inhibited inhibit_adc d =
    let ring_bytes = bytes_stored d.ring in
    if inhibit_adc && ltb 5 ring_bytes
    then record d { ring = (Buffer.delete (pos ring_bytes) d.ring).1 }
    else d

abbrev pub cleared : Bool → Option ClientData → Option ClientData
cleared inhibit_adc none = none
cleared inhibit_adc (some d) = some (clear_inhibited inhibit_adc d)

-- A position that a search found.
abbrev pub found : ℤ → Bool
found i = not (ltb_ℤ i (pos 0))

-- The preheader of a packet.
abbrev pub read_pre_hdr : List ℕ → PreHdr
read_pre_hdr rcv_bfr = record {
  datalen = load 2 4 rcv_bfr;
  type = get_or rcv_bfr 6 0;
  flags = get_or rcv_bfr 7 0;
}

module _ (timegm : Tm → ℤ) (m : Allocator) (c : ChannelInfo) where
  -- `add_to_data_ring`. The id is an `unsigned long` of 4 bytes. A time or an id that is read behind
  -- the packet is what nothing of the packet has been written to: `fault`.
  unfoldable pub add_to_data_ring : List ℕ → ℕ → DataRing → Outcome Reply
  add_to_data_ring packet pkt_len data_ring =
      if ltb (length packet) packetid_end
      then fault
      else data_ring_ops m c
          (record {
            packet_len = pkt_len;
            packet_time = decode_pkt_time timegm (drop prehdrlen packet);
            packet_id = load 4 24 packet;
            valid = true;
          })
          packet (pos 0) ring_store data_ring

  -- `get_adc_data` on a whole packet: it is off the ring already. The id is read first; where it is
  -- behind the packet the call of `add_to_data_ring` is a `fault` too.
  unfoldable pub process_packet : List ℕ → ClientData → Outcome (ℤ × ClientData)
  process_packet rcv_bfr d =
      let datalen = d.pre_hdr.datalen in
      if (do_crc 0 (slice 4 (datalen + 3) rcv_bfr) == get_or rcv_bfr (datalen + 7) 0)
        && (d.pre_hdr.type == 3)
      then (add_to_data_ring rcv_bfr (prehdrlen + datalen) d.data_ring >>= λ r.
          done (pos 0, record d { packet_id = load 4 24 rcv_bfr; data_ring = r.2 }))
      else done (pos 0, d)

  -- `get_adc_data` once the preheader is read.
  unfoldable pub take_packet : ClientData → Outcome (ℤ × ClientData)
  take_packet d =
      let n = prehdrlen + d.pre_hdr.datalen in
      let (packet, rest) = Buffer.retr n d.ring in
      if leb n (bytes_stored d.ring)
      then (if ltb bfrsize n then fault else elim packet [
        | none ↦ fault
        | some rcv_bfr ↦ process_packet rcv_bfr (record d { ring = rest })
      ])
      else done (negsuc 0, d)

  -- `get_adc_data` once nothing stands before the token.
  unfoldable pub read_packet : ClientData → Outcome (ℤ × ClientData)
  read_packet d =
      if ltb prehdrlen (bytes_stored d.ring)
      then elim (Buffer.view prehdrlen d.ring) [
        | none ↦ fault
        | some rcv_bfr ↦
            if is_string rcv_bfr adctoken
            then failed
            else take_packet (record d { pre_hdr = read_pre_hdr rcv_bfr })
      ]
      else done (negsuc 0, d)

  -- `get_adc_data`
  unfoldable pub get_adc_data : ℕ → ClientData → Outcome (ℤ × ClientData)
  get_adc_data index d =
      read_packet
        (record d { ring = if ltb 0 index then (Buffer.delete (pos index) d.ring).1 else d.ring })

  -- What is found first is taken.
  unfoldable pub check_found : ℤ → ℤ → ClientData → Outcome (ℤ × ClientData)
  check_found chanidx adcidx d =
      let (info, rest) = get_chan_info (pos_part chanidx) d.new_channel_info d.ring in
      let with_info = done (info.0, record d { new_channel_info = info.1; ring = rest }) in
      if found chanidx && ltb_ℤ chanidx adcidx
      then with_info
      else (if found adcidx
          then get_adc_data (pos_part adcidx) d
          else (if found chanidx then with_info else done (pos 0, d)))

  -- The `do` of `check_data`, with fuel; `none` if it has not ended.
  unfoldable pub check_loop : ℕ → Bool → ClientData → Outcome (Option ClientData)
  check_loop zero inhibit_adc d = done none
  check_loop (suc fuel) inhibit_adc d =
      let chanidx = find_chan_info d.ring in
      let adcidx = if inhibit_adc then negsuc 0 else search_ring adctoken d.ring in
      check_found chanidx adcidx d >>= λ r.
      elim ((found chanidx || found adcidx) && eqb_ℤ r.0 (pos 0)) [
        | true ↦ check_loop fuel inhibit_adc r.1
        | false ↦ done (some r.1)
      ]

  -- `check_data`; its branch for a return of -2, which `get_adc_data` never gives, is left out.
  unfoldable pub check_data : Bool → ClientData → Outcome (Option ClientData)
  check_data inhibit_adc d =
      check_loop (bytes_stored d.ring + 1) inhibit_adc d >>= λ o. done (cleared inhibit_adc o)
