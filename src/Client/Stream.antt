-- ===== src/Client/Stream.antt =====
-- `check_data` of src/client.c on a stream of packets of samples.
use sdrproxy.Prelude.{
  ℕ, zero, suc, ◌+◌, ◌≤◌, ◌<◌, ◌≡◌, refl, ap, subst, arith, true, false, ◌&&◌, ◌||◌, Option, none,
  some, List, [], ◌∷◌, ◌++◌, length, length-append, lt→ltb, ℤ, pos, negsuc, eqb_ℤ,
}
use sdrproxy.Buffer.{bytes_stored}
use sdrproxy.Buffer.Valid.{IsValid}
use sdrproxy.Buffer.Contents.{contents}
use sdrproxy.Buffer.Take.{length-contents}
use sdrproxy.Buffer.Search.{search_ring, search_ring-IsFirst, Holds, IsFirst}
use sdrproxy.Util.{ChannelInfo}
use sdrproxy.Util.Search.{IsBytes, all_bytes-IsBytes}
use sdrproxy.Databfr.{Outcome, done, fault, failed, blocked, ◌>>=◌}
use sdrproxy.Databfr.Valid
use sdrproxy.Databfr.Spec.{Packet}
use sdrproxy.Databfr.Ops.{Allocator}
use sdrproxy.Channels.{chantoken, token_found, find_chan_info}
use sdrproxy.Client.{
  Tm, ClientData, adctoken, packetid_end, found, get_adc_data, check_found, check_loop,
  clear_inhibited, cleared, check_data,
}
use sdrproxy.Client.Rounds.{check_found_none}
use sdrproxy.Client.Stored.{IsPacket, with_packet, Takes, get_adc_data-Takes}
use sdrproxy.Client.Behind.{IsBytes-behind, Holds-behind, Holds-front, first_place, not_found}

-- Packets one after the other, and what follows them.
abbrev pub stream : List (List ℕ) → List ℕ → List ℕ
stream [] rest = rest
stream (packet ∷ packets) rest = packet ++ stream packets rest

-- Each is a packet that fits the memory of a slot, begins with the token, and holds its time and id.
abbrev pub AllPackets : ℕ → List (List ℕ) → Type 0
AllPackets size [] = Unit {0}
AllPackets size (packet ∷ packets) =
    (IsPacket packet
      × (length packet ≤ size)
      × (packetid_end ≤ length packet)
      × Holds packet adctoken 0)
    × AllPackets size packets

negative : (n : ℕ) → found (negsuc n) ≡ false
negative n = rw (lt→ltb 0 (0 + suc n) (omega arith)) refl

module _ (timegm : Tm → ℤ) (m : Allocator) (c : ChannelInfo) (size : ℕ) where
  -- The packets stored one by one.
  abbrev pub with_packets : List Packet → List (List ℕ) → List Packet
  with_packets ps [] = ps
  with_packets ps (packet ∷ packets) = with_packets (with_packet timegm m c size ps packet) packets

  -- The loop has ended: every packet is stored, and `rest` is left on the ring.
  abbrev pub Streams : List Packet → List (List ℕ) → List ℕ → Outcome (Option ClientData) → Type 0
  Streams ps packets rest (done (some d)) =
      (IsValid d.ring × (contents d.ring ≡ rest))
      × Valid.IsValid size d.data_ring
      × (d.data_ring.locked ≡ false)
      × (Valid.contents d.data_ring ≡ with_packets ps packets)
  Streams ps packets rest (done none) = ⊥
  Streams ps packets rest fault = ⊥
  Streams ps packets rest failed = ⊥
  Streams ps packets rest blocked = ⊥

  module _ (rest : List ℕ) (no_token : (p : ℕ) → ¬ Holds rest adctoken p) where
    -- What is asked of the client before each round.
    record Ready (packets : List (List ℕ)) (d : ClientData) : Type 0 where
      valid : IsValid d.ring
      held : contents d.ring ≡ stream packets rest
      bytes : IsBytes (contents d.ring)
      no_info : (p : ℕ) → ¬ Holds (contents d.ring) chantoken p
      stored : Valid.IsValid size d.data_ring
      unlocked : d.data_ring.locked ≡ false

    module _ (packets : List (List ℕ)) (d : ClientData) (ready : Ready packets d) where
      no_chan : found (find_chan_info d.ring) ≡ false
      unfolding find_chan_info token_found
      no_chan =
          let (n, e) =
            not_found (contents d.ring) chantoken (search_ring chantoken d.ring)
              (search_ring-IsFirst ready.valid chantoken ready.bytes
                (all_bytes-IsBytes chantoken refl) (omega arith))
              ready.no_info in
          rw e (negative n)

      adc-IsFirst : IsFirst (contents d.ring) adctoken (search_ring adctoken d.ring)
      adc-IsFirst =
          search_ring-IsFirst ready.valid adctoken ready.bytes (all_bytes-IsBytes adctoken refl)
            (omega arith)

    -- A packet has gone.
    Ready-later :
        (packet : List ℕ) (packets : List (List ℕ)) (d d' : ClientData)
        → Ready (packet ∷ packets) d
        → IsValid d'.ring × (contents d'.ring ≡ stream packets rest)
        → Valid.IsValid size d'.data_ring
        → d'.data_ring.locked ≡ false
        → Ready packets d'
    Ready-later packet packets d d' ready (v, held) stored free =
        let later = stream packets rest in
        let bytes = subst IsBytes ready.held ready.bytes in
        record {
          valid = v;
          held = held;
          bytes = rw held (IsBytes-behind packet later bytes);
          no_info = λ p there.
              ready.no_info (length packet + p)
                (rw (ready.held) (Holds-behind packet later chantoken p (rw held at there)));
          stored = stored;
          unlocked = free;
        }

    Takes-Streams :
        (fuel : ℕ) (packet : List ℕ) (packets : List (List ℕ)) (d : ClientData) (chanidx : ℤ)
        → found chanidx ≡ false
        → Ready (packet ∷ packets) d
        → 0 < length packet
        → bytes_stored d.ring < suc fuel
        → ((d' : ClientData)
            → Ready packets d'
            → bytes_stored d'.ring < fuel
            → Streams
                (Valid.contents d'.data_ring)
                packets
                rest
                (check_loop timegm m c fuel false d'))
        → (o : Outcome (ℤ × ClientData))
        → Takes timegm m c size d.data_ring packet (stream packets rest) o
        → Streams (Valid.contents d.data_ring) (packet ∷ packets) rest (
            o >>= λ r. elim ((found chanidx || found (pos 0)) && eqb_ℤ r.0 (pos 0)) [
              | true ↦ check_loop timegm m c fuel false r.1
              | false ↦ done (some r.1)
            ])
    Takes-Streams fuel packet packets d chanidx none_found ready some_bytes less again
          (done (ret, d')) (e, (v, held), id, stored, free, ps) =
        let ready' = Ready-later packet packets d d' ready (v, held) stored free in
        let fewer : bytes_stored d'.ring < fuel = omega (
          arith,
          length-contents v,
          length-contents ready.valid,
          ap length held,
          ap length ready.held,
          length-append packet (stream packets rest),
        ) in
        rw (none_found, e)
          (subst (λ qs. Streams qs packets rest (check_loop timegm m c fuel false d')) ps
            (again d' ready' fewer))
    Takes-Streams fuel packet packets d chanidx none_found ready some_bytes less again fault h =
        elim h [ ]
    Takes-Streams fuel packet packets d chanidx none_found ready some_bytes less again failed h =
        elim h [ ]
    Takes-Streams fuel packet packets d chanidx none_found ready some_bytes less again blocked h =
        elim h [ ]

    packet_found :
        (chanidx : ℤ) (d : ClientData)
        → found chanidx ≡ false
        → check_found timegm m c chanidx (pos 0) d ≡ get_adc_data timegm m c 0 d
    unfolding check_found
    packet_found chanidx d none_found = rw (none_found, check_found) refl

    check_loop-Streams :
        (packets : List (List ℕ)) (fuel : ℕ) (d : ClientData)
        → AllPackets size packets
        → Ready packets d
        → bytes_stored d.ring < fuel
        → Streams (Valid.contents d.data_ring) packets rest (check_loop timegm m c fuel false d)
    unfolding check_loop
    check_loop-Streams packets zero d good ready less = absurd (omega arith)
    check_loop-Streams [] (suc fuel) d good ready less =
        let (n, absent) =
          not_found (contents d.ring) adctoken (search_ring adctoken d.ring)
            (adc-IsFirst [] d ready) (rw (ready.held) no_token) in
        let none_found = no_chan [] d ready in
        rw
          (
            absent,
            none_found,
            negative n,
            check_found_none timegm m c (find_chan_info d.ring) (negsuc n) d
                (rw (none_found, negative n) refl),
            check_loop,
          )
          ((ready.valid, ready.held), ready.stored, ready.unlocked, refl)
    check_loop-Streams (packet ∷ packets) (suc fuel) d ((whole, small, headed, token), good) ready
          less =
        let later = stream packets rest in
        let at_front =
          first_place (contents d.ring) adctoken (search_ring adctoken d.ring)
            (adc-IsFirst (packet ∷ packets) d ready)
            (rw (ready.held) (Holds-front packet later adctoken token)) in
        let none_found = no_chan (packet ∷ packets) d ready in
        rw (at_front, packet_found (find_chan_info d.ring) d none_found, check_loop)
          (Takes-Streams fuel packet packets d (find_chan_info d.ring) none_found ready
            (omega (arith, whole.whole)) less
            (λ d' ready' less'. check_loop-Streams packets fuel d' good ready' less')
            (get_adc_data timegm m c 0 d)
            (get_adc_data-Takes timegm m c size packet whole small headed d [] later ready.stored
              ready.unlocked ready.valid ready.held))

    -- For a stream of packets of samples with good CRCs, each of 28 bytes or more, which hold its
    -- time and its id, beginning with the token and with a length whose low byte is not 0, that fit
    -- the slots and BFRSIZE, followed by bytes without a token, and with no token of channel
    -- information in it, on a valid receive ring, with a valid, unlocked data ring and no
    -- inhibition: check_data returns, with the bytes behind the packets left on the ring and every
    -- packet stored in the data ring, one after the other, at its time.
    pub check_data-Streams :
        (packets : List (List ℕ)) (d : ClientData)
        → AllPackets size packets
        → IsValid d.ring
        → contents d.ring ≡ stream packets rest
        → IsBytes (contents d.ring)
        → ((p : ℕ) → ¬ Holds (contents d.ring) chantoken p)
        → Valid.IsValid size d.data_ring
        → d.data_ring.locked ≡ false
        → Streams (Valid.contents d.data_ring) packets rest (check_data timegm m c false d)
    unfolding check_data clear_inhibited
    check_data-Streams packets d good v held bytes no_info stored free =
        let ready : Ready packets d = record {
          valid = v;
          held = held;
          bytes = bytes;
          no_info = no_info;
          stored = stored;
          unlocked = free;
        } in
        cleared-Streams (check_loop timegm m c (bytes_stored d.ring + 1) false d)
          (check_loop-Streams packets (bytes_stored d.ring + 1) d good ready (omega arith))
      where
        ps : List Packet
        ps = Valid.contents d.data_ring

        cleared-Streams :
            (o : Outcome (Option ClientData))
            → Streams ps packets rest o
            → Streams ps packets rest (o >>= λ o'. done (cleared false o'))
        cleared-Streams (done none) h = h
        cleared-Streams (done (some d')) h = h
        cleared-Streams fault h = h
        cleared-Streams failed h = h
        cleared-Streams blocked h = h
