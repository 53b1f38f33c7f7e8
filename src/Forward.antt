-- ===== src/Forward.antt =====
-- From the receive ring of src/client.c to a send ring of src/server.c: what `check_data` stores and
-- `put_adc_data` then puts, through the data ring of src/databfr.c.
mod Tests
use sdrproxy.Prelude.{ℕ, ◌≤◌, ◌≡◌, ◌∙◌, false, subst, Option, none, some, List, get_elem?, ℤ}
use sdrproxy.Buffer.Valid.{IsValid}
use sdrproxy.Buffer.Contents.{contents}
use sdrproxy.Buffer.Search.{Holds}
use sdrproxy.Util.{ChannelInfo}
use sdrproxy.Util.Search.{IsBytes}
use sdrproxy.Databfr.{Outcome, done, fault, failed, blocked, ◌>>=◌}
use sdrproxy.Databfr.Valid
use sdrproxy.Databfr.Spec.{Packet, next_after}
use sdrproxy.Databfr.Ops.{Allocator}
use sdrproxy.History.{ConnHistData}
use sdrproxy.Channels.{chantoken}
use sdrproxy.Server.{World, maxpacketsize, put_adc_data}
use sdrproxy.Server.Outgoing.{Placed, Puts, put_adc_data-Puts}
use sdrproxy.Client.{Tm, ClientData, adctoken, check_data}
use sdrproxy.Client.Stream.{stream, AllPackets, with_packets, Streams, check_data-Streams}

module _ (timegm : Tm → ℤ) (m : Allocator) (c : ChannelInfo) (size : ℕ) (now : ℤ) where
  -- The client's thread looks at what it has received, and then the server's thread at what there is
  -- for the connection of `w`.
  abbrev pub forward : ClientData → World → Outcome (ℤ × World)
  forward d w = check_data timegm m c false d >>= λ o. elim o [
    | none ↦ blocked
    | some d' ↦ put_adc_data m c now (record w { data_ring = d'.data_ring })
  ]

  -- Of all packets that there were and that came, the first that is later than the last one sent
  -- has been dealt with.
  abbrev pub Forwards : World → ConnHistData → List Packet → Outcome (ℤ × World) → Type 0
  Forwards w h ps (done (ret, w')) =
      Placed now w h (next_after h.last_packet_time ps) ret w' × (Valid.contents w'.data_ring ≡ ps)
  Forwards w h ps fault = ⊥
  Forwards w h ps failed = ⊥
  Forwards w h ps blocked = ⊥

  module _ (w : World) (h : ConnHistData) (sends : IsValid w.conn.send_ring)
      (slots : size ≤ maxpacketsize) (recorded : get_elem? w.hist w.conn.history ≡ some h) where
    put-Forwards :
        (d : ClientData) (ps : List Packet) (o : Outcome (ℤ × World))
        → Valid.contents d.data_ring ≡ ps
        → Puts now (record w { data_ring = d.data_ring }) h size o
        → Forwards w h ps o
    put-Forwards d ps (done (ret, w')) e (v, v', free, same, conn, room, placed) =
        (subst (λ qs. Placed now w h (next_after h.last_packet_time qs) ret w') e placed, same ∙ e)
    put-Forwards d ps fault e p = elim p [ ]
    put-Forwards d ps failed e p = elim p [ ]
    put-Forwards d ps blocked e p = elim p [ ]

    -- For a stream of packets of samples with good CRCs, each of 28 bytes or more, which hold its
    -- time and its id, beginning with the token and with a length whose low byte is not 0, that fit
    -- the slots and BFRSIZE, followed by bytes without a token, and with no token of channel
    -- information in it, on a valid receive ring, where the data ring is valid and unlocked, its
    -- slots are no longer than MAXPACKETSIZE, the connection's send ring is valid and its record is
    -- in the history: check_data and then put_adc_data return, and the first packet that is later
    -- than the last one sent, of those in the data ring and those of the stream, is put unchanged
    -- on the send ring of the connection, if it has room.
    pub forward-Forwards :
        (packets : List (List ℕ)) (rest : List ℕ) (d : ClientData)
        → ((p : ℕ) → ¬ Holds rest adctoken p)
        → AllPackets size packets
        → IsValid d.ring
        → contents d.ring ≡ stream packets rest
        → IsBytes (contents d.ring)
        → ((p : ℕ) → ¬ Holds (contents d.ring) chantoken p)
        → Valid.IsValid size d.data_ring
        → d.data_ring.locked ≡ false
        → Forwards w h
            (with_packets timegm m c size (Valid.contents d.data_ring) packets)
            (forward d w)
    forward-Forwards packets rest d no_token good v held bytes no_info stored free =
        streamed (check_data timegm m c false d) (
          check_data-Streams timegm m c size rest no_token packets d good v held bytes no_info
            stored free)
      where
        ps : List Packet
        ps = with_packets timegm m c size (Valid.contents d.data_ring) packets

        streamed :
            (o : Outcome (Option ClientData))
            → Streams timegm m c size (Valid.contents d.data_ring) packets rest o
            → Forwards w h ps (
                o >>= λ o'. elim o' [
                  | none ↦ blocked
                  | some d' ↦ put_adc_data m c now (record w { data_ring = d'.data_ring })
                ])
        streamed (done (some d')) (ring, stored', free', held') =
            let w' = record w { data_ring = d'.data_ring } in
            put-Forwards d' ps (put_adc_data m c now w') held'
              (put_adc_data-Puts now w' h sends stored' slots m c recorded free')
        streamed (done none) s = elim s [ ]
        streamed fault s = elim s [ ]
        streamed failed s = elim s [ ]
        streamed blocked s = elim s [ ]
