-- ===== src/Client/Stored.antt =====
-- What `get_adc_data` of src/client.c does with a packet of samples that is good.
use sdrproxy.Prelude.{
  ℕ, zero, suc, ◌+◌, ◌≤◌, ◌<◌, ◌==◌, ◌≡◌, ◌≢◌, refl, sym, ap, subst, ◌∙◌, arith, true, false,
  and_false, none, List, [], ◌∷◌, ◌++◌, length, length-append, get_or, get_or-append, get_or-take,
  take, take-length, take-append_length, drop, drop-append_length, le→leb, ltb_no, lt→ltb, eq→==,
  ne→==, ℤ, pos,
}
use sdrproxy.Memory.{slice}
use sdrproxy.Buffer.{bytes_stored, view, retr, delete}
use sdrproxy.Buffer.Valid.{IsValid}
use sdrproxy.Buffer.Contents.{contents, copy_bytes-take}
use sdrproxy.Buffer.Take.{length-contents, retr-contents, retr-some, delete-contents}
use sdrproxy.Util.{ChannelInfo, load, do_crc}
use sdrproxy.Databfr.{
  DataRing, Outcome, done, fault, failed, blocked, ◌>>=◌, datasize, store_packet,
}
use sdrproxy.Databfr.Valid
use sdrproxy.Databfr.Spec.{Packet, insert, newest_of}
use sdrproxy.Databfr.Store.{Stores, store_packet-Stores}
use sdrproxy.Databfr.Run.{relock}
use sdrproxy.Databfr.Ops.{Allocator, Reply, switch, data_ring_ops}
use sdrproxy.Client.{
  Tm, ClientData, PreHdr, adctoken, bfrsize, packetid_end, is_string, decode_pkt_time,
  add_to_data_ring, process_packet, take_packet, read_packet, read_pre_hdr, get_adc_data,
}

-- A whole packet of samples with its CRC, whose length has a low byte that is not 0.
pub record IsPacket (packet : List ℕ) : Type 0 where
  pub whole : length packet ≡ 8 + load 2 4 packet
  pub low : get_or packet 4 0 ≢ 0
  pub samples : get_or packet 6 0 ≡ 3
  pub checked :
      do_crc 0 (slice 4 (load 2 4 packet + 3) packet) ≡ get_or packet (load 2 4 packet + 7) 0
  pub fits : length packet ≤ bfrsize

is_string-longer :
    (bytes text : List ℕ) → get_or bytes (length text) 0 ≢ 0 → is_string bytes text ≡ false
unfolding is_string
is_string-longer bytes [] h = ne→== (get_or bytes 0 0) 0 h
is_string-longer [] (c ∷ text) h = refl
is_string-longer (b ∷ bytes) (c ∷ text) h = rw (is_string-longer bytes text h) (and_false (b == c))

-- The preheader is read alike from the packet and from its first bytes.
pub load-same :
    (n at : ℕ) (xs ys : List ℕ)
    → ((i : ℕ) → at ≤ i → i < at + n → get_or xs i 0 ≡ get_or ys i 0)
    → load n at xs ≡ load n at ys
unfolding load
load-same zero at xs ys h = refl
load-same (suc n) at xs ys h =
    rw
      (
        h at (omega arith) (omega arith),
        load-same n (at + 1) xs ys (λ i l u. h i (omega arith) (omega arith)),
      )
      refl

module _ (timegm : Tm → ℤ) (m : Allocator) (c : ChannelInfo) (size : ℕ) where
  -- What is kept of a packet.
  abbrev pub received : List ℕ → Packet
  received packet = (
    record {
      packet_len = length packet;
      packet_time = decode_pkt_time timegm (drop 8 packet);
      packet_id = load 4 24 packet;
      valid = true;
    },
    packet,
  )

  abbrev pub with_packet : List Packet → List ℕ → List Packet
  with_packet ps packet = newest_of datasize (insert (received packet) ps)

  abbrev Added : DataRing → List ℕ → Outcome Reply → Type 0
  Added s packet (done r) =
      Valid.IsValid size r.2
      × (r.2.locked ≡ false)
      × (Valid.contents r.2 ≡ with_packet (Valid.contents s) packet)
  Added s packet fault = ⊥
  Added s packet failed = ⊥
  Added s packet blocked = ⊥

  stored-Added :
      (s : DataRing) (packet : List ℕ) (o : Outcome (ℤ × DataRing))
      → Stores size (record s { locked = true }) (received packet) o
      → Added s packet (o >>= λ r. done (r.0, none, record r.1 { locked = false }))
  stored-Added s packet (done (ret, s')) (e, held, v, l) = (relock false v, refl, held)
  stored-Added s packet fault h = h
  stored-Added s packet failed h = h
  stored-Added s packet blocked h = h

  add_to_data_ring-Added :
      (s : DataRing) (packet : List ℕ)
      → Valid.IsValid size s
      → s.locked ≡ false
      → length packet ≤ size
      → packetid_end ≤ length packet
      → Added s packet (add_to_data_ring timegm m c packet (length packet) s)
  unfolding add_to_data_ring data_ring_ops switch
  add_to_data_ring-Added s packet v free fits headed =
      let locked_ring = record s { locked = true } in
      let info = (received packet).0 in
      rw (free, ltb_no (length packet) 28 headed)
        (stored-Added s packet (store_packet info packet locked_ring) (
          subst (λ t. Stores size locked_ring (info, t) (store_packet info packet locked_ring))
            (take-length packet)
            (store_packet-Stores (relock true v) info packet (omega arith) fits)))

  -- The packet is in the data ring, and off the receive ring, which holds `more`.
  abbrev pub Takes : DataRing → List ℕ → List ℕ → Outcome (ℤ × ClientData) → Type 0
  Takes s packet more (done (ret, d')) =
      (ret ≡ pos 0)
      × (IsValid d'.ring × (contents d'.ring ≡ more))
      × (d'.packet_id ≡ load 4 24 packet)
      × Valid.IsValid size d'.data_ring
      × (d'.data_ring.locked ≡ false)
      × (Valid.contents d'.data_ring ≡ with_packet (Valid.contents s) packet)
  Takes s packet more fault = ⊥
  Takes s packet more failed = ⊥
  Takes s packet more blocked = ⊥

  module _ (packet : List ℕ) (good : IsPacket packet) (small : length packet ≤ size)
      (headed : packetid_end ≤ length packet) where
    Added-Takes :
        (d : ClientData) (more : List ℕ) (o : Outcome Reply)
        → IsValid d.ring × (contents d.ring ≡ more)
        → Added d.data_ring packet o
        → Takes d.data_ring packet more
            (o >>= λ r. done (pos 0, record d { packet_id = load 4 24 packet; data_ring = r.2 }))
    Added-Takes d more (done r) ring (v, free, held) = (refl, ring, refl, v, free, held)
    Added-Takes d more fault ring h = h
    Added-Takes d more failed ring h = h
    Added-Takes d more blocked ring h = h

    abbrev pub pre_hdr_of : PreHdr
    pre_hdr_of = record { datalen = load 2 4 packet; type = 3; flags = get_or packet 7 0 }

    -- A client that has read the preheader of the packet.
    module _ (before : ClientData) (v : Valid.IsValid size before.data_ring)
        (free : before.data_ring.locked ≡ false) where
      abbrev knowing : ClientData
      knowing = record before { pre_hdr = pre_hdr_of }

      process_packet-Takes :
          (more : List ℕ) (d : ClientData)
          → d ≡ record knowing { ring = d.ring }
          → IsValid d.ring × (contents d.ring ≡ more)
          → Takes before.data_ring packet more (process_packet timegm m c packet d)
      unfolding process_packet
      process_packet-Takes more d same ring =
          subst (λ t. Takes before.data_ring packet more (process_packet timegm m c packet t))
            (sym same)
            (rw
              (
                eq→== (do_crc 0 (slice 4 (load 2 4 packet + 3) packet))
                    (get_or packet (load 2 4 packet + 7) 0) good.checked,
                process_packet,
                sym good.whole,
              )
              (Added-Takes (record knowing { ring = d.ring }) more
                (add_to_data_ring timegm m c packet (length packet) before.data_ring) ring
                (add_to_data_ring-Added before.data_ring packet v free small headed)))

      take_packet-Takes :
          (more : List ℕ)
          → IsValid before.ring
          → contents before.ring ≡ packet ++ more
          → Takes before.data_ring packet more (take_packet timegm m c knowing)
      unfolding take_packet
      take_packet-Takes more w held =
          let n = 8 + load 2 4 packet in
          let stored : n ≤ bytes_stored before.ring =
            omega
              (arith, length-contents w, ap length held, length-append packet more, good.whole) in
          let (w', left) = retr-contents w n stored in
          rw
            (
              le→leb n (bytes_stored before.ring) stored,
              ltb_no bfrsize n (omega (arith, good.whole, good.fits)),
              retr-some w n stored,
              held,
              take-append_length packet more n (sym good.whole),
              take_packet,
            )
            (process_packet-Takes more (record knowing { ring = (retr n before.ring).1 }) refl
              (w', left ∙ ap (drop n) held ∙ drop-append_length packet more n (sym good.whole)))

    some_data : 0 < load 2 4 packet
    unfolding load
    some_data = let low = good.low in omega arith

    first_bytes :
        (more : List ℕ) (i : ℕ) → i < 8 → get_or (take 8 (packet ++ more)) i 0 ≡ get_or packet i 0
    first_bytes more i h =
        get_or-take 8 (packet ++ more) i 0 h
        ∙ get_or-append packet more i 0 (omega (arith, good.whole))

    pre_hdr-read : (more : List ℕ) → read_pre_hdr (take 8 (packet ++ more)) ≡ pre_hdr_of
    pre_hdr-read more =
        rw
          (
            load-same 2 4 (take 8 (packet ++ more)) packet
                (λ i l u. first_bytes more i (omega arith)),
            first_bytes more 6 (omega arith),
            first_bytes more 7 (omega arith),
            good.samples,
          )
          refl

    read_packet-Takes :
        (d : ClientData) (more : List ℕ)
        → Valid.IsValid size d.data_ring
        → d.data_ring.locked ≡ false
        → IsValid d.ring
        → contents d.ring ≡ packet ++ more
        → Takes d.data_ring packet more (read_packet timegm m c d)
    unfolding read_packet view
    read_packet-Takes d more v free w held =
        let stored : 8 < bytes_stored d.ring = omega (
          arith,
          length-contents w,
          ap length held,
          length-append packet more,
          good.whole,
          some_data,
        ) in
        rw
          (
            lt→ltb 8 (bytes_stored d.ring) stored,
            ltb_no (bytes_stored d.ring) 8 (omega arith),
            copy_bytes-take w 8 (omega arith),
            held,
            is_string-longer (take 8 (packet ++ more)) adctoken
                (λ e. good.low (sym (first_bytes more 4 (omega arith)) ∙ e)),
            read_packet,
          )
          (subst
            (λ h. Takes d.data_ring packet more (take_packet timegm m c (record d { pre_hdr = h })))
            (sym (pre_hdr-read more)) (take_packet-Takes d v free more w held))

    pub get_adc_data-Takes :
        (d : ClientData) (before more : List ℕ)
        → Valid.IsValid size d.data_ring
        → d.data_ring.locked ≡ false
        → IsValid d.ring
        → contents d.ring ≡ before ++ (packet ++ more)
        → Takes d.data_ring packet more (get_adc_data timegm m c (length before) d)
    unfolding get_adc_data
    get_adc_data-Takes d [] more v free w held = read_packet-Takes d more v free w held
    get_adc_data-Takes d (b ∷ before) more v free w held =
        let n = length (b ∷ before) in
        let room : n ≤ bytes_stored d.ring =
          omega (
            arith,
            length-contents w,
            ap length held,
            length-append (b ∷ before) (packet ++ more),
          ) in
        let (w', left) = delete-contents w n (omega arith) room in
        rw (lt→ltb 0 n (omega arith)) (
          read_packet-Takes (record d { ring = (delete (pos n) d.ring).1 }) more v free w'
            (left ∙ ap (drop n) held ∙ drop-append_length (b ∷ before) (packet ++ more) n refl))
