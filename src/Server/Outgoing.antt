-- ===== src/Server/Outgoing.antt =====
-- `put_adc_data` of src/server.c: which packet goes on the send ring.
use sdrproxy.Prelude.{
  ℕ, zero, suc, ◌≤◌, ◌<◌, ◌≡◌, refl, sym, ap, ◌∙◌, subst, arith, ◌⊎◌, inl, inr, Option, none, some,
  true, false, [], ◌++◌, length, get_elem?, set, take, take-length, tabulate, ltb_no, lt→ltb,
  Bool-cases, ℤ, pos, ltb_ℤ,
}
use native.Mathlib.Decide.{dec_le}
use mathlib.Core.Option.{some-injective}
use sdrproxy.Memory.{length-slice}
use sdrproxy.Buffer.{bytes_free, ring_retr}
use sdrproxy.Buffer.Valid.{IsValid}
use sdrproxy.Buffer.Contents.{contents}
use sdrproxy.Buffer.Store.{store-eq, stored_ring-IsValid, contents-store}
use sdrproxy.Util.{ChannelInfo}
use sdrproxy.Databfr.{DataRing, Outcome, done, fault, failed, blocked, ◌>>=◌}
use sdrproxy.Databfr.Valid
use sdrproxy.Databfr.Spec.{Packet, next_after}
use sdrproxy.Databfr.Retrieve.{retr_packet-next_after}
use sdrproxy.Databfr.Ops.{Allocator, data_ring_ops, switch, retrieved}
use sdrproxy.Databfr.Run.{relock}
use sdrproxy.History.{ConnHistData}
use sdrproxy.Server.{World, history_of, put_packet, put_adc_data, unread, maxpacketsize}

pub next_after-held :
    (t : ℤ) (c : ℕ) (f : ℕ → Packet) (p : Packet)
    → next_after t (tabulate c f) ≡ some p
    → (k : ℕ) × ((k < c) × (f k ≡ p))
unfolding next_after
next_after-held t zero f p e = cc
next_after-held t (suc c) f p e = elim (Bool-cases (ltb_ℤ t (f 0).0.packet_time)) [
  | inl later ↦ (0, (omega arith, some-injective (f 0) p (rw later at e)))
  | inr not_later ↦
      let (k, (held, same)) = next_after-held t c (λ i. f (suc i)) p (rw not_later at e) in
      (suc k, (omega arith, same))
]

module _ {size : ℕ} {s : DataRing} (v : Valid.IsValid size s) where
  -- A packet that the data ring gives has the length that it says, and fits a slot.
  pub given-length :
      (t : ℤ) (p : Packet)
      → next_after t (Valid.contents s) ≡ some p
      → (length p.1 ≡ p.0.packet_len) × (p.0.packet_len ≤ size)
  given-length t p e =
      let (k, (held, same)) = next_after-held t s.datar_cnt (Valid.packet_at s) p e in
      let d = Valid.slot s k in
      let fits : d.packet_info.packet_len ≤ size = v.fits k held in
      let room : length d.sdr_packet ≡ size = v.roomy _ (omega arith) in
      subst (λ q. (length q.1 ≡ q.0.packet_len) × (q.0.packet_len ≤ size)) same
        (length-slice 0 d.packet_info.packet_len d.sdr_packet (omega arith), fits)

module _ (now : ℤ) (w : World) (h : ConnHistData) where
  abbrev Same : World → Type 0
  Same w' = (contents w'.conn.send_ring ≡ contents w.conn.send_ring) × (w'.hist ≡ w.hist)

  -- What becomes of the next packet: nothing if there is none or the send ring has no room for it,
  -- and else its bytes go on the ring, and its time is remembered.
  abbrev pub Placed : Option Packet → ℤ → World → Type 0
  Placed none ret w' = (ret ≡ pos 0) × Same w'
  Placed (some p) ret w' =
      ((bytes_free w.conn.send_ring < p.0.packet_len) × (ret ≡ pos 0) × Same w')
      ⊎ ((p.0.packet_len ≤ bytes_free w.conn.send_ring)
          × (ret ≡ pos 1)
          × (contents w'.conn.send_ring ≡ contents w.conn.send_ring ++ p.1)
          × (w'.hist
              ≡ set w.hist w.conn.history
                  (record h { last_packet_time = p.0.packet_time; last_update = now })))

  abbrev pub Puts : ℕ → Outcome (ℤ × World) → Type 0
  Puts size (done (ret, w')) =
      IsValid w'.conn.send_ring
      × Valid.IsValid size w'.data_ring
      × (w'.data_ring.locked ≡ false)
      × (Valid.contents w'.data_ring ≡ Valid.contents w.data_ring)
      × (w'.conn ≡ record (w.conn) { send_ring = w'.conn.send_ring })
      × (w'.conn.send_ring.bfrsize ≡ w.conn.send_ring.bfrsize)
      × Placed (next_after h.last_packet_time (Valid.contents w.data_ring)) ret w'
  Puts size fault = ⊥
  Puts size failed = ⊥
  Puts size blocked = ⊥

  module _ {size : ℕ} (sound : IsValid w.conn.send_ring) (v : Valid.IsValid size w.data_ring)
      (small : size ≤ maxpacketsize) where
    abbrev t : ℤ
    t = h.last_packet_time

    put_packet-Puts :
        (o : Option Packet)
        → next_after t (Valid.contents w.data_ring) ≡ o
        → Puts size
            (put_packet now h (record w { data_ring = record (w.data_ring) { locked = false } }) o)
    unfolding put_packet
    put_packet-Puts none e =
        (sound, relock false v, refl, refl, refl, refl, rw e (refl, (refl, refl)))
    put_packet-Puts (some p) e =
        let (whole, fits) = given-length v t p e in
        elim (dec_le p.0.packet_len (bytes_free w.conn.send_ring)) [
          | yes room ↦
              rw
                (
                  ltb_no maxpacketsize p.0.packet_len (omega arith),
                  ltb_no (bytes_free w.conn.send_ring) p.0.packet_len room,
                  store-eq sound p.1 p.0.packet_len room (omega arith),
                  put_packet,
                )
                (
                  stored_ring-IsValid sound p.1 p.0.packet_len room (omega arith),
                  relock false v,
                  refl,
                  refl,
                  refl,
                  refl,
                  rw e (
                      inr (
                        room,
                        refl,
                        contents-store sound p.1 p.0.packet_len room (omega arith)
                            ∙ ap (λ l. contents w.conn.send_ring ++ l)
                                (ap (λ n. take n p.1) (sym whole) ∙ take-length p.1),
                        refl,
                      )),
                )
          | no full ↦
              rw
                (
                  ltb_no maxpacketsize p.0.packet_len (omega arith),
                  lt→ltb (bytes_free w.conn.send_ring) p.0.packet_len (omega arith),
                  put_packet,
                )
                (
                  sound,
                  relock false v,
                  refl,
                  refl,
                  refl,
                  refl,
                  rw e (inl (omega arith, refl, (refl, refl))),
                )
        ]

    asked :
        (m : Allocator) (c : ChannelInfo)
        → w.data_ring.locked ≡ false
        → data_ring_ops m c unread [] t ring_retr w.data_ring
          ≡ retrieved
              (record (w.data_ring) { locked = true })
              (next_after t (Valid.contents w.data_ring))
    unfolding data_ring_ops switch
    asked m c free =
        rw (free, data_ring_ops)
          (ap (retrieved (record (w.data_ring) { locked = true }))
            (retr_packet-next_after (relock true v) t))

    answered :
        (o : Option Packet)
        → next_after t (Valid.contents w.data_ring) ≡ o
        → Puts size (
            retrieved (record (w.data_ring) { locked = true }) o >>= λ r.
            put_packet now h (record w { data_ring = r.2 }) r.1)
    answered none e = put_packet-Puts none e
    answered (some p) e = put_packet-Puts (some p) e

    history_there : get_elem? w.hist w.conn.history ≡ some h → history_of w ≡ done h
    unfolding history_of
    history_there placed = rw (placed, history_of) refl

    -- With a valid, unlocked data ring whose slots are no longer than MAXPACKETSIZE, put_adc_data
    -- returns: the first packet later than the last one sent is put on the send ring if there is
    -- room, and remembered as sent; otherwise nothing changes. The data ring holds the same
    -- packets.
    pub put_adc_data-Puts :
        (m : Allocator) (c : ChannelInfo)
        → get_elem? w.hist w.conn.history ≡ some h
        → w.data_ring.locked ≡ false
        → Puts size (put_adc_data m c now w)
    unfolding put_adc_data
    put_adc_data-Puts m c placed free =
        rw (history_there placed, asked m c free, put_adc_data)
          (answered (next_after t (Valid.contents w.data_ring)) refl)
