-- ===== src/Databfr/Replace.antt =====
-- A packet written over the one of the same time in the data ring of src/databfr.c.
use sdrproxy.Prelude.{
  ℕ, ◌≤◌, ◌<◌, ◌≡◌, sym, ap, subst, subst₂, ◌∙◌, arith, List, length, tabulate, tabulate_ext,
  length-tabulate, update, update_self, update_ne, ltb_no, ◌<ℤ◌,
}
use native.Mathlib.Decide.{ℕ_discrete}
use sdrproxy.Memory.{length-memcpy}
use sdrproxy.Databfr.{PacketInfo, DataRing, datasize}
use sdrproxy.Databfr.Rotate.{place}
use sdrproxy.Databfr.Valid.{IsValid, packet, packet_at, contents}
use sdrproxy.Databfr.Spec.{Packet, time, insert, newest_of, insert-replace}
use sdrproxy.Databfr.Placed.{stored, given, packet-stored}

module _ {size : ℕ} {s : DataRing} (v : IsValid size s) (element : PacketInfo) (pkt : List ℕ)
    (reads : element.packet_len ≤ length pkt) (fits : element.packet_len ≤ size) where
  abbrev p : Packet
  p = given v element pkt reads fits

  -- A packet of a time that is held already takes its place.
  module _ (j : ℕ) (j_in : j < s.datar_cnt)
      (older : (k : ℕ) → k < j → time (packet_at s k) <ℤ time p)
      (same : time (packet_at s j) ≡ time p) where
    abbrev pointer : ℕ
    pointer = s.data_store_g (place s.datar_start j)

    abbrev pub written : DataRing
    written = record s { store = update s.store pointer (stored (s.store pointer) element pkt) }

    pointer_room : length (s.store pointer).sdr_packet ≡ size
    pointer_room = v.roomy (place s.datar_start j) (omega arith)

    written_at : (k : ℕ) → k < s.datar_cnt → packet_at written k ≡ update (packet_at s) j p k
    written_at k h = elim (ℕ_discrete j k) [
      | yes e ↦
          ap packet (
            update_self s.store pointer (s.data_store_g (place s.datar_start k)) _
              (ap (λ t. s.data_store_g (place s.datar_start t)) e))
          ∙ packet-stored v element pkt reads fits (s.store pointer) pointer_room
          ∙ sym (update_self (packet_at s) j k p e)
      | no ne ↦
          ap packet (
            update_ne s.store pointer (s.data_store_g (place s.datar_start k)) _ (λ e.
              let there =
                v.distinct (place s.datar_start j) (place s.datar_start k) (omega arith)
                  (omega arith) e in
              let hc = v.count_in in let hs = v.start_in in omega arith))
          ∙ sym (update_ne (packet_at s) j k p ne)
    ]

    time_kept : (k : ℕ) → time (update (packet_at s) j p k) ≡ time (packet_at s k)
    time_kept k = elim (ℕ_discrete j k) [
      | yes e ↦
          ap time (update_self (packet_at s) j k p e) ∙ sym same ∙ ap (λ t. time (packet_at s t)) e
      | no ne ↦ ap time (update_ne (packet_at s) j k p ne)
    ]

    time-written : (k : ℕ) → k < s.datar_cnt → time (packet_at written k) ≡ time (packet_at s k)
    time-written k h = ap time (written_at k h) ∙ time_kept k

    updated_fits : (k : ℕ) → k < s.datar_cnt → (update (packet_at s) j p k).0.packet_len ≤ size
    updated_fits k h = elim (ℕ_discrete j k) [
      | yes e ↦ rw (update_self (packet_at s) j k p e) fits
      | no ne ↦ rw (update_ne (packet_at s) j k p ne) (v.fits k h)
    ]

    pub written-IsValid : IsValid size written
    written-IsValid = record {
      start_in = v.start_in;
      count_in = v.count_in;
      end_at = v.end_at;
      is_live = v.is_live;
      distinct = v.distinct;
      roomy = λ i h. elim (ℕ_discrete pointer (s.data_store_g i)) [
        | yes e ↦
            ap (λ t. length t.sdr_packet) (update_self s.store pointer (s.data_store_g i) _ e)
            ∙ length-memcpy (s.store pointer).sdr_packet 0 pkt 0 element.packet_len
            ∙ pointer_room
        | no ne ↦
            ap (λ t. length t.sdr_packet) (update_ne s.store pointer (s.data_store_g i) _ ne)
            ∙ v.roomy i h
      ];
      fits = λ k h. subst (λ q. q.0.packet_len ≤ size) (sym (written_at k h)) (updated_fits k h);
      sorted = λ a b h hb.
          subst₂ ◌<ℤ◌ (sym (time-written a (omega arith))) (sym (time-written b hb))
            (v.sorted a b h hb);
    }

    replaced : insert p (contents s) ≡ tabulate s.datar_cnt (update (packet_at s) j p)
    replaced = insert-replace p s.datar_cnt (packet_at s) j j_in older same

    pub contents-written : contents written ≡ newest_of datasize (insert p (contents s))
    contents-written =
        tabulate_ext s.datar_cnt (packet_at written) (update (packet_at s) j p) written_at
        ∙ rw (
          replaced,
          ltb_no datasize (length (tabulate s.datar_cnt (update (packet_at s) j p))) (
              let h = v.count_in in
              omega (arith, length-tabulate s.datar_cnt (update (packet_at s) j p))),
        )
