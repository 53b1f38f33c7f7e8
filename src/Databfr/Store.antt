-- ===== src/Databfr/Store.antt =====
-- RING_STORE of src/databfr.c against what the data ring promises.
use sdrproxy.Prelude.{
  ℕ, zero, suc, ◌+◌, ◌≤◌, ◌<◌, ◌≡◌, refl, sym, ap, ◌∙◌, inl, inr, arith, List, length, update,
  ==_iff, ne→==, ℤ, pos, ◌≤ℤ◌, ◌<ℤ◌, if◌then◌else◌,
}
use native.Mathlib.Decide.{ℕ_discrete}
use sdrproxy.Databfr.{
  PacketInfo, DataRing, Outcome, done, fault, failed, blocked, datasize, move_end, move_start,
  ◌>>=◌, store_element, datar_rotate_right, Found, empty, oldest, newest, between, exact,
  search_data_bfr, store_found, store_packet,
}
use sdrproxy.Databfr.Rotate.{place}
use sdrproxy.Databfr.Valid.{IsValid, packet_at, contents}
use sdrproxy.Databfr.Spec.{
  Packet, time, insert, newest_of, rejected, not_rejected, is_rejected, newest_of-older,
}
use sdrproxy.Databfr.Search.{Locates, search_data_bfr-Locates}
use sdrproxy.Databfr.Placed.{
  MadeRoom, stored, given, store_element-eq, filled, grown-IsValid, contents-grown, lapped-IsValid,
  contents-lapped,
}
use sdrproxy.Databfr.Replace.{written, written-IsValid, contents-written}
use native.Mathlib.Nat.{le_refl}
use sdrproxy.Databfr.Room.{room_at_end, rotated_slots, room_rotated}

-- The call returns; its `int` says whether the packet was turned away, and the ring holds the newest
-- packets of those that it held and the one given.
abbrev pub Stores : ℕ → DataRing → Packet → Outcome (ℤ × DataRing) → Type 0
Stores size s p (done (ret, s')) =
    (ret ≡ (if rejected datasize p (contents s) then pos 1 else pos 0))
    × (contents s' ≡ newest_of datasize (insert p (contents s)))
    × IsValid size s'
    × (s'.locked ≡ s.locked)
Stores size s p fault = ⊥
Stores size s p failed = ⊥
Stores size s p blocked = ⊥

module _ {size : ℕ} {s : DataRing} (v : IsValid size s) (element : PacketInfo) (pkt : List ℕ)
    (reads : element.packet_len ≤ length pkt) (fits : element.packet_len ≤ size) where
  abbrev p : Packet
  p = given v element pkt reads fits

  module _ (slots : ℕ → ℕ) (j : ℕ) (room : MadeRoom s slots j)
      (older : (k : ℕ) → k < j → time (packet_at s k) <ℤ time p)
      (younger : (k : ℕ) → j ≤ k → k < s.datar_cnt → time p <ℤ time (packet_at s k)) where
    abbrev fill : DataRing
    fill = filled v element pkt reads fits slots j room

    store_filled :
        (index : ℕ)
        → index ≡ place s.datar_start j
        → store_element index element pkt (record s { data_store_g = slots }) ≡ done fill
    store_filled index e =
        let (b, b_in, there) = room.known (place s.datar_start j) (omega arith) in
        ap (λ t. store_element t element pkt (record s { data_store_g = slots })) e
        ∙ store_element-eq v element pkt reads fits (place s.datar_start j) slots
            (ap (λ t. length (s.store t).sdr_packet) there ∙ v.roomy b b_in)
        ∙ ap
            (λ t. done (record s {
              data_store_g = slots;
              store = update s.store t (stored (s.store t) element pkt);
            }))
            room.free_slot

    grown-Stores :
        s.datar_cnt < datasize
        → Stores size s p (done (pos 0, record (move_end fill) { datar_cnt = s.datar_cnt + 1 }))
    grown-Stores h = (
      rw (not_rejected datasize p s.datar_cnt (packet_at s) (inl h)),
      contents-grown v element pkt reads fits slots j room older younger h,
      grown-IsValid v element pkt reads fits slots j room older younger h,
      refl,
    )

    moved-Stores : Stores size s p (done (pos 0, move_start (move_end fill)))
    moved-Stores = elim (ℕ_discrete s.datar_cnt datasize) [
      | yes full ↦ rw ((==_iff s.datar_cnt datasize).1 full) (
        rw (
            not_rejected datasize p s.datar_cnt (packet_at s)
              (inr (omega arith, let h = older 0 (room.not_oldest full) in omega arith))),
        contents-lapped v element pkt reads fits slots j room older younger full,
        lapped-IsValid v element pkt reads fits slots j room older younger full,
        refl,
      )
      | no ne ↦
          rw (ne→== s.datar_cnt datasize ne) (grown-Stores (let h = v.count_in in omega arith))
    ]

  written-Stores :
      (j : ℕ) (j_in : j < s.datar_cnt) (older : (k : ℕ) → k < j → time (packet_at s k) <ℤ time p)
      (same : time (packet_at s j) ≡ time p)
      → Stores size s p (done (pos 0, written v element pkt reads fits j j_in older same))
  written-Stores j j_in older same = (
    rw (
        not_rejected datasize p s.datar_cnt (packet_at s)
          (inr (omega arith, first_le j older same))),
    contents-written v element pkt reads fits j j_in older same,
    written-IsValid v element pkt reads fits j j_in older same,
    refl,
  )
    where
      first_le :
          (i : ℕ)
          → ((k : ℕ) → k < i → time (packet_at s k) <ℤ time p)
          → time (packet_at s i) ≡ time p
          → time (packet_at s 0) ≤ℤ time p
      first_le zero before e = rw e (le_refl _)
      first_le (suc i) before e = let h = before 0 (omega arith) in omega arith

  start_place : s.datar_start ≡ place s.datar_start 0
  start_place = let h = v.start_in in omega arith

  -- The branches of RING_STORE.
  store_found-Stores :
      0 < s.datar_cnt
      → (f : Found) → Locates element.packet_time s f
      → Stores size s p (store_found element pkt s f)
  unfolding store_found datar_rotate_right
  store_found-Stores held empty e = absurd (omega arith)
  store_found-Stores held (oldest i) (_, there, later) = elim (ℕ_discrete s.datar_cnt datasize) [
    | yes full ↦ rw ((==_iff s.datar_cnt datasize).1 full) (
      rw (is_rejected datasize p s.datar_cnt (packet_at s) held full (later 0 held)),
      sym (newest_of-older datasize p s.datar_cnt (packet_at s) full later),
      v,
      refl,
    )
    | no ne ↦
        let not_full : s.datar_cnt < datasize = (let h = v.count_in in omega arith) in
        let room_first = λ (full : s.datar_cnt ≡ datasize). absurd {A = 0 < 0} (ne full) in
        let room = room_rotated v 0 held room_first in
        rw
          (
            ne→== s.datar_cnt datasize ne,
            ap (λ t. store_element t element pkt (datar_rotate_right t s.datar_end s)) start_place
                ∙ store_filled (rotated_slots v 0 held room_first) 0 room (λ k h. elim h [ ])
                    (λ k h h'. later k h') (place s.datar_start 0) refl,
          )
          (grown-Stores (rotated_slots v 0 held room_first) 0 room (λ k h. elim h [ ])
            (λ k h h'. later k h') not_full)
  ]
  store_found-Stores held (newest i) (_, there, before) =
      rw
        (store_filled s.data_store_g s.datar_cnt (room_at_end v) before
          (λ k h h'. absurd (omega arith)) s.datar_end v.end_at)
        (moved-Stores s.data_store_g s.datar_cnt (room_at_end v) before
          (λ k h h'. absurd (omega arith)))
  store_found-Stores held (between i) (j, j_pos, j_in, there, before, later) =
      rw
        (
          there,
          store_filled (rotated_slots v j j_in (λ _. j_pos)) j (room_rotated v j j_in (λ _. j_pos))
              before later (place s.datar_start j) refl,
        )
        (moved-Stores (rotated_slots v j j_in (λ _. j_pos)) j (room_rotated v j j_in (λ _. j_pos))
          before later)
  store_found-Stores held (exact i) (j, j_in, there, same, before) =
      rw
        (
          there,
          store_element-eq v element pkt reads fits (place s.datar_start j) s.data_store_g
              (v.roomy (place s.datar_start j) (omega arith)),
        )
        (written-Stores j j_in before same)

  -- The first packet goes past the end of the empty ring.
  store_first :
      s.datar_cnt ≡ 0
      → Stores size s p (
          store_element s.datar_end element pkt s >>= λ s'.
          done (pos 0, record (move_end s') { datar_cnt = s'.datar_cnt + 1 }))
  store_first none_held =
      let room = room_at_end v in
      rw
        (store_filled s.data_store_g s.datar_cnt room (λ k h. absurd (omega arith))
          (λ k h h'. absurd (omega arith)) s.datar_end v.end_at)
        (grown-Stores s.data_store_g s.datar_cnt room (λ k h. absurd (omega arith))
          (λ k h h'. absurd (omega arith)) (omega arith))

  -- On a valid data ring, RING_STORE of a packet that fits the memory of a slot returns, and keeps
  -- the ring valid; the ring then holds the newest DATASIZE packets of those that it held and the
  -- one given, in the order of their times, each time once; it answers 1 exactly if a full ring
  -- turns an older packet away.
  pub store_packet-Stores : Stores size s p (store_packet element pkt s)
  unfolding store_packet
  store_packet-Stores = elim (ℕ_discrete s.datar_cnt 0) [
    | yes none_held ↦ rw ((==_iff s.datar_cnt 0).1 none_held) (store_first none_held)
    | no ne ↦ rw (ne→== s.datar_cnt 0 ne) (
        store_found-Stores (omega arith) (search_data_bfr element.packet_time s)
          (search_data_bfr-Locates v element.packet_time))
  ]
