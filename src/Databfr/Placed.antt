-- ===== src/Databfr/Placed.antt =====
-- A packet put into the data ring of src/databfr.c at a place of its own: what the ring holds
-- afterwards, whichever way the pointers were moved to make room.
use sdrproxy.Prelude.{
  ℕ, zero, suc, ◌+◌, ◌-◌, ◌≤◌, ◌<◌, ◌≡◌, ◌≢◌, refl, sym, ap, subst, subst₂, ◌∙◌, ◌⊎◌, inl, inr,
  arith, List, length, tabulate, tabulate_ext, length-tabulate, take, update, update_self,
  update_ne, ltb_no, lt→ltb, pos, ◌<ℤ◌,
}
use native.Mathlib.Decide.{dec_lt, ℕ_discrete}
use sdrproxy.Memory.{memcpy}
use sdrproxy.Memory.{slice-memcpy, length-memcpy}
use sdrproxy.Databfr.{
  PacketInfo, DataStore, DataRing, done, datasize, datar_normalize, move_end, store_element,
}
use sdrproxy.Databfr.Rotate.{place, normalize_next, place-next}
use sdrproxy.Databfr.Valid.{IsValid, packet, packet_at, contents}
use sdrproxy.Databfr.Spec.{
  Packet, time, insert, newest_of, splice, splice_before, splice_at, splice_after, splice_sorted,
  insert-splice, tail-splice,
}

-- The slots after room is made at place `j`: the pointer past the newest packet stands there, and
-- the later ones one slot further. In a full ring the slot of the oldest packet is given up.
pub record MadeRoom (s : DataRing) (slots : ℕ → ℕ) (j : ℕ) : Type 0 where
  pub place_in : j ≤ s.datar_cnt
  pub not_oldest : s.datar_cnt ≡ datasize → 0 < j
  pub free_slot : slots (place s.datar_start j) ≡ s.data_store_g s.datar_end
  pub before :
      (k : ℕ)
      → k < j
      → (0 < k) ⊎ (s.datar_cnt < datasize)
      → slots (place s.datar_start k) ≡ s.data_store_g (place s.datar_start k)
  pub after :
      (k : ℕ)
      → j ≤ k
      → k < s.datar_cnt
      → slots (place s.datar_start (suc k)) ≡ s.data_store_g (place s.datar_start k)
  pub apart : (a b : ℕ) → a < datasize → b < datasize → slots a ≡ slots b → a ≡ b
  pub known : (a : ℕ) → a < datasize → (b : ℕ) × (b < datasize) × (slots a ≡ s.data_store_g b)

-- What `store_element` leaves behind the pointer.
abbrev pub stored : DataStore → PacketInfo → List ℕ → DataStore
stored old element pkt = record {
  packet_info = element;
  sdr_packet = memcpy old.sdr_packet 0 pkt 0 element.packet_len;
}

module _ {size : ℕ} {s : DataRing} (v : IsValid size s) (element : PacketInfo) (pkt : List ℕ)
    (reads : element.packet_len ≤ length pkt) (fits : element.packet_len ≤ size) where
  abbrev pub given : Packet
  given = (element, take element.packet_len pkt)

  pub packet-stored :
      (old : DataStore) → length old.sdr_packet ≡ size → packet (stored old element pkt) ≡ given
  packet-stored old e =
      ap (λ t. (element, t))
        (slice-memcpy old.sdr_packet pkt element.packet_len (omega arith) reads)

  -- With room for the packet, `store_element` stores it and touches nothing else.
  pub store_element-eq :
      (index : ℕ) (slots : ℕ → ℕ)
      → length (s.store (slots index)).sdr_packet ≡ size
      → let s' = record s { data_store_g = slots } in
        store_element index element pkt s'
        ≡ done (record s' {
          store = update s.store (slots index) (stored (s.store (slots index)) element pkt);
        })
  unfolding store_element
  store_element-eq index slots e = rw (
    v.is_live,
    ltb_no (length (s.store (slots index)).sdr_packet) element.packet_len (omega arith),
    ltb_no (length pkt) element.packet_len reads,
  )

  module _ (slots : ℕ → ℕ) (j : ℕ) (room : MadeRoom s slots j) where
    abbrev free : ℕ
    free = s.data_store_g s.datar_end

    abbrev new : DataStore
    new = stored (s.store free) element pkt

    -- The ring after the packet is stored, before the indexes are moved.
    abbrev pub filled : DataRing
    filled = record s { data_store_g = slots; store = update s.store free new }

    free_room : length (s.store free).sdr_packet ≡ size
    free_room = v.roomy s.datar_end (rw v.end_at (omega arith))

    place_apart :
        (k : ℕ)
        → k < s.datar_cnt
        → (0 < k) ⊎ (s.datar_cnt < datasize)
        → free ≢ s.data_store_g (place s.datar_start k)
    place_apart k h ok e =
        let same =
          v.distinct s.datar_end (place s.datar_start k) (rw v.end_at (omega arith)) (omega arith)
            e in
        let hs = v.start_in in let hc = v.count_in in let he = v.end_at in omega arith

    spare : (i : ℕ) → j ≤ i → (0 < i) ⊎ (s.datar_cnt < datasize)
    spare i h = elim (ℕ_discrete s.datar_cnt datasize) [
      | yes full ↦ inl (let pos_j = room.not_oldest full in omega arith)
      | no ne ↦ inr (let hc = v.count_in in omega arith)
    ]

    -- Every place holds the packet that it should.
    filled_at :
        (k : ℕ)
        → k ≤ s.datar_cnt
        → (0 < k) ⊎ (s.datar_cnt < datasize)
        → packet (filled.store (slots (place s.datar_start k))) ≡ splice (packet_at s) j given k
    filled_at k h ok = elim (ℕ_discrete k j) [
      | yes here ↦
          ap (λ t. packet (filled.store (slots (place s.datar_start t)))) here
          ∙ ap packet
              (update_self s.store free (slots (place s.datar_start j)) new (sym room.free_slot))
          ∙ packet-stored (s.store free) free_room
          ∙ sym (splice_at (packet_at s) j given k here)
      | no ne ↦ elim (dec_lt k j) [
        | yes early ↦
            let there = room.before k early ok in
            ap packet (
              ap filled.store there
              ∙ update_ne s.store free (s.data_store_g (place s.datar_start k)) new
                  (place_apart k (let hj = room.place_in in omega arith) ok))
            ∙ sym (splice_before (packet_at s) j given k early)
        | no not_early ↦ later k (omega arith) h
      ]
    ]
      where
        later :
            (i : ℕ)
            → j < i
            → i ≤ s.datar_cnt
            → packet (filled.store (slots (place s.datar_start i))) ≡ splice (packet_at s) j given i
        later zero p q = elim p [ ]
        later (suc i) p q =
            let there = room.after i (omega arith) (omega arith) in
            ap packet (
              ap filled.store there
              ∙ update_ne s.store free (s.data_store_g (place s.datar_start i)) new
                  (place_apart i (omega arith) (spare i (omega arith))))
            ∙ sym (splice_after (packet_at s) j given (suc i) i p refl)

    end_next : datar_normalize (pos (s.datar_end + 1)) ≡ place (place s.datar_start s.datar_cnt) 1
    end_next = rw v.end_at (normalize_next (place s.datar_start s.datar_cnt) (omega arith))

    filled-roomy : (i : ℕ) → i < datasize → length (filled.store (slots i)).sdr_packet ≡ size
    filled-roomy i h =
        let (b, b_in, e) = room.known i h in
        elim (ℕ_discrete free (slots i)) [
          | yes same ↦
              ap (λ t. length t.sdr_packet) (update_self s.store free (slots i) new same)
              ∙ length-memcpy (s.store free).sdr_packet 0 pkt 0 element.packet_len
              ∙ free_room
          | no ne ↦
              ap (λ t. length t.sdr_packet) (update_ne s.store free (slots i) new ne)
              ∙ ap (λ t. length (s.store t).sdr_packet) e
              ∙ v.roomy b b_in
        ]

    splice_fits : (k : ℕ) → k ≤ s.datar_cnt → (splice (packet_at s) j given k).0.packet_len ≤ size
    splice_fits k h = elim (dec_lt k j) [
      | yes early ↦
          rw (splice_before (packet_at s) j given k early)
            (v.fits k (let hj = room.place_in in omega arith))
      | no not_early ↦ elim (ℕ_discrete k j) [
        | yes e ↦ rw (splice_at (packet_at s) j given k e) fits
        | no ne ↦
            rw (splice_after (packet_at s) j given k (k - 1) (omega arith) (omega arith))
              (v.fits (k - 1) (omega arith))
      ]
    ]

    module _ (older : (k : ℕ) → k < j → time (packet_at s k) <ℤ time given)
        (younger : (k : ℕ) → j ≤ k → k < s.datar_cnt → time given <ℤ time (packet_at s k)) where
      splice-rises :
          (a b : ℕ)
          → a < b
          → b ≤ s.datar_cnt
          → time (splice (packet_at s) j given a) <ℤ time (splice (packet_at s) j given b)
      splice-rises =
          splice_sorted (packet_at s) j given s.datar_cnt room.place_in v.sorted older younger

      inserted :
          insert given (contents s) ≡ tabulate (suc s.datar_cnt) (splice (packet_at s) j given)
      inserted = insert-splice given s.datar_cnt (packet_at s) j room.place_in older younger

      module _ (not_full : s.datar_cnt < datasize) where
        -- A ring that is not full grows by the packet.
        abbrev pub grown : DataRing
        grown = record (move_end filled) { datar_cnt = s.datar_cnt + 1 }

        packet_at-grown :
            (k : ℕ) → k ≤ s.datar_cnt → packet_at grown k ≡ splice (packet_at s) j given k
        packet_at-grown k h = filled_at k h (inr not_full)

        pub grown-IsValid : IsValid size grown
        grown-IsValid = record {
          start_in = v.start_in;
          count_in = omega arith;
          end_at = end_next ∙ place-next s.datar_start v.start_in s.datar_cnt;
          is_live = v.is_live;
          distinct = room.apart;
          roomy = filled-roomy;
          fits = λ k h.
              subst (λ q. q.0.packet_len ≤ size) (sym (packet_at-grown k (omega arith)))
                (splice_fits k (omega arith));
          sorted = λ a b h hb.
              subst₂ (λ x y. time x <ℤ time y) (sym (packet_at-grown a (omega arith)))
                (sym (packet_at-grown b (omega arith))) (splice-rises a b h (omega arith));
        }

        pub contents-grown : contents grown ≡ newest_of datasize (insert given (contents s))
        contents-grown =
            ap (λ n. tabulate n (packet_at grown)) {y = suc s.datar_cnt} (omega arith)
            ∙ tabulate_ext (suc s.datar_cnt) (packet_at grown) (splice (packet_at s) j given)
                (λ k h. packet_at-grown k (omega arith))
            ∙ rw inserted (
                rw (
                  ltb_no datasize
                    (length (tabulate (suc s.datar_cnt) (splice (packet_at s) j given)))
                    (omega
                      (arith, length-tabulate (suc s.datar_cnt) (splice (packet_at s) j given)))))

      module _ (full : s.datar_cnt ≡ datasize) where
        -- A full ring loses its oldest packet.
        abbrev pub lapped : DataRing
        lapped = record (move_end filled) {
          datar_start = datar_normalize (pos (s.datar_start + 1));
        }

        start_next : datar_normalize (pos (s.datar_start + 1)) ≡ place s.datar_start 1
        start_next = normalize_next s.datar_start v.start_in

        lapped_place : (k : ℕ) → place lapped.datar_start k ≡ place s.datar_start (suc k)
        lapped_place k = rw start_next (omega arith)

        packet_at-lapped :
            (k : ℕ) → k < s.datar_cnt → packet_at lapped k ≡ splice (packet_at s) j given (suc k)
        packet_at-lapped k h =
            ap (λ t. packet (filled.store (slots t))) (lapped_place k)
            ∙ filled_at (suc k) h (inl (omega arith))

        pub lapped-IsValid : IsValid size lapped
        lapped-IsValid = record {
          start_in = rw start_next (omega arith);
          count_in = v.count_in;
          end_at =
              end_next
              ∙ place-next s.datar_start v.start_in s.datar_cnt
              ∙ ap (place s.datar_start) {y = suc s.datar_cnt} (omega arith)
              ∙ sym (lapped_place s.datar_cnt);
          is_live = v.is_live;
          distinct = room.apart;
          roomy = filled-roomy;
          fits = λ k h.
              subst (λ q. q.0.packet_len ≤ size) (sym (packet_at-lapped k h))
                (splice_fits (suc k) h);
          sorted = λ a b h hb.
              subst₂ (λ x y. time x <ℤ time y) (sym (packet_at-lapped a (omega arith)))
                (sym (packet_at-lapped b hb)) (splice-rises (suc a) (suc b) (omega arith) hb);
        }

        pub contents-lapped : contents lapped ≡ newest_of datasize (insert given (contents s))
        contents-lapped =
            rw
              (
                inserted,
                lt→ltb datasize (length (tabulate (suc s.datar_cnt) (splice (packet_at s) j given)))
                    (omega
                      (arith, length-tabulate (suc s.datar_cnt) (splice (packet_at s) j given))),
              )
              (sym
                (tail-splice given s.datar_cnt (packet_at s) (packet_at lapped) j packet_at-lapped))
