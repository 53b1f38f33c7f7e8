-- ===== src/Databfr/Room.antt =====
-- How src/databfr.c makes room for a packet: past the newest one, or by `datar_rotate_right`.
use sdrproxy.Prelude.{ℕ, suc, ◌+◌, ◌-◌, ◌≤◌, ◌<◌, ◌≡◌, refl, sym, ap, ◌∙◌, ◌⊎◌, arith}
use native.Mathlib.Decide.{ℕ_discrete}
use sdrproxy.Databfr.{DataRing, datasize, datar_rotate_right}
use sdrproxy.Databfr.Rotate.{
  place, rotated_first, rotated_moved, rotated_kept, rotated_from, origin, origin-lt,
  origin-injective, past, place-past, place_injective,
}
use sdrproxy.Databfr.Valid.{IsValid}
use sdrproxy.Databfr.Placed.{MadeRoom}

module _ {size : ℕ} {s : DataRing} (v : IsValid size s) where
  -- Past the newest packet there is room.
  pub room_at_end : MadeRoom s s.data_store_g s.datar_cnt
  room_at_end = record {
    place_in = omega arith;
    not_oldest = λ full. omega arith;
    free_slot = ap s.data_store_g (sym v.end_at);
    before = λ k h ok. refl;
    after = λ k h h'. absurd (omega arith);
    apart = v.distinct;
    known = λ a h. (a, h, refl);
  }

  module _ (j : ℕ) (j_in : j < s.datar_cnt) (not_oldest : s.datar_cnt ≡ datasize → 0 < j) where
    abbrev location : ℕ
    location = place s.datar_start j

    location_in : location < datasize
    location_in = omega arith

    -- The slots moved are one more than this.
    abbrev further : ℕ
    further = s.datar_cnt - j - 1

    further_in : suc further < datasize
    further_in = elim (ℕ_discrete s.datar_cnt datasize) [
      | yes full ↦ let pos_j = not_oldest full in omega arith
      | no ne ↦ let hc = v.count_in in omega arith
    ]

    end_place : s.datar_end ≡ place location (suc further)
    end_place = v.end_at ∙ (omega arith)

    abbrev pub rotated_slots : ℕ → ℕ
    rotated_slots = (datar_rotate_right location s.datar_end s).data_store_g

    abbrev ends_there : ℕ → ℕ
    ends_there = (datar_rotate_right location (place location (suc further)) s).data_store_g

    slots_eq : (a : ℕ) → rotated_slots a ≡ ends_there a
    slots_eq a = ap (λ t. (datar_rotate_right location t s).data_store_g a) end_place

    away : ℕ → ℕ
    away a = past location location_in a

    source : ℕ → ℕ
    source a = origin location location_in further further_in s (away a)

    source_in : (a : ℕ) → a < datasize → source a < datasize
    unfolding source away
    source_in a h =
        origin-lt location location_in further further_in s (away a)
          (place-past location location_in a h).1

    source_injective : (a b : ℕ) → a < datasize → b < datasize → source a ≡ source b → a ≡ b
    unfolding source away
    source_injective a b ha hb e =
        sym (place-past location location_in a ha).0
        ∙ ap (place location)
            (origin-injective location location_in further further_in s (away a) (away b) e)
        ∙ (place-past location location_in b hb).0

    from : (a : ℕ) → a < datasize → rotated_slots a ≡ s.data_store_g (place location (source a))
    unfolding source away
    from a h =
        ap rotated_slots (sym (place-past location location_in a h).0)
        ∙ slots_eq (place location (away a))
        ∙ rotated_from location location_in further further_in s (away a)
            (place-past location location_in a h).1

    kept :
        (k : ℕ)
        → k < j
        → (0 < k) ⊎ (s.datar_cnt < datasize)
        → rotated_slots (place s.datar_start k) ≡ s.data_store_g (place s.datar_start k)
    kept k h ok =
        let m = datasize + k - j in
        let hc = v.count_in in
        let same : place s.datar_start k ≡ place location m = omega arith in
        ap rotated_slots same
        ∙ slots_eq (place location m)
        ∙ rotated_kept location location_in further further_in s m (omega arith) (omega arith)
        ∙ ap s.data_store_g (sym same)

    moved :
        (k : ℕ)
        → j ≤ k
        → k < s.datar_cnt
        → rotated_slots (place s.datar_start (suc k)) ≡ s.data_store_g (place s.datar_start k)
    moved k h h' =
        let m = k - j in
        let next : place s.datar_start (suc k) ≡ place location (suc m) = omega arith in
        ap rotated_slots next
        ∙ slots_eq (place location (suc m))
        ∙ rotated_moved location location_in further further_in s m (omega arith)
        ∙ ap s.data_store_g (omega arith)

    -- Rotating from `location` on makes room there.
    pub room_rotated : MadeRoom s rotated_slots j
    room_rotated = record {
      place_in = omega arith;
      not_oldest = not_oldest;
      free_slot =
          slots_eq location
          ∙ rotated_first location location_in further further_in s
          ∙ ap s.data_store_g (sym end_place);
      before = kept;
      after = moved;
      apart = λ a b ha hb e. source_injective a b ha hb (
          place_injective location location_in (source a) (source b) (source_in a ha)
            (source_in b hb)
            (v.distinct (place location (source a)) (place location (source b)) (omega arith)
              (omega arith) (sym (from a ha) ∙ e ∙ from b hb)));
      known = λ a h. (place location (source a), omega arith, from a h);
    }
