-- ===== src/Databfr/Retrieve.antt =====
-- RING_RETR of src/databfr.c: the next packet after a time.
use sdrproxy.Prelude.{ℕ, ◌≡◌, sym, ap, ◌∙◌, arith, some, ℤ, pos, ◌+ℤ◌, +ℤ_parts}
use sdrproxy.Databfr.{
  DataRing, Found, empty, oldest, newest, between, exact, search_data_bfr, retr_element, retr_found,
  retr_packet,
}
use sdrproxy.Databfr.Rotate.{place}
use sdrproxy.Databfr.Valid.{IsValid, packet_at, contents}
use sdrproxy.Databfr.Spec.{next_after, next_after-none, next_after-some}
use sdrproxy.Databfr.Search.{Locates, search_data_bfr-Locates}

module _ {size : ℕ} {s : DataRing} (v : IsValid size s) (t : ℤ) where
  abbrev next_ms : ℤ
  next_ms = t +ℤ pos 1

  retr_element-place : (j i : ℕ) → i ≡ place s.datar_start j → retr_element i s ≡ packet_at s j
  unfolding retr_element
  retr_element-place j i e = ap (λ k. retr_element k s) e

  found-next : (f : Found) → Locates next_ms s f → retr_found s f ≡ next_after t (contents s)
  unfolding retr_found
  found-next empty e =
      sym (next_after-none t s.datar_cnt (packet_at s) (λ k h. absurd (omega arith)))
  found-next (newest i) (held, there, before) = sym (
      next_after-none t s.datar_cnt (packet_at s)
        (λ k h. let lt = before k h in omega (arith, +ℤ_parts t (pos 1))))
  found-next (oldest i) (held, there, later) =
      ap some (retr_element-place 0 i (there ∙ (let h = v.start_in in omega arith)))
      ∙ sym (
          next_after-some t s.datar_cnt (packet_at s) 0 held (λ k h. elim h [ ])
            (let lt = later 0 held in omega (arith, +ℤ_parts t (pos 1))))
  found-next (between i) (j, j_pos, j_in, there, before, later) =
      ap some (retr_element-place j i there)
      ∙ sym (
          next_after-some t s.datar_cnt (packet_at s) j j_in
            (λ k h. let lt = before k h in omega (arith, +ℤ_parts t (pos 1)))
            (let lt = later j (omega arith) j_in in omega (arith, +ℤ_parts t (pos 1))))
  found-next (exact i) (j, j_in, there, same, before) =
      ap some (retr_element-place j i there)
      ∙ sym (
          next_after-some t s.datar_cnt (packet_at s) j j_in
            (λ k h. let lt = before k h in omega (arith, +ℤ_parts t (pos 1)))
            (rw same (omega (arith, +ℤ_parts t (pos 1)))))

  -- On a valid data ring RING_RETR gives the oldest packet later than the time, and none only if
  -- there is none.
  pub retr_packet-next_after : retr_packet t s ≡ next_after t (contents s)
  unfolding retr_packet
  retr_packet-next_after =
      found-next (search_data_bfr next_ms s) (search_data_bfr-Locates v next_ms)
