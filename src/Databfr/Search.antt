-- ===== src/Databfr/Search.antt =====
-- `search_data_bfr` of src/databfr.c: where the packet found stands among those held.
use sdrproxy.Prelude.{
  ℕ, zero, suc, ◌+◌, ◌-◌, ◌/◌, ◌≤◌, ◌<◌, ◌≡◌, refl, ap, subst, arith, ltb_no, lt→ltb, ==_iff, ne→==,
  Bool-cases, false, inl, inr, ℤ, pos, sub_ℕ, ltb_ℤ, eqb_ℤ, ◌<ℤ◌, ◌≤ℤ◌, eq_of_parts, if◌then◌else◌,
}
use native.Mathlib.Nat.{le_refl}
use native.Mathlib.Decide.{dec_lt, ℕ_discrete}
use sdrproxy.Databfr.{
  DataRing, datar_normalize, time_at, compare_index, Found, empty, oldest, newest, between, exact,
  search_loop, search_data_bfr,
}
use sdrproxy.Databfr.Rotate.{place, normalize_next, normalize_prev}
use sdrproxy.Databfr.Valid.{IsValid, packet_at}
use sdrproxy.Databfr.Spec.{time}

module _ (target : ℤ) (index : ℕ) (s : DataRing) where
  compare_newer : ltb_ℤ (pos 0) (compare_index target index s) ≡ ltb_ℤ (time_at s index) target
  unfolding compare_index
  compare_newer = ground arith

  compare_older : ltb_ℤ (compare_index target index s) (pos 0) ≡ ltb_ℤ target (time_at s index)
  unfolding compare_index
  compare_older = ground arith

  compare_same : eqb_ℤ (compare_index target index s) (pos 0) ≡ eqb_ℤ (time_at s index) target
  unfolding compare_index
  compare_same = ground arith

-- What each answer of the search says, of a time and the packets held.
abbrev pub Locates : ℤ → DataRing → Found → Type 0
Locates target s empty = s.datar_cnt ≡ 0
Locates target s (newest i) =
    (0 < s.datar_cnt)
    × (i ≡ place s.datar_start (s.datar_cnt - 1))
    × ((k : ℕ) → k < s.datar_cnt → time (packet_at s k) <ℤ target)
Locates target s (oldest i) =
    (0 < s.datar_cnt)
    × (i ≡ s.datar_start)
    × ((k : ℕ) → k < s.datar_cnt → target <ℤ time (packet_at s k))
Locates target s (between i) =
    (j : ℕ) × (0 < j)
    × (j < s.datar_cnt)
    × (i ≡ place s.datar_start j)
    × ((k : ℕ) → k < j → time (packet_at s k) <ℤ target)
    × ((k : ℕ) → j ≤ k → k < s.datar_cnt → target <ℤ time (packet_at s k))
Locates target s (exact i) =
    (j : ℕ) × (j < s.datar_cnt)
    × (i ≡ place s.datar_start j)
    × (time (packet_at s j) ≡ target)
    × ((k : ℕ) → k < j → time (packet_at s k) <ℤ target)

-- The time of the packet `k` places after the oldest.
abbrev time_of : DataRing → ℕ → ℤ
time_of s k = time_at s (place s.datar_start k)

-- `m` is the last place that is not later than the target.
record Stops (s : DataRing) (target : ℤ) (m : ℕ) : Type 0 where
  held : m < s.datar_cnt
  low : time_of s m ≤ℤ target
  high : m + 1 < s.datar_cnt → target <ℤ time_of s (m + 1)

module _ {size : ℕ} {s : DataRing} (v : IsValid size s) (target : ℤ) where
  normalize_mid : (k : ℕ) → datar_normalize (pos (s.datar_start + k)) ≡ place s.datar_start k
  unfolding datar_normalize
  normalize_mid k = omega arith

  -- With enough fuel the loop stops at the last packet that is not later than the target.
  loop_lem :
      (fuel lo hi : ℕ)
      → hi - lo < fuel
      → lo ≤ hi
      → hi < s.datar_cnt
      → time_of s lo ≤ℤ target
      → (hi + 1 < s.datar_cnt → target <ℤ time_of s (hi + 1))
      → Stops s target (search_loop fuel target s lo hi)
  unfolding search_loop
  loop_lem zero lo hi f h hc low high = elim f [ ]
  loop_lem (suc fuel) lo hi f h hc low high = elim (dec_lt lo hi) [
    | no stop ↦
        rw (ltb_no lo hi (omega arith), search_loop)
          (let e : lo ≡ hi = omega arith in
            record { held = omega arith; low = low; high = rw e high })
    | yes more ↦
        let mid = lo + (hi - lo + 1) / 2 in
        elim (Bool-cases (ltb_ℤ target (time_of s mid))) [
          | inl later ↦
              rw
                (lt→ltb lo hi more, search_loop, compare_older target _ s, normalize_mid mid, later)
                (loop_lem fuel lo (mid - 1) (omega arith) (omega arith) (omega arith) low
                  (λ _. let e : mid ≡ mid - 1 + 1 = omega arith in rw (← e) (ground arith)))
          | inr sooner ↦
              rw
                (
                  lt→ltb lo hi more,
                  search_loop,
                  compare_older target _ s,
                  normalize_mid mid,
                  sooner,
                )
                (loop_lem fuel mid hi (omega arith) (omega arith) hc (ground arith) high)
        ]
  ]

  sorted_le : (i j : ℕ) → i ≤ j → j < s.datar_cnt → time_of s i ≤ℤ time_of s j
  sorted_le i j h hc = elim (ℕ_discrete i j) [
    | yes e ↦ rw e (le_refl _)
    | no ne ↦ let lt = v.sorted i j (omega arith) hc in omega arith
  ]

  last_place :
      0 < s.datar_cnt
      → datar_normalize (sub_ℕ s.datar_end 1) ≡ place s.datar_start (s.datar_cnt - 1)
  last_place h =
      rw (v.end_at, normalize_prev (place s.datar_start s.datar_cnt) (omega arith)) (omega arith)

  first_place : place s.datar_start 0 ≡ s.datar_start
  first_place = let h = v.start_in in omega arith

  next_place :
      (m : ℕ) → datar_normalize (pos (place s.datar_start m + 1)) ≡ place s.datar_start (m + 1)
  next_place m = rw (normalize_next (place s.datar_start m) (omega arith)) (omega arith)

  module _ (some_held : 0 < s.datar_cnt) where
    located_newest :
        time_of s (s.datar_cnt - 1) <ℤ target
        → Locates target s (newest (place s.datar_start (s.datar_cnt - 1)))
    located_newest h = (
      some_held,
      refl,
      λ k p. let le = sorted_le k (s.datar_cnt - 1) (omega arith) (omega arith) in omega arith,
    )

    located_oldest : target <ℤ time_of s 0 → Locates target s (oldest s.datar_start)
    located_oldest h =
        (some_held, refl, λ k p. let le = sorted_le 0 k (omega arith) p in omega arith)

    last_differs :
        {m : ℕ}
        → m ≡ s.datar_cnt - 1
        → eqb_ℤ (time_of s m) target ≡ false
        → time_of s (s.datar_cnt - 1) ≤ℤ target
        → target ≤ℤ time_of s (s.datar_cnt - 1)
        → ⊥
    last_differs e differ low top = let differ' = rw e at differ in ground arith

    module _ (m : ℕ) (stops : Stops s target m) where
      located_exact : time_of s m ≡ target → Locates target s (exact (place s.datar_start m))
      located_exact e = (
        m,
        stops.held,
        refl,
        e,
        λ k p. subst (λ t. time_of s k <ℤ t) e (v.sorted k m p stops.held),
      )

      located_between :
          m + 1 < s.datar_cnt
          → time_of s m <ℤ target
          → Locates target s (between (place s.datar_start (m + 1)))
      located_between h low = (
        m + 1,
        omega arith,
        h,
        refl,
        λ k p. let le = sorted_le k m (omega arith) (omega arith) in omega arith,
        λ k p q. let up = stops.high h in let le = sorted_le (m + 1) k p q in omega arith,
      )

      located_inside :
          target ≤ℤ time_of s (s.datar_cnt - 1)
          → Locates target s (
              if eqb_ℤ (time_of s m) target
              then exact (place s.datar_start m)
              else between (datar_normalize (pos (place s.datar_start m + 1))))
      located_inside top = elim (Bool-cases (eqb_ℤ (time_of s m) target)) [
        | inl same ↦ rw same (located_exact (eq_of_parts _ _ ((==_iff _ _).0 same)))
        | inr differ ↦
            let at_last : m ≡ s.datar_cnt - 1 → time_of s m ≡ time_of s (s.datar_cnt - 1) =
              ap (time_of s) in
            let low = stops.low in
            rw (differ, next_place m)
              (elim (ℕ_discrete m (s.datar_cnt - 1)) [
                | yes e ↦ absurd (last_differs e differ (rw (at_last e) at low) top)
                | no ne ↦ located_between (let h = stops.held in omega arith) (ground arith)
              ])
      ]

  -- On a valid data ring the search says truly where a time stands among the packets held: none are
  -- held, it is newer or older than all, it lies between two of them, or a packet has it.
  pub search_data_bfr-Locates : Locates target s (search_data_bfr target s)
  unfolding search_data_bfr
  search_data_bfr-Locates = elim (ℕ_discrete s.datar_cnt 0) [
    | yes none_held ↦ rw ((==_iff s.datar_cnt 0).1 none_held) none_held
    | no ne ↦
        let held : 0 < s.datar_cnt = omega arith in
        rw (ne→== s.datar_cnt 0 ne, last_place held, compare_newer target _ s)
          (elim (Bool-cases (ltb_ℤ (time_of s (s.datar_cnt - 1)) target)) [
            | inl newer ↦ rw newer (located_newest held (ground arith))
            | inr not_newer ↦
                rw (not_newer, compare_older target s.datar_start s)
                  (elim (Bool-cases (ltb_ℤ target (time_at s s.datar_start))) [
                    | inl older ↦ rw older (located_oldest held (rw first_place (ground arith)))
                    | inr not_older ↦
                        rw (not_older, normalize_mid _, compare_same target _ s)
                          (located_inside held _
                            (loop_lem s.datar_cnt 0 (s.datar_cnt - 1) (omega arith) (omega arith)
                              (omega arith) (rw first_place (ground arith))
                              (λ h. absurd (omega arith)))
                            (ground arith))
                  ])
          ])
  ]
