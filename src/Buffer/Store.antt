-- ===== src/Buffer/Store.antt =====
-- RING_STORE of src/buffer.c: where the bytes go, and the bytes that the ring holds afterwards.
use sdrproxy.Prelude.{
  ℕ, ◌+◌, ◌-◌, ◌%◌, ◌≤◌, ◌<◌, ◌≡◌, sym, ap, ap₂, ◌∙◌, ◌⊎◌, inl, inr, List, ◌++◌, arith, length,
  get_or, take, tabulate, tabulate_ext, tabulate-add, eq-tabulate, get_or-take, length-take, ltb,
  Bool-cases, pos,
}
use native.Mathlib.Decide.{dec_lt}
use native.Mathlib.Nat.{add-mod_right}
use sdrproxy.Memory.{memcpy, length-memcpy, memcpy_outside, memcpy_inside}
use sdrproxy.Buffer.{RingSet, normalize, bytes_free, bytes_stored, store_bytes, store}
use sdrproxy.Buffer.Valid.{IsValid, stored_cases, free-add-stored, normalize_cases, store-IsValid}
use sdrproxy.Buffer.Contents.{byte, contents, wrap}

module _ {r : RingSet} (v : IsValid r) (bfr : List ℕ) (n : ℕ) (room : n ≤ bytes_free r)
    (reads : n ≤ length bfr) where
  kept_index :
      (k : ℕ)
      → k < bytes_stored r
      → ((r.readptr + k < r.bfrsize) × ((r.readptr + k) % r.bfrsize ≡ r.readptr + k))
        ⊎ ((r.bfrsize ≤ r.readptr + k) × ((r.readptr + k) % r.bfrsize ≡ r.readptr + k - r.bfrsize))
  kept_index k h = wrap v r.readptr k (omega arith) (omega (arith, free-add-stored v))

  new_index :
      (k : ℕ)
      → k < n
      → ((r.writeptr + k < r.bfrsize) × ((r.writeptr + k) % r.bfrsize ≡ r.writeptr + k))
        ⊎ ((r.bfrsize ≤ r.writeptr + k)
            × ((r.writeptr + k) % r.bfrsize ≡ r.writeptr + k - r.bfrsize))
  new_index k h = wrap v r.writeptr k (omega arith) (omega (arith, free-add-stored v))

  -- RING_STORE leaves the bytes held where they are.
  store_bytes_kept :
      (k : ℕ)
      → k < bytes_stored r
      → get_or (store_bytes r bfr n) ((r.readptr + k) % r.bfrsize) 0 ≡ byte r k
  unfolding store_bytes
  store_bytes_kept k h =
      let j = (r.readptr + k) % r.bfrsize in
      let room1 = r.bfrsize - r.writeptr in
      elim (Bool-cases (ltb room1 n)) [
        | inl parts ↦ rw parts (
            memcpy_outside _ 0 bfr room1 (n - room1) (ground arith) j
              (inr (ground (arith, kept_index k h, free-add-stored v, stored_cases v)))
            ∙ memcpy_outside r.ring r.writeptr bfr 0 room1 (ground arith) j
                (inl (ground (arith, kept_index k h, free-add-stored v, stored_cases v))))
        | inr whole ↦ rw whole (
            memcpy_outside r.ring r.writeptr bfr 0 n (omega arith) j (elim (dec_lt j r.writeptr) [
              | yes p ↦ inl p
              | no p ↦ inr (ground (arith, kept_index k h, free-add-stored v, stored_cases v))
            ]))
      ]

  store_bytes_new :
      (k : ℕ)
      → k < n
      → get_or (store_bytes r bfr n) ((r.writeptr + k) % r.bfrsize) 0 ≡ get_or bfr k 0
  unfolding store_bytes
  store_bytes_new k h =
      let j = (r.writeptr + k) % r.bfrsize in
      let room1 = r.bfrsize - r.writeptr in
      let first = memcpy r.ring r.writeptr bfr 0 room1 in
      elim (Bool-cases (ltb room1 n)) [
        | inr whole ↦ rw whole (
            memcpy_inside r.ring r.writeptr bfr 0 n (omega arith) j k (ground arith)
              (ground (arith, new_index k h)) h
            ∙ ap (λ t. get_or bfr t 0) (omega arith))
        | inl parts ↦ rw parts (elim (dec_lt k room1) [
          | yes early ↦
              memcpy_outside first 0 bfr room1 (n - room1) (ground arith) j
                (inr (ground (arith, new_index k h, free-add-stored v)))
              ∙ memcpy_inside r.ring r.writeptr bfr 0 room1 (ground arith) j k (ground arith)
                  (ground (arith, new_index k h)) early
              ∙ ap (λ t. get_or bfr t 0) (omega arith)
          | no late ↦
              memcpy_inside first 0 bfr room1 (n - room1) (ground arith) j (k - room1)
                (ground (arith, length-memcpy r.ring r.writeptr bfr 0 room1, free-add-stored v))
                (ground (arith, new_index k h)) (ground arith)
              ∙ ap (λ t. get_or bfr t 0) (omega arith)
        ])
      ]

  abbrev pub stored_ring : RingSet
  stored_ring = record r { ring = store_bytes r bfr n; writeptr = normalize (r.writeptr + n) r }

  pub store-eq : store bfr n r ≡ (pos 0, stored_ring)
  unfolding store
  store-eq = ground arith

  pub stored_ring-IsValid : IsValid stored_ring
  stored_ring-IsValid = rw store-eq at (store-IsValid v bfr n)

  bytes_stored-store : bytes_stored stored_ring ≡ bytes_stored r + n
  bytes_stored-store = ground (
    arith,
    stored_cases v,
    stored_cases stored_ring-IsValid,
    free-add-stored v,
    normalize_cases v (r.writeptr + n),
  )

  new_place :
      (k : ℕ)
      → k < n
      → (r.readptr + (bytes_stored r + k)) % r.bfrsize ≡ (r.writeptr + k) % r.bfrsize
  new_place k h = elim (stored_cases v) [
    | inl p ↦ ap (λ t. t % r.bfrsize) (omega arith)
    | inr p ↦
        ap (λ t. t % r.bfrsize) {y = r.writeptr + k + r.bfrsize} (omega arith)
        ∙ add-mod_right (r.writeptr + k) r.bfrsize
  ]

  -- RING_STORE appends the bytes given.
  pub contents-store : contents stored_ring ≡ contents r ++ take n bfr
  contents-store =
      ap (λ m. tabulate m (byte stored_ring)) bytes_stored-store
      ∙ tabulate-add (bytes_stored r) n (byte stored_ring)
      ∙ ap₂ ◌++◌ (tabulate_ext (bytes_stored r) _ _ store_bytes_kept) (
          sym (
            eq-tabulate (take n bfr) 0 n _ (omega (arith, length-take n bfr)) (λ k p.
              get_or-take n bfr k 0 p
              ∙ sym (
                  ap (λ t. get_or (store_bytes r bfr n) t 0) (new_place k p)
                  ∙ store_bytes_new k p))))
