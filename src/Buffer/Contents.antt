-- ===== src/Buffer/Contents.antt =====
-- The bytes that a ring holds, oldest first, and what RING_VIEW and RING_RETR copy.
use sdrproxy.Prelude.{
  ℕ, ◌+◌, ◌-◌, ◌%◌, ◌≤◌, ◌<◌, ◌≡◌, sym, ap, ap₂, ◌∙◌, ◌⊎◌, inl, inr, List, ◌++◌, arith, get_or,
  take, drop, tabulate, tabulate_ext, tabulate-add, take-tabulate, drop-tabulate, ltb, Bool-cases,
}
use native.Mathlib.Nat.{add-mod_right}
use sdrproxy.Memory.{slice, slice-tabulate}
use sdrproxy.Buffer.{RingSet, normalize, bytes_stored, copy_bytes}
use sdrproxy.Buffer.Valid.{IsValid, mod_lap, stored_cases, free-add-stored, normalize_cases}

abbrev pub byte : RingSet → ℕ → ℕ
byte r k = get_or r.ring ((r.readptr + k) % r.bfrsize) 0

abbrev pub contents : RingSet → List ℕ
contents r = tabulate (bytes_stored r) (byte r)

module _ {r : RingSet} (v : IsValid r) where
  pub wrap :
      (p k : ℕ)
      → p < r.bfrsize
      → k < r.bfrsize
      → ((p + k < r.bfrsize) × ((p + k) % r.bfrsize ≡ p + k))
        ⊎ ((r.bfrsize ≤ p + k) × ((p + k) % r.bfrsize ≡ p + k - r.bfrsize))
  wrap p k hp hk = mod_lap (p + k) r.bfrsize (omega arith)

  at_index : (i j : ℕ) → i ≡ j → get_or r.ring i 0 ≡ get_or r.ring j 0
  at_index i j e = ap (λ t. get_or r.ring t 0) e

  copy_whole : (n : ℕ) → r.readptr + n ≤ r.bfrsize → slice r.readptr n r.ring ≡ tabulate n (byte r)
  copy_whole n h =
      slice-tabulate r.readptr n r.ring (omega arith)
      ∙ tabulate_ext n _ _
          (λ k p. at_index _ _ (omega (arith, wrap r.readptr k (omega arith) (omega arith))))

  copy_parts :
      (n : ℕ)
      → n < r.bfrsize
      → r.bfrsize - r.readptr < n
      → slice r.readptr (r.bfrsize - r.readptr) r.ring
          ++ slice 0 (n - (r.bfrsize - r.readptr)) r.ring
        ≡ tabulate n (byte r)
  copy_parts n h w =
      let room = r.bfrsize - r.readptr in
      ap₂ ◌++◌ (copy_whole room (omega arith)) (
        slice-tabulate 0 (n - room) r.ring (omega arith)
        ∙ tabulate_ext (n - room) _ _ (λ k p.
          at_index _ _ (omega (arith, wrap r.readptr (room + k) (omega arith) (omega arith)))))
      ∙ sym (tabulate-add room (n - room) (byte r))
      ∙ ap (λ j. tabulate j (byte r)) {y = n} (omega arith)

  -- What RING_VIEW and RING_RETR copy is the first bytes held.
  pub copy_bytes-byte : (n : ℕ) → n < r.bfrsize → copy_bytes r n ≡ tabulate n (byte r)
  unfolding copy_bytes
  copy_bytes-byte n h = elim (Bool-cases (ltb (r.bfrsize - r.readptr) n)) [
    | inr whole ↦ rw whole (copy_whole n (ground arith))
    | inl parts ↦ rw parts (copy_parts n h (ground arith))
  ]

  module _ (n : ℕ) (held : n ≤ bytes_stored r) where
    -- The ring after `n` bytes are taken off.
    abbrev pub advanced : RingSet
    advanced = record r { readptr = normalize (r.readptr + n) r }

    pub advanced-IsValid : IsValid advanced
    unfolding normalize
    advanced-IsValid =
        omega (arith, normalize_cases v (r.readptr + n) (omega (arith, free-add-stored v)))

    bytes_stored-advanced : bytes_stored advanced + n ≡ bytes_stored r
    bytes_stored-advanced = omega (
      arith,
      stored_cases v,
      stored_cases advanced-IsValid,
      free-add-stored v,
      normalize_cases v (r.readptr + n) (omega (arith, free-add-stored v)),
    )

    byte-advanced : (k : ℕ) → byte advanced k ≡ byte r (n + k)
    byte-advanced k =
        at_index _ _ (shift (normalize_cases v (r.readptr + n) (omega (arith, free-add-stored v))))
      where
        shift :
            ((r.readptr + n < r.bfrsize) × (normalize (r.readptr + n) r ≡ r.readptr + n))
              ⊎ ((r.bfrsize ≤ r.readptr + n)
                  × (normalize (r.readptr + n) r ≡ r.readptr + n - r.bfrsize))
            → (normalize (r.readptr + n) r + k) % r.bfrsize ≡ (r.readptr + (n + k)) % r.bfrsize
        shift (inl p) = ap (λ t. t % r.bfrsize) (omega arith)
        shift (inr p) =
            sym (add-mod_right (normalize (r.readptr + n) r + k) r.bfrsize)
            ∙ ap (λ t. t % r.bfrsize) (omega arith)

    -- Taking bytes off drops the oldest.
    pub contents-advanced : contents advanced ≡ drop n (contents r)
    contents-advanced =
        tabulate_ext (bytes_stored advanced) _ _ (λ k p. byte-advanced k)
        ∙ sym (drop-tabulate n (bytes_stored advanced) (byte r))
        ∙ ap (λ t. drop n (tabulate t (byte r))) (omega (arith, bytes_stored-advanced))

    -- What RING_VIEW and RING_RETR copy is the oldest bytes.
    pub copy_bytes-take : copy_bytes r n ≡ take n (contents r)
    copy_bytes-take =
        copy_bytes-byte n (omega (arith, free-add-stored v))
        ∙ sym (take-tabulate n (bytes_stored r) (byte r) held)
