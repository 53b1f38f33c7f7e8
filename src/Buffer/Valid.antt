-- ===== src/Buffer/Valid.antt =====
-- The representation invariant of `struct ringset`, and the arithmetic of its two pointers.
use sdrproxy.Prelude.{
  ℕ, ◌+◌, ◌-◌, ◌%◌, ◌≤◌, ◌<◌, ◌≡◌, refl, ◌⊎◌, inl, inr, Option, some, List, arith, length, true,
  ◌↔◌, ◌∙◌, Option-cases, Bool-cases, ltb, ℤ, pos, negsuc,
}
use native.Mathlib.Nat.{mod-eq_of_lt, mod-eq-sub-mod, add-mod_right}
use native.Mathlib.Decide.{dec_lt}
use sdrproxy.Memory.{memcpy, length-memcpy}
use sdrproxy.Buffer.{
  RingSet, normalize, bytes_free, bytes_stored, isfull, isempty, alloc, init, store_bytes, store,
  retr, delete,
}

-- Both pointers stay inside the memory, which has `bfrsize` bytes.
pub record IsValid (r : RingSet) : Type 0 where
  pub read_in : r.readptr < r.bfrsize
  pub write_in : r.writeptr < r.bfrsize
  pub whole : length r.ring ≡ r.bfrsize

-- One lap at most is taken off.
pub mod_lap : (x n : ℕ) → x < n + n → ((x < n) × (x % n ≡ x)) ⊎ ((n ≤ x) × (x % n ≡ x - n))
mod_lap x n h = elim (dec_lt x n) [
  | yes p ↦ inl (p, mod-eq_of_lt p)
  | no p ↦ inr (
    omega arith,
    omega (
      arith,
      mod-eq-sub-mod {n = x} {m = n} (omega arith),
      mod-eq_of_lt {n = x - n} {m = n} (omega arith),
    ),
  )
]

module _ {r : RingSet} (v : IsValid r) where
  pub stored_cases :
      ((r.readptr ≤ r.writeptr) × (bytes_stored r + r.readptr ≡ r.writeptr))
      ⊎ ((r.writeptr < r.readptr) × (bytes_stored r + r.readptr ≡ r.writeptr + r.bfrsize))
  unfolding bytes_stored
  stored_cases = omega (arith, mod_lap (r.writeptr + r.bfrsize - r.readptr) r.bfrsize (omega arith))

  -- The free and the stored bytes make up the capacity, which is one less than the memory.
  pub free-add-stored : bytes_free r + bytes_stored r + 1 ≡ r.bfrsize
  unfolding bytes_free
  free-add-stored = omega (
    arith,
    mod_lap (r.readptr + r.bfrsize - r.writeptr - 1) r.bfrsize (omega arith),
    stored_cases,
  )

  -- The two tests agree with the counts.
  pub isempty_iff : (isempty r ≡ true) ↔ (bytes_stored r ≡ 0)
  unfolding isempty
  isempty_iff = ground (arith, stored_cases)

  pub isfull_iff : (isfull r ≡ true) ↔ (bytes_free r ≡ 0)
  unfolding isfull
  isfull_iff = ground (arith, stored_cases, free-add-stored, mod_lap (r.writeptr + 1) r.bfrsize)

  pub normalize_cases :
      (x : ℕ)
      → x < r.bfrsize + r.bfrsize
      → ((x < r.bfrsize) × (normalize x r ≡ x))
        ⊎ ((r.bfrsize ≤ x) × (normalize x r ≡ x - r.bfrsize))
  unfolding normalize
  normalize_cases x h = elim (mod_lap x r.bfrsize h) [
    | inl p ↦ inl (p.0, add-mod_right x r.bfrsize ∙ p.1)
    | inr p ↦ inr (p.0, add-mod_right x r.bfrsize ∙ p.1)
  ]

  length-store_bytes : (bfr : List ℕ) (n : ℕ) → length (store_bytes r bfr n) ≡ r.bfrsize
  unfolding store_bytes
  length-store_bytes bfr n =
      let room = r.bfrsize - r.writeptr in
      ground (
        arith,
        length-memcpy r.ring r.writeptr bfr 0 room,
        length-memcpy (memcpy r.ring r.writeptr bfr 0 room) 0 bfr room (n - room),
        length-memcpy r.ring r.writeptr bfr 0 n,
      )

  -- RING_STORE keeps the invariant.
  pub store-IsValid : (bfr : List ℕ) (n : ℕ) → IsValid (store bfr n r).1
  unfolding store
  store-IsValid bfr n =
      ground (arith, length-store_bytes bfr n, free-add-stored, normalize_cases (r.writeptr + n))

  pub retr-IsValid : (n : ℕ) → IsValid (retr n r).1
  unfolding retr
  retr-IsValid n = ground (arith, stored_cases, normalize_cases (r.readptr + n))

  pub delete-IsValid : (n : ℤ) → IsValid (delete n r).1
  unfolding delete
  delete-IsValid (pos n) = ground (arith, stored_cases, normalize_cases (r.readptr + n))
  delete-IsValid (negsuc n) = v

  pub init-IsValid : IsValid (init r)
  unfolding init
  init-IsValid = omega arith

-- Where malloc gives as many bytes as are asked for, RING_ALLOC leaves a valid, empty ring with
-- room for the bytes asked for.
pub alloc-IsValid :
    (malloc : ℕ → Option (List ℕ)) (bytes : ℕ) {r : RingSet}
    → ((n : ℕ) (mem : List ℕ) → malloc n ≡ some mem → length mem ≡ n)
    → alloc malloc bytes ≡ some r
    → IsValid r × (bytes_stored r ≡ 0) × (bytes_free r ≡ bytes)
unfolding alloc bytes_stored bytes_free
alloc-IsValid malloc bytes gives e = elim (Option-cases (malloc (bytes + 1))) [
  | inl failed ↦ ground arith
  | inr (mem, given) ↦ ground (
    arith,
    gives (bytes + 1) mem,
    mod_lap (0 + (bytes + 1) - 0) (bytes + 1),
    mod_lap (0 + (bytes + 1) - 0 - 1) (bytes + 1),
  )
]

pub store-bfrsize : (bfr : List ℕ) (n : ℕ) (r : RingSet) → (store bfr n r).1.bfrsize ≡ r.bfrsize
unfolding store
store-bfrsize bfr n r = elim (Bool-cases (ltb (bytes_free r) n)) [
  | inl full ↦ rw (full, store) refl
  | inr room ↦ rw (room, store) refl
]
