-- ===== src/Memory.antt =====
-- `memcpy` between byte arrays of C, as lists.
use mathlib.Core.List.{append_assoc, append-nil}
use sdrproxy.Prelude.{
  ◌++◌, take-length, take-set_at, ℕ, suc, ◌+◌, ◌≤◌, ◌<◌, ◌≡◌, refl, sym, ap, ◌∙◌, List, [], ◌∷◌,
  arith, length, get_or, set, take, drop, tabulate, eq-tabulate, length-take, length-drop,
  get_or-take, get_or-drop, length-set, get_or-set_self, get_or-set_ne, zero, ◌⊎◌,
}

-- `n` bytes of `src` from index `at` on
unfoldable pub slice : ℕ → ℕ → List ℕ → List ℕ
slice at n src = take n (drop at src)

write_at : List ℕ → ℕ → List ℕ → List ℕ
write_at dst at [] = dst
write_at dst at (x ∷ xs) = write_at (set dst at x) (at + 1) xs

-- `memcpy(&dst[at], &src[from], n)`
unfoldable pub memcpy : List ℕ → ℕ → List ℕ → ℕ → ℕ → List ℕ
unfolding write_at slice
memcpy dst at src from n = write_at dst at (slice from n src)

pub length-slice : (at n : ℕ) (src : List ℕ) → at + n ≤ length src → length (slice at n src) ≡ n
unfolding slice
length-slice at n src h = omega (arith, length-take n (drop at src), length-drop at src)

pub get_or-slice :
    (at n : ℕ) (src : List ℕ) (k : ℕ) → k < n → get_or (slice at n src) k 0 ≡ get_or src (at + k) 0
unfolding slice
get_or-slice at n src k h = get_or-take n (drop at src) k 0 h ∙ get_or-drop at src k 0

pub slice-tabulate :
    (at n : ℕ) (src : List ℕ)
    → at + n ≤ length src
    → slice at n src ≡ tabulate n (λ k. get_or src (at + k) 0)
slice-tabulate at n src h =
    eq-tabulate (slice at n src) 0 n _ (length-slice at n src h) (get_or-slice at n src)

length-write_at : (dst : List ℕ) (at : ℕ) (xs : List ℕ) → length (write_at dst at xs) ≡ length dst
unfolding write_at
length-write_at dst at [] = refl
length-write_at dst at (x ∷ xs) = length-write_at (set dst at x) (at + 1) xs ∙ length-set dst at x

-- Outside of the target a copy changes nothing.
get_or-write_at_outside :
    (dst : List ℕ) (at : ℕ) (xs : List ℕ) (j : ℕ)
    → (j < at) ⊎ (at + length xs ≤ j)
    → get_or (write_at dst at xs) j 0 ≡ get_or dst j 0
unfolding write_at
get_or-write_at_outside dst at [] j h = refl
get_or-write_at_outside dst at (x ∷ xs) j h =
    get_or-write_at_outside (set dst at x) (at + 1) xs j (omega arith)
    ∙ get_or-set_ne dst at j x 0 (omega arith)

get_or-write_at_inside :
    (dst : List ℕ) (at : ℕ) (xs : List ℕ) (j k : ℕ)
    → at + length xs ≤ length dst
    → j ≡ at + k
    → k < length xs
    → get_or (write_at dst at xs) j 0 ≡ get_or xs k 0
unfolding write_at
get_or-write_at_inside dst at [] j k h e p = absurd (omega arith)
get_or-write_at_inside dst at (x ∷ xs) j zero h e p =
    get_or-write_at_outside (set dst at x) (at + 1) xs j (omega arith)
    ∙ ap (λ i. get_or (set dst at x) i 0) {x = j} {y = at} (omega arith)
    ∙ get_or-set_self dst at x 0 (omega arith)
get_or-write_at_inside dst at (x ∷ xs) j (suc k) h e p =
    get_or-write_at_inside (set dst at x) (at + 1) xs j k (omega (arith, length-set dst at x))
      (omega arith) (omega arith)

take-write_at :
    (dst : List ℕ) (at : ℕ) (xs : List ℕ)
    → at + length xs ≤ length dst
    → take (at + length xs) (write_at dst at xs) ≡ take at dst ++ xs
unfolding write_at
take-write_at dst at [] h =
    ap (λ n. take n dst) {y = at} (omega arith) ∙ sym (append-nil (take at dst))
take-write_at dst at (x ∷ xs) h =
    ap (λ n. take n (write_at (set dst at x) (at + 1) xs)) {y = at + 1 + length xs} (omega arith)
    ∙ take-write_at (set dst at x) (at + 1) xs (omega (arith, length-set dst at x))
    ∙ ap (λ l. l ++ xs) (take-set_at dst at x (omega arith))
    ∙ append_assoc (take at dst) (x ∷ []) xs

-- The target up to the end of the copy.
pub take-memcpy :
    (dst : List ℕ) (at : ℕ) (src : List ℕ)
    → at + length src ≤ length dst
    → take (at + length src) (memcpy dst at src 0 (length src)) ≡ take at dst ++ src
unfolding memcpy slice
take-memcpy dst at src h = rw (take-length src) (take-write_at dst at src h)

module _ (dst : List ℕ) (at : ℕ) (src : List ℕ) (from n : ℕ) where
  pub length-memcpy : length (memcpy dst at src from n) ≡ length dst
  unfolding memcpy
  length-memcpy = length-write_at dst at (slice from n src)

  module _ (reads : from + n ≤ length src) where
    pub memcpy_outside :
        (j : ℕ) → (j < at) ⊎ (at + n ≤ j) → get_or (memcpy dst at src from n) j 0 ≡ get_or dst j 0
    unfolding memcpy
    memcpy_outside j h =
        get_or-write_at_outside dst at (slice from n src) j (rw (length-slice from n src reads) h)

    pub memcpy_inside :
        (j k : ℕ)
        → at + n ≤ length dst
        → j ≡ at + k
        → k < n
        → get_or (memcpy dst at src from n) j 0 ≡ get_or src (from + k) 0
    unfolding memcpy
    memcpy_inside j k h e p =
        get_or-write_at_inside dst at (slice from n src) j k (rw (length-slice from n src reads) h)
          e (rw (length-slice from n src reads) p)
        ∙ get_or-slice from n src k p

-- What is read back from the front after a copy there is what was copied.
pub slice-memcpy :
    (dst src : List ℕ) (n : ℕ)
    → n ≤ length dst
    → n ≤ length src
    → slice 0 n (memcpy dst 0 src 0 n) ≡ take n src
unfolding slice
slice-memcpy dst src n hd hs =
    slice-tabulate 0 n (memcpy dst 0 src 0 n) (omega (arith, length-memcpy dst 0 src 0 n))
    ∙ sym (
        eq-tabulate (take n src) 0 n _ (omega (arith, length-take n src)) (λ k p.
          get_or-take n src k 0 p
          ∙ ap (λ t. get_or src t 0) {y = 0 + k} (omega arith)
          ∙ sym
              (memcpy_inside dst 0 src 0 n (omega arith) (0 + k) k (omega arith) (omega arith) p)))
