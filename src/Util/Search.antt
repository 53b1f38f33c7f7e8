-- ===== src/Util/Search.antt =====
-- `bytes_in_bytes` of src/util.c, which compares words where it can, and the first occurrence.
use sdrproxy.Prelude.{
  ℕ, zero, suc, ◌+◌, ◌-◌, ◌*◌, ◌≤◌, ◌<◌, ◌≡◌, and_false, ◌≢◌, refl, ap, subst, ◌∙◌, arith, Bool,
  true, false, ◌&&◌, List, [], ◌∷◌, get_or, ltb, eq→==, ne→==, ltb_no, lt→ltb,
}
use native.Mathlib.Decide.{dec_lt, ℕ_discrete}
use sdrproxy.Util.{load, Match, found, absent, running, increment, match_loop, bytes_in_bytes}

-- Arrays of `unsigned char`.
abbrev pub IsBytes : List ℕ → Type 0
IsBytes bytes = (i : ℕ) → get_or bytes i 0 < 256

abbrev pub all_bytes : List ℕ → Bool
all_bytes [] = true
all_bytes (b ∷ bytes) = ltb b 256 && all_bytes bytes

pub all_bytes-IsBytes : (bytes : List ℕ) → all_bytes bytes ≡ true → IsBytes bytes
all_bytes-IsBytes [] e i = omega arith
all_bytes-IsBytes (b ∷ bytes) e zero = ground arith
all_bytes-IsBytes (b ∷ bytes) e (suc i) = all_bytes-IsBytes bytes (ground arith) i

-- The needle stands at `p`.
abbrev pub OccursAt : List ℕ → ℕ → List ℕ → ℕ → ℕ → Type 0
OccursAt hay haysize need nsize p =
    (p + nsize ≤ haysize) × ((k : ℕ) → k < nsize → get_or hay (p + k) 0 ≡ get_or need k 0)

-- The first occurrence, or none at all.
abbrev pub Finds : List ℕ → ℕ → List ℕ → ℕ → Match → Type 0
Finds hay haysize need nsize (found p) =
    OccursAt hay haysize need nsize p × ((q : ℕ) → q < p → ¬ OccursAt hay haysize need nsize q)
Finds hay haysize need nsize absent = (q : ℕ) → ¬ OccursAt hay haysize need nsize q
Finds hay haysize need nsize running = ⊥

load_same :
    (n i j : ℕ) (xs ys : List ℕ)
    → ((k : ℕ) → k < n → get_or xs (i + k) 0 ≡ get_or ys (j + k) 0)
    → load n i xs ≡ load n j ys
unfolding load
load_same zero i j xs ys h = refl
load_same (suc n) i j xs ys h =
    let first : get_or xs i 0 ≡ get_or ys j 0 =
      ap (λ t. get_or xs t 0) {y = i + 0} (omega arith)
      ∙ h 0 (omega arith)
      ∙ ap (λ t. get_or ys t 0) (omega arith) in
    omega (
      arith,
      load_same n (i + 1) (j + 1) xs ys (λ k p.
          ap (λ t. get_or xs t 0) {y = i + suc k} (omega arith)
          ∙ h (suc k) (omega arith)
          ∙ ap (λ t. get_or ys t 0) (omega arith)),
    )

load_injective :
    (n i j : ℕ) (xs ys : List ℕ)
    → IsBytes xs
    → IsBytes ys
    → load n i xs ≡ load n j ys
    → (k : ℕ) → k < n
    → get_or xs (i + k) 0 ≡ get_or ys (j + k) 0
unfolding load
load_injective zero i j xs ys bx by e k h = elim h [ ]
load_injective (suc n) i j xs ys bx by e zero h =
    let hx = bx i in
    let hy = by j in
    ap (λ t. get_or xs t 0) {y = i} (omega arith)
    ∙ (omega arith)
    ∙ ap (λ t. get_or ys t 0) {x = j} (omega arith)
load_injective (suc n) i j xs ys bx by e (suc k) h =
    let hx = bx i in
    let hy = by j in
    ap (λ t. get_or xs t 0) {y = i + 1 + k} (omega arith)
    ∙ load_injective n (i + 1) (j + 1) xs ys bx by (omega arith) k (omega arith)
    ∙ ap (λ t. get_or ys t 0) {x = j + 1 + k} (omega arith)

-- A comparison stays inside both arrays, and takes at least a byte.
increment_bounds :
    (haysize nsize h n : ℕ)
    → h < haysize
    → n < nsize
    → let w = increment haysize nsize h n in (0 < w) × (h + w ≤ haysize) × (n + w ≤ nsize)
unfolding increment
increment_bounds haysize nsize h n p q = ground arith

module _ (hay : List ℕ) (haysize : ℕ) (need : List ℕ) (nsize : ℕ) (hay_bytes : IsBytes hay)
    (need_bytes : IsBytes need) (needle : 0 < nsize) where
  abbrev Occurs : ℕ → Type 0
  Occurs = OccursAt hay haysize need nsize

  -- The loop stands at `b`: it has matched `n` bytes there, and nothing begins before.
  record At (b n : ℕ) : Type 0 where
    room : b + nsize ≤ haysize
    part : n ≤ nsize
    matched : (k : ℕ) → k < n → get_or hay (b + k) 0 ≡ get_or need k 0
    none_before : (q : ℕ) → q < b → ¬ Occurs q

  abbrev loop : ℕ → ℕ → ℕ → Bool → ℕ → Match
  loop = match_loop hay haysize need nsize

  -- The words differ, so the needle does not stand at `b`.
  differs : (b n w : ℕ) → n + w ≤ nsize → load w (b + n) hay ≢ load w n need → ¬ Occurs b
  differs b n w h ne occurs = ne (
      load_same w (b + n) n hay need (λ k p.
        ap (λ t. get_or hay t 0) {y = b + (n + k)} (omega arith) ∙ occurs.1 (n + k) (omega arith)))

  none_left : (b : ℕ) → ((q : ℕ) → q < b → ¬ Occurs q) → haysize < b + nsize → (q : ℕ) → ¬ Occurs q
  none_left b before h q occurs = elim (dec_lt q b) [
    | yes p ↦ before q p occurs
    | no p ↦ let room = occurs.0 in omega arith
  ]

  longer : (b n w : ℕ) → At b n → n + w ≤ nsize → load w (b + n) hay ≡ load w n need → At b (n + w)
  longer b n w at h e = record {
    room = at.room;
    part = h;
    matched = λ k p. elim (dec_lt k n) [
      | yes old ↦ at.matched k old
      | no new ↦
          ap (λ t. get_or hay t 0) {y = b + n + (k - n)} (omega arith)
          ∙ load_injective w (b + n) n hay need hay_bytes need_bytes e (k - n) (omega arith)
          ∙ ap (λ t. get_or need t 0) {x = n + (k - n)} (omega arith)
    ];
    none_before = at.none_before;
  }

  before_next : (b n : ℕ) → At b n → ¬ Occurs b → (q : ℕ) → q < b + 1 → ¬ Occurs q
  before_next b n at no_match q p = elim (dec_lt q b) [
    | yes before ↦ at.none_before q before
    | no here ↦ subst (λ t. ¬ Occurs t) {x = b} (omega arith) no_match
  ]

  next_start : (b n : ℕ) → At b n → ¬ Occurs b → b + 1 + nsize ≤ haysize → At (b + 1) 0
  next_start b n at no_match h = record {
    room = h;
    part = omega arith;
    matched = λ k p. elim p [ ];
    none_before = before_next b n at no_match;
  }

  -- What is shown of the loop in a match of `n` bytes at `b`, and of the loop with nothing matched.
  abbrev Matching : ℕ → Type 0
  Matching fuel =
      (b n k : ℕ)
      → At b n
      → 0 < n
      → b + k ≡ haysize
      → k * (nsize + 1) + (nsize - n) < fuel
      → Finds hay haysize need nsize (loop fuel (b + n) n true b)

  abbrev Fresh : ℕ → Type 0
  Fresh fuel =
      (b k saved : ℕ)
      → At b 0
      → b + k ≡ haysize
      → k * (nsize + 1) + nsize < fuel
      → Finds hay haysize need nsize (loop fuel b 0 false saved)

  shorter : (k fuel : ℕ) → 0 < k → k * (nsize + 1) ≤ fuel → (k - 1) * (nsize + 1) + nsize < fuel
  shorter zero fuel p h = elim p [ ]
  shorter (suc k) fuel p h =
      subst (λ t. t * (nsize + 1) + nsize < fuel) {x = k} (omega arith) (omega arith)

  -- The words differ: the search goes on one byte after `b`, or ends.
  restart-Finds :
      (fuel b n k saved : ℕ)
      → Fresh fuel
      → At b n
      → ¬ Occurs b
      → b + k ≡ haysize
      → k * (nsize + 1) ≤ fuel
      → Finds hay haysize need nsize (elim (ltb (haysize - (b + 1)) nsize) [
        | true ↦ absent
        | false ↦ loop fuel (b + 1) 0 false saved
      ])
  restart-Finds fuel b n k saved fresh at no_match ek f =
      let room = at.room in
      elim (dec_lt (haysize - (b + 1)) nsize) [
        | yes p ↦ rw (lt→ltb _ _ p) (none_left (b + 1) (before_next b n at no_match) (omega arith))
        | no p ↦ rw (ltb_no (haysize - (b + 1)) nsize (omega arith)) (
            fresh (b + 1) (k - 1) saved (next_start b n at no_match (omega arith)) (omega arith)
              (shorter k fuel (omega arith) f))
      ]

  in_both : (a b c d : ℕ) → a < b → c < d → (ltb a b && ltb c d) ≡ true
  in_both a b c d p q = rw (lt→ltb a b p, lt→ltb c d q) refl

  found_here : (b n : ℕ) → At b n → ¬ n < nsize → Finds hay haysize need nsize (found b)
  found_here b n at whole =
      let part = at.part in ((at.room, λ k p. at.matched k (omega arith)), at.none_before)

  extend_match : (fuel : ℕ) → Matching fuel → Fresh fuel → Matching (suc fuel)
  unfolding match_loop
  extend_match fuel matching fresh b n k at pos ek f = elim (dec_lt n nsize) [
    | no whole ↦
        rw (ltb_no n nsize (omega arith), and_false (ltb (b + n) haysize), match_loop)
          (found_here b n at whole)
    | yes more ↦
        let room = at.room in
        let w = increment haysize nsize (b + n) n in
        let bounds = increment_bounds haysize nsize (b + n) n (omega arith) more in
        elim (ℕ_discrete (load w (b + n) hay) (load w n need)) [
          | yes e ↦
              rw (in_both (b + n) haysize n nsize (omega arith) more, eq→== _ _ e, match_loop)
                (subst (λ t. Finds hay haysize need nsize (loop fuel t (n + w) true b))
                  {x = b + (n + w)} (omega arith)
                  (matching b (n + w) k (longer b n w at bounds.2 e) (omega arith) ek
                    (omega arith)))
          | no ne ↦
              rw (in_both (b + n) haysize n nsize (omega arith) more, ne→== _ _ ne, match_loop)
                (restart-Finds fuel b n k b fresh at (differs b n w bounds.2 ne) ek (omega arith))
        ]
  ]

  begin_match : (fuel : ℕ) → Matching fuel → Fresh fuel → Fresh (suc fuel)
  unfolding match_loop
  begin_match fuel matching fresh b k saved at ek f =
      let room = at.room in
      let w = increment haysize nsize b 0 in
      let bounds = increment_bounds haysize nsize b 0 (omega arith) needle in
      elim (ℕ_discrete (load w b hay) (load w 0 need)) [
        | yes e ↦
            rw (in_both b haysize 0 nsize (omega arith) needle, eq→== _ _ e, match_loop)
              (subst (λ t. Finds hay haysize need nsize (loop fuel t (0 + w) true b))
                {x = b + (0 + w)} (omega arith)
                (matching b (0 + w) k
                  (longer b 0 w at bounds.2
                    (subst (λ t. load w t hay ≡ load w 0 need) {x = b} (omega arith) e))
                  (omega arith) ek (omega arith)))
        | no ne ↦
            rw (in_both b haysize 0 nsize (omega arith) needle, ne→== _ _ ne, match_loop)
              (restart-Finds fuel b 0 k saved fresh at
                (differs b 0 w bounds.2
                  (subst (λ t. load w t hay ≢ load w 0 need) {x = b} (omega arith) ne))
                ek (omega arith))
      ]

  loop-Finds : (fuel : ℕ) → Matching fuel × Fresh fuel
  loop-Finds zero = ((λ b n k at p e f. elim f [ ]), (λ b k saved at e f. elim f [ ]))
  loop-Finds (suc fuel) =
      let rest = loop-Finds fuel in
      (extend_match fuel rest.0 rest.1, begin_match fuel rest.0 rest.1)

  -- For a needle that is not empty and no longer than the haystack, the byte search, which compares
  -- words where it can, ends within its rounds, with the first occurrence of the needle, or with
  -- none where there is none.
  pub bytes_in_bytes-Finds :
      nsize ≤ haysize → Finds hay haysize need nsize (bytes_in_bytes hay haysize need nsize)
  unfolding bytes_in_bytes
  bytes_in_bytes-Finds fits =
      let start : At 0 0 = record {
        room = omega arith;
        part = omega arith;
        matched = λ k p. elim p [ ];
        none_before = λ q p. elim p [ ];
      } in
      (loop-Finds ((haysize + 1) * (nsize + 1) + 1)).1 0 haysize 0 start (omega arith) (omega arith)
