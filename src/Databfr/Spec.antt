-- ===== src/Databfr/Spec.antt =====
-- What the data ring of src/databfr.c promises: the packets in the order of their times, each time
-- once, and of too many the newest.
use sdrproxy.Prelude.{
  ℕ, zero, suc, ◌+◌, ◌-◌, ◌≤◌, ◌<◌, ◌≡◌, refl, sym, ap, ap₂, ◌∙◌, Option, none, some, List, [], ◌∷◌,
  arith, length, tabulate, tabulate_ext, update, update_self, update_ne, ◌==◌, ◌&&◌, ltb, ltb_no,
  lt→ltb, pos_part, neg_part, if◌then◌else◌, Bool, true, false, ◌⊎◌, ℤ, ltb_ℤ, ◌<ℤ◌, ◌≤ℤ◌,
  length-tabulate,
}
use native.Mathlib.Decide.{dec_lt, ℕ_discrete}
use native.Mathlib.Nat.{le_refl}
use sdrproxy.Databfr.{PacketInfo}

-- A packet as it is stored: what is known of it, and its bytes.
abbrev pub Packet : Type 0
Packet = PacketInfo × List ℕ

abbrev pub time : Packet → ℤ
time p = p.0.packet_time

-- In its place, over the packet of the same time if there is one.
unfoldable pub insert : Packet → List Packet → List Packet
insert p [] = p ∷ []
insert p (q ∷ qs) =
    if ltb_ℤ (time p) (time q)
    then p ∷ q ∷ qs
    else (if ltb_ℤ (time q) (time p) then q ∷ insert p qs else p ∷ qs)

abbrev pub tail : List Packet → List Packet
tail [] = []
tail (q ∷ qs) = qs

-- At most one packet is too many, the oldest.
abbrev pub newest_of : ℕ → List Packet → List Packet
newest_of cap ps = if ltb cap (length ps) then tail ps else ps

-- A packet older than all of a full ring is turned away.
unfoldable pub rejected : ℕ → Packet → List Packet → Bool
rejected cap p [] = false
rejected cap p (q ∷ qs) = (length (q ∷ qs) == cap) && ltb_ℤ (time p) (time q)

-- The first packet later than a time.
unfoldable pub next_after : ℤ → List Packet → Option Packet
next_after t [] = none
next_after t (q ∷ qs) = if ltb_ℤ t (time q) then some q else next_after t qs

-- `f` with `p` put in at `j`.
abbrev pub splice : (ℕ → Packet) → ℕ → Packet → ℕ → Packet
splice f j p k = if ltb k j then f k else (if ltb j k then f (k - 1) else p)

module _ (f : ℕ → Packet) (j : ℕ) (p : Packet) where
  pub splice_before : (k : ℕ) → k < j → splice f j p k ≡ f k
  splice_before k h = rw (lt→ltb k j h)

  pub splice_at : (k : ℕ) → k ≡ j → splice f j p k ≡ p
  splice_at k h = rw (ltb_no k j (omega arith), ltb_no j k (omega arith))

  pub splice_after : (k i : ℕ) → j < k → k ≡ suc i → splice f j p k ≡ f i
  splice_after k i h e =
      rw (ltb_no k j (omega arith), lt→ltb j k h) (ap f {x = k - 1} {y = i} (omega arith))

  -- Put in its place, a packet keeps the times rising.
  pub splice_sorted :
      (c : ℕ)
      → j ≤ c
      → ((a b : ℕ) → a < b → b < c → time (f a) <ℤ time (f b))
      → ((k : ℕ) → k < j → time (f k) <ℤ time p)
      → ((k : ℕ) → j ≤ k → k < c → time p <ℤ time (f k))
      → (a b : ℕ) → a < b
      → b ≤ c
      → time (splice f j p a) <ℤ time (splice f j p b)
  splice_sorted c jc sorted before after a b h hb = elim (dec_lt b j) [
    | yes early ↦
        rw (splice_before a (omega arith), splice_before b early) (sorted a b h (omega arith))
    | no not_early ↦ elim (ℕ_discrete b j) [
      | yes here ↦ rw (splice_before a (omega arith), splice_at b here) (before a (omega arith))
      | no late ↦ rw (splice_after b (b - 1) (omega arith) (omega arith)) (elim (dec_lt a j) [
        | yes q ↦ rw (splice_before a q) (sorted a (b - 1) (omega arith) (omega arith))
        | no not_q ↦ elim (ℕ_discrete a j) [
          | yes e ↦ rw (splice_at a e) (after (b - 1) (omega arith) (omega arith))
          | no ne ↦
              rw (splice_after a (a - 1) (omega arith) (omega arith))
                (sorted (a - 1) (b - 1) (omega arith) (omega arith))
        ]
      ])
    ]
  ]

-- `splice` by recursion on the place.
splice-suc :
    (f : ℕ → Packet) (j : ℕ) (p : Packet) (k : ℕ)
    → splice f (suc j) p (suc k) ≡ splice (λ i. f (suc i)) j p k
splice-suc f j p k = elim (dec_lt k j) [
  | yes before ↦
      splice_before f (suc j) p (suc k) (omega arith)
      ∙ sym (splice_before (λ i. f (suc i)) j p k before)
  | no h ↦ elim (ℕ_discrete k j) [
    | yes same ↦
        splice_at f (suc j) p (suc k) (omega arith) ∙ sym (splice_at (λ i. f (suc i)) j p k same)
    | no ne ↦
        splice_after f (suc j) p (suc k) (suc (k - 1)) (omega arith) (omega arith)
        ∙ sym (splice_after (λ i. f (suc i)) j p k (k - 1) (omega arith) (omega arith))
  ]
]

module _ (p : Packet) (q : Packet) (qs : List Packet) where
  insert_before : time p <ℤ time q → insert p (q ∷ qs) ≡ p ∷ q ∷ qs
  unfolding insert
  insert_before h = ground arith

  insert_after : time q <ℤ time p → insert p (q ∷ qs) ≡ q ∷ insert p qs
  unfolding insert
  insert_after h = ground arith

  insert_same : time q ≡ time p → insert p (q ∷ qs) ≡ p ∷ qs
  unfolding insert
  insert_same e = rw (e, ltb_no _ _ (le_refl (pos_part (time p) + neg_part (time p))))

module _ (p : Packet) where
  -- With `j` packets before it and the others behind it, it is put in at `j`.
  pub insert-splice :
      (c : ℕ) (f : ℕ → Packet) (j : ℕ)
      → j ≤ c
      → ((k : ℕ) → k < j → time (f k) <ℤ time p)
      → ((k : ℕ) → j ≤ k → k < c → time p <ℤ time (f k))
      → insert p (tabulate c f) ≡ tabulate (suc c) (splice f j p)
  unfolding insert
  insert-splice zero f zero h before after = refl
  insert-splice zero f (suc j) h before after = absurd (omega arith)
  insert-splice (suc c) f zero h before after =
      insert_before p (f 0) (tabulate c (λ k. f (suc k))) (after 0 (omega arith) (omega arith))
      ∙ ap (λ l. p ∷ l)
          (tabulate_ext (suc c) f _ (λ k q. sym (splice_after f 0 p (suc k) k (omega arith) refl)))
  insert-splice (suc c) f (suc j) h before after =
      insert_after p (f 0) (tabulate c (λ k. f (suc k))) (before 0 (omega arith))
      ∙ ap₂ ◌∷◌ (sym (splice_before f (suc j) p 0 (omega arith))) (
          insert-splice c (λ k. f (suc k)) j (omega arith) (λ k q. before (suc k) (omega arith))
            (λ k q q'. after (suc k) (omega arith) (omega arith))
          ∙ tabulate_ext (suc c) _ _ (λ k q. sym (splice-suc f j p k)))

  -- The packet of the same time is replaced.
  pub insert-replace :
      (c : ℕ) (f : ℕ → Packet) (j : ℕ)
      → j < c
      → ((k : ℕ) → k < j → time (f k) <ℤ time p)
      → time (f j) ≡ time p
      → insert p (tabulate c f) ≡ tabulate c (update f j p)
  unfolding insert
  insert-replace zero f j h before same = elim h [ ]
  insert-replace (suc c) f zero h before same =
      insert_same p (f 0) (tabulate c (λ k. f (suc k))) same
      ∙ ap (λ l. p ∷ l) (tabulate_ext c _ _ (λ k q. sym (update_ne f 0 (suc k) p (omega arith))))
  insert-replace (suc c) f (suc j) h before same =
      insert_after p (f 0) (tabulate c (λ k. f (suc k))) (before 0 (omega arith))
      ∙ ap₂ ◌∷◌ (sym (update_ne f (suc j) 0 p (omega arith))) (
          insert-replace c (λ k. f (suc k)) j (omega arith) (λ k q. before (suc k) (omega arith))
            same
          ∙ tabulate_ext c _ _ (λ k q. update-suc k))
    where
      update-suc : (k : ℕ) → update (λ i. f (suc i)) j p k ≡ update f (suc j) p (suc k)
      update-suc k = elim (ℕ_discrete j k) [
        | yes e ↦
            update_self (λ i. f (suc i)) j k p e ∙ sym (update_self f (suc j) (suc k) p (ap suc e))
        | no ne ↦
            update_ne (λ i. f (suc i)) j k p ne ∙ sym (update_ne f (suc j) (suc k) p (omega arith))
      ]

  pub tail-splice :
      (c : ℕ) (f g : ℕ → Packet) (j : ℕ)
      → ((k : ℕ) → k < c → g k ≡ splice f j p (suc k))
      → tail (tabulate (suc c) (splice f j p)) ≡ tabulate c g
  tail-splice c f g j h = tabulate_ext c _ _ (λ k q. sym (h k q))

module _ (t : ℤ) where
  pub next_after-none :
      (c : ℕ) (f : ℕ → Packet)
      → ((k : ℕ) → k < c → time (f k) ≤ℤ t)
      → next_after t (tabulate c f) ≡ none
  unfolding next_after
  next_after-none zero f h = refl
  next_after-none (suc c) f h =
      ground (arith, h 0, next_after-none c (λ k. f (suc k)) (λ k p. h (suc k) (omega arith)))

  pub next_after-some :
      (c : ℕ) (f : ℕ → Packet) (j : ℕ)
      → j < c
      → ((k : ℕ) → k < j → time (f k) ≤ℤ t)
      → t <ℤ time (f j)
      → next_after t (tabulate c f) ≡ some (f j)
  unfolding next_after
  next_after-some zero f j h before after = elim h [ ]
  next_after-some (suc c) f zero h before after = ground arith
  next_after-some (suc c) f (suc j) h before after = ground (
    arith,
    before 0,
    next_after-some c (λ k. f (suc k)) j (omega arith) (λ k p. before (suc k) (omega arith)),
  )

module _ (cap : ℕ) (p : Packet) where
  pub not_rejected :
      (c : ℕ) (f : ℕ → Packet)
      → (c < cap) ⊎ ((0 < c) × (time (f 0) ≤ℤ time p))
      → rejected cap p (tabulate c f) ≡ false
  unfolding rejected
  not_rejected zero f h = refl
  not_rejected (suc c) f h = ground (arith, length-tabulate (suc c) f)

  pub is_rejected :
      (c : ℕ) (f : ℕ → Packet)
      → 0 < c
      → c ≡ cap
      → time p <ℤ time (f 0)
      → rejected cap p (tabulate c f) ≡ true
  unfolding rejected
  is_rejected zero f h full e = elim h [ ]
  is_rejected (suc c) f h full e = ground (arith, length-tabulate (suc c) f)

  -- A full ring that turns away an older packet holds the newest packets still.
  pub newest_of-older :
      (c : ℕ) (f : ℕ → Packet)
      → c ≡ cap
      → ((k : ℕ) → k < c → time p <ℤ time (f k))
      → newest_of cap (insert p (tabulate c f)) ≡ tabulate c f
  newest_of-older c f full younger =
      rw
        (
          insert-splice p c f 0 (omega arith) (λ k h. elim h [ ]) (λ k h h'. younger k h'),
          lt→ltb cap (length (tabulate (suc c) (splice f 0 p)))
              (omega (arith, length-tabulate (suc c) (splice f 0 p))),
        )
        (tail-splice p c f f 0 (λ k h. sym (splice_after f 0 p (suc k) k (omega arith) refl)))
