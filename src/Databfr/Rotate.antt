-- ===== src/Databfr/Rotate.antt =====
-- `datar_normalize` and `datar_rotate_right` of src/databfr.c: which pointer ends up where.
use sdrproxy.Prelude.{
  ℕ, zero, suc, ◌+◌, ◌-◌, ◌%◌, ◌≤◌, ◌<◌, ◌≡◌, ◌≢◌, refl, sym, ap, ◌∙◌, arith, update, update_self,
  update_ne, leb, ◌==◌, ==_iff, ne→==, le→leb, leb_no, ◌&&◌, if◌then◌else◌, pos, sub_ℕ,
}
use native.Mathlib.Decide.{dec_le, ℕ_discrete}
use sdrproxy.Databfr.{datasize, datar_normalize, rotate_loop, DataRing, datar_rotate_right}

-- The place `k` slots past `start`.
abbrev pub place : ℕ → ℕ → ℕ
place start k = (start + k) % datasize

pub normalize_next : (i : ℕ) → i < datasize → datar_normalize (pos (i + 1)) ≡ place i 1
unfolding datar_normalize
normalize_next i h = omega arith

pub normalize_prev : (i : ℕ) → i < datasize → datar_normalize (sub_ℕ i 1) ≡ place i (datasize - 1)
unfolding datar_normalize
normalize_prev i h = ground arith

-- What the loop leaves `m` slots past `start`, of pointers `g`, when it begins at `d`.
abbrev shifted : ℕ → (ℕ → ℕ) → ℕ → ℕ
shifted d g m = if leb 2 m && leb m (d + 1) then g (m - 1) else g m

shifted-suc :
    (d : ℕ) (g g' : ℕ → ℕ)
    → ((k : ℕ) → k < datasize → k ≢ suc d + 1 → g' k ≡ g k)
    → g' (suc d + 1) ≡ g (suc d)
    → (m : ℕ) → m < datasize
    → shifted d g' m ≡ shifted (suc d) g m
shifted-suc d g g' same moved m h = elim (ℕ_discrete m (suc d + 1)) [
  | yes e ↦ ground (arith, moved, ap g' e, ap g {x = m - 1} {y = suc d} (omega arith))
  | no ne ↦ ground (arith, same m, same (m - 1))
]

module _ (start : ℕ) (start_in : start < datasize) where
  -- Different places less than a lap away are different slots.
  pub place_ne : (i j : ℕ) → i < datasize → j < datasize → i ≢ j → place start i ≢ place start j
  place_ne i j hi hj ne = omega arith

  pub place_injective :
      (i j : ℕ) → i < datasize → j < datasize → place start i ≡ place start j → i ≡ j
  place_injective i j hi hj e = omega arith

  pub place-prev : (d : ℕ) → place (place start (suc d)) (datasize - 1) ≡ place start d
  place-prev d = omega arith

  pub place-next : (d : ℕ) → place (place start d) 1 ≡ place start (d + 1)
  place-next d = omega arith

  loop_steps :
      (fuel d : ℕ) (slots : ℕ → ℕ) (m : ℕ)
      → d ≤ fuel
      → d + 1 < datasize
      → m < datasize
      → rotate_loop fuel start (place start d) slots (place start m)
        ≡ shifted d (λ k. slots (place start k)) m
  unfolding rotate_loop
  loop_steps zero d slots m enough room h = ground arith
  loop_steps (suc fuel) zero slots m enough room h =
      rw ((==_iff (place start 0) start).1 (omega arith), rotate_loop) (ground arith)
  loop_steps (suc fuel) (suc d) slots m enough room h =
      rw
        (
          ne→== (place start (suc d)) start (omega arith),
          rotate_loop,
          normalize_prev (place start (suc d)) (omega arith),
          place-prev d,
          normalize_next (place start (suc d)) (omega arith),
          place-next (suc d),
        )
        (loop_steps fuel d _ m (omega arith) (omega arith) h
          ∙ shifted-suc d (λ k. slots (place start k))
              (λ k.
                update slots (place start (suc d + 1)) (slots (place start (suc d)))
                  (place start k))
              (λ k q ne.
                update_ne slots (place start (suc d + 1)) (place start k)
                  (slots (place start (suc d))) (place_ne (suc d + 1) k room q (λ e. ne (sym e))))
              (update_self slots (place start (suc d + 1)) (place start (suc d + 1))
                (slots (place start (suc d))) refl)
              m h)

  at_start : place start 0 ≡ start
  at_start = omega arith

  module _ (e : ℕ) (e_in : suc e < datasize) (s : DataRing) where
    abbrev pointers : ℕ → ℕ
    pointers k = s.data_store_g (place start k)

    abbrev looped : ℕ → ℕ
    looped = rotate_loop datasize start (place start e) s.data_store_g

    -- `datar_rotate_right(start, end)`, with `end` lying `suc e` slots past `start`: that pointer
    -- comes to the start, and the pointers from there on move up by one slot.
    rotate-eq :
        (datar_rotate_right start (place start (suc e)) s).data_store_g
        ≡ update (update looped (place start 1) (looped start)) start (pointers (suc e))
    unfolding datar_rotate_right
    rotate-eq = rw (
      normalize_prev (place start (suc e)) (omega arith),
      place-prev e,
      normalize_next start start_in,
    )

    looped_at : (m : ℕ) → m < datasize → looped (place start m) ≡ shifted e pointers m
    looped_at m h = loop_steps datasize e s.data_store_g m (omega arith) (omega arith) h

    abbrev second : ℕ → ℕ
    second = update looped (place start 1) (looped start)

    abbrev rotated_to : ℕ → ℕ
    rotated_to = (datar_rotate_right start (place start (suc e)) s).data_store_g

    pub rotated_first : rotated_to start ≡ pointers (suc e)
    rotated_first = rw rotate-eq (update_self second start start (pointers (suc e)) refl)

    pub rotated_moved : (m : ℕ) → m ≤ e → rotated_to (place start (suc m)) ≡ pointers m
    rotated_moved zero h = rw rotate-eq (
        update_ne second start (place start 1) (pointers (suc e)) (omega arith)
        ∙ update_self looped (place start 1) (place start 1) (looped start) refl
        ∙ ap looped (sym at_start)
        ∙ looped_at 0 (omega arith)
        ∙ ground arith)
    rotated_moved (suc m) h = rw rotate-eq (
        update_ne second start (place start (suc (suc m))) (pointers (suc e)) (omega arith)
        ∙ update_ne looped (place start 1) (place start (suc (suc m))) (looped start) (omega arith)
        ∙ looped_at (suc (suc m)) (omega arith)
        ∙ ground arith)

    pub rotated_kept : (m : ℕ) → suc e < m → m < datasize → rotated_to (place start m) ≡ pointers m
    rotated_kept m h m_in = rw rotate-eq (
        update_ne second start (place start m) (pointers (suc e)) (omega arith)
        ∙ update_ne looped (place start 1) (place start m) (looped start) (omega arith)
        ∙ looped_at m m_in
        ∙ ground arith)

    -- Where the pointer `m` slots past the start comes from.
    abbrev pub origin : ℕ → ℕ
    origin m = if m == 0 then suc e else (if leb m (suc e) then m - 1 else m)

    pub origin-lt : (m : ℕ) → m < datasize → origin m < datasize
    origin-lt m h = ground arith

    pub origin-injective : (a b : ℕ) → origin a ≡ origin b → a ≡ b
    origin-injective a b h = ground arith

    pub rotated_from : (m : ℕ) → m < datasize → rotated_to (place start m) ≡ pointers (origin m)
    rotated_from zero h = ap rotated_to at_start ∙ rotated_first
    rotated_from (suc m) h = elim (dec_le m e) [
      | yes near ↦
          rotated_moved m near
          ∙ rw (ne→== (suc m) 0 (omega arith), le→leb (suc m) (suc e) (omega arith))
              (ap pointers (omega arith))
      | no far ↦
          rotated_kept (suc m) (omega arith) h
          ∙ rw (ne→== (suc m) 0 (omega arith), leb_no (suc m) (suc e) (omega arith))
    ]

  -- Every slot is some way past the start.
  pub past : ℕ → ℕ
  past a = (a + datasize - start) % datasize

  pub place-past : (a : ℕ) → a < datasize → (place start (past a) ≡ a) × (past a < datasize)
  unfolding past
  place-past a h = omega arith
