-- ===== src/Databfr/Alloc.antt =====
-- RING_ALLOC of src/databfr.c, and what it asks of `malloc`.
use sdrproxy.Prelude.{
  ℕ, zero, suc, ◌+◌, ◌<◌, ◌≡◌, refl, sym, ap, subst, ◌∙◌, arith, true, some, List, [], length,
  update, update_self, update_ne,
}
use native.Mathlib.Decide.{ℕ_discrete}
use sdrproxy.Util.{ChannelInfo, sdr_pkt_size}
use sdrproxy.Databfr.{DataRing, Outcome, done, fault, failed, blocked, ◌>>=◌, datasize}
use sdrproxy.Databfr.Valid.{IsValid, contents}
use sdrproxy.Databfr.Ops.{Allocator, alloc_loop, alloc}

-- `malloc` always succeeds, gives different structures, and gives as many bytes as are asked for.
pub record Serves (m : Allocator) (pointer : ℕ → ℕ) (mem : ℕ → ℕ → List ℕ) : Type 0 where
  pub gives : (i : ℕ) → m.struct i ≡ some (pointer i)
  pub gives_bytes : (i n : ℕ) → m.bytes i n ≡ some (mem i n)
  pub differ : (i j : ℕ) → pointer i ≡ pointer j → i ≡ j
  pub enough : (i n : ℕ) → length (mem i n) ≡ n

module _ (m : Allocator) (pointer : ℕ → ℕ) (mem : ℕ → ℕ → List ℕ) (serves : Serves m pointer mem)
    (size : ℕ) where
  -- What the loop has done up to index `i`.
  record Filled (i : ℕ) (s : DataRing) : Type 0 where
    slots : (k : ℕ) → k < i → s.data_store_g k ≡ pointer k
    rooms : (k : ℕ) → k < i → length (s.store (pointer k)).sdr_packet ≡ size

  abbrev Fills : ℕ → DataRing → Outcome DataRing → Type 0
  Fills j s (done s') = Filled j s' × (s'.locked ≡ s.locked)
  Fills j s fault = ⊥
  Fills j s failed = ⊥
  Fills j s blocked = ⊥

  module _ (i : ℕ) (s : DataRing) (f : Filled i s) where
    abbrev one_more : DataRing
    one_more = record s {
      data_store_g = update s.data_store_g i (pointer i);
      store = update s.store (pointer i) (record (s.store (pointer i)) { sdr_packet = mem i size });
    }

    one_more-Filled : Filled (i + 1) one_more
    one_more-Filled = record {
      slots = λ k h. elim (ℕ_discrete i k) [
        | yes e ↦ update_self s.data_store_g i k (pointer i) e ∙ ap pointer e
        | no ne ↦ update_ne s.data_store_g i k (pointer i) ne ∙ f.slots k (omega arith)
      ];
      rooms = λ k h. elim (ℕ_discrete i k) [
        | yes e ↦
            ap (λ t. length t.sdr_packet)
              (update_self s.store (pointer i) (pointer k) _ (ap pointer e))
            ∙ serves.enough i size
        | no ne ↦
            ap (λ t. length t.sdr_packet)
              (update_ne s.store (pointer i) (pointer k) _ (λ e. ne (serves.differ i k e)))
            ∙ f.rooms k (omega arith)
      ];
    }

  round :
      (n i : ℕ) (s : DataRing)
      → alloc_loop m size (suc n) i s
        ≡ alloc_loop m size n (i + 1) (record s {
          data_store_g = update s.data_store_g i (pointer i);
          store =
              update s.store (pointer i) (record (s.store (pointer i)) { sdr_packet = mem i size });
        })
  unfolding alloc_loop
  round n i s = rw (serves.gives i, alloc_loop, serves.gives_bytes i size)

  alloc_loop-Fills :
      (n i j : ℕ) (s : DataRing) → i + n ≡ j → Filled i s → Fills j s (alloc_loop m size n i s)
  unfolding alloc_loop
  alloc_loop-Fills zero i j s e f = (subst (λ t. Filled t s) (omega arith) f, refl)
  alloc_loop-Fills (suc n) i j s e f =
      subst (Fills j s) (sym (round n i s))
        (alloc_loop-Fills n (i + 1) j (one_more i s f) (omega arith) (one_more-Filled i s f))

module _ (m : Allocator) (pointer : ℕ → ℕ) (mem : ℕ → ℕ → List ℕ) (serves : Serves m pointer mem)
    (c : ChannelInfo) (s : DataRing) where
  abbrev pub Allocates : Outcome DataRing → Type 0
  Allocates (done s') = IsValid (sdr_pkt_size c) s' × (contents s' ≡ []) × (s'.locked ≡ s.locked)
  Allocates fault = ⊥
  Allocates failed = ⊥
  Allocates blocked = ⊥

  filled-Allocates :
      (o : Outcome DataRing)
      → Fills m pointer mem serves (sdr_pkt_size c) datasize s o
      → Allocates (
          o >>= λ s'.
          done (record s' { datar_start = 0; datar_end = 0; datar_cnt = 0; live = true }))
  filled-Allocates (done s') (f, e) = (
    record {
      start_in = omega arith;
      count_in = omega arith;
      end_at = omega arith;
      is_live = refl;
      distinct = λ i j hi hj h. serves.differ i j (sym (f.slots i hi) ∙ h ∙ f.slots j hj);
      roomy = λ i h. ap (λ t. length (s'.store t).sdr_packet) (f.slots i h) ∙ f.rooms i h;
      fits = λ k h. elim h [ ];
      sorted = λ a b h hb. elim hb [ ];
    },
    refl,
    e,
  )
  filled-Allocates fault h = h
  filled-Allocates failed h = h
  filled-Allocates blocked h = h

  -- Where malloc serves, RING_ALLOC returns and leaves a valid ring that holds nothing.
  pub alloc-Allocates : Allocates (alloc m c s)
  unfolding alloc
  alloc-Allocates = filled-Allocates (alloc_loop m (sdr_pkt_size c) datasize 0 s) (
      alloc_loop-Fills m pointer mem serves (sdr_pkt_size c) datasize 0 datasize s (omega arith)
        (record { slots = λ k h. elim h [ ]; rooms = λ k h. elim h [ ] }))
