-- ===== src/Databfr/Run.antt =====
-- The data ring of src/databfr.c as its clients see it, under calls of RING_STORE and RING_RETR.
use sdrproxy.Prelude.{
  ℕ, ◌-◌, ◌≤◌, ◌≡◌, refl, sym, ap, ap₂, subst, ◌∙◌, ◌⊎◌, inl, inr, Bool, true, false, Option, none,
  some, List, [], ◌∷◌, length, take, if◌then◌else◌, ℤ, pos,
}
use sdrproxy.Buffer.{ring_store, ring_retr, ring_elements_stored, ring_elements_free, Action}
use sdrproxy.Util.{ChannelInfo}
use sdrproxy.Databfr.{PacketInfo, DataRing, Outcome, done, fault, failed, blocked, datasize, ◌>>=◌}
use sdrproxy.Databfr.Valid.{IsValid, contents}
use sdrproxy.Databfr.Spec.{Packet, insert, newest_of, rejected, next_after}
use sdrproxy.Databfr.Store.{Stores, store_packet-Stores}
use sdrproxy.Databfr.Retrieve.{retr_packet-next_after}
use sdrproxy.Databfr.Ops.{Allocator, Reply, retrieved, unlock, switch, data_ring_ops}

pub data Call : Type 0 where
  store : PacketInfo → List ℕ → Call
  retr : ℤ → Call

-- What a call returns: its `int`, and the packet written to the caller's memory.
abbrev pub Answer : Type 0
Answer = ℤ × Option Packet

-- The packets given are whole, and fit the memory of a slot.
abbrev pub AllFit : ℕ → List Call → Type 0
AllFit size [] = Unit {0}
AllFit size (store element pkt ∷ cs) =
    (element.packet_len ≤ length pkt) × (element.packet_len ≤ size) × AllFit size cs
AllFit size (retr t ∷ cs) = AllFit size cs

module _ (m : Allocator) (c : ChannelInfo) (none_given : PacketInfo) where
  unfoldable pub call : Call → DataRing → Outcome Reply
  call (store element pkt) s = data_ring_ops m c element pkt (pos 0) ring_store s
  call (retr t) s = data_ring_ops m c none_given [] t ring_retr s

  -- The calls in order, with what each answers. It ends early if a call does not return.
  unfoldable pub run : DataRing → List Call → List Answer
  run s [] = []
  run s (k ∷ ks) = elim (call k s) [ done (ret, out, s') ↦ (ret, out) ∷ run s' ks | _ ↦ [] ]

-- The same calls on a list of packets.
abbrev answer : Option Packet → Answer
answer none = (pos 1, none)
answer (some p) = (pos 0, some p)

unfoldable pub step : List Packet → Call → Answer × List Packet
step ps (store element pkt) =
    let p : Packet = (element, take element.packet_len pkt) in
    ((if rejected datasize p ps then pos 1 else pos 0, none), newest_of datasize (insert p ps))
step ps (retr t) = (answer (next_after t ps), ps)

unfoldable pub run_list : List Packet → List Call → List Answer
run_list ps [] = []
run_list ps (k ∷ ks) = let (a, ps') = step ps k in a ∷ run_list ps' ks

-- The mutex is no part of the invariant.
pub relock :
    {size : ℕ} {s : DataRing} (b : Bool) → IsValid size s → IsValid size (record s { locked = b })
relock b v = record {
  start_in = v.start_in;
  count_in = v.count_in;
  end_at = v.end_at;
  is_live = v.is_live;
  distinct = v.distinct;
  roomy = v.roomy;
  fits = v.fits;
  sorted = v.sorted;
}

module _ (m : Allocator) (c : ChannelInfo) (none_given : PacketInfo) (size : ℕ) where
  abbrev pub Answers : Answer × List Packet → Outcome Reply → Type 0
  Answers (a, ps) (done (ret, out, s')) =
      ((ret, out) ≡ a) × (contents s' ≡ ps) × IsValid size s' × (s'.locked ≡ false)
  Answers (a, ps) fault = ⊥
  Answers (a, ps) failed = ⊥
  Answers (a, ps) blocked = ⊥

  stored-Answers :
      (s : DataRing) (element : PacketInfo) (pkt : List ℕ) (o : Outcome (ℤ × DataRing))
      → Stores size s (element, take element.packet_len pkt) o
      → Answers
          (step (contents s) (store element pkt))
          (o >>= λ r. done (r.0, none, record r.1 { locked = false }))
  unfolding step
  stored-Answers s element pkt (done (ret, s')) (e, held, v, l) =
      (ap (λ t. (t, none)) e, held, relock false v, refl)
  stored-Answers s element pkt fault h = h
  stored-Answers s element pkt failed h = h
  stored-Answers s element pkt blocked h = h

  retrieved-Answers :
      (s : DataRing)
      → IsValid size (unlock s)
      → (o : Option Packet) → Answers (answer o, contents s) (retrieved s o)
  retrieved-Answers s v none = (refl, refl, v, refl)
  retrieved-Answers s v (some p) = (refl, refl, v, refl)

  one_fits : (k : Call) (ks : List Call) → AllFit size (k ∷ ks) → AllFit size (k ∷ [])
  one_fits (store element pkt) ks (reads, fits, rest) = (reads, fits, tt)
  one_fits (retr t) ks rest = tt

  all_later : (k : Call) (ks : List Call) → AllFit size (k ∷ ks) → AllFit size ks
  all_later (store element pkt) ks (reads, fits, rest) = rest
  all_later (retr t) ks rest = rest

  pub step-Answers :
      (k : Call) {s : DataRing}
      → AllFit size (k ∷ [])
      → IsValid size s
      → s.locked ≡ false
      → Answers (step (contents s) k) (call m c none_given k s)
  unfolding call data_ring_ops switch step
  step-Answers (store element pkt) {s} (reads, fits, _) v free = rw free (
      stored-Answers (record s { locked = true }) element pkt _
        (store_packet-Stores (relock true v) element pkt reads fits))
  step-Answers (retr t) {s} _ v free =
      let before = record s { locked = true } in
      rw free (
        subst
          (λ o.
            Answers (answer (next_after t (contents before)), contents before) (retrieved before o))
          (sym (retr_packet-next_after (relock true v) t))
          (retrieved-Answers before (relock false v) (next_after t (contents before))))

  -- No sequence of calls of RING_STORE and RING_RETR, with packets that fit the memory of a slot,
  -- tells a valid, unlocked data ring from a list of packets in the order of their times that keeps
  -- the newest DATASIZE of them.
  pub run-run_list :
      (ks : List Call) {s : DataRing}
      → AllFit size ks
      → IsValid size s
      → s.locked ≡ false
      → run m c none_given s ks ≡ run_list (contents s) ks
  unfolding run run_list
  run-run_list [] fit v free = refl
  run-run_list (k ∷ ks) {s} fit v free =
      next (λ s' v' free'. run-run_list ks {s = s'} (all_later k ks fit) v' free')
        (call m c none_given k s) refl (step-Answers k {s = s} (one_fits k ks fit) v free)
    where
      next :
          ((s' : DataRing)
            → IsValid size s'
            → s'.locked ≡ false
            → run m c none_given s' ks ≡ run_list (contents s') ks)
          → (o : Outcome Reply) → call m c none_given k s ≡ o
          → Answers (step (contents s) k) o
          → run m c none_given s (k ∷ ks) ≡ run_list (contents s) (k ∷ ks)
      next rest (done (ret, out, s')) e (same, held, v', free') =
          rw (e, run) (ap₂ ◌∷◌ same (rest s' v' free' ∙ ap (λ ps. run_list ps ks) held))
      next rest fault e h = elim h [ ]
      next rest failed e h = elim h [ ]
      next rest blocked e h = elim h [ ]

-- RING_ELEMENTS_STORED and RING_ELEMENTS_FREE return with the mutex held, so whatever call comes
-- next waits for ever.
pub counts_block :
    (m : Allocator) (c : ChannelInfo) (element : PacketInfo) (pkt : List ℕ) (t : ℤ) (s : DataRing)
    (count : Action)
    → (count ≡ ring_elements_stored) ⊎ (count ≡ ring_elements_free)
    → s.locked ≡ false
    → (later : Action)
    → (r : Reply) × (data_ring_ops m c element pkt t count s ≡ done r)
      × (data_ring_ops m c element pkt t later r.2 ≡ blocked)
unfolding data_ring_ops switch
counts_block m c element pkt t s count (inl e) free later =
    ((pos s.datar_cnt, none, record s { locked = true }), rw (free, e), refl)
counts_block m c element pkt t s count (inr e) free later =
    ((pos (datasize - s.datar_cnt), none, record s { locked = true }), rw (free, e), refl)
