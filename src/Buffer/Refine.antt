-- ===== src/Buffer/Refine.antt =====
-- A valid ring of src/buffer.c beside the bounded queue of the bytes that it holds.
use sdrproxy.Prelude.{
  ℕ, ◌+◌, ◌-◌, ◌≡◌, refl, sym, ap, ap₂, ◌∙◌, Option, List, [], ◌∷◌, ◌++◌, arith, length, ltb_no,
  lt→ltb, take-length, tabulate, pos, negsuc,
}
use native.Mathlib.Decide.{dec_le}
use native.Mathlib.Nat.{le_refl}
use sdrproxy.Buffer.Queue
use sdrproxy.Buffer.Queue.{Call, Reply}
use sdrproxy.Buffer.{
  RingSet, Outcome, returned, failed, fault, ring_init, ring_store, ring_retr, ring_ismt,
  ring_isfull, ring_elements_free, ring_elements_stored, ring_view, ring_delete, ring_ops,
  bytes_free, bytes_stored, store, retr, view, delete, init,
}
use sdrproxy.Buffer.Valid.{
  IsValid, free-add-stored, isempty_iff, isfull_iff, init-IsValid, stored_cases,
}
use sdrproxy.Buffer.Contents.{contents, byte, advanced-IsValid, contents-advanced, copy_bytes-take}
use sdrproxy.Buffer.Take.{length-contents}
use sdrproxy.Buffer.Store.{store-eq, contents-store, stored_ring-IsValid}

-- The call of `ring_ops` that a client makes; the arguments not read are NULL and 0, as in the code.
unfoldable pub call : (ℕ → Option (List ℕ)) → Call → RingSet → Outcome
call malloc Call.init r = ring_ops malloc [] (pos 0) ring_init r
call malloc Call.ismt r = ring_ops malloc [] (pos 0) ring_ismt r
call malloc Call.isfull r = ring_ops malloc [] (pos 0) ring_isfull r
call malloc Call.elements_free r = ring_ops malloc [] (pos 0) ring_elements_free r
call malloc Call.elements_stored r = ring_ops malloc [] (pos 0) ring_elements_stored r
call malloc (Call.store bytes) r = ring_ops malloc bytes (pos (length bytes)) ring_store r
call malloc (Call.retr n) r = ring_ops malloc [] (pos n) ring_retr r
call malloc (Call.view n) r = ring_ops malloc [] (pos n) ring_view r
call malloc (Call.delete n) r = ring_ops malloc [] n ring_delete r

module _ {r : RingSet} (v : IsValid r) where
  pub contents-init : contents (init r) ≡ []
  unfolding init
  contents-init =
      ap (λ t. tabulate t (byte (init r))) {y = 0} (omega (arith, stored_cases (init-IsValid v)))

  -- The outcome is that of the queue: same return, same bytes, and the ring holds the new queue.
  abbrev Agrees : Outcome → Reply × Queue.Queue → Type 0
  Agrees (returned ret out r') (reply, q) =
      ((ret, out) ≡ reply) × (contents r' ≡ q) × IsValid r' × (r'.bfrsize ≡ r.bfrsize)
  Agrees failed s = ⊥
  Agrees fault s = ⊥

  step-Agrees :
      (malloc : ℕ → Option (List ℕ)) (c : Call)
      → Agrees (call malloc c r) (Queue.step (r.bfrsize - 1) (contents r) c)
  unfolding call ring_ops Queue.step init delete store retr view
  step-Agrees malloc Call.init = (refl, contents-init, init-IsValid v, refl)
  step-Agrees malloc Call.ismt =
      (ap (λ t. (t, [])) (ground (arith, isempty_iff v, length-contents v)), refl, v, refl)
  step-Agrees malloc Call.isfull = (
    ap (λ t. (t, [])) (ground (arith, isfull_iff v, free-add-stored v, length-contents v)),
    refl,
    v,
    refl,
  )
  step-Agrees malloc Call.elements_free =
      (ap (λ t. (pos t, [])) (omega (arith, free-add-stored v, length-contents v)), refl, v, refl)
  step-Agrees malloc Call.elements_stored =
      (ap (λ t. (pos t, [])) (sym (length-contents v)), refl, v, refl)
  step-Agrees malloc (Call.store bytes) = elim (dec_le (length bytes) (bytes_free r)) [
    | yes room ↦
        rw
          (
            store-eq v bytes (length bytes) room (le_refl (length bytes)),
            ltb_no (r.bfrsize - 1) (length (contents r) + length bytes)
                (omega (arith, length-contents v, free-add-stored v)),
          )
          (
            refl,
            contents-store v bytes (length bytes) room (le_refl (length bytes))
                ∙ ap (λ t. contents r ++ t) (take-length bytes),
            stored_ring-IsValid v bytes (length bytes) room (le_refl (length bytes)),
            refl,
          )
    | no full ↦
        rw
          (
            lt→ltb (bytes_free r) (length bytes) (omega arith),
            lt→ltb (r.bfrsize - 1) (length (contents r) + length bytes)
                (omega (arith, length-contents v, free-add-stored v)),
          )
          (refl, refl, v, refl)
  ]
  step-Agrees malloc (Call.retr n) = elim (dec_le n (bytes_stored r)) [
    | yes held ↦
        rw
          (
            ltb_no (bytes_stored r) n held,
            ltb_no (length (contents r)) n (omega (arith, length-contents v)),
          )
          (
            ap (λ t. (pos 0, t)) (copy_bytes-take v n held),
            contents-advanced v n held,
            advanced-IsValid v n held,
            refl,
          )
    | no short ↦
        rw
          (
            lt→ltb (bytes_stored r) n (omega arith),
            lt→ltb (length (contents r)) n (omega (arith, length-contents v)),
          )
          (refl, refl, v, refl)
  ]
  step-Agrees malloc (Call.view n) = elim (dec_le n (bytes_stored r)) [
    | yes held ↦
        rw
          (
            ltb_no (bytes_stored r) n held,
            ltb_no (length (contents r)) n (omega (arith, length-contents v)),
          )
          (ap (λ t. (pos 0, t)) (copy_bytes-take v n held), refl, v, refl)
    | no short ↦
        rw
          (
            lt→ltb (bytes_stored r) n (omega arith),
            lt→ltb (length (contents r)) n (omega (arith, length-contents v)),
          )
          (refl, refl, v, refl)
  ]
  step-Agrees malloc (Call.delete (pos n)) = elim (dec_le n (bytes_stored r)) [
    | no short ↦
        rw
          (
            lt→ltb 0 n (omega arith),
            lt→ltb (bytes_stored r) n (omega arith),
            lt→ltb (length (contents r)) n (omega (arith, length-contents v)),
          )
          (refl, refl, v, refl)
    | yes held ↦ elim (dec_le n 0) [
      | yes none_asked ↦ rw (ltb_no 0 n none_asked) (refl, refl, v, refl)
      | no some_asked ↦
          rw
            (
              lt→ltb 0 n (omega arith),
              ltb_no (bytes_stored r) n held,
              ltb_no (length (contents r)) n (omega (arith, length-contents v)),
            )
            (refl, contents-advanced v n held, advanced-IsValid v n held, refl)
    ]
  ]
  step-Agrees malloc (Call.delete (negsuc n)) = (refl, refl, v, refl)

-- A client's calls in order, with what each returns. It ends early if the program does.
unfoldable pub run : (ℕ → Option (List ℕ)) → RingSet → List Call → List Reply
run malloc r [] = []
run malloc r (c ∷ cs) = elim (call malloc c r) [
  | returned ret out r' ↦ (ret, out) ∷ run malloc r' cs
  | _ ↦ []
]

-- No sequence of calls of RING_INIT, RING_ISMT, RING_ISFULL, RING_ELEMENTS_FREE,
-- RING_ELEMENTS_STORED, RING_DELETE with any number, and RING_STORE, RING_RETR and RING_VIEW with
-- numbers of bytes that are not negative tells a valid ring from the bounded queue of its bytes:
-- each of these calls of ring_ops returns, with the same int and the same bytes.
pub run-refines :
    (malloc : ℕ → Option (List ℕ)) (cs : List Call) {r : RingSet}
    → IsValid r
    → run malloc r cs ≡ Queue.run (r.bfrsize - 1) (contents r) cs
unfolding run Queue.run
run-refines malloc [] v = refl
run-refines malloc (c ∷ cs) {r} v =
    next (λ r' v'. run-refines malloc cs {r = r'} v') (call malloc c r) refl
      (step-Agrees v malloc c)
  where
    next :
        ((r' : RingSet)
          → IsValid r'
          → run malloc r' cs ≡ Queue.run (r'.bfrsize - 1) (contents r') cs)
        → (o : Outcome) → call malloc c r ≡ o
        → Agrees v o (Queue.step (r.bfrsize - 1) (contents r) c)
        → run malloc r (c ∷ cs) ≡ Queue.run (r.bfrsize - 1) (contents r) (c ∷ cs)
    next rest (returned ret out r') e (same, held, v', size) =
        rw (e, run)
          (ap₂ ◌∷◌ same (
            rest r' v'
            ∙ ap₂ (λ m q. Queue.run m q cs) {x = r'.bfrsize - 1} (ap (λ t. t - 1) size) held))
    next rest failed e h = elim h [ ]
    next rest fault e h = elim h [ ]
