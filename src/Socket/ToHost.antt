-- ===== src/Socket/ToHost.antt =====
-- `send_to_host` of src/socket.c: which bytes leave the ring.
use sdrproxy.Prelude.{
  ℕ, zero, suc, ◌≤◌, ◌≡◌, refl, ap, ◌∙◌, arith, List, ◌++◌, length, take, take-drop, ltb_no, lt→ltb,
  ℤ, pos, negsuc,
}
use sdrproxy.Buffer.{RingSet, bytes_stored, delete}
use sdrproxy.Buffer.Valid.{IsValid}
use sdrproxy.Buffer.Take.{length-contents, view-contents}
use sdrproxy.Buffer.Contents.{contents, advanced-IsValid, contents-advanced}
use sdrproxy.Client.{bfrsize}
use sdrproxy.Databfr.{Outcome, done, fault, failed, blocked}
use sdrproxy.Socket.{SendResult, taken, would_block, conn_reset, other_error, send_to_host}

module _ (ring : RingSet) where
  -- A positive return is how many of the oldest bytes have gone, and the others stay; otherwise the
  -- ring is as it was.
  abbrev MovesTo : SendResult → ℤ → RingSet → Type 0
  MovesTo (taken zero) ret after = (ret ≡ negsuc 1) × (after ≡ ring)
  MovesTo (taken (suc n)) ret after =
      (ret ≡ pos (suc n))
      × IsValid after
      × (after.bfrsize ≡ ring.bfrsize)
      × (take (suc n) (contents ring) ++ contents after ≡ contents ring)
  MovesTo would_block ret after = (ret ≡ pos 0) × (after ≡ ring)
  MovesTo conn_reset ret after = (ret ≡ negsuc 0) × (after ≡ ring)
  MovesTo other_error ret after = (ret ≡ negsuc 0) × (after ≡ ring)

  -- The call returns so.
  abbrev pub Moves : SendResult → Outcome (ℤ × RingSet) → Type 0
  Moves answer (done (ret, after)) = MovesTo answer ret after
  Moves answer fault = ⊥
  Moves answer failed = ⊥
  Moves answer blocked = ⊥

  pub MovesTo-IsValid :
      IsValid ring
      → (answer : SendResult) (ret : ℤ) (after : RingSet) → MovesTo answer ret after
      → IsValid after × (after.bfrsize ≡ ring.bfrsize)
  MovesTo-IsValid v (taken zero) ret after (_, e) = rw e (v, refl)
  MovesTo-IsValid v (taken (suc n)) ret after (_, v', e, _) = (v', e)
  MovesTo-IsValid v would_block ret after (_, e) = rw e (v, refl)
  MovesTo-IsValid v conn_reset ret after (_, e) = rw e (v, refl)
  MovesTo-IsValid v other_error ret after (_, e) = rw e (v, refl)

  moves :
      IsValid ring
      → (answer : SendResult) → ((n : ℕ) → answer ≡ taken n → n ≤ bytes_stored ring)
      → Moves answer (elim answer [
        | taken zero ↦ done (negsuc 1, ring)
        | taken (suc n) ↦ done (pos (suc n), (delete (pos (suc n)) ring).1)
        | would_block ↦ done (pos 0, ring)
        | conn_reset ↦ done (negsuc 0, ring)
        | other_error ↦ done (negsuc 0, (delete (negsuc 0) ring).1)
      ])
  unfolding delete
  moves v (taken zero) most = (refl, refl)
  moves v (taken (suc n)) most =
      let held : suc n ≤ bytes_stored ring = most (suc n) refl in
      rw (lt→ltb 0 (suc n) (omega arith), ltb_no (bytes_stored ring) (suc n) held)
        (
          refl,
          advanced-IsValid v (suc n) held,
          refl,
          ap (λ l. take (suc n) (contents ring) ++ l) (contents-advanced v (suc n) held)
              ∙ take-drop (suc n) (contents ring),
        )
  moves v would_block most = (refl, refl)
  moves v conn_reset most = (refl, refl)
  moves v other_error most = (refl, refl)

  -- With a valid ring of at most BFRSIZE bytes and a socket that takes at most what it is given,
  -- send_to_host returns: a positive return is how many of the oldest bytes were taken, and the
  -- others stay, in order; for every other return the ring is as it was.
  pub send_to_host-Moves :
      (send : List ℕ → SendResult)
      → IsValid ring
      → bytes_stored ring ≤ bfrsize
      → ((bytes : List ℕ) (n : ℕ) → send bytes ≡ taken n → n ≤ length bytes)
      → Moves (send (contents ring)) (send_to_host send ring)
  unfolding send_to_host
  send_to_host-Moves send v small most =
      rw (view-contents v, ltb_no bfrsize (bytes_stored ring) small, send_to_host)
        (moves v (send (contents ring))
          (λ n e. omega (arith, most (contents ring) n e, length-contents v)))
