-- ===== src/Server/Sending.antt =====
-- `send_to_client` of src/server.c: which bytes leave the send ring.
use sdrproxy.Prelude.{
  ℕ, zero, suc, ◌≤◌, ◌≡◌, refl, ap, ◌∙◌, arith, List, ◌++◌, length, take, take-drop, ltb_no, lt→ltb,
  ℤ, pos, negsuc,
}
use sdrproxy.Buffer.{RingSet, bytes_stored, delete}
use sdrproxy.Buffer.Valid.{IsValid}
use sdrproxy.Buffer.Take.{length-contents, view-contents}
use sdrproxy.Buffer.Contents.{contents, advanced-IsValid, contents-advanced}
use sdrproxy.Databfr.{Outcome, done, failed}
use sdrproxy.Server.{
  ConnectionData, maxpacketsize, Sent, sent, send_again, broken_pipe, send_error, send_to_client,
}

module _ (conn_data : ConnectionData) where
  abbrev ring : RingSet
  ring = conn_data.send_ring

  -- The bytes that the socket took are the oldest of the ring, and the others stay. An EAGAIN and a
  -- broken pipe leave the ring alone, and any other error ends the program.
  abbrev pub Sends : Sent → Outcome (ℤ × ConnectionData) → Type 0
  Sends (sent n) (done (ret, after)) =
      (ret ≡ pos n)
      × IsValid after.send_ring
      × (after ≡ record conn_data { send_ring = after.send_ring })
      × (after.send_ring.bfrsize ≡ ring.bfrsize)
      × (take n (contents ring) ++ contents after.send_ring ≡ contents ring)
  Sends send_again (done (ret, after)) = (ret ≡ pos 0) × (after ≡ conn_data)
  Sends broken_pipe (done (ret, after)) = (ret ≡ negsuc 0) × (after ≡ conn_data)
  Sends send_error failed = Unit {0}
  Sends _ _ = ⊥

  sends :
      IsValid ring
      → (answer : Sent) → ((n : ℕ) → answer ≡ sent n → n ≤ length (contents ring))
      → Sends answer (elim answer [
        | sent rv ↦ done (pos rv, record conn_data { send_ring = (delete (pos rv) ring).1 })
        | send_again ↦ done (pos 0, conn_data)
        | broken_pipe ↦ done (negsuc 0, conn_data)
        | send_error ↦ failed
      ])
  unfolding delete
  sends v (sent zero) most = (refl, v, refl, refl, refl)
  sends v (sent (suc n)) most =
      let held : suc n ≤ bytes_stored ring = omega (arith, most (suc n) refl, length-contents v) in
      rw (lt→ltb 0 (suc n) (omega arith), ltb_no (bytes_stored ring) (suc n) held)
        (
          refl,
          advanced-IsValid v (suc n) held,
          refl,
          refl,
          ap (λ l. take (suc n) (contents ring) ++ l) (contents-advanced v (suc n) held)
              ∙ take-drop (suc n) (contents ring),
        )
  sends v send_again most = (refl, refl)
  sends v broken_pipe most = (refl, refl)
  sends v send_error most = tt

  -- With a valid send ring of at most MAXPACKETSIZE bytes, all of it is offered to the socket, and
  -- what the socket takes leaves the ring, in order; an EAGAIN and a broken pipe change nothing,
  -- and another error ends the program.
  pub send_to_client-Sends :
      (send : List ℕ → Sent)
      → IsValid ring
      → bytes_stored ring ≤ maxpacketsize
      → ((bytes : List ℕ) (n : ℕ) → send bytes ≡ sent n → n ≤ length bytes)
      → Sends (send (contents ring)) (send_to_client send conn_data)
  unfolding send_to_client
  send_to_client-Sends send v small most =
      rw (view-contents v, ltb_no maxpacketsize (bytes_stored ring) small, send_to_client)
        (sends v (send (contents ring)) (most (contents ring)))
