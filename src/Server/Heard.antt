-- ===== src/Server/Heard.antt =====
-- What a client says to a connection of src/server.c in a round, and what it changes.
use sdrproxy.Prelude.{
  ℕ, suc, ◌+◌, ◌≤◌, ◌<◌, ◌≡◌, ◌⊎◌, inl, inr, refl, sym, ap, subst, ◌∙◌, arith, Bool, true, false,
  min, length, take-length, lt→ltb, ltb_no, eq→==, ne→==, List, [], ◌∷◌, ◌++◌, ℤ, pos, negsuc,
  ltb_ℤ, if◌then◌else◌,
}
use native.Mathlib.Decide.{dec_le}
use native.Mathlib.Nat.{le_refl}
use sdrproxy.Buffer.{bytes_free, store}
use sdrproxy.Buffer.Valid.{IsValid}
use sdrproxy.Buffer.Contents.{contents}
use sdrproxy.Buffer.Store.{store-eq, contents-store, stored_ring-IsValid}
use sdrproxy.Buffer.Search.{Holds}
use sdrproxy.Util.Search.{IsBytes}
use sdrproxy.Server.{
  ServrState, sendchan, shutdown, ConnectionData, Received, received, try_again, connection_error,
  closed_by_peer, chanrequest, server_rcv_to_ring, check_server_incoming, service_incoming,
}
use sdrproxy.Server.Incoming.{Takes, check_server_incoming-Takes}

-- The client says nothing that matters, asks for the data, or is lost.
pub data Event : Type 0 where
  silent asks leaves : Event

-- The state of a connection in use when its client is heard.
abbrev pub said : Event → ServrState → ServrState
said silent s = s
said asks s = sendchan
said leaves s = shutdown

module _ (recv : ℕ → Received) (conn : ConnectionData) where
  -- How many bytes `recv` is asked for.
  abbrev pub room : ℕ
  room = min 300 (bytes_free conn.rcv_ring)

  -- Bytes come, in some number: the bytes on the ring and they together are these.
  abbrev pub Brings : List ℕ → Type 0
  Brings bytes =
      (bfr : List ℕ) × (recv room ≡ received bfr)
      × (0 < length bfr)
      × (bytes ≡ contents conn.rcv_ring ++ bfr)

  -- A `recv` that gives at most the bytes that it is asked for.
  abbrev pub Keeps : Type 0
  Keeps =
      (bfr : List ℕ)
      → recv room ≡ received bfr
      → (length bfr ≤ room) × IsBytes (contents conn.rcv_ring ++ bfr)

  -- What it is that a client says: it asks if the request stands in the bytes that were on the ring
  -- and those that come, and is lost if `recv` fails or finds the end.
  abbrev pub Says : Bool → Event → Type 0
  Says readable silent =
      (readable ≡ false)
      ⊎ ((room ≡ 0)
          ⊎ ((recv room ≡ try_again)
              ⊎ ((recv room ≡ received [])
                  ⊎ ((bytes : List ℕ) × Brings bytes × ((p : ℕ) → ¬ Holds bytes chanrequest p)))))
  Says readable asks =
      (readable ≡ true)
      × (0 < room)
      × ((bytes : List ℕ) × Brings bytes × ((p : ℕ) × Holds bytes chanrequest p))
  Says readable leaves =
      (readable ≡ true)
      × (0 < room)
      × ((recv room ≡ connection_error) ⊎ (recv room ≡ closed_by_peer))

requested :
    (bytes rest : List ℕ) (b : Bool)
    → Takes bytes (b, rest)
    → ((b ≡ true) × ((p : ℕ) × Holds bytes chanrequest p))
      ⊎ ((b ≡ false) × ((p : ℕ) → ¬ Holds bytes chanrequest p))
requested bytes rest true (p, (first, same)) = inl (refl, (p, first.0))
requested bytes rest false (nowhere, same) = inr (refl, nowhere)

module _ (recv : ℕ → Received) (conn : ConnectionData) (v : IsValid conn.rcv_ring)
    (keeps : Keeps recv conn) where
  abbrev Heard : Bool → ConnectionData → Type 0
  Heard readable after =
      (e : Event) × Says recv conn readable e
      × ((after.state ≡ said e conn.state)
          × (after.idle_timer ≡ conn.idle_timer)
          × (after.send_ring ≡ conn.send_ring))

  abbrev with_bytes : List ℕ → ConnectionData
  with_bytes bfr = record conn { rcv_ring = (store bfr (length bfr) conn.rcv_ring).1 }

  stored :
      (bfr : List ℕ)
      → length bfr ≤ bytes_free conn.rcv_ring
      → IsValid (with_bytes bfr).rcv_ring
        × (contents (with_bytes bfr).rcv_ring ≡ contents conn.rcv_ring ++ bfr)
  stored bfr fits =
      let n = length bfr in
      rw (store-eq v bfr n fits (le_refl n)) (
        stored_ring-IsValid v bfr n fits (le_refl n),
        contents-store v bfr n fits (le_refl n)
            ∙ ap (λ t. contents conn.rcv_ring ++ t) (take-length bfr),
      )

  -- Bytes have come.
  brought :
      (bfr : List ℕ)
      → 0 < room recv conn
      → recv (room recv conn) ≡ received bfr
      → 0 < length bfr
      → Heard true (
          let checked = check_server_incoming (with_bytes bfr) in
          if checked.0 then record (checked.1) { state = sendchan } else checked.1)
  unfolding check_server_incoming
  brought bfr asked came some_bytes =
      let (small, bytes) = keeps bfr came in
      let (v', held) = stored bfr (omega arith) in
      let bytes' : IsBytes (contents (with_bytes bfr).rcv_ring) = rw held bytes in
      let takes = (check_server_incoming-Takes (with_bytes bfr) v' bytes').1 in
      let brings : Brings recv conn (contents (with_bytes bfr).rcv_ring) =
        (bfr, came, some_bytes, held) in
      elim (requested (contents (with_bytes bfr).rcv_ring) _
        (check_server_incoming (with_bytes bfr)).0 takes) [
          | inl (there, at) ↦ (
            asks,
            (refl, asked, (contents (with_bytes bfr).rcv_ring, brings, at)),
            rw there (refl, refl, refl),
          )
          | inr (absent, nowhere) ↦ (
            silent,
            inr (inr (inr (inr (contents (with_bytes bfr).rcv_ring, brings, nowhere)))),
            rw absent (refl, refl, refl),
          )
        ]

  -- What is done with the answer of `server_rcv_to_ring`.
  abbrev taken : ℤ × ConnectionData → ConnectionData
  taken r =
      let checked = check_server_incoming r.1 in
      if ltb_ℤ r.0 (pos 0)
      then record (r.1) { state = shutdown }
      else (if ltb_ℤ (pos 0) r.0
          then (if checked.0 then record (checked.1) { state = sendchan } else checked.1)
          else r.1)

  taken-Heard :
      (r : ℤ × ConnectionData)
      → server_rcv_to_ring recv conn ≡ r
      → Heard true (taken r)
      → Heard true (service_incoming true recv conn)
  unfolding service_incoming
  taken-Heard r e h = subst (λ q. Heard true (taken q)) (sym e) h

  abbrev got_of : Received → ℤ × ConnectionData
  got_of (received bfr) = (pos (length bfr), with_bytes bfr)
  got_of try_again = (pos 0, conn)
  got_of connection_error = (negsuc 0, conn)
  got_of closed_by_peer = (negsuc 1, conn)

  got :
      (g : Received)
      → 0 < room recv conn
      → recv (room recv conn) ≡ g
      → server_rcv_to_ring recv conn ≡ got_of g
  unfolding server_rcv_to_ring
  got g some_room e =
      rw (ne→== (room recv conn) 0 (λ z. omega arith), e, server_rcv_to_ring) (by_case g)
    where
      by_case :
          (g : Received)
          → (elim g [
            | received bfr ↦ (pos (length bfr), with_bytes bfr)
            | try_again ↦ (pos 0, conn)
            | connection_error ↦ (negsuc 0, conn)
            | closed_by_peer ↦ (negsuc 1, conn)
          ])
            ≡ got_of g
      by_case (received bfr) = refl
      by_case try_again = refl
      by_case connection_error = refl
      by_case closed_by_peer = refl

  heard :
      (g : Received)
      → 0 < room recv conn
      → recv (room recv conn) ≡ g
      → Heard true (taken (got_of g))
  heard try_again some_room e = (silent, inr (inr (inl e)), (refl, refl, refl))
  heard connection_error some_room e = (leaves, (refl, some_room, inl e), (refl, refl, refl))
  heard closed_by_peer some_room e = (leaves, (refl, some_room, inr e), (refl, refl, refl))
  heard (received []) some_room e = (silent, inr (inr (inr (inl e))), (refl, refl, refl))
  heard (received (b ∷ bfr)) some_room e =
      rw
        (
          lt→ltb 0 (suc (length bfr) + 0) (omega arith),
          ltb_no (suc (length bfr) + 0) 0 (omega arith),
        )
        (brought (b ∷ bfr) some_room e (omega arith))

  no_room : room recv conn ≡ 0 → server_rcv_to_ring recv conn ≡ (pos 0, conn)
  unfolding server_rcv_to_ring
  no_room e = rw (eq→== (room recv conn) 0 e, server_rcv_to_ring) refl

  pub incoming-Heard : (readable : Bool) → Heard readable (service_incoming readable recv conn)
  unfolding service_incoming
  incoming-Heard false = (silent, inl refl, (refl, refl, refl))
  incoming-Heard true = elim (dec_le (room recv conn) 0) [
    | yes none_free ↦
        let full : room recv conn ≡ 0 = omega arith in
        taken-Heard (pos 0, conn) (no_room full) (silent, inr (inl full), (refl, refl, refl))
    | no some_free ↦
        let g = recv (room recv conn) in
        taken-Heard (got_of g) (got g (omega arith) refl) (heard g (omega arith) refl)
  ]
