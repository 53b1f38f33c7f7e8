-- ===== src/Client/Thread/Heard.antt =====
-- What hearing the server leaves, in `client_thread` of src/client.c.
use sdrproxy.Prelude.{
  ℕ, ◌==◌, refl, min, Bool, true, false, ◌&&◌, not, length, ltb_ℤ, eqb_ℤ, if◌then◌else◌, ℤ, pos,
  negsuc, ◌-ℤ◌,
}
use sdrproxy.Buffer.{RingSet, bytes_free, isfull, store}
use sdrproxy.Buffer.Valid.{IsValid, store-IsValid}
use sdrproxy.Databfr.{done, failed}
use sdrproxy.Server.{Received, received, try_again, connection_error, closed_by_peer}
use sdrproxy.Client.{bfrsize}
use sdrproxy.Client.Thread.{
  reconnect, requesting, is_communicating, ClientThread, Answers, client_rcv_to_ring, heard, hear,
  postconnectiontimout, clientcycletimer,
}
use sdrproxy.Client.Thread.Invariant.{IsSound, Leaves}

abbrev pub ring_after : ℤ × RingSet → RingSet
ring_after (ret, ring) = ring

rcv-IsValid :
    (recv : ℕ → Received) {r : RingSet} → IsValid r → IsValid (client_rcv_to_ring recv r).1
unfolding client_rcv_to_ring
rcv-IsValid recv {r} v =
    by_case (min bfrsize (bytes_free r) == 0) (recv (min bfrsize (bytes_free r)))
  where
    by_case :
        (b : Bool) (got : Received)
        → IsValid (
            ring_after (
              if b then (pos 0, r) else elim got [
                | received bfr ↦ (pos (length bfr), (store bfr (length bfr) r).1)
                | try_again ↦ (pos 0, r)
                | connection_error ↦ (negsuc 0, r)
                | closed_by_peer ↦ (negsuc 1, r)
              ]))
    by_case true got = v
    by_case false (received bfr) = store-IsValid v bfr (length bfr)
    by_case false try_again = v
    by_case false connection_error = v
    by_case false closed_by_peer = v

-- Only the state, the timer and the set of the socket differ, and the receive ring.
module _ (t : ClientThread) (s : IsSound t) where
  heard-Leaves : (r : ℤ × RingSet) → IsValid r.1 → Leaves t (done (heard r t))
  unfolding heard
  heard-Leaves r v = by_case (ltb_ℤ r.0 (pos 0)) (eqb_ℤ r.0 (pos 0))
    where
      over :
          (b : Bool) (told : ClientThread)
          → Leaves t (done told)
          → Leaves t (done (if b then told else record told { state = requesting }))
      over true told h = h
      over false told (sound, k) =
          (record { receives = sound.receives; sends = sound.sends; outbfr = sound.outbfr }, k)

      by_case :
          (is_lost no_bytes : Bool)
          → let got = record t { input = record (t.input) { ring = r.1 } } in
            let told =
              if is_lost
              then record got { state = reconnect }
              else (if no_bytes
                  then record got { failtimer = t.failtimer -ℤ clientcycletimer }
                  else record got { failtimer = postconnectiontimout }) in
            Leaves t (
              done
                (if ltb_ℤ (pos 0) told.failtimer then told else record told { state = requesting }))
      by_case true no_bytes =
          over (ltb_ℤ (pos 0) t.failtimer)
            (record t { input = record (t.input) { ring = r.1 }; state = reconnect })
            (record { receives = v; sends = s.sends; outbfr = s.outbfr }, λ e. (e, refl, refl))
      by_case false true =
          over (ltb_ℤ (pos 0) (t.failtimer -ℤ clientcycletimer))
            (record t {
              input = record (t.input) { ring = r.1 };
              failtimer = t.failtimer -ℤ clientcycletimer;
            })
            (record { receives = v; sends = s.sends; outbfr = s.outbfr }, λ e. (e, refl, refl))
      by_case false false =
          over true
            (record t { input = record (t.input) { ring = r.1 }; failtimer = postconnectiontimout })
            (record { receives = v; sends = s.sends; outbfr = s.outbfr }, λ e. (e, refl, refl))

module _ (t : ClientThread) (s : IsSound t) where
  pub hear-Leaves : (a : Answers) → Leaves t (hear a t)
  unfolding hear
  hear-Leaves a = by_case (is_communicating t.state) a.select_fails
    where
      seen : ClientThread
      seen = record t { writefds = a.writable }

      seen-IsSound : IsSound seen
      seen-IsSound = record { receives = s.receives; sends = s.sends; outbfr = s.outbfr }

      got :
          (b : Bool)
          → Leaves t
              (done (if b then heard (client_rcv_to_ring a.recv t.input.ring) seen else seen))
      got true =
          heard-Leaves seen seen-IsSound (client_rcv_to_ring a.recv t.input.ring)
            (rcv-IsValid a.recv s.receives)
      got false = (seen-IsSound, λ e. (e, refl, refl))

      by_case :
          (talks fails : Bool)
          → Leaves t (
              if talks
              then (if fails
                  then failed
                  else done (
                      if not (isfull t.send_ring) && a.readable
                      then heard (client_rcv_to_ring a.recv t.input.ring) seen
                      else seen))
              else done t)
      by_case false fails = (s, λ e. (e, refl, refl))
      by_case true true = tt
      by_case true false = got (not (isfull t.send_ring) && a.readable)
