-- ===== src/Server/Idle.antt =====
-- A client of src/server.c that is silent, and its `idle_timer`.
use sdrproxy.Prelude.{
  ℕ, zero, suc, ◌≡◌, refl, ap, arith, Bool, false, not, and_false, List, ◌==◌, ne→==, ℤ, pos,
}
use sdrproxy.Buffer.{bytes_stored}
use sdrproxy.Util.{ChannelInfo}
use sdrproxy.Databfr.{Outcome, done, ◌>>=◌}
use sdrproxy.Databfr.Ops.{Allocator}
use sdrproxy.Descriptors.{close}
use sdrproxy.Server.{
  ServrState, inactive, init, shutdown, World, Received, Sent, service_incoming, service_state,
  service_outgoing, service_connection,
}

module _ (m : Allocator) (c : ChannelInfo) (now : ℕ → ℤ) (writable : ℕ → Bool) (recv : ℕ → Received)
    (send : ℕ → List ℕ → Sent) where
  -- Rounds in which the client says nothing.
  unfoldable pub unheard : ℕ → World → Outcome World
  unheard zero w = done w
  unheard (suc n) w =
      service_connection m c (now n) false (writable n) recv (send n) w >>= λ r. unheard n r.1

  abbrev waiting : ServrState → ℕ → World → World
  waiting s t w = record w { conn = record (w.conn) { state = s; idle_timer = t } }

  -- The connection is free, and its socket closed.
  abbrev pub freed : ℕ → World → World
  freed t w = record (waiting inactive t w) { fds = close w.conn.csocket w.fds }

  waits :
      (n t : ℕ) (w : World)
      → service_connection m c (now n) false (writable n) recv (send n) (waiting init (suc t) w)
        ≡ done (pos 0, waiting init t w)
  unfolding service_connection service_incoming service_state service_outgoing
  waits n t w =
      rw
        (
          ne→== (suc t) 0 (omega arith),
          and_false (writable n),
          and_false (not (bytes_stored w.conn.send_ring == 0)),
        )
        (ap (λ k. done (pos 0, waiting init k w)) (omega arith))

  gives_up :
      (n : ℕ) (w : World)
      → service_connection m c (now n) false (writable n) recv (send n) (waiting init 0 w)
        ≡ done (pos 0, waiting shutdown 0 w)
  unfolding service_connection service_incoming service_state service_outgoing
  gives_up n w =
      rw (and_false (writable n), and_false (not (bytes_stored w.conn.send_ring == 0))) refl

  closes :
      (n t : ℕ) (w : World)
      → service_connection m c (now n) false (writable n) recv (send n) (waiting shutdown t w)
        ≡ done (pos 0, freed t w)
  unfolding service_connection service_incoming service_state service_outgoing
  closes n t w =
      rw (and_false (writable n), and_false (not (bytes_stored w.conn.send_ring == 0))) refl

  -- A connection in SRVR_STATE_INIT with its timer at t, whose client says nothing, is free again
  -- after t + 2 rounds, every one of which returns, its socket is closed, and nothing else of it
  -- has changed.
  pub unheard-inactive :
      (t : ℕ) (w : World) → unheard (suc (suc t)) (waiting init t w) ≡ done (freed 0 w)
  unfolding unheard
  unheard-inactive zero w = rw (gives_up 1 w, closes 0 0 w) refl
  unheard-inactive (suc t) w = rw (waits (suc (suc t)) t w) (unheard-inactive t w)
