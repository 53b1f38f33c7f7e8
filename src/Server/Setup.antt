-- ===== src/Server/Setup.antt =====
-- `server_setup` of src/server.c, and the closing of its sockets at the end of `server_thread`.
-- What the resolver, `socket`, `bind` and `listen` do is a parameter, and so are the addresses.
pub mod Opened
pub mod Listening
use sdrproxy.Prelude.{
  ℕ, zero, suc, ◌+◌, Bool, true, false, Option, none, some, List, [], ◌∷◌, ◌==◌, ◌||◌,
  if◌then◌else◌,
}
use sdrproxy.Descriptors.{Descriptors, is_open, close}
use sdrproxy.Databfr.{Outcome, done, fault, failed, blocked, ◌>>=◌}

-- What the system does: `getaddrinfo` by the port, with `none` for its errors; the descriptor that
-- `socket` gives, or `none` for -1; whether `bind` binds an address, and `listen` the socket of a port.
pub record Network (Addr : Type 0) : Type 0 where
  pub getaddrinfo : ℕ → Option (List Addr)
  pub socket : Descriptors → Option ℕ
  pub bind : Addr → Bool
  pub listen : ℕ → Bool

module _ {Addr : Type 0} (net : Network Addr) where
  -- The `for` over the addresses: the first that `bind` binds, and the descriptors open then. A socket
  -- that could not be bound is closed.
  unfoldable pub bind_first : List Addr → Descriptors → Outcome (Option ℕ × Descriptors)
  bind_first [] fds = done (none, fds)
  bind_first (p ∷ rest) fds = elim (net.socket fds) [
    | none ↦ failed
    | some fd ↦
        if net.bind p then done (some fd, fd ∷ fds) else bind_first rest (close fd (fd ∷ fds))
  ]

  -- `server_setup` from a port on, with so many listeners left: `listeners`, and what is open.
  unfoldable pub server_setup : ℕ → ℕ → Descriptors → Outcome (List ℕ × Descriptors)
  server_setup zero port fds = done ([], fds)
  server_setup (suc left) port fds = elim (net.getaddrinfo port) [
    | none ↦ failed
    | some res ↦ bind_first res fds >>= λ b. elim b.0 [
      | none ↦ failed
      | some fd ↦
          if net.listen port
          then (server_setup left (port + 1) b.1 >>= λ r. done (fd ∷ r.0, r.1))
          else failed
    ]
  ]

-- The closing of the listening sockets; `close` fails on a descriptor that is not open.
unfoldable pub close_listeners : List ℕ → Descriptors → Outcome Descriptors
close_listeners [] fds = done fds
close_listeners (fd ∷ rest) fds =
    if is_open fds fd then close_listeners rest (close fd fds) else failed
