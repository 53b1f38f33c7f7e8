-- ===== src/Server/Setup/Listening.antt =====
-- `server_setup` of src/server.c, on every branch.
use sdrproxy.Prelude.{
  ℕ, zero, suc, ◌+◌, ◌≡◌, ◌≢◌, ◌⊎◌, inl, inr, refl, subst, ap, true, false, Bool-cases,
  Option-cases, Option, none, some, List, [], ◌∷◌, length, if◌then◌else◌,
}
use sdrproxy.Databfr.{Outcome, done, fault, failed, blocked, ◌>>=◌}
use sdrproxy.Descriptors.{Descriptors, is_open, close_open}
use sdrproxy.Server.Setup.{Network, bind_first, server_setup}
use sdrproxy.Server.Setup.Opened.{opened, AreFresh}

-- `socket` gives a descriptor, which is not one of those open.
pub record OpensSockets {Addr : Type 0} (net : Network Addr) : Type 0 where
  pub fresh : (fds : Descriptors) (fd : ℕ) → net.socket fds ≡ some fd → is_open fds fd ≡ false
  pub always : (fds : Descriptors) → net.socket fds ≢ none

module _ {Addr : Type 0} (net : Network Addr) where
  -- One of the addresses can be bound.
  abbrev pub CanBind : List Addr → Type 0
  CanBind [] = ⊥
  CanBind (p ∷ rest) = (net.bind p ≡ true) ⊎ CanBind rest

  -- The port can be listened at.
  abbrev pub Serves : ℕ → Type 0
  Serves port =
      (res : List Addr) × (net.getaddrinfo port ≡ some res) × CanBind res × (net.listen port ≡ true)

  -- All of so many ports can, from one on.
  abbrev pub AllServe : ℕ → ℕ → Type 0
  AllServe zero port = Unit {0}
  AllServe (suc left) port = Serves port × AllServe left (port + 1)

  abbrev Bound : List Addr → Descriptors → Outcome (Option ℕ × Descriptors) → Type 0
  Bound res fds (done (some fd, fds')) = CanBind res × (is_open fds fd ≡ false) × (fds' ≡ fd ∷ fds)
  Bound res fds (done (none, fds')) = ¬ CanBind res
  Bound res fds fault = ⊥
  Bound res fds failed = ⊥
  Bound res fds blocked = ⊥

  -- What there is to say of the setting up: the listeners are as many as are asked for, no two are
  -- the same, and just they are open besides those that were; or one of the ports cannot be listened at.
  abbrev pub Listens : ℕ → ℕ → Descriptors → Outcome (List ℕ × Descriptors) → Type 0
  Listens left port fds (done (listeners, fds')) =
      AllServe left port
      × (length listeners ≡ left)
      × AreFresh listeners fds
      × (fds' ≡ opened listeners fds)
  Listens left port fds failed = ¬ AllServe left port
  Listens left port fds fault = ⊥
  Listens left port fds blocked = ⊥

  module _ (opens : OpensSockets net) where
    Bound-later :
        (p : Addr) (rest : List Addr) (fds : Descriptors) (o : Outcome (Option ℕ × Descriptors))
        → net.bind p ≡ false
        → Bound rest fds o
        → Bound (p ∷ rest) fds o
    Bound-later p rest fds (done (some fd, fds')) e (can, new, same) = (inr can, new, same)
    Bound-later p rest fds (done (none, fds')) e cannot =
        λ can. elim can [ inl binds ↦ cc | inr later ↦ cannot later ]
    Bound-later p rest fds fault e h = h
    Bound-later p rest fds failed e h = h
    Bound-later p rest fds blocked e h = h

    bind_first-Bound :
        (res : List Addr) (fds : Descriptors) → Bound res fds (bind_first net res fds)
    unfolding bind_first
    bind_first-Bound [] fds = λ h. h
    bind_first-Bound (p ∷ rest) fds = elim (Option-cases (net.socket fds)) [
      | inl refuses ↦ absurd (opens.always fds refuses)
      | inr (fd, gives) ↦ elim (Bool-cases (net.bind p)) [
        | inl binds ↦ rw (gives, binds, bind_first) (inl binds, opens.fresh fds fd gives, refl)
        | inr not_bound ↦
            rw (gives, not_bound, close_open fd fds (opens.fresh fds fd gives), bind_first)
              (Bound-later p rest fds (bind_first net rest fds) not_bound
                (bind_first-Bound rest fds))
      ]
    ]

    Listens-more :
        (left port fd : ℕ) (fds : Descriptors) (o : Outcome (List ℕ × Descriptors))
        → Serves port
        → is_open fds fd ≡ false
        → Listens left (port + 1) (fd ∷ fds) o
        → Listens (suc left) port fds (o >>= λ r. done (fd ∷ r.0, r.1))
    Listens-more left port fd fds (done (listeners, fds')) serves new (all, count, fresh, same) =
        ((serves, all), ap suc count, (new, fresh), same)
    Listens-more left port fd fds failed serves new h = λ all. h all.1
    Listens-more left port fd fds fault serves new h = h
    Listens-more left port fd fds blocked serves new h = h

    Bound-Listens :
        (left port : ℕ) (fds : Descriptors) (res : List Addr)
        → net.getaddrinfo port ≡ some res
        → (o : Outcome (Option ℕ × Descriptors)) → Bound res fds o
        → ((fds' : Descriptors)
            → Listens left (port + 1) fds' (server_setup net left (port + 1) fds'))
        → Listens (suc left) port fds (
            o >>= λ b. elim b.0 [
              | none ↦ failed
              | some fd ↦
                  if net.listen port
                  then (server_setup net left (port + 1) b.1 >>= λ r. done (fd ∷ r.0, r.1))
                  else failed
            ])
    Bound-Listens left port fds res known (done (some fd, fds')) (can, new, same) later =
        elim (Bool-cases (net.listen port)) [
          | inl hears ↦
              rw (hears, same)
                (Listens-more left port fd fds (server_setup net left (port + 1) (fd ∷ fds))
                  (res, known, can, hears) new (later (fd ∷ fds)))
          | inr deaf ↦ rw deaf (λ all. let (res', known', can', hears) = all.0 in cc)
        ]
    Bound-Listens left port fds res known (done (none, fds')) cannot later = λ all.
        let (res', known', can', hears) = all.0 in
        let same : res' ≡ res = cc in cannot (subst CanBind same can')
    Bound-Listens left port fds res known fault h later = h
    Bound-Listens left port fds res known failed h later = elim h [ ]
    Bound-Listens left port fds res known blocked h later = h

    -- If socket always gives a descriptor, and one that is not open, then server_setup returns
    -- exactly if each of its ports has an address that can be bound, and can be listened at: its
    -- listeners are then as many as there are ports, no two of them are the same, and just they are
    -- open besides what was open before, so no socket whose bind failed stays open; otherwise the
    -- program ends.
    pub server_setup-Listens :
        (left port : ℕ) (fds : Descriptors) → Listens left port fds (server_setup net left port fds)
    unfolding server_setup
    server_setup-Listens zero port fds = (tt, refl, tt, refl)
    server_setup-Listens (suc left) port fds = elim (Option-cases (net.getaddrinfo port)) [
      | inl unknown ↦ rw (unknown, server_setup) (λ all. cc)
      | inr (res, known) ↦
          rw (known, server_setup)
            (Bound-Listens left port fds res known (bind_first net res fds)
              (bind_first-Bound res fds) (server_setup-Listens left (port + 1)))
    ]
