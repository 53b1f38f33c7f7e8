-- ===== src/Server/Thread/Life.antt =====
-- `server_thread` of src/server.c, from its start to its end.
use sdrproxy.Prelude.{
  ℕ, zero, suc, ◌≤◌, ◌≡◌, refl, sym, ap, ltb, ◌∙◌, Bool, true, false, Option, List, [], ◌∷◌, length,
  replicate, if◌then◌else◌, ℤ,
}
use sdrproxy.Util.{ChannelInfo}
use sdrproxy.Databfr.{DataRing, Outcome, done, fault, failed, blocked, ◌>>=◌}
use sdrproxy.Databfr.Ops.{Allocator}
use sdrproxy.Databfr.Valid
use sdrproxy.Server.{maxpacketsize, chaninfolen, print_chan_info}
use sdrproxy.Server.Loop.{ServerThread, send_bfr_size, server_loop}
use sdrproxy.Server.Loop.Safe.{AllUsable, IsSafe, with_fds}
use sdrproxy.Server.Loop.Sockets.{Balanced}
use sdrproxy.Descriptors.{Descriptors, is_open, count, is_open-count}
use sdrproxy.Outcomes.{Ensures}
use sdrproxy.Server.Loop.Accepting.{Supplies}
use sdrproxy.Server.Loop.Rounds.{AllFree, Loops, server_loop-Loops}
use sdrproxy.Server.Setup.{Network, server_setup, close_listeners}
use sdrproxy.Server.Setup.Opened.{opened, AreFresh, Closed, close_listeners-Closed, opened-once}
use sdrproxy.Server.Setup.Listening.{OpensSockets, AllServe, Listens, server_setup-Listens}
use sdrproxy.Server.Thread.{Round, unused_connection, server_start, server_run, server_thread}
use sdrproxy.Server.Thread.Orderly.{
  is_told, IsOrderly, AllOrderly, Left, server_start-Keeps, server_run-Left,
}

others-IsSafe :
    (size : ℕ) (now : Round) (s : ServerThread)
    → IsOrderly size now
    → IsSafe size s
    → IsSafe size (record s { data_ring = now.others s.data_ring })
others-IsSafe size now s orderly safe =
    let (v, unlocked) = orderly.keeps s.data_ring safe.stored safe.unlocked in
    record {
      usable = safe.usable;
      ten = safe.ten;
      stored = v;
      slots = safe.slots;
      unlocked = unlocked;
      forgotten = safe.forgotten;
    }

unused-AllUsable : (n : ℕ) → AllUsable 0 (replicate n unused_connection)
unused-AllUsable zero = tt
unused-AllUsable (suc n) = (λ used. cc, unused-AllUsable n)

server_start-IsSafe :
    (size : ℕ) (data_ring : DataRing) (fds : Descriptors)
    → Valid.IsValid size data_ring
    → size ≤ maxpacketsize
    → data_ring.locked ≡ false
    → IsSafe size (server_start data_ring fds)
unfolding server_start
server_start-IsSafe size data_ring fds v fits unlocked = record {
  usable = unused-AllUsable 10;
  ten = refl;
  stored = v;
  slots = fits;
  unlocked = unlocked;
  forgotten = refl;
}

module _ (m : Allocator) (malloc : ℕ → Option (List ℕ)) (unset : ℤ) (c : ChannelInfo) (size : ℕ)
    (printed : length (print_chan_info c) ≤ chaninfolen) (supplies : Supplies malloc)
    (fits : send_bfr_size c ≤ maxpacketsize) where
  abbrev Runs : List Round → Outcome (Bool × ServerThread) → Type 0
  Runs rounds (done (ended, s)) =
      (ended ≡ is_told rounds) × IsSafe size s × (ended ≡ true → AllFree s.conn_data)
  Runs rounds fault = ⊥
  Runs rounds failed = ⊥
  Runs rounds blocked = ⊥

  server_run-Runs :
      (rounds : List Round) (s : ServerThread)
      → AllOrderly size rounds
      → IsSafe size s
      → Runs rounds (server_run m malloc unset c rounds s)
  unfolding server_run
  server_run-Runs [] s all safe = (refl, safe, λ h. cc)
  server_run-Runs (now ∷ rest) s (orderly, all) safe =
      let s'' = record s { data_ring = now.others s.data_ring } in
      next now.closecmd (server_loop m malloc unset c now.answers now.closecmd s'')
        (server_loop-Loops m malloc unset c now.answers size printed orderly.sockets supplies fits
          now.closecmd s'' orderly.selects (others-IsSafe size now s orderly safe))
        (λ s' safe'. server_run-Runs rest s' all safe')
    where
      next :
          (closecmd : Bool) (o : Outcome (Bool × ServerThread))
          → Loops m malloc unset c now.answers size printed orderly.sockets supplies fits closecmd o
          → ((s' : ServerThread) → IsSafe size s' → Runs rest (server_run m malloc unset c rest s'))
          → Runs
              ((record now { closecmd = closecmd }) ∷ rest)
              (o >>= λ r. if r.0 then done r else server_run m malloc unset c rest r.1)
      next true (done (ended, s')) (e, safe', free) later = rw e (refl, safe', λ h. free refl)
      next false (done (ended, s')) (e, safe', free) later = rw e (later s' safe')
      next closecmd fault h later = elim h [ ]
      next closecmd failed h later = elim h [ ]
      next closecmd blocked h later = elim h [ ]

  module _ {Addr : Type 0} (net : Network Addr) (opens : OpensSockets net) (rounds : List Round)
      (fds : Descriptors) where
    -- The thread ends exactly if it is told to, with no connection in use and just the descriptors
    -- open that were before; until its end those are open, its listening sockets and the sockets of
    -- the connections in use, no two of them the same. It fails only for want of a port.
    abbrev pub Lives : Outcome (Bool × ServerThread) → Type 0
    Lives (done (ended, s)) =
        AllServe net 2 16065
        × (ended ≡ is_told rounds)
        × IsSafe size s
        × (ended ≡ true → AllFree s.conn_data × ((fd : ℕ) → is_open s.fds fd ≡ is_open fds fd))
        × (ended ≡ false
            → (listeners : List ℕ) × (length listeners ≡ 2)
              × AreFresh listeners fds
              × Balanced (opened listeners fds) s.conn_data s.fds)
    Lives failed = ¬ AllServe net 2 16065
    Lives fault = ⊥
    Lives blocked = ⊥

    Closed-Lives :
        (s : ServerThread) (o : Outcome Descriptors)
        → AllServe net 2 16065
        → true ≡ is_told rounds
        → IsSafe size s
        → AllFree s.conn_data
        → Closed fds o
        → Lives (o >>= λ fds'. done (true, record s { fds = fds' }))
    Closed-Lives s (done left) serve e safe free closed = (
      serve,
      e,
      with_fds size s left safe,
      (λ h. (
        free,
        λ fd. is_open-count left fd ∙ ap (ltb 0) (closed fd) ∙ sym (is_open-count fds fd),
      )),
      λ h. cc,
    )
    Closed-Lives s fault serve e safe free h = elim h [ ]
    Closed-Lives s failed serve e safe free h = elim h [ ]
    Closed-Lives s blocked serve e safe free h = elim h [ ]

    Runs-Lives :
        (listeners : List ℕ) (o : Outcome (Bool × ServerThread))
        → AllServe net 2 16065
        → length listeners ≡ 2
        → AreFresh listeners fds
        → Runs rounds o
        → Ensures (Left (opened listeners fds)) o
        → Lives (
            o >>= λ r.
            if r.0
            then (close_listeners listeners (r.1).fds >>= λ fds'.
                done (true, record (r.1) { fds = fds' }))
            else done (false, r.1))
    Runs-Lives listeners (done (true, s)) serve two new (e, safe, free) (balanced, left) =
        Closed-Lives s (close_listeners listeners s.fds) serve e safe (free refl)
          (close_listeners-Closed listeners fds s.fds new (left refl))
    Runs-Lives listeners (done (false, s)) serve two new (e, safe, free) (balanced, left) =
        (serve, e, safe, (λ h. cc), λ h. (listeners, two, new, balanced))
    Runs-Lives listeners fault serve two new h left = elim h [ ]
    Runs-Lives listeners failed serve two new h left = elim h [ ]
    Runs-Lives listeners blocked serve two new h left = elim h [ ]

    module _ (data_ring : DataRing) (v : Valid.IsValid size data_ring)
        (slots : size ≤ maxpacketsize) (unlocked : data_ring.locked ≡ false)
        (all : AllOrderly size rounds) (once : (fd : ℕ) → count fds fd ≤ 1) where
      Listens-Lives :
          (o : Outcome (List ℕ × Descriptors))
          → Listens net 2 16065 fds o
          → Lives (
              o >>= λ l. server_run m malloc unset c rounds (server_start data_ring l.1) >>= λ r.
              if r.0
              then (close_listeners l.0 (r.1).fds >>= λ fds'.
                  done (true, record (r.1) { fds = fds' }))
              else done (false, r.1))
      Listens-Lives (done (listeners, fds')) (serve, two, new, same) = rw same (
          Runs-Lives listeners
            (server_run m malloc unset c rounds (server_start data_ring (opened listeners fds)))
            serve two new
            (server_run-Runs rounds (server_start data_ring (opened listeners fds)) all
              (server_start-IsSafe size data_ring (opened listeners fds) v slots unlocked))
            (server_run-Left m malloc unset c supplies size (opened listeners fds) rounds
              (server_start data_ring (opened listeners fds)) all
              (server_start-Keeps data_ring (opened listeners fds)
                (opened-once listeners fds new once))))
      Listens-Lives failed h = h
      Listens-Lives fault h = h
      Listens-Lives blocked h = h

      -- If the sizes of a packet and of the printed channel information fit the buffers, malloc and
      -- calloc serve, no descriptor is open twice at the start, socket and accept always give a
      -- descriptor that is not open, the data ring is valid, with slots that fit, and unlocked at
      -- the start and the other threads keep it so, and in every round select works and sockets
      -- take at most what they are given and fail only with EAGAIN or EPIPE, then the server's
      -- thread returns from its rounds, whatever clients send and however many come, and has ended
      -- exactly if SRV_CLOSECMD is set in one of them, with no connection in use and just the
      -- descriptors open that were before, so both listening sockets and the socket of every
      -- connection are closed; until then just these, the listening sockets and the sockets of the
      -- connections in use are open, each once, and the connections in use and the data ring are
      -- valid all the time; it fails only if a port cannot be bound or listened at.
      pub server_thread-Lives : Lives (server_thread m malloc unset c net true rounds data_ring fds)
      unfolding server_thread
      server_thread-Lives =
          Listens-Lives (server_setup net 2 16065 fds) (server_setup-Listens net opens 2 16065 fds)
