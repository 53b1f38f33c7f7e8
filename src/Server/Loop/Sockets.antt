-- ===== src/Server/Loop/Sockets.antt =====
-- The descriptors that the loop of `server_thread` of src/server.c has open.
use sdrproxy.Prelude.{
  ℕ, zero, suc, ◌+◌, ◌≤◌, ◌==◌, ◌≡◌, inl, inr, refl, sym, ap, subst, ◌∙◌, arith, Bool, true, false,
  not, Bool-cases, Option-cases, eqb_ℤ, ◌-ℤ◌, ltb, ==_iff, Option, none, some, List, [], ◌∷◌,
  get_elem?, set, if◌then◌else◌, ℤ, pos,
}
use sdrproxy.Util.{ChannelInfo}
use sdrproxy.Databfr.{datasize, Outcome, done, fault, failed, blocked, ◌>>=◌}
use sdrproxy.Databfr.Ops.{Allocator}
use sdrproxy.Descriptors.{
  Descriptors, is_open, close, close_open, count, count-cons, count-close, is_open-count,
}
use sdrproxy.Outcomes.{Ensures, Ensures-bind}
use sdrproxy.History.{ConnHistData, clhistory_lookup, id_remove_old}
use sdrproxy.Server.{ConnectionData, World, is_inactive, service_connection}
use sdrproxy.Server.Loop.{
  ServerThread, Answers, with_descriptor, get_new_connection, put_back, close_all, close_sockets,
  service, service_all, listen, expire, server_round, server_loop,
}
use sdrproxy.Server.Loop.Accepting.{Supplies, FirstFree, Accepts, get_new_connection-Accepts}
use sdrproxy.Server.Loop.Closing.{Closes, service_connection-Closes}

-- How often a connection in use has this socket.
abbrev own : ConnectionData → ℕ → ℕ
own conn fd = if is_inactive conn.state then 0 else (if conn.csocket == fd then 1 else 0)

unfoldable pub sockets : List ConnectionData → ℕ → ℕ
sockets [] fd = 0
sockets (conn ∷ rest) fd = own conn fd + sockets rest fd

-- The descriptors that are open are those of `base` and the sockets of the connections in use, and
-- no two are the same.
abbrev pub Balanced : Descriptors → List ConnectionData → Descriptors → Type 0
Balanced base conns fds =
    (fd : ℕ) → (count fds fd ≡ count base fd + sockets conns fd) × (count fds fd ≤ 1)

no_count : (n : ℕ) → ltb 0 n ≡ false → n ≡ 0
no_count n e = ground arith

sockets-set :
    (conns : List ConnectionData) (i : ℕ) (conn conn' : ConnectionData) (fd : ℕ)
    → get_elem? conns i ≡ some conn
    → sockets (set conns i conn') fd + own conn fd ≡ sockets conns fd + own conn' fd
unfolding sockets
sockets-set [] i conn conn' fd e = cc
sockets-set (x ∷ conns) zero conn conn' fd e = let same : x ≡ conn = cc in rw same (omega arith)
sockets-set (x ∷ conns) (suc i) conn conn' fd e =
    let later = sockets-set conns i conn conn' fd e in omega arith

module _ (base : Descriptors) (conns : List ConnectionData) (fds : Descriptors)
    (balanced : Balanced base conns fds) (i : ℕ) (conn conn' : ConnectionData)
    (there : get_elem? conns i ≡ some conn) where
  -- The connection keeps its socket, or has none.
  Balanced-kept : ((fd : ℕ) → own conn' fd ≡ own conn fd) → Balanced base (set conns i conn') fds
  Balanced-kept same fd =
      let (exact, once) = balanced fd in
      let moved = sockets-set conns i conn conn' fd there in let e = same fd in (omega arith, once)

  -- Its socket is closed.
  Balanced-closed :
      is_inactive conn.state ≡ false
      → is_inactive conn'.state ≡ true
      → Balanced base (set conns i conn') (close conn.csocket fds)
  Balanced-closed used free fd =
      let (exact, once) = balanced fd in
      let moved = sockets-set conns i conn conn' fd there in
      let closed = count-close fds conn.csocket fd in
      elim (Bool-cases (conn.csocket == fd)) [
        | inl same ↦
            let had : own conn fd ≡ 1 = rw (used, same) refl in
            let has : own conn' fd ≡ 0 = rw free refl in
            let none_left : count (close conn.csocket fds) fd ≡ 0 = rw same at closed in
            (omega arith, omega arith)
        | inr differs ↦
            let had : own conn fd ≡ 0 = rw (used, differs) refl in
            let has : own conn' fd ≡ 0 = rw free refl in
            let as_before : count (close conn.csocket fds) fd ≡ count fds fd =
              rw differs at closed in
            (omega arith, omega arith)
      ]

  -- It gets a new socket.
  Balanced-opened :
      is_inactive conn.state ≡ true
      → is_inactive conn'.state ≡ false
      → is_open fds conn'.csocket ≡ false
      → Balanced base (set conns i conn') (conn'.csocket ∷ fds)
  Balanced-opened free used new fd =
      let (exact, once) = balanced fd in
      let moved = sockets-set conns i conn conn' fd there in
      let opened = count-cons conn'.csocket fds fd in
      let absent = is_open-count fds conn'.csocket in
      elim (Bool-cases (conn'.csocket == fd)) [
        | inl same ↦
            let had : own conn fd ≡ 0 = rw free refl in
            let has : own conn' fd ≡ 1 = rw (used, same) refl in
            let more : count (conn'.csocket ∷ fds) fd ≡ 1 + count fds fd = rw same at opened in
            let e = (==_iff conn'.csocket fd).0 same in
            let none_there : count fds fd ≡ 0 =
              subst (λ k. count fds k ≡ 0) e
                (no_count (count fds conn'.csocket) (sym absent ∙ new)) in
            (omega arith, omega arith)
        | inr differs ↦
            let had : own conn fd ≡ 0 = rw free refl in
            let has : own conn' fd ≡ 0 = rw (used, differs) refl in
            let same_count : count (conn'.csocket ∷ fds) fd ≡ 0 + count fds fd =
              rw differs at opened in
            (omega arith, omega arith)
      ]

-- A connection that was served.
closed-Balanced :
    (base : Descriptors) (conns : List ConnectionData) (fds : Descriptors)
    (balanced : Balanced base conns fds) (i : ℕ) (conn : ConnectionData)
    → get_elem? conns i ≡ some conn
    → is_inactive conn.state ≡ false
    → (w : World) → w.conn ≡ conn
    → w.fds ≡ fds
    → (w' : World) → Closes w w'
    → Balanced base (set conns i w'.conn) w'.fds
closed-Balanced base conns fds balanced i conn there used w e e' w' (inl (socket, same, same_fds)) =
    rw (same_fds, e')
      (Balanced-kept base conns fds balanced i conn w'.conn there (λ fd. rw (same, socket, e) refl))
closed-Balanced base conns fds balanced i conn there used w e e' w' (inr (free, closed)) =
    rw (closed, e, e') (Balanced-closed base conns fds balanced i conn w'.conn there used free)

-- Every socket of a connection is closed.
close_sockets-count :
    (base : Descriptors) (conns : List ConnectionData) (fds : Descriptors)
    → Balanced base conns fds
    → (fd : ℕ) → count (close_sockets conns fds) fd ≡ count base fd
unfolding close_sockets sockets
close_sockets-count base [] fds balanced fd = let h = balanced fd in omega (arith, h.0)
close_sockets-count base (conn ∷ rest) fds balanced fd =
    elim (Bool-cases (is_inactive conn.state)) [
      | inl free ↦ rw free (
          close_sockets-count base rest fds
            (λ x.
              let (exact, once) = balanced x in
              let has : own conn x ≡ 0 = rw free refl in (omega arith, once))
            fd)
      | inr used ↦ rw used (
          close_sockets-count base rest (close conn.csocket fds)
            (λ x.
              let (exact, once) = balanced x in
              let closed = count-close fds conn.csocket x in
              elim (Bool-cases (conn.csocket == x)) [
                | inl same ↦
                    let had : own conn x ≡ 1 = rw (used, same) refl in
                    let none_left : count (close conn.csocket fds) x ≡ 0 = rw same at closed in
                    (omega arith, omega arith)
                | inr differs ↦
                    let had : own conn x ≡ 0 = rw (used, differs) refl in
                    let as_before : count (close conn.csocket fds) x ≡ count fds x =
                      rw differs at closed in
                    (omega arith, omega arith)
              ])
            fd)
    ]

-- What `close_all` leaves has no socket.
close_all-sockets : (conns : List ConnectionData) (fd : ℕ) → sockets (close_all conns) fd ≡ 0
unfolding close_all sockets
close_all-sockets [] fd = refl
close_all-sockets (conn ∷ rest) fd =
    let later = close_all-sockets rest fd in
    elim (Bool-cases (is_inactive conn.state)) [
      | inl free ↦ let has : own conn fd ≡ 0 = rw free refl in rw free (omega arith)
      | inr used ↦ rw used (omega arith)
    ]

abbrev pub Keeps : Descriptors → ServerThread → Type 0
Keeps base s = Balanced base s.conn_data s.fds

FirstFree-there :
    (conns : List ConnectionData) (i : ℕ)
    → FirstFree conns i
    → (conn : ConnectionData) × (get_elem? conns i ≡ some conn) × (is_inactive conn.state ≡ true)
FirstFree-there [] i h = elim h [ ]
FirstFree-there (conn ∷ rest) zero h = (conn, refl, h)
FirstFree-there (conn ∷ rest) (suc i) (used, h) = FirstFree-there rest i h

module _ (m : Allocator) (malloc : ℕ → Option (List ℕ)) (unset : ℤ) (c : ChannelInfo) (a : Answers)
    (supplies : Supplies malloc) (fresh : (fds : Descriptors) → is_open fds (a.newfd fds) ≡ false)
    (base : Descriptors) where
  service-Keeps :
      (conn_no : ℕ) (s : ServerThread)
      → Keeps base s
      → Ensures (Keeps base) (service m malloc unset c a conn_no s)
  unfolding service service_connection
  service-Keeps conn_no s balanced = elim (Option-cases (get_elem? s.conn_data conn_no)) [
    | inl nowhere ↦ rw (nowhere, service) tt
    | inr (conn, there) ↦ rw (there, service) (serviced conn there)
  ]
    where
      serviced :
          (conn : ConnectionData)
          → get_elem? s.conn_data conn_no ≡ some conn
          → Ensures (Keeps base) (
              service_connection m c a.now
                (a.readable conn_no)
                (a.writable conn_no)
                (a.recv conn_no)
                (a.send conn_no)
                (record {
                  conn = conn;
                  hist = s.first_id_lst;
                  data_ring = s.data_ring;
                  fds = s.fds;
                })
              >>= λ r. done (put_back conn_no (not (eqb_ℤ r.0 (pos 0))) r.1 s))
      serviced conn there = elim (Bool-cases (is_inactive conn.state)) [
        | inl unused ↦
            rw unused
              (Balanced-kept base s.conn_data s.fds balanced conn_no conn conn there (λ fd. refl))
        | inr used ↦
            let w : World = record {
              conn = conn;
              hist = s.first_id_lst;
              data_ring = s.data_ring;
              fds = s.fds;
            } in
            Ensures-bind (λ r. Closes w r.1) (Keeps base)
              (service_connection m c a.now (a.readable conn_no) (a.writable conn_no)
                (a.recv conn_no) (a.send conn_no) w)
              (λ r. done (put_back conn_no (not (eqb_ℤ r.0 (pos 0))) r.1 s))
              (service_connection-Closes m c a.now (a.readable conn_no) (a.writable conn_no)
                (a.recv conn_no) (a.send conn_no) w used)
              (λ r closes.
                closed-Balanced base s.conn_data s.fds balanced conn_no conn there used w refl refl
                  r.1 closes)
      ]

  Accepts-Keeps :
      (listener_no newfd : ℕ) (s : ServerThread) (remote_ip : List ℕ)
      (o : Outcome (ℤ × ServerThread))
      → is_open s.fds newfd ≡ false
      → Keeps base s
      → Accepts malloc supplies unset c a.now listener_no s (some (newfd, remote_ip)) o
      → Ensures (Keeps base) (o >>= λ r. done r.1)
  Accepts-Keeps listener_no newfd s remote_ip (done (ret, s')) new balanced (inl (full, e, same)) =
      subst (Keeps base) (sym same)
        (subst (Balanced base s.conn_data) (sym (close_open newfd s.fds new)) balanced)
  Accepts-Keeps listener_no newfd s remote_ip (done (ret, s')) new balanced
        (inr (
          i,
          conn,
          h,
          free,
          e,
          put,
          (waits, timer, socket),
          rings,
          size_of,
          known,
          held,
          (ring, hist, opened),
        )) =
      let (before, there, unused) = FirstFree-there s.conn_data i free in
      rw (put, opened, sym socket)
        (Balanced-opened base s.conn_data s.fds balanced i before conn there unused
          (ap is_inactive waits) (rw socket new))
  Accepts-Keeps listener_no newfd s remote_ip fault new balanced h = tt
  Accepts-Keeps listener_no newfd s remote_ip failed new balanced h = tt
  Accepts-Keeps listener_no newfd s remote_ip blocked new balanced h = tt

  listen-Keeps :
      (listener_no : ℕ) (s : ServerThread)
      → Keeps base s
      → Ensures (Keeps base) (listen m malloc unset c a listener_no s)
  unfolding listen get_new_connection
  listen-Keeps listener_no s balanced = answered (a.arrives listener_no)
    where
      answered :
          (o : Option (Option (List ℕ)))
          → Ensures (Keeps base) (elim o [
            | none ↦ done s
            | some accepted ↦
                get_new_connection malloc unset c a.now
                  (with_descriptor (a.newfd s.fds) accepted)
                  listener_no
                  s
                >>= λ r. done r.1
          ])
      answered none = balanced
      answered (some none) = balanced
      answered (some (some remote_ip)) =
          Accepts-Keeps listener_no (a.newfd s.fds) s remote_ip
            (get_new_connection malloc unset c a.now (some (a.newfd s.fds, remote_ip)) listener_no
              s)
            (fresh s.fds) balanced
            (get_new_connection-Accepts malloc supplies unset c a.now listener_no s
              (some (a.newfd s.fds, remote_ip)))

  service_all-Keeps :
      (left conn_no : ℕ) (s : ServerThread)
      → Keeps base s
      → Ensures (Keeps base) (service_all m malloc unset c a left conn_no s)
  unfolding service_all
  service_all-Keeps zero conn_no s balanced = balanced
  service_all-Keeps (suc left) conn_no s balanced =
      Ensures-bind (Keeps base) (Keeps base) (service m malloc unset c a conn_no s)
        (service_all m malloc unset c a left (conn_no + 1)) (service-Keeps conn_no s balanced)
        (λ s' balanced'. service_all-Keeps left (conn_no + 1) s' balanced')

  expire-Keeps :
      (s : ServerThread) → Keeps base s → Ensures (Keeps base) (expire m malloc unset c a s)
  unfolding expire
  expire-Keeps s balanced = elim (Bool-cases (eqb_ℤ (a.now -ℤ pos datasize) s.prev_exp_time)) [
    | inl same ↦ rw (same, expire) balanced
    | inr later ↦
        rw (later, expire)
          (looked_up (
            clhistory_lookup unset s.server_conn_history [] 0 (a.now -ℤ pos datasize)
              id_remove_old))
  ]
    where
      looked_up :
          (o : Option (Option ℕ × List ConnHistData))
          → Ensures (Keeps base) (elim o [
            | none ↦ fault
            | some (_, left) ↦
                done
                  (record s { server_conn_history = left; prev_exp_time = a.now -ℤ pos datasize })
          ])
      looked_up none = tt
      looked_up (some (found, left)) = balanced

  server_round-Keeps :
      (s : ServerThread) → Keeps base s → Ensures (Keeps base) (server_round m malloc unset c a s)
  unfolding server_round service_all listen expire service
  server_round-Keeps s balanced = elim (Bool-cases a.select_fails) [
    | inl fails ↦ rw (fails, server_round) tt
    | inr selects ↦
        rw (selects, server_round)
          (Ensures-bind (Keeps base) (Keeps base) (service_all m malloc unset c a 10 0 s) _
            (service_all-Keeps 10 0 s balanced)
            (λ s' balanced'.
              Ensures-bind (Keeps base) (Keeps base) (listen m malloc unset c a 0 s') _
                (listen-Keeps 0 s' balanced')
                (λ s'' balanced''.
                  Ensures-bind (Keeps base) (Keeps base) (listen m malloc unset c a 1 s'')
                    (expire m malloc unset c a) (listen-Keeps 1 s'' balanced'') expire-Keeps)))
  ]

  -- A round of the loop keeps this, and when the thread ends no socket of a connection is open.
  abbrev pub Leaves : Bool × ServerThread → Type 0
  Leaves r = Keeps base r.1 × (r.0 ≡ true → (fd : ℕ) → count (r.1).fds fd ≡ count base fd)

  pub server_loop-Leaves :
      (closecmd : Bool) (s : ServerThread)
      → Keeps base s
      → Ensures Leaves (server_loop m malloc unset c a closecmd s)
  unfolding server_loop
  server_loop-Leaves true s balanced =
      let closed = close_sockets-count base s.conn_data s.fds balanced in
      (
        λ fd.
            let free = close_all-sockets s.conn_data fd in
            let (exact, once) = balanced fd in let e = closed fd in (omega arith, omega arith),
        λ h fd. closed fd,
      )
  server_loop-Leaves false s balanced =
      Ensures-bind (Keeps base) Leaves (server_round m malloc unset c a s) (λ s'. done (false, s'))
        (server_round-Keeps s balanced) (λ s' balanced'. (balanced', λ h. cc))
