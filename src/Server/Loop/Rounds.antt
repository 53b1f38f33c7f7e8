-- ===== src/Server/Loop/Rounds.antt =====
-- A round of the loop of `server_thread` of src/server.c.
use sdrproxy.Prelude.{
  ℕ, zero, suc, ◌+◌, ◌≤◌, ◌≡◌, ◌∙◌, refl, sym, ap, subst, arith, Bool, true, false, Bool-cases, inl,
  inr, Option, none, some, List, [], ◌∷◌, length, get_elem?-length, length-set, if◌then◌else◌, ℤ,
  eqb_ℤ, ◌-ℤ◌, pos,
}
use sdrproxy.Util.{ChannelInfo}
use sdrproxy.Databfr.{datasize, Outcome, done, fault, failed, blocked, ◌>>=◌}
use sdrproxy.Databfr.Ops.{Allocator}
use sdrproxy.Descriptors.{close}
use sdrproxy.History.{clhistory_lookup, remove_old}
use sdrproxy.Server.{
  inactive, is_inactive, ConnectionData, maxpacketsize, chaninfolen, print_chan_info,
}
use sdrproxy.Server.Service.{IsSocket}
use sdrproxy.Server.Loop.{
  ServerThread, Answers, send_bfr_size, get_new_connection, with_descriptor, service, service_all,
  listen, expire, server_round, close_all, server_loop,
}
use sdrproxy.Server.Loop.Safe.{
  AllUsable, AllUsable-le, set-AllUsable, IsSafe, with_fds, Safely, Safely-then, service-Safely,
}
use sdrproxy.Server.Loop.Accepting.{Supplies, Accepts, get_new_connection-Accepts}

abbrev pub AllFree : List ConnectionData → Type 0
AllFree [] = Unit {0}
AllFree (conn ∷ rest) = (is_inactive conn.state ≡ true) × AllFree rest

close_all-AllFree : (conns : List ConnectionData) → AllFree (close_all conns)
unfolding close_all
close_all-AllFree [] = tt
close_all-AllFree (conn ∷ rest) = (closed (is_inactive conn.state) refl, close_all-AllFree rest)
  where
    closed :
        (b : Bool)
        → is_inactive conn.state ≡ b
        → is_inactive (if b then conn else record conn { state = inactive }).state ≡ true
    closed true e = e
    closed false e = refl

length-close_all : (conns : List ConnectionData) → length (close_all conns) ≡ length conns
unfolding close_all
length-close_all [] = refl
length-close_all (conn ∷ rest) = ap suc (length-close_all rest)

AllFree-usable :
    (records : ℕ) (conns : List ConnectionData) → AllFree conns → AllUsable records conns
AllFree-usable records [] h = tt
AllFree-usable records (conn ∷ rest) (free, all) = (λ used. cc, AllFree-usable records rest all)

module _ (m : Allocator) (malloc : ℕ → Option (List ℕ)) (unset : ℤ) (c : ChannelInfo) (a : Answers)
    (size : ℕ) (printed : length (print_chan_info c) ≤ chaninfolen)
    (sockets : (conn_no : ℕ) → IsSocket (a.send conn_no)) (supplies : Supplies malloc)
    (fits : send_bfr_size c ≤ maxpacketsize) where
  service_all-Safely :
      (left conn_no : ℕ) (s : ServerThread)
      → left + conn_no ≤ 10
      → IsSafe size s
      → Safely size (service_all m malloc unset c a left conn_no s)
  unfolding service_all
  service_all-Safely zero conn_no s h safe = safe
  service_all-Safely (suc left) conn_no s h safe =
      Safely-then size (service m malloc unset c a conn_no s)
        (service_all m malloc unset c a left (conn_no + 1))
        (service-Safely m malloc unset c a size printed sockets conn_no s (omega arith) safe)
        (λ s' safe'. service_all-Safely left (conn_no + 1) s' (omega arith) safe')

  Accepts-Safely :
      (listener_no newfd : ℕ) (s : ServerThread) (remote_ip : List ℕ)
      (o : Outcome (ℤ × ServerThread))
      → IsSafe size s
      → Accepts malloc supplies unset c a.now listener_no s (some (newfd, remote_ip)) o
      → Safely size (o >>= λ r. done r.1)
  Accepts-Safely listener_no newfd s remote_ip (done (ret, s')) safe (inl (full, e, same)) =
      subst (IsSafe size) (sym same) (with_fds size s (close newfd (newfd ∷ s.fds)) safe)
  Accepts-Safely listener_no newfd s remote_ip (done (ret, s')) safe
        (inr (
          i,
          conn,
          h,
          free,
          e,
          put,
          waits,
          (new, new'),
          size_of,
          known,
          (held, fresh),
          (ring, hist, opened),
        )) =
      record {
        usable = rw put (
            set-AllUsable (length s'.first_id_lst) s.conn_data i conn
              (AllUsable-le (length s.first_id_lst) (length s'.first_id_lst) s.conn_data
                known.longer safe.usable)
              (λ used. (
                new.0,
                new'.0,
                omega (arith, size_of, fits),
                get_elem?-length s'.first_id_lst conn.history h held,
              )));
        ten = rw put (length-set s.conn_data i conn ∙ safe.ten);
        stored = rw ring safe.stored;
        slots = safe.slots;
        unlocked = rw ring safe.unlocked;
        forgotten = hist ∙ safe.forgotten;
      }
  Accepts-Safely listener_no newfd s remote_ip fault safe h = elim h [ ]
  Accepts-Safely listener_no newfd s remote_ip failed safe h = elim h [ ]
  Accepts-Safely listener_no newfd s remote_ip blocked safe h = elim h [ ]

  refused-Safely :
      (listener_no : ℕ) (s : ServerThread)
      → IsSafe size s
      → Safely size (get_new_connection malloc unset c a.now none listener_no s >>= λ r. done r.1)
  unfolding get_new_connection
  refused-Safely listener_no s safe = safe

  listen-Safely :
      (listener_no : ℕ) (s : ServerThread)
      → IsSafe size s
      → Safely size (listen m malloc unset c a listener_no s)
  unfolding listen
  listen-Safely listener_no s safe = answered (a.arrives listener_no)
    where
      answered :
          (o : Option (Option (List ℕ)))
          → Safely size (elim o [
            | none ↦ done s
            | some accepted ↦
                get_new_connection malloc unset c a.now
                  (with_descriptor (a.newfd s.fds) accepted)
                  listener_no
                  s
                >>= λ r. done r.1
          ])
      answered none = safe
      answered (some none) = refused-Safely listener_no s safe
      answered (some (some remote_ip)) =
          Accepts-Safely listener_no (a.newfd s.fds) s remote_ip
            (get_new_connection malloc unset c a.now (some (a.newfd s.fds, remote_ip)) listener_no
              s)
            safe
            (get_new_connection-Accepts malloc supplies unset c a.now listener_no s
              (some (a.newfd s.fds, remote_ip)))

  expire-Safely : (s : ServerThread) → IsSafe size s → Safely size (expire m malloc unset c a s)
  unfolding expire clhistory_lookup remove_old
  expire-Safely s safe = elim (Bool-cases (eqb_ℤ (a.now -ℤ pos datasize) s.prev_exp_time)) [
    | inl same ↦ rw (same, expire) safe
    | inr later ↦
        rw (later, safe.forgotten, expire)
          (record {
            usable = safe.usable;
            ten = safe.ten;
            stored = safe.stored;
            slots = safe.slots;
            unlocked = safe.unlocked;
            forgotten = refl;
          })
  ]

  server_round-Safely :
      (s : ServerThread)
      → a.select_fails ≡ false
      → IsSafe size s
      → Safely size (server_round m malloc unset c a s)
  unfolding server_round service_all listen expire service
  server_round-Safely s selects safe =
      rw (selects, server_round)
        (Safely-then size (service_all m malloc unset c a 10 0 s) _
          (service_all-Safely 10 0 s (omega arith) safe)
          (λ s' safe'.
            Safely-then size (listen m malloc unset c a 0 s') _ (listen-Safely 0 s' safe')
              (λ s'' safe''.
                Safely-then size (listen m malloc unset c a 1 s'') (expire m malloc unset c a)
                  (listen-Safely 1 s'' safe'') expire-Safely)))

  -- The thread ends exactly if it is told to, and then no connection is used; otherwise it goes on.
  abbrev pub Loops : Bool → Outcome (Bool × ServerThread) → Type 0
  Loops closecmd (done (ended, s)) =
      (ended ≡ closecmd) × IsSafe size s × (closecmd ≡ true → AllFree s.conn_data)
  Loops closecmd fault = ⊥
  Loops closecmd failed = ⊥
  Loops closecmd blocked = ⊥

  -- If every connection in use has valid rings that fit the buffers and a record in the history,
  -- the data ring is valid and unlocked with slots that fit, malloc gives what it is asked for, the
  -- sizes of a packet and of the printed channel information fit, the sockets take at most what
  -- they are given and fail only with EAGAIN or EPIPE, and select does not fail, then a
  -- round of the server's loop returns, whatever clients send and however many come, and all of
  -- this still holds; the thread ends exactly if SRV_CLOSECMD is set, and then no connection is in
  -- use.
  pub server_loop-Loops :
      (closecmd : Bool) (s : ServerThread)
      → a.select_fails ≡ false
      → IsSafe size s
      → Loops closecmd (server_loop m malloc unset c a closecmd s)
  unfolding server_loop
  server_loop-Loops true s selects safe = (
    refl,
    record {
      usable =
          AllFree-usable (length s.first_id_lst) (close_all s.conn_data)
            (close_all-AllFree s.conn_data);
      ten = length-close_all s.conn_data ∙ safe.ten;
      stored = safe.stored;
      slots = safe.slots;
      unlocked = safe.unlocked;
      forgotten = safe.forgotten;
    },
    λ _. close_all-AllFree s.conn_data,
  )
  server_loop-Loops false s selects safe =
      goes_on (server_round m malloc unset c a s) (server_round-Safely s selects safe)
    where
      goes_on :
          (o : Outcome ServerThread) → Safely size o → Loops false (o >>= λ s'. done (false, s'))
      goes_on (done s') safe' = (refl, safe', λ h. cc)
      goes_on fault h = h
      goes_on failed h = h
      goes_on blocked h = h
