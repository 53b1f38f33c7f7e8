-- ===== src/Server/Loop/Accepting.antt =====
-- `get_new_connection` of src/server.c, on every branch.
use sdrproxy.Prelude.{
  ℕ, zero, suc, ◌+◌, ◌<◌, ◌≡◌, ◌≢◌, ◌⊎◌, refl, subst, arith, true, false, Bool-cases, Option-cases,
  inl, inr, Option, none, some, List, [], ◌∷◌, length, get_elem?, set, ℤ, pos, negsuc,
}
use sdrproxy.Buffer.{RingSet, bytes_stored, bytes_free, alloc}
use sdrproxy.Buffer.Valid.{IsValid, alloc-IsValid}
use sdrproxy.Util.{ChannelInfo}
use sdrproxy.Databfr.{Outcome, done, fault, failed, blocked, ◌>>=◌}
use sdrproxy.Descriptors.{close}
use sdrproxy.History.{ConnHistData}
use sdrproxy.Server.{init, ConnectionData, is_inactive}
use sdrproxy.Server.Loop.{
  ServerThread, first_inactive, send_bfr_size, create_connection_data, client_record, touch,
  serverportno, get_new_connection,
}
use sdrproxy.Server.Loop.Remembering.{Remembers, Recorded, client_record-Recorded, touch-Remembers}

-- `malloc` gives as many bytes as are asked for.
pub record Supplies (malloc : ℕ → Option (List ℕ)) : Type 0 where
  pub enough : (n : ℕ) (mem : List ℕ) → malloc n ≡ some mem → length mem ≡ n
  pub always : (n : ℕ) → malloc n ≢ none

abbrev pub AllUsed : List ConnectionData → Type 0
AllUsed [] = Unit {0}
AllUsed (conn ∷ rest) = (is_inactive conn.state ≡ false) × AllUsed rest

-- The first connection that is free.
abbrev pub FirstFree : List ConnectionData → ℕ → Type 0
FirstFree [] i = ⊥
FirstFree (conn ∷ rest) zero = is_inactive conn.state ≡ true
FirstFree (conn ∷ rest) (suc i) = (is_inactive conn.state ≡ false) × FirstFree rest i

abbrev Finds : List ConnectionData → Option ℕ → Type 0
Finds conns none = AllUsed conns
Finds conns (some i) = FirstFree conns i

first_inactive-Finds : (conns : List ConnectionData) → Finds conns (first_inactive conns)
unfolding first_inactive
first_inactive-Finds [] = tt
first_inactive-Finds (conn ∷ rest) = elim (Bool-cases (is_inactive conn.state)) [
  | inl free ↦ rw (free, first_inactive) free
  | inr used ↦
      rw (used, first_inactive) (later used (first_inactive rest) (first_inactive-Finds rest))
]
  where
    later :
        is_inactive conn.state ≡ false
        → (o : Option ℕ) → Finds rest o
        → Finds (conn ∷ rest) (elim o [ none ↦ none | some i ↦ some (suc i) ])
    later used none h = (used, h)
    later used (some i) h = (used, h)

FirstFree-length : (conns : List ConnectionData) (i : ℕ) → FirstFree conns i → i < length conns
FirstFree-length [] i h = elim h [ ]
FirstFree-length (conn ∷ rest) zero h = omega arith
FirstFree-length (conn ∷ rest) (suc i) (used, h) =
    let less = FirstFree-length rest i h in omega arith

-- A ring that is new.
abbrev pub IsNew : ℕ → RingSet → Type 0
IsNew bytes r = IsValid r × (bytes_stored r ≡ 0) × (bytes_free r ≡ bytes)

module _ (malloc : ℕ → Option (List ℕ)) (supplies : Supplies malloc) where
  alloc-IsNew :
      (bytes : ℕ)
      → (r : RingSet) × (alloc malloc bytes ≡ some r) × IsNew bytes r × (r.bfrsize ≡ bytes + 1)
  unfolding alloc
  alloc-IsNew bytes = elim (Option-cases (malloc (bytes + 1))) [
    | inl refuses ↦ absurd (supplies.always (bytes + 1) refuses)
    | inr (mem, gives) ↦
        let made : alloc malloc bytes
            ≡ some (record { readptr = 0; writeptr = 0; bfrsize = bytes + 1; ring = mem }) =
          rw (gives, alloc) refl in
        (_, made, alloc-IsValid malloc bytes supplies.enough made, refl)
  ]

  module _ (unset : ℤ) (c : ChannelInfo) (now : ℤ) (listener_no : ℕ) (s : ServerThread) where
    -- What is made of a client: its socket is closed, if every connection is used; otherwise the
    -- first that is free is waiting for its client, with its socket and new rings, and the history
    -- knows the client.
    abbrev Connects : ℕ → List ℕ → Outcome (ℤ × ServerThread) → Type 0
    Connects newfd remote_ip (done (ret, s')) =
        (AllUsed s.conn_data
          × (ret ≡ negsuc 0)
          × (s' ≡ record s { fds = close newfd (newfd ∷ s.fds) }))
        ⊎ ((i : ℕ) × (conn : ConnectionData) × (h : ConnHistData) × FirstFree s.conn_data i
            × (ret ≡ pos 0)
            × (s'.conn_data ≡ set s.conn_data i conn)
            × ((conn.state ≡ init) × (conn.idle_timer ≡ 150) × (conn.csocket ≡ newfd))
            × (IsNew 300 conn.rcv_ring × IsNew (send_bfr_size c) conn.send_ring)
            × (conn.send_ring.bfrsize ≡ send_bfr_size c + 1)
            × Remembers remote_ip (serverportno + listener_no) s.first_id_lst
                (conn.history, s'.first_id_lst)
            × ((get_elem? s'.first_id_lst conn.history ≡ some h) × (h.last_update ≡ now))
            × ((s'.data_ring ≡ s.data_ring)
                × (s'.server_conn_history ≡ s.server_conn_history)
                × (s'.fds ≡ newfd ∷ s.fds)))
    Connects newfd remote_ip fault = ⊥
    Connects newfd remote_ip failed = ⊥
    Connects newfd remote_ip blocked = ⊥

    -- What is made of the answer of `accept`; nothing, if it fails.
    abbrev pub Accepts : Option (ℕ × List ℕ) → Outcome (ℤ × ServerThread) → Type 0
    Accepts none o = o ≡ done (negsuc 0, s)
    Accepts (some (newfd, remote_ip)) o = Connects newfd remote_ip o

    abbrev placed : ℕ → ℕ → RingSet → RingSet → ℕ × List ConnHistData → ServerThread
    placed newfd i rcv_ring send_ring r = record s {
      conn_data = set s.conn_data i (record {
        csocket = newfd;
        state = init;
        history = r.0;
        idle_timer = 150;
        rcv_ring = rcv_ring;
        send_ring = send_ring;
      });
      first_id_lst = touch now r.0 r.1;
      fds = newfd ∷ s.fds;
    }

    Recorded-Connects :
        (newfd : ℕ) (remote_ip : List ℕ) (i : ℕ) (rcv_ring send_ring : RingSet)
        → FirstFree s.conn_data i
        → IsNew 300 rcv_ring
        → IsNew (send_bfr_size c) send_ring
        → send_ring.bfrsize ≡ send_bfr_size c + 1
        → (o : Outcome (ℕ × List ConnHistData))
        → Recorded remote_ip (serverportno + listener_no) s.first_id_lst o
        → Connects newfd remote_ip (o >>= λ r. done (pos 0, placed newfd i rcv_ring send_ring r))
    Recorded-Connects newfd remote_ip i rcv_ring send_ring free new new' fits (done r) known =
        let (known', (h, held, fresh)) =
          touch-Remembers remote_ip (serverportno + listener_no) now s.first_id_lst r known in
        inr (
          i,
          _,
          h,
          free,
          refl,
          refl,
          (refl, refl, refl),
          (new, new'),
          fits,
          known',
          (held, fresh),
          (refl, refl, refl),
        )
    Recorded-Connects newfd remote_ip i rcv_ring send_ring free new new' fits fault known =
        elim known [ ]
    Recorded-Connects newfd remote_ip i rcv_ring send_ring free new new' fits failed known =
        elim known [ ]
    Recorded-Connects newfd remote_ip i rcv_ring send_ring free new new' fits blocked known =
        elim known [ ]

    address-Connects :
        (newfd : ℕ) (remote_ip : List ℕ)
        → Connects newfd remote_ip
            (get_new_connection malloc unset c now (some (newfd, remote_ip)) listener_no s)
    unfolding get_new_connection create_connection_data
    address-Connects newfd remote_ip = elim (Option-cases (first_inactive s.conn_data)) [
      | inl full ↦
          rw (full, get_new_connection, create_connection_data)
            (inl (subst (Finds s.conn_data) full (first_inactive-Finds s.conn_data), refl, refl))
      | inr (i, there) ↦
          let (rcv_ring, made, new, _) = alloc-IsNew 300 in
          let (send_ring, made', new', fits) = alloc-IsNew (send_bfr_size c) in
          rw (there, made, made', get_new_connection, create_connection_data)
            (Recorded-Connects newfd remote_ip i rcv_ring send_ring
              (subst (Finds s.conn_data) there (first_inactive-Finds s.conn_data)) new new' fits
              (client_record unset remote_ip (serverportno + listener_no) s.first_id_lst)
              (client_record-Recorded remote_ip (serverportno + listener_no) unset s.first_id_lst))
    ]

    -- Where malloc gives what it is asked for, get_new_connection returns: if accept fails, it
    -- answers -1 and changes nothing; if every connection is used, it answers -1 with the new
    -- socket closed and all else unchanged; otherwise the first free one is in SRVR_STATE_INIT with
    -- a full timer and new, empty rings and has the new socket, which is open, its record in the
    -- history is that of the address and port, with the present time, and with the time of the last
    -- packet sent set back by SECONDS_OVERLAP, or zero for a new client, and the data ring is
    -- untouched.
    pub get_new_connection-Accepts :
        (accepted : Option (ℕ × List ℕ))
        → Accepts accepted (get_new_connection malloc unset c now accepted listener_no s)
    unfolding get_new_connection
    get_new_connection-Accepts none = refl
    get_new_connection-Accepts (some (newfd, remote_ip)) = address-Connects newfd remote_ip
