-- ===== src/Server/Loop/Safe.antt =====
-- The invariant of the connections of `server_thread` of src/server.c, and the service of one.
use sdrproxy.Prelude.{
  ℕ, zero, suc, ◌+◌, ◌≤◌, ◌<◌, ◌≡◌, ◌∙◌, subst, arith, true, false, not, Bool-cases, inl, inr,
  Option, some, List, [], ◌∷◌, length, get_elem?, get_elem?-some, get_elem?-length, length-set, set,
  ℤ, pos, eqb_ℤ,
}
use sdrproxy.Buffer.Valid.{IsValid}
use sdrproxy.Util.{ChannelInfo}
use sdrproxy.Databfr.{Outcome, done, fault, failed, blocked, ◌>>=◌}
use sdrproxy.Databfr.Ops.{Allocator}
use sdrproxy.Databfr.Valid
use sdrproxy.Descriptors.{Descriptors}
use sdrproxy.Outcomes.{Ensures}
use sdrproxy.Server.{
  ConnectionData, World, maxpacketsize, chaninfolen, print_chan_info, is_inactive,
  service_connection,
}
use sdrproxy.Server.Invariant.{IsSound}
use sdrproxy.Server.Service.{Sound, IsSocket, service_connection-Sound}
use sdrproxy.Server.Loop.{ServerThread, Answers, put_back, service}
use sdrproxy.Server.Loop.Stay.{Stays, service_connection-Stays}

-- What is asked of a connection that is in use, where the history has so many records.
abbrev pub IsUsable : ℕ → ConnectionData → Type 0
IsUsable records conn =
    IsValid conn.rcv_ring
    × IsValid conn.send_ring
    × (conn.send_ring.bfrsize ≤ maxpacketsize + 1)
    × (conn.history < records)

abbrev pub AllUsable : ℕ → List ConnectionData → Type 0
AllUsable records [] = Unit {0}
AllUsable records (conn ∷ rest) =
    (is_inactive conn.state ≡ false → IsUsable records conn) × AllUsable records rest

-- Every connection in use is usable, the data ring is valid, with slots that fit the buffers, and the
-- mutex is free.
pub record IsSafe (size : ℕ) (s : ServerThread) : Type 0 where
  pub usable : AllUsable (length s.first_id_lst) s.conn_data
  pub ten : length s.conn_data ≡ 10
  pub stored : Valid.IsValid size s.data_ring
  pub slots : size ≤ maxpacketsize
  pub unlocked : s.data_ring.locked ≡ false
  pub forgotten : s.server_conn_history ≡ []

pub with_fds :
    (size : ℕ) (s : ServerThread) (fds : Descriptors)
    → IsSafe size s
    → IsSafe size (record s { fds = fds })
with_fds size s fds safe = record {
  usable = safe.usable;
  ten = safe.ten;
  stored = safe.stored;
  slots = safe.slots;
  unlocked = safe.unlocked;
  forgotten = safe.forgotten;
}

-- A part of a round that returns, and leaves this so.
abbrev pub Safely : ℕ → Outcome ServerThread → Type 0
Safely size (done s) = IsSafe size s
Safely size fault = ⊥
Safely size failed = ⊥
Safely size blocked = ⊥

pub Safely-then :
    (size : ℕ) (o : Outcome ServerThread) (f : ServerThread → Outcome ServerThread)
    → Safely size o
    → ((s : ServerThread) → IsSafe size s → Safely size (f s))
    → Safely size (o >>= f)
Safely-then size (done s) f p h = h s p
Safely-then size fault f p h = elim p [ ]
Safely-then size failed f p h = elim p [ ]
Safely-then size blocked f p h = elim p [ ]

module _ (records : ℕ) where
  get_elem?-IsUsable :
      (conns : List ConnectionData) (i : ℕ) (conn : ConnectionData)
      → AllUsable records conns
      → get_elem? conns i ≡ some conn
      → is_inactive conn.state ≡ false
      → IsUsable records conn
  get_elem?-IsUsable [] i conn all e used = cc
  get_elem?-IsUsable (x ∷ conns) zero conn (this, all) e used =
      let same : x ≡ conn = cc in subst (IsUsable records) same (this (rw same used))
  get_elem?-IsUsable (x ∷ conns) (suc i) conn (this, all) e used =
      get_elem?-IsUsable conns i conn all e used

  pub set-AllUsable :
      (conns : List ConnectionData) (i : ℕ) (conn : ConnectionData)
      → AllUsable records conns
      → (is_inactive conn.state ≡ false → IsUsable records conn)
      → AllUsable records (set conns i conn)
  set-AllUsable [] i conn all new = all
  set-AllUsable (x ∷ conns) zero conn (this, all) new = (new, all)
  set-AllUsable (x ∷ conns) (suc i) conn (this, all) new =
      (this, set-AllUsable conns i conn all new)

pub AllUsable-le :
    (records more : ℕ) (conns : List ConnectionData)
    → records ≤ more
    → AllUsable records conns
    → AllUsable more conns
AllUsable-le records more [] h all = tt
AllUsable-le records more (conn ∷ conns) h (this, all) = (
  λ used. let (v, v', size, placed) = this used in (v, v', size, omega arith),
  AllUsable-le records more conns h all,
)

module _ (m : Allocator) (malloc : ℕ → Option (List ℕ)) (unset : ℤ) (c : ChannelInfo) (a : Answers)
    (size : ℕ) (printed : length (print_chan_info c) ≤ chaninfolen)
    (sockets : (conn_no : ℕ) → IsSocket (a.send conn_no)) where
  module _ (s : ServerThread) (safe : IsSafe size s) (conn_no : ℕ) (conn : ConnectionData)
      (there : get_elem? s.conn_data conn_no ≡ some conn) where
    abbrev world : World
    world = record { conn = conn; hist = s.first_id_lst; data_ring = s.data_ring; fds = s.fds }

    world-IsSound : is_inactive conn.state ≡ false → IsSound size world
    world-IsSound used =
        let (v, v', fits, placed) =
          get_elem?-IsUsable (length s.first_id_lst) s.conn_data conn_no conn safe.usable there
            used in
        record {
          receives = v;
          sends = v';
          sendbfr = fits;
          stored = safe.stored;
          slots = safe.slots;
          unlocked = safe.unlocked;
          recorded = get_elem?-some s.first_id_lst conn.history placed;
        }

    put_back-Safely :
        (o : Outcome (ℤ × World))
        → Sound size o
        → Ensures (Stays world) o
        → Safely size (o >>= λ r. done (put_back conn_no (not (eqb_ℤ r.0 (pos 0))) r.1 s))
    put_back-Safely (done (ret, w)) sound stays =
        let (h, placed) = sound.recorded in
        record {
          usable = rw stays (
              set-AllUsable (length s.first_id_lst) s.conn_data conn_no w.conn safe.usable (λ used.
                (
                  sound.receives,
                  sound.sends,
                  sound.sendbfr,
                  omega (arith, stays, get_elem?-length w.hist w.conn.history h placed),
                )));
          ten = length-set s.conn_data conn_no w.conn ∙ safe.ten;
          stored = sound.stored;
          slots = safe.slots;
          unlocked = sound.unlocked;
          forgotten = safe.forgotten;
        }
    put_back-Safely fault sound stays = elim sound [ ]
    put_back-Safely failed sound stays = elim sound [ ]
    put_back-Safely blocked sound stays = elim sound [ ]

    unused-Safely : is_inactive conn.state ≡ true → IsSafe size (put_back conn_no false world s)
    unused-Safely unused = record {
      usable =
          set-AllUsable (length s.first_id_lst) s.conn_data conn_no conn safe.usable (λ used. cc);
      ten = length-set s.conn_data conn_no conn ∙ safe.ten;
      stored = safe.stored;
      slots = safe.slots;
      unlocked = safe.unlocked;
      forgotten = safe.forgotten;
    }

    connection-Safely : Safely size (
        service_connection m c a.now
          (a.readable conn_no)
          (a.writable conn_no)
          (a.recv conn_no)
          (a.send conn_no)
          world
        >>= λ r. done (put_back conn_no (not (eqb_ℤ r.0 (pos 0))) r.1 s))
    unfolding service_connection
    connection-Safely = elim (Bool-cases (is_inactive conn.state)) [
      | inl unused ↦ rw (unused, service_connection) (unused-Safely unused)
      | inr used ↦
          put_back-Safely
            (service_connection m c a.now (a.readable conn_no) (a.writable conn_no) (a.recv conn_no)
              (a.send conn_no) world)
            (service_connection-Sound m c a.now (a.readable conn_no) (a.writable conn_no)
              (a.recv conn_no) (a.send conn_no) size world printed (sockets conn_no)
              (world-IsSound used))
            (service_connection-Stays m c a.now (a.readable conn_no) (a.writable conn_no)
              (a.recv conn_no) (a.send conn_no) world)
    ]

  pub service-Safely :
      (conn_no : ℕ) (s : ServerThread)
      → conn_no < 10
      → IsSafe size s
      → Safely size (service m malloc unset c a conn_no s)
  unfolding service
  service-Safely conn_no s h safe =
      let (conn, there) = get_elem?-some s.conn_data conn_no (omega (arith, safe.ten)) in
      rw (there, service) (connection-Safely s safe conn_no conn there)
