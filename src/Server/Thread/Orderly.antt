-- ===== src/Server/Thread/Orderly.antt =====
-- What is asked of the rounds of `server_thread` of src/server.c, and the descriptors that they leave.
use sdrproxy.Prelude.{
  ℕ, zero, suc, ◌≤◌, ◌≡◌, refl, arith, Bool, true, false, Option, List, [], ◌∷◌, ◌||◌, replicate,
  if◌then◌else◌, ℤ,
}
use sdrproxy.Util.{ChannelInfo}
use sdrproxy.Databfr.{DataRing, done}
use sdrproxy.Databfr.Ops.{Allocator}
use sdrproxy.Databfr.Valid
use sdrproxy.Descriptors.{Descriptors, is_open, count}
use sdrproxy.Outcomes.{Ensures, Ensures-bind}
use sdrproxy.Server.Service.{IsSocket}
use sdrproxy.Server.Loop.{ServerThread, server_loop}
use sdrproxy.Server.Loop.Accepting.{Supplies}
use sdrproxy.Server.Loop.Sockets.{Keeps, sockets, server_loop-Leaves}
use sdrproxy.Server.Thread.{Round, unused_connection, server_start, server_run}

-- SRV_CLOSECMD is set in one of the rounds.
abbrev pub is_told : List Round → Bool
is_told [] = false
is_told (now ∷ rest) = now.closecmd || is_told rest

-- What is asked of a round: `select` works, sockets take at most what they are given, `accept` gives
-- a descriptor that is not open, and the other threads leave the data ring valid and its mutex free.
pub record IsOrderly (size : ℕ) (now : Round) : Type 0 where
  pub selects : now.answers.select_fails ≡ false
  pub sockets : (conn_no : ℕ) → IsSocket (now.answers.send conn_no)
  pub fresh : (fds : Descriptors) → is_open fds (now.answers.newfd fds) ≡ false
  pub keeps :
      (ring : DataRing)
      → Valid.IsValid size ring
      → ring.locked ≡ false
      → Valid.IsValid size (now.others ring) × ((now.others ring).locked ≡ false)

abbrev pub AllOrderly : ℕ → List Round → Type 0
AllOrderly size [] = Unit {0}
AllOrderly size (now ∷ rest) = IsOrderly size now × AllOrderly size rest

unused-sockets : (n fd : ℕ) → sockets (replicate n unused_connection) fd ≡ 0
unfolding sockets
unused-sockets zero fd = refl
unused-sockets (suc n) fd = let rest = unused-sockets n fd in omega arith

pub server_start-Keeps :
    (data_ring : DataRing) (base : Descriptors)
    → ((fd : ℕ) → count base fd ≤ 1)
    → Keeps base (server_start data_ring base)
unfolding server_start
server_start-Keeps data_ring base once fd =
    let free = unused-sockets 10 fd in (omega arith, once fd)

-- These rounds leave just those of `base` open when the thread ends, and until then the sockets of
-- the connections in use besides.
abbrev pub Left : Descriptors → Bool × ServerThread → Type 0
Left base r = Keeps base r.1 × (r.0 ≡ true → (fd : ℕ) → count (r.1).fds fd ≡ count base fd)

pub server_run-Left :
    (m : Allocator) (malloc : ℕ → Option (List ℕ)) (unset : ℤ) (c : ChannelInfo)
    (supplies : Supplies malloc) (size : ℕ) (base : Descriptors) (rounds : List Round)
    (s : ServerThread)
    → AllOrderly size rounds
    → Keeps base s
    → Ensures (Left base) (server_run m malloc unset c rounds s)
unfolding server_run
server_run-Left m malloc unset c supplies size base [] s all balanced = (balanced, λ h. cc)
server_run-Left m malloc unset c supplies size base (now ∷ rest) s (orderly, all) balanced =
    let s' = record s { data_ring = now.others s.data_ring } in
    Ensures-bind (Left base) (Left base) (server_loop m malloc unset c now.answers now.closecmd s')
      _
      (server_loop-Leaves m malloc unset c now.answers supplies orderly.fresh base now.closecmd s'
        balanced)
      (λ r left.
        next r.0 r.1 left
          (λ balanced'. server_run-Left m malloc unset c supplies size base rest r.1 all balanced'))
  where
    next :
        (ended : Bool) (s' : ServerThread)
        → Left base (ended, s')
        → (Keeps base s' → Ensures (Left base) (server_run m malloc unset c rest s'))
        → Ensures
            (Left base)
            (if ended then done (ended, s') else server_run m malloc unset c rest s')
    next true s' left later = left
    next false s' left later = later left.0
