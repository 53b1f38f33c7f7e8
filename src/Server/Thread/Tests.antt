-- ===== src/Server/Thread/Tests.antt =====
-- `server_thread` of src/server.c: of the two addresses of each port the second can be bound, and the
-- thread is told to end in its second round.
use sdrproxy.Prelude.{
  ℕ, suc, ◌<◌, ◌≤◌, ◌≡◌, refl, ap, arith, Bool, true, false, ltb, Option, none, some, List, [], ◌∷◌,
  pos,
}
use sdrproxy.Databfr.Tests.{ring_of, ring_of-IsValid, allocator, channels}
use sdrproxy.Server.Loop.Tests.{
  malloc, malloc-Supplies, one_byte-IsSocket, answers, largest, printed,
}
use sdrproxy.Descriptors.{is_open, count}
use sdrproxy.Server.Setup.{Network, server_setup}
use sdrproxy.Server.Setup.Listening.{OpensSockets, Listens, server_setup-Listens}
use sdrproxy.Server.Thread.{Round, server_thread}
use sdrproxy.Server.Thread.Orderly.{AllOrderly, IsOrderly}
use sdrproxy.Server.Thread.Life.{Lives, server_thread-Lives}

abbrev network : Network ℕ
network = record {
  getaddrinfo = λ port. some (0 ∷ 1 ∷ []);
  socket = λ fds. some (suc (largest fds));
  bind = ltb 0;
  listen = λ port. true;
}

larger-closed : (fds : List ℕ) (fd : ℕ) → largest fds < fd → is_open fds fd ≡ false
unfolding is_open
larger-closed [] fd h = refl
larger-closed (x ∷ fds) fd h = let rest = larger-closed fds fd (omega arith) in ground arith

abbrev descriptor : Option ℕ → ℕ
descriptor none = 0
descriptor (some fd) = fd

network-OpensSockets : OpensSockets network
network-OpensSockets = record {
  fresh = λ fds fd e. let same = ap descriptor e in larger-closed fds fd (omega arith);
  always = λ fds e. cc;
}

server_setup-Listens_example :
    Listens network 2 16065 (0 ∷ 1 ∷ 2 ∷ []) (server_setup network 2 16065 (0 ∷ 1 ∷ 2 ∷ []))
server_setup-Listens_example =
    server_setup-Listens network network-OpensSockets 2 16065 (0 ∷ 1 ∷ 2 ∷ [])

abbrev told : Bool → Round
told closecmd = record { closecmd = closecmd; answers = answers; others = λ ring. ring }

abbrev two_rounds : List Round
two_rounds = told false ∷ told true ∷ []

two_rounds-AllOrderly : AllOrderly 2 two_rounds
two_rounds-AllOrderly = (orderly false, (orderly true, tt))
  where
    orderly : (closecmd : Bool) → IsOrderly 2 (told closecmd)
    orderly closecmd = record {
      selects = refl;
      sockets = λ i. one_byte-IsSocket;
      fresh = λ fds. larger-closed fds (suc (largest fds)) (omega arith);
      keeps = λ ring v unlocked. (v, unlocked);
    }

each_once : (fd : ℕ) → count (0 ∷ 1 ∷ 2 ∷ []) fd ≤ 1
unfolding count
each_once fd = ground arith

server_thread-Lives_example :
    Lives allocator malloc
      (pos 0)
      channels
      2
      printed
      malloc-Supplies
      (omega arith)
      network
      network-OpensSockets
      two_rounds
      (0 ∷ 1 ∷ 2 ∷ [])
      (server_thread allocator malloc
        (pos 0)
        channels
        network
        true
        two_rounds
        (ring_of 2)
        (0 ∷ 1 ∷ 2 ∷ []))
server_thread-Lives_example =
    server_thread-Lives allocator malloc (pos 0) channels 2 printed malloc-Supplies (omega arith)
      network network-OpensSockets two_rounds (0 ∷ 1 ∷ 2 ∷ []) (ring_of 2)
      (ring_of-IsValid 2 (omega arith)) (omega arith) refl two_rounds-AllOrderly each_once
