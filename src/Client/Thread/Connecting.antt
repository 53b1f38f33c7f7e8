-- ===== src/Client/Thread/Connecting.antt =====
-- The rounds in which `client_thread` of src/client.c connects again to a server that was lost.
use sdrproxy.Prelude.{ℕ, ◌+◌, ◌≤◌, ◌≡◌, List, [], ◌∷◌, length, ℤ}
use sdrproxy.Buffer.{RingSet}
use sdrproxy.Buffer.Valid.{IsValid}
use sdrproxy.Buffer.Contents.{contents}
use sdrproxy.Util.{ChannelInfo}
use sdrproxy.Databfr.{Outcome, done, fault, failed, blocked, ◌>>=◌}
use sdrproxy.Databfr.Ops.{Allocator}
use sdrproxy.Socket.{taken}
use sdrproxy.Client.{Tm, bfrsize}
use sdrproxy.Client.Thread.{get_data, ClientThread, Answers, send_channel_request, client_round}
use sdrproxy.Client.Thread.Request.{IsClientNo, request_bytes}

-- The server is connected to, and the request has gone.
abbrev pub Requested : ClientThread → Outcome ClientThread → Type 0
Requested t (done t') =
    (t'.state ≡ get_data)
    × (t'.good_addr ≡ t.good_addr)
    × (t'.input ≡ t.input)
    × (t'.chanchange ≡ t.chanchange)
    × (contents t'.send_ring ≡ [])
Requested t fault = ⊥
Requested t failed = ⊥
Requested t blocked = ⊥

module _ (timegm : Tm → ℤ) (m : Allocator) (c : ChannelInfo) (client_no : ℤ) where
  -- Rounds of the loop, one for each of the answers.
  unfoldable pub client_rounds : List Answers → ClientThread → Outcome ClientThread
  client_rounds [] t = done t
  client_rounds (a ∷ answers) t = client_round timegm m c client_no a t >>= client_rounds answers

  module _ (digit : IsClientNo client_no) (a : Answers) (t : ClientThread) (v : IsValid t.send_ring)
      (small : t.send_ring.bfrsize ≤ bfrsize + 1) (empty : contents t.send_ring ≡ [])
      (room : 8 ≤ t.send_ring.bfrsize)
      (at_most : (bytes : List ℕ) (n : ℕ) → a.send bytes ≡ taken n → n ≤ length bytes)
      (takes : a.send (request_bytes client_no) ≡ taken 7) where
    abbrev request_ring : RingSet
    request_ring = (send_channel_request t.send_ring client_no).1
