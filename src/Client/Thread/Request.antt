-- ===== src/Client/Thread/Request.antt =====
-- What `send_channel_request` of src/client.c puts on the ring, read by src/server.c.
use sdrproxy.Prelude.{
  ℕ, ◌+◌, ◌≤◌, ◌<◌, ◌==◌, ◌≡◌, ◌≢◌, refl, sym, ap, ap₂, ◌∙◌, arith, Bool, true, false, ◌&&◌, not,
  ==_iff, ne→==, List, [], ◌++◌, length, get_or, take, take-length, le→leb, min, length-take, ℤ,
  pos, negsuc,
}
use sdrproxy.Buffer.{RingSet, bytes_free}
use sdrproxy.Buffer.Valid.{IsValid}
use sdrproxy.Buffer.Contents.{contents}
use sdrproxy.Buffer.Store.{store-eq, stored_ring, stored_ring-IsValid, contents-store}
use sdrproxy.Util.Search.{IsBytes, all_bytes, all_bytes-IsBytes}
use sdrproxy.Channels.RoundTrip.{all_below, all_below-test}
use sdrproxy.Server.{
  ConnectionData, chanrequest, decimal, Received, received, server_rcv_to_ring,
  check_server_incoming,
}
use sdrproxy.Server.Incoming.{Takes, check_server_incoming-Takes}
use sdrproxy.Client.Thread.{request_text, send_channel_request}

-- The bytes of the request that leave.
abbrev pub request_bytes : ℤ → List ℕ
request_bytes client_no = take (length chanrequest) (request_text client_no)

-- `client_no` is a digit, or below zero.
abbrev pub IsClientNo : ℤ → Type 0
IsClientNo (pos n) = n < 10
IsClientNo (negsuc n) = Unit {0}

abbrev pub is_default : ℤ → Bool
is_default (pos n) = false
is_default (negsuc n) = true

-- Seven bytes, and for a digit another fifth byte than the space of the default.
abbrev numbered : ℕ → Bool
numbered k =
    let text = request_bytes (pos k) in
    (length text == 7) && (all_bytes text && not (get_or text 4 0 == 32))

and_parts : (p q : Bool) → (p && q) ≡ true → (p ≡ true) × (q ≡ true)
and_parts true true e = (refl, refl)
and_parts true false e = cc
and_parts false q e = cc

all_numbered : all_below 10 numbered ≡ true
unfolding all_below request_text decimal
all_numbered = refl

not_equal : (a b : ℕ) → not (a == b) ≡ true → a ≢ b
not_equal a b e same = ground arith

numbered-parts :
    (n : ℕ)
    → n < 10
    → (length (request_bytes (pos n)) ≡ 7)
      × (all_bytes (request_bytes (pos n)) ≡ true)
      × (get_or (request_bytes (pos n)) 4 0 ≢ 32)
numbered-parts n h =
    let text = request_bytes (pos n) in
    let (size, others) =
      and_parts (length text == 7) (all_bytes text && not (get_or text 4 0 == 32))
        (all_below-test 10 n numbered all_numbered h) in
    let (bytes, fifth) = and_parts (all_bytes text) (not (get_or text 4 0 == 32)) others in
    ((==_iff (length text) 7).0 size, bytes, not_equal (get_or text 4 0) 32 fifth)

default_bytes : (n : ℕ) → request_bytes (negsuc n) ≡ chanrequest
unfolding request_text
default_bytes n = refl

pub length-request_bytes :
    (client_no : ℤ) → IsClientNo client_no → length (request_bytes client_no) ≡ 7
length-request_bytes (pos n) h = (numbered-parts n h).0
length-request_bytes (negsuc n) h = ap length (default_bytes n)

request_bytes-IsBytes : (client_no : ℤ) → IsClientNo client_no → IsBytes (request_bytes client_no)
request_bytes-IsBytes (pos n) h = all_bytes-IsBytes (request_bytes (pos n)) (numbered-parts n h).1
request_bytes-IsBytes (negsuc n) h = rw (default_bytes n) (all_bytes-IsBytes chanrequest refl)

Takes-default :
    (client_no : ℤ)
    → IsClientNo client_no
    → (found : Bool) (rest : List ℕ) → Takes (request_bytes client_no) (found, rest)
    → found ≡ is_default client_no
Takes-default (negsuc n) h true rest t = refl
Takes-default (negsuc n) h false rest (absent, _) = absurd (
    absent 0 (
      rw (default_bytes n)
        (omega arith, λ k p. ap (λ i. get_or chanrequest i 0) {x = 0 + k} (omega arith))))
Takes-default (pos n) h false rest t = refl
Takes-default (pos n) h true rest (p, (((room, same), _), _)) =
    let size = length-request_bytes (pos n) h in
    absurd (
      (numbered-parts n h).2 (
        ap (λ i. get_or (request_bytes (pos n)) i 0) {y = p + 4} (omega (arith, room, size))
        ∙ same 4 (omega arith)))

-- A request put on an empty ring.
module _ (client_no : ℤ) (digit : IsClientNo client_no) (send_ring : RingSet)
    (v : IsValid send_ring) (empty : contents send_ring ≡ [])
    (room : 7 ≤ bytes_free send_ring) where
  pub whole_text : 7 ≤ length (request_text client_no)
  whole_text =
      omega (arith, length-request_bytes client_no digit, length-take 7 (request_text client_no))

  pub request-contents :
      contents (send_channel_request send_ring client_no).1 ≡ request_bytes client_no
  unfolding send_channel_request
  request-contents =
      rw
        (
          le→leb 7 (bytes_free send_ring) room,
          store-eq v (request_text client_no) 7 room whole_text,
          send_channel_request,
        )
        (contents-store v (request_text client_no) 7 room whole_text
          ∙ ap (λ l. l ++ request_bytes client_no) empty)

  module _ (conn_data : ConnectionData) (v' : IsValid conn_data.rcv_ring)
      (empty' : contents conn_data.rcv_ring ≡ []) (room' : 7 ≤ bytes_free conn_data.rcv_ring)
      (recv : ℕ → Received)
      (arrives : recv (min 300 (bytes_free conn_data.rcv_ring))
        ≡ received (contents (send_channel_request send_ring client_no).1)) where
    sent_size : length (request_bytes client_no) ≡ 7
    sent_size = length-request_bytes client_no digit

    abbrev heard_ring : RingSet
    heard_ring = stored_ring v' (request_bytes client_no) 7 room' (omega (arith, sent_size))

    rcv-request : (server_rcv_to_ring recv conn_data).1 ≡ record conn_data { rcv_ring = heard_ring }
    unfolding server_rcv_to_ring
    rcv-request =
        rw
          (
            ne→== (min 300 (bytes_free conn_data.rcv_ring)) 0 (λ e. omega arith),
            arrives,
            request-contents,
            sent_size,
            store-eq v' (request_bytes client_no) 7 room' (omega (arith, sent_size)),
            server_rcv_to_ring,
          )
          refl

    heard-contents : contents heard_ring ≡ request_bytes client_no
    heard-contents =
        contents-store v' (request_bytes client_no) 7 room' (omega (arith, sent_size))
        ∙ ap₂ ◌++◌ empty' (
            ap (λ n. take n (request_bytes client_no)) (sym sent_size)
            ∙ take-length (request_bytes client_no))

    -- The request that a client puts on its empty ring, received by a connection of the server
    -- whose ring is empty, is found there if the client has no number, and never if its number is a
    -- digit, where both rings are valid and have room.
    pub request-found :
        (check_server_incoming (server_rcv_to_ring recv conn_data).1).0 ≡ is_default client_no
    request-found = rw rcv-request (
        let heard = record conn_data { rcv_ring = heard_ring } in
        let takes =
          (check_server_incoming-Takes heard
            (stored_ring-IsValid v' (request_bytes client_no) 7 room' (omega (arith, sent_size)))
            (rw heard-contents (request_bytes-IsBytes client_no digit))).1 in
        Takes-default client_no digit (check_server_incoming heard).0
          (contents (check_server_incoming heard).1.rcv_ring) (rw heard-contents at takes))
