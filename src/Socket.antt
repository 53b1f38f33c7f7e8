-- ===== src/Socket.antt =====
-- src/socket.c: what its functions make of the answers of `select`, `send`, `socket` and `connect`,
-- which are parameters, as is what the resolver gave. The waiting is left out.
pub mod Whole
pub mod ToHost
pub mod Connecting
mod Tests
use sdrproxy.Prelude.{
  ℕ, zero, suc, ◌+◌, ◌-◌, ◌==◌, Bool, true, false, ◌&&◌, Option, none, some, List, [], ◌∷◌, ◌++◌,
  length, take, drop, ltb, if◌then◌else◌, ℤ, pos, negsuc, ◌-ℤ◌, ltb_ℤ,
}
use sdrproxy.Buffer.{RingSet, bytes_stored}
use sdrproxy.Buffer
use sdrproxy.Client.{bfrsize}
use sdrproxy.Databfr.{Outcome, done, fault, failed, blocked, ◌>>=◌}

-- SENDCYCLETIME
abbrev pub sendcycletime : ℤ
sendcycletime = pos 10

-- What `select` does with the one socket that it is asked about: an error, or its return and
-- whether the socket is in `writefds` then.
pub data Selected : Type 0 where
  select_error : Selected
  selected : ℕ → Bool → Selected

-- What `send` does: it takes some bytes, or fails with EAGAIN, with ECONNRESET or with another error.
pub data SendResult : Type 0 where
  taken : ℕ → SendResult
  would_block conn_reset other_error : SendResult

-- What `send_all` leaves: its return, `*timeout`, and the bytes that the socket took.
pub record SendAll : Type 0 where
  pub ret : ℤ
  pub timeout : ℤ
  pub delivered : List ℕ

-- What is left when a function returns with so many bytes to send.
abbrev pub returned : ℤ → List ℕ → ℕ → ℤ → SendAll
returned ret buf bytesleft timeout = record {
  ret = ret;
  timeout = timeout;
  delivered = take (length buf - bytesleft) buf;
}

module _ (select : List ℕ → Selected) (send : List ℕ → SendResult) (buf : List ℕ) where
  -- The `while` of `send_all`, with fuel; `none` if it has not ended. `select` and `send` may look
  -- at the bytes left, which are fewer in each round.
  unfoldable pub send_loop : ℕ → ℕ → ℤ → Outcome (Option SendAll)
  send_loop zero bytesleft timeout = done none
  send_loop (suc fuel) bytesleft timeout =
      let bfr = drop (length buf - bytesleft) buf in
      elim (ltb 0 bytesleft && ltb_ℤ (pos 0) timeout) [
        | false ↦ done (some (returned (pos (length buf - bytesleft)) buf bytesleft timeout))
        | true ↦ elim (select bfr) [
          | select_error ↦ failed
          | selected rv isset ↦
              let timeout' = if rv == 0 then timeout -ℤ sendcycletime else timeout in
              elim isset [
                | false ↦ failed
                | true ↦ elim (send bfr) [
                  | taken zero ↦ done (some (returned (negsuc 1) buf bytesleft timeout'))
                  | taken (suc n) ↦ send_loop fuel (bytesleft - suc n) timeout'
                  | would_block ↦ done (some (returned (negsuc 1) buf bytesleft timeout'))
                  | conn_reset ↦ done (some (returned (negsuc 1) buf bytesleft timeout'))
                  | other_error ↦ done (some (returned (negsuc 1) buf bytesleft timeout'))
                ]
              ]
        ]
      ]

  -- `send_all`. A round that goes on has sent a byte, so that there are no more rounds than bytes,
  -- and one.
  unfoldable pub send_all : ℤ → Outcome (Option SendAll)
  send_all timeout = send_loop (length buf + 1) (length buf) timeout

-- `send_to_host`. A ring that holds more than `outbfr` is copied past its end; after an error that
-- has no case of its own RING_DELETE is called with -1.
unfoldable pub send_to_host : (List ℕ → SendResult) → RingSet → Outcome (ℤ × RingSet)
send_to_host send ring = elim (Buffer.view (bytes_stored ring) ring) [
  | none ↦ fault
  | some outbfr ↦ if ltb bfrsize (bytes_stored ring) then fault else elim (send outbfr) [
    | taken zero ↦ done (negsuc 1, ring)
    | taken (suc n) ↦ done (pos (suc n), (Buffer.delete (pos (suc n)) ring).1)
    | would_block ↦ done (pos 0, ring)
    | conn_reset ↦ done (negsuc 0, ring)
    | other_error ↦ done (negsuc 0, (Buffer.delete (negsuc 0) ring).1)
  ]
]

-- The families of addresses: AF_INET, and all others.
pub data Family : Type 0 where
  af_inet other_family : Family

-- `struct addrinfo`: its family, and what tells one address from another.
pub record AddrInfo : Type 0 where
  pub ai_family : Family
  pub ai_addr : ℕ

-- `get_socket`: its return and `*good_addr`. `socket` is what the call of that name returns.
unfoldable pub get_socket : (AddrInfo → ℤ) → AddrInfo → List AddrInfo → ℤ × AddrInfo
get_socket socket good_addr [] = (negsuc 0, good_addr)
get_socket socket good_addr (p ∷ rest) =
    let later = get_socket socket good_addr rest in
    elim p.ai_family [
      | af_inet ↦ if ltb_ℤ (socket p) (pos 0) then (negsuc 0, good_addr) else (socket p, p)
      | other_family ↦ later
    ]

-- What `connect` does.
pub data Connected : Type 0 where
  connected conn_refused net_unreachable conn_timed_out connect_error : Connected

-- `sdr_connect`. Its loop is run once, whatever `connect` does.
unfoldable pub sdr_connect : Connected → ℤ
sdr_connect connected = pos 0
sdr_connect conn_refused = pos 0
sdr_connect net_unreachable = pos 0
sdr_connect conn_timed_out = pos 0
sdr_connect connect_error = negsuc 0
