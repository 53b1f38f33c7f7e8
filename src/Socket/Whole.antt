-- ===== src/Socket/Whole.antt =====
-- `send_all` of src/socket.c: what the socket has taken when it returns.
use sdrproxy.Prelude.{
  ℕ, zero, suc, ◌-◌, ◌≤◌, ◌<◌, ◌≡◌, ◌≢◌, ◌⊎◌, true, Option, none, some, List, length, take, ℤ, pos,
  negsuc, ltb_ℤ,
}
use sdrproxy.Databfr.{Outcome, done, fault, failed, blocked}
use sdrproxy.Socket.{
  Selected, selected, SendResult, taken, would_block, conn_reset, other_error, SendAll, returned,
  send_loop,
}

module _ (select : List ℕ → Selected) (send : List ℕ → SendResult) (buf : List ℕ)
    (timeout : ℤ) where
  -- It has ended: the whole buffer is with the socket, or the socket has refused after its first
  -- bytes; or `select` gave an error or its time was over, and the program has ended.
  abbrev pub Delivers : Outcome (Option SendAll) → Type 0
  Delivers (done none) = ⊥
  Delivers (done (some s)) =
      (s.timeout ≡ timeout)
      × (((s.ret ≡ pos (length buf)) × (s.delivered ≡ buf))
          ⊎ ((s.ret ≡ negsuc 1) × (k : ℕ) × (k < length buf) × (s.delivered ≡ take k buf)))
  Delivers failed = Unit {0}
  Delivers fault = ⊥
  Delivers blocked = ⊥

  module _ (times_out : (bytes : List ℕ) → select bytes ≢ selected 0 true)
      (takes : (bytes : List ℕ) (n : ℕ) → send bytes ≡ taken n → n ≤ length bytes)
      (time_left : ltb_ℤ (pos 0) timeout ≡ true) where
    module _ (fuel bytesleft : ℕ) (some_left : 0 < bytesleft) (h : bytesleft ≤ length buf)
        (f : bytesleft < suc fuel)
        (again : (left : ℕ)
          → left ≤ length buf
          → left < fuel
          → Delivers (send_loop select send buf fuel left timeout))
        (a : SendResult) (most : (n : ℕ) → a ≡ taken n → n ≤ bytesleft) where
      abbrev answered : SendResult → ℤ → Outcome (Option SendAll)
      answered o timeout' = elim o [
        | taken zero ↦ done (some (returned (negsuc 1) buf bytesleft timeout'))
        | taken (suc n) ↦ send_loop select send buf fuel (bytesleft - suc n) timeout'
        | would_block ↦ done (some (returned (negsuc 1) buf bytesleft timeout'))
        | conn_reset ↦ done (some (returned (negsuc 1) buf bytesleft timeout'))
        | other_error ↦ done (some (returned (negsuc 1) buf bytesleft timeout'))
      ]
