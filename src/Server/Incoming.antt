-- ===== src/Server/Incoming.antt =====
-- `check_server_incoming` of src/server.c: the request "SEND AD" among what the client has sent.
use sdrproxy.Prelude.{
  ℕ, ◌+◌, ◌-◌, ◌≤◌, ◌≡◌, refl, sym, ap, ◌∙◌, arith, Bool, true, false, ◌⊎◌, inl, inr, List, ◌++◌,
  length, get_or, get_or-append, get_or-drop, drop-append, drop, length-drop, ltb, ℤ, pos, negsuc,
  if◌then◌else◌,
}
use native.Mathlib.Decide.{dec_le}
use sdrproxy.Buffer.{RingSet, bytes_stored, retr}
use sdrproxy.Buffer.Valid.{IsValid}
use sdrproxy.Buffer.Contents.{contents}
use sdrproxy.Buffer.Take.{length-contents, retr-contents, delete-contents}
use sdrproxy.Buffer.Search.{search_ring, search_ring-IsFirst, Holds, IsFirst}
use sdrproxy.Util.Search.{IsBytes, all_bytes-IsBytes}
use sdrproxy.Server.{ConnectionData, chanrequest, take_request, check_server_incoming}

-- What is left of the bytes received: what follows the first request, or where there is none the
-- last bytes, as many as a request has.
abbrev pub Takes : List ℕ → Bool × List ℕ → Type 0
Takes bytes (true, rest) =
    (p : ℕ) × (IsFirst bytes chanrequest (pos p)
      × (rest ≡ drop (length chanrequest) (drop p bytes)))
Takes bytes (false, rest) =
    ((q : ℕ) → ¬ Holds bytes chanrequest q)
    × (rest ≡ drop (length bytes - length chanrequest) bytes)

request-IsBytes : IsBytes chanrequest
request-IsBytes = all_bytes-IsBytes chanrequest refl

module _ {r : RingSet} (v : IsValid r) where
  -- A removal that is skipped when there is nothing to remove.
  cleared :
      (n : ℕ) (b : Bool)
      → n ≤ bytes_stored r
      → (b ≡ true) ⊎ ((b ≡ false) × (n ≡ 0))
      → let r' = if b then (retr n r).1 else r in IsValid r' × (contents r' ≡ drop n (contents r))
  cleared n b held (inl e) = rw e (retr-contents v n held)
  cleared n b held (inr (e, none_there)) = rw (e, none_there) (v, refl)

  taken-Takes :
      (found : ℤ)
      → IsFirst (contents r) chanrequest found
      → let (f, r') = take_request found r in IsValid r' × Takes (contents r) (f, contents r')
  unfolding take_request
  taken-Takes (pos p) first =
      let before = if ltb 0 p then (retr p r).1 else r in
      let there : p + 7 ≤ length (contents r) = first.0.0 in
      let (v', left) : IsValid before × (contents before ≡ drop p (contents r)) =
        cleared p (ltb 0 p) (omega (arith, length-contents v)) (ground arith) in
      let enough : 7 ≤ bytes_stored before =
        omega (arith, length-contents v', ap length left, length-drop p (contents r)) in
      let (v'', rest) = delete-contents v' 7 (omega arith) enough in
      (v'', (p, (first, rest ∙ ap (drop 7) left)))
  taken-Takes (negsuc n) absent =
      let (v', left) =
        cleared (bytes_stored r - 7) (ltb 7 (bytes_stored r)) (omega arith) (ground arith) in
      (v', (absent, left ∙ ap (λ t. drop (t - 7) (contents r)) (sym (length-contents v))))

-- On a valid receive ring of bytes, the request is found exactly if it is there; what is left is
-- what follows it, or where there is none the last bytes, as many as a request has.
pub check_server_incoming-Takes :
    (conn_data : ConnectionData)
    → IsValid conn_data.rcv_ring
    → IsBytes (contents conn_data.rcv_ring)
    → let (found, after) = check_server_incoming conn_data in
      IsValid after.rcv_ring × Takes (contents conn_data.rcv_ring) (found, contents after.rcv_ring)
unfolding check_server_incoming
check_server_incoming-Takes conn_data v held =
    taken-Takes v (search_ring chanrequest conn_data.rcv_ring)
      (search_ring-IsFirst v chanrequest held request-IsBytes (omega arith))

split_request :
    (bytes more : List ℕ) (q : ℕ)
    → ((i : ℕ) → ¬ Holds bytes chanrequest i)
    → Holds (bytes ++ more) chanrequest q
    → let kept = length bytes - length chanrequest in
      (kept ≤ q) × Holds (drop kept bytes ++ more) chanrequest (q - kept)
split_request bytes more q absent there =
    let kept = length bytes - 7 in
    let room : q + 7 ≤ length (bytes ++ more) = there.0 in
    let later : kept ≤ q = elim (dec_le (q + 7) (length bytes)) [
      | yes inside ↦ absurd (
          absent q
            (inside, λ k h. sym (get_or-append bytes more (q + k) 0 (omega arith)) ∙ there.1 k h))
      | no outside ↦ omega arith
    ] in
    (
      later,
      rw (sym (drop-append kept bytes more (omega arith))) (
        omega (arith, length-drop kept (bytes ++ more)),
        λ k h.
            get_or-drop kept (bytes ++ more) (q - kept + k) 0
            ∙ ap (λ t. get_or (bytes ++ more) t 0) {y = q + k} (omega arith)
            ∙ there.1 k h,
      ),
    )

-- If no request is found in the bytes received, one that more bytes complete is still there, and
-- nothing of it was taken off.
pub check_server_incoming-split :
    (conn_data : ConnectionData) (more : List ℕ) (q : ℕ)
    → IsValid conn_data.rcv_ring
    → IsBytes (contents conn_data.rcv_ring)
    → (check_server_incoming conn_data).0 ≡ false
    → Holds (contents conn_data.rcv_ring ++ more) chanrequest q
    → let taken = length (contents conn_data.rcv_ring) - length chanrequest in
      (taken ≤ q)
      × Holds
          (contents (check_server_incoming conn_data).1.rcv_ring ++ more)
          chanrequest
          (q - taken)
check_server_incoming-split conn_data more q v held absent there =
    kept (check_server_incoming conn_data).0 absent (check_server_incoming-Takes conn_data v held).1
  where
    before : List ℕ
    before = contents conn_data.rcv_ring

    after : List ℕ
    after = contents (check_server_incoming conn_data).1.rcv_ring

    kept :
        (found : Bool)
        → found ≡ false
        → Takes before (found, after)
        → (length before - 7 ≤ q) × Holds (after ++ more) chanrequest (q - (length before - 7))
    kept true e h = cc
    kept false e (nowhere, same) = rw same (split_request before more q nowhere there)
