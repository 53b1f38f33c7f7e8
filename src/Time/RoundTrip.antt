-- ===== src/Time/RoundTrip.antt =====
-- A time in the header of a packet, put there and read by src/time.c.
use sdrproxy.Prelude.{
  ℕ, zero, suc, ◌+◌, ◌*◌, ◌/◌, ◌%◌, ◌≤◌, ◌<◌, ◌≡◌, refl, sym, ap, ap₂, ◌∙◌, arith, List, [], ◌∷◌,
  length, length-set, get_or, get_or-set_self, get_or-set_ne, set, ltb, if◌then◌else◌, ℤ, pos,
  negsuc, sub_ℕ, ◌+ℤ◌, +ℤ_parts, eq_of_parts,
}
use sdrproxy.Util.{load}
use sdrproxy.Client.{Tm, short_at, get_packet_time, decode_pkt_time, milliseconds}
use sdrproxy.Time.{
  MsTime, low_bits, put_short, put_shorts, data_hdr_to_timeval, header_values, timeval_to_data_hdr,
  cmp_pkt_time,
}

-- A number that a `short` holds.
abbrev pub IsShort : ℤ → Type 0
IsShort (pos n) = n < 32768
IsShort (negsuc n) = n < 32768

abbrev pub AllShort : List ℤ → Type 0
AllShort [] = Unit {0}
AllShort (v ∷ vs) = IsShort v × AllShort vs

-- A `short` is its two bytes.
load-two :
    (at : ℕ) (bytes : List ℕ) → load 2 at bytes ≡ get_or bytes at 0 + 256 * get_or bytes (at + 1) 0
unfolding load
load-two at bytes = omega arith

signed-low :
    (v : ℤ)
    → IsShort v
    → (if ltb (low_bits v) 32768 then pos (low_bits v) else sub_ℕ (low_bits v) 65536) ≡ v
unfolding low_bits
signed-low (pos n) h = ground arith
signed-low (negsuc n) h = ground arith

module _ (at : ℕ) (v : ℤ) (bytes : List ℕ) where
  length-put_short : length (put_short at v bytes) ≡ length bytes
  unfolding put_short
  length-put_short =
      length-set (set bytes at (low_bits v % 256)) (at + 1) (low_bits v / 256)
      ∙ length-set bytes at (low_bits v % 256)

  short_at-put : IsShort v → at + 2 ≤ length bytes → short_at at (put_short at v bytes) ≡ v
  unfolding short_at put_short
  short_at-put h room =
      let lo = low_bits v % 256 in
      let hi = low_bits v / 256 in
      let first = set bytes at lo in
      let low : get_or (set first (at + 1) hi) at 0 ≡ lo =
        get_or-set_ne first (at + 1) at hi 0 (omega arith)
        ∙ get_or-set_self bytes at lo 0 (omega arith) in
      let high : get_or (set first (at + 1) hi) (at + 1) 0 ≡ hi =
        get_or-set_self first (at + 1) hi 0 (omega (arith, length-set bytes at lo)) in
      let raw : load 2 at (set first (at + 1) hi) ≡ low_bits v =
        load-two at (set first (at + 1) hi) ∙ omega arith in
      rw (raw, short_at) (signed-low v h)

  short_at-elsewhere : (q : ℕ) → q + 2 ≤ at → short_at q (put_short at v bytes) ≡ short_at q bytes
  unfolding short_at put_short
  short_at-elsewhere q h =
      let lo = low_bits v % 256 in
      let hi = low_bits v / 256 in
      let first = set bytes at lo in
      let same : load 2 q (set first (at + 1) hi) ≡ load 2 q bytes =
        load-two q (set first (at + 1) hi)
        ∙ ap₂ (λ a b. a + 256 * b)
            (get_or-set_ne first (at + 1) q hi 0 (omega arith)
              ∙ get_or-set_ne bytes at q lo 0 (omega arith))
            (get_or-set_ne first (at + 1) (q + 1) hi 0 (omega arith)
              ∙ get_or-set_ne bytes at (q + 1) lo 0 (omega arith))
        ∙ sym (load-two q bytes) in
      rw (same, short_at) refl

put_shorts-elsewhere :
    (at : ℕ) (vs : List ℤ) (bytes : List ℕ) (q : ℕ)
    → q + 2 ≤ at
    → short_at q (put_shorts at vs bytes) ≡ short_at q bytes
unfolding put_shorts
put_shorts-elsewhere at [] bytes q h = refl
put_shorts-elsewhere at (v ∷ vs) bytes q h =
    put_shorts-elsewhere (at + 2) vs (put_short at v bytes) q (omega arith)
    ∙ short_at-elsewhere at v bytes q h

-- Every value is where it was put.
put_shorts-read :
    (at : ℕ) (vs : List ℤ) (bytes : List ℕ) (k : ℕ)
    → AllShort vs
    → at + 2 * length vs ≤ length bytes
    → k < length vs
    → short_at (at + 2 * k) (put_shorts at vs bytes) ≡ get_or vs k (pos 0)
unfolding put_shorts
put_shorts-read at [] bytes k all room h = absurd (omega arith)
put_shorts-read at (v ∷ vs) bytes zero (this, all) room h =
    ap (λ i. short_at i (put_shorts (at + 2) vs (put_short at v bytes))) {y = at} (omega arith)
    ∙ put_shorts-elsewhere (at + 2) vs (put_short at v bytes) at (omega arith)
    ∙ short_at-put at v bytes this (omega arith)
put_shorts-read at (v ∷ vs) bytes (suc k) (this, all) room h =
    ap (λ i. short_at i (put_shorts (at + 2) vs (put_short at v bytes))) {x = at + 2 * suc k}
      {y = at + 2 + 2 * k} (omega arith)
    ∙ put_shorts-read (at + 2) vs (put_short at v bytes) k all
        (omega (arith, length-put_short at v bytes)) (omega arith)

-- The comparison is turned round with its times.
cmp_pkt_time-swap : (a b : ℤ) → cmp_pkt_time b a +ℤ cmp_pkt_time a b ≡ pos 0
unfolding cmp_pkt_time ◌+ℤ◌
cmp_pkt_time-swap a b = ground arith

add-sub : (v : ℤ) (n : ℕ) → (v +ℤ pos (suc n)) +ℤ negsuc n ≡ v
add-sub v n =
    eq_of_parts ((v +ℤ pos (suc n)) +ℤ negsuc n) v
      (omega (arith, +ℤ_parts (v +ℤ pos (suc n)) (negsuc n), +ℤ_parts v (pos (suc n))))

module _ (timegm : Tm → ℤ) (gmtime : ℤ → Tm) (inverse : (t : ℤ) → timegm (gmtime t) ≡ t) where
  -- Where timegm undoes gmtime_r, a time whose fields each fit a short, put by timeval_to_data_hdr
  -- into a header of at least 16 bytes, is read back by data_hdr_to_timeval, and get_packet_time
  -- and decode_pkt_time read its seconds, and its seconds with its milliseconds.
  pub timeval-header :
      (t : MsTime) (bfr : List ℕ)
      → AllShort (header_values (gmtime t.sec) t.msec)
      → 16 ≤ length bfr
      → let header = timeval_to_data_hdr gmtime t bfr in
        (data_hdr_to_timeval timegm header ≡ t)
        × (get_packet_time timegm header ≡ t.sec)
        × (decode_pkt_time timegm header ≡ milliseconds t.sec +ℤ t.msec)
  unfolding timeval_to_data_hdr data_hdr_to_timeval get_packet_time decode_pkt_time
  timeval-header t bfr all room =
      let vs = header_values (gmtime t.sec) t.msec in
      let header = put_shorts 0 vs bfr in
      let at = λ (q k : ℕ) (e : q ≡ 0 + 2 * k) (h : k < 8).
        ap (λ i. short_at i header) e ∙ put_shorts-read 0 vs bfr k all room h in
      let year : short_at 0 header +ℤ negsuc 1899 ≡ (gmtime t.sec).tm_year =
        ap (λ v. v +ℤ negsuc 1899) (at 0 0 (omega arith) (omega arith))
        ∙ add-sub (gmtime t.sec).tm_year 1899 in
      let month : short_at 2 header +ℤ negsuc 0 ≡ (gmtime t.sec).tm_mon =
        ap (λ v. v +ℤ negsuc 0) (at 2 1 (omega arith) (omega arith))
        ∙ add-sub (gmtime t.sec).tm_mon 0 in
      let day : short_at 6 header ≡ (gmtime t.sec).tm_mday = at 6 3 (omega arith) (omega arith) in
      let hour : short_at 8 header ≡ (gmtime t.sec).tm_hour = at 8 4 (omega arith) (omega arith) in
      let minute : short_at 10 header ≡ (gmtime t.sec).tm_min =
        at 10 5 (omega arith) (omega arith) in
      let second : short_at 12 header ≡ (gmtime t.sec).tm_sec =
        at 12 6 (omega arith) (omega arith) in
      let msec : short_at 14 header ≡ t.msec = at 14 7 (omega arith) (omega arith) in
      let seconds : get_packet_time timegm header ≡ t.sec =
        simp (year, month, day, hour, minute, second, get_packet_time) (inverse t.sec) in
      (
        ap₂ (λ s ms. record { sec = s; msec = ms }) seconds msec,
        seconds,
        ap₂ (λ s ms. milliseconds s +ℤ ms) seconds msec,
      )
