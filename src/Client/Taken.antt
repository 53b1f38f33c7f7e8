-- ===== src/Client/Taken.antt =====
-- What a round of `check_data` of src/client.c takes off the ring.
use sdrproxy.Prelude.{
  ℕ, ◌+◌, ◌≤◌, ◌<◌, ◌≡◌, refl, ap, arith, Bool, true, false, ◌&&◌, ◌||◌, Bool-cases, inl, inr,
  Option-cases, List, length, get_or, take, length-drop, ltb, leb_no, le→leb, ltb_no, lt→ltb, ◌==◌,
  if◌then◌else◌, ℤ, pos, pos_part, neg_part, ltb_ℤ,
}
use native.Mathlib.Decide.{dec_lt, dec_le}
use sdrproxy.Memory.{slice}
use sdrproxy.Buffer.{RingSet, bytes_stored, retr, delete, view}
use sdrproxy.Buffer.Valid.{IsValid}
use sdrproxy.Buffer.Contents.{contents}
use sdrproxy.Buffer.Take.{length-contents, retr-contents, retr-some, delete-contents}
use sdrproxy.Util.{ChannelInfo, do_crc, load}
use sdrproxy.Databfr.{Outcome, done, fault, failed, blocked, ◌>>=◌}
use sdrproxy.Databfr.Ops.{Allocator, Reply}
use sdrproxy.Channels.{get_chan_info, read_chan_info}
use sdrproxy.Client.{
  Tm, ClientData, add_to_data_ring, process_packet, take_packet, read_packet, read_pre_hdr,
  get_adc_data, adctoken, bfrsize, is_string, found, check_found,
}

module _ {r : RingSet} (v : IsValid r) where
  retr-stored :
      (n : ℕ)
      → n ≤ bytes_stored r
      → IsValid (retr n r).1 × (bytes_stored (retr n r).1 + n ≡ bytes_stored r)
  retr-stored n held =
      let (v', left) = retr-contents v n held in
      (
        v',
        omega (
          arith,
          length-contents v,
          length-contents v',
          ap length left,
          length-drop n (contents r),
        ),
      )

  delete_short : (n : ℕ) → bytes_stored r < n → (delete (pos n) r).1 ≡ r
  unfolding delete
  delete_short n short = rw (lt→ltb 0 n (omega arith), lt→ltb (bytes_stored r) n short, delete) refl

  -- A removal of bytes before something, if there are any, leaves no more than there was.
  front-stored :
      (n : ℕ)
      → let front = if ltb 0 n then (delete (pos n) r).1 else r in
        IsValid front × (bytes_stored front ≤ bytes_stored r)
  front-stored n = elim (dec_lt 0 n) [
    | no empty ↦ rw (ltb_no 0 n (omega arith)) (v, omega arith)
    | yes asked ↦ rw (lt→ltb 0 n asked) (elim (dec_le n (bytes_stored r)) [
      | yes held ↦
          let (v', left) = delete-contents v n asked held in
          (
            v',
            omega (
              arith,
              length-contents v,
              length-contents v',
              ap length left,
              length-drop n (contents r),
            ),
          )
      | no short ↦ rw (delete_short n (omega arith)) (v, omega arith)
    ])
  ]

module _ (old : ChannelInfo) {r : RingSet} (v : IsValid r) where
  read_chan_info-stored :
      let ((ret, got), r') = read_chan_info old r in
      IsValid r' × (ret ≡ pos 0 → bytes_stored r' < bytes_stored r)
  unfolding read_chan_info
  read_chan_info-stored = elim (dec_le 25 (bytes_stored r)) [
    | yes held ↦
        let (v', left) = retr-stored v 25 held in
        rw (le→leb 25 (bytes_stored r) held, retr-some v 25 held) (v', λ _. omega arith)
    | no short ↦
        rw (leb_no 25 (bytes_stored r) (omega arith))
          (v, λ e. let other = ap neg_part e in omega arith)
  ]

pub get_chan_info-stored :
    (index : ℕ) (old : ChannelInfo) {r : RingSet}
    → IsValid r
    → let ((ret, got), r') = get_chan_info index old r in
      IsValid r' × (ret ≡ pos 0 → bytes_stored r' < bytes_stored r)
unfolding get_chan_info
get_chan_info-stored index old {r} v =
    let (v', less) = front-stored v index in
    let (v'', shorter) = read_chan_info-stored old v' in
    (v'', λ e. let h = shorter e in omega arith)

pub or_false : (p q : Bool) → (p || q) ≡ false → (p ≡ false) × (q ≡ false)
or_false true q e = cc
or_false false q e = (refl, e)

-- What a call leaves of the ring, if it returns: if it returns 0, fewer bytes than `n`.
abbrev pub Shrinks : ℕ → Outcome (ℤ × ClientData) → Type 0
Shrinks n (done (ret, d)) = IsValid d.ring × (ret ≡ pos 0 → bytes_stored d.ring < n)
Shrinks n fault = Unit {0}
Shrinks n failed = Unit {0}
Shrinks n blocked = Unit {0}

Shrinks-le : (n n' : ℕ) (o : Outcome (ℤ × ClientData)) → n ≤ n' → Shrinks n o → Shrinks n' o
Shrinks-le n n' (done (ret, d)) h (v, less) = (v, λ e. let h' = less e in omega arith)
Shrinks-le n n' fault h s = tt
Shrinks-le n n' failed h s = tt
Shrinks-le n n' blocked h s = tt

module _ (timegm : Tm → ℤ) (m : Allocator) (c : ChannelInfo) where
  process_packet-Shrinks :
      (n : ℕ) (bytes : List ℕ) (d : ClientData)
      → IsValid d.ring
      → bytes_stored d.ring < n
      → Shrinks n (process_packet timegm m c bytes d)
  unfolding process_packet
  process_packet-Shrinks n bytes d v less =
      by_case
        ((do_crc 0 (slice 4 (d.pre_hdr.datalen + 3) bytes)
            == get_or bytes (d.pre_hdr.datalen + 7) 0)
          && (d.pre_hdr.type == 3))
        (add_to_data_ring timegm m c bytes (8 + d.pre_hdr.datalen) d.data_ring)
    where
      by_case :
          (b : Bool) (o : Outcome Reply)
          → Shrinks n (
              if b
              then (o >>= λ r.
                  done (pos 0, record d { packet_id = load 4 24 bytes; data_ring = r.2 }))
              else done (pos 0, d))
      by_case false o = (v, λ e. less)
      by_case true (done r) = (v, λ e. less)
      by_case true fault = tt
      by_case true failed = tt
      by_case true blocked = tt

  take_packet-Shrinks :
      (d : ClientData) → IsValid d.ring → Shrinks (bytes_stored d.ring) (take_packet timegm m c d)
  unfolding take_packet
  take_packet-Shrinks d v =
      let n = 8 + d.pre_hdr.datalen in
      elim (dec_le n (bytes_stored d.ring)) [
        | no short ↦
            rw (leb_no n (bytes_stored d.ring) (omega arith), take_packet)
              (v, λ e. let other = ap neg_part e in omega arith)
        | yes held ↦
            let (v', left) = retr-stored v n held in
            elim (Bool-cases (ltb bfrsize n)) [
              | inl long ↦ rw (le→leb n (bytes_stored d.ring) held, long, take_packet) tt
              | inr fits ↦
                  rw (le→leb n (bytes_stored d.ring) held, fits, retr-some v n held, take_packet)
                    (process_packet-Shrinks (bytes_stored d.ring) (take n (contents d.ring))
                      (record d { ring = (retr n d.ring).1 }) v' (omega arith))
            ]
      ]

  read_packet-Shrinks :
      (d : ClientData) → IsValid d.ring → Shrinks (bytes_stored d.ring) (read_packet timegm m c d)
  unfolding read_packet
  read_packet-Shrinks d v = elim (Bool-cases (ltb 8 (bytes_stored d.ring))) [
    | inr few ↦ rw (few, read_packet) (v, λ e. let other = ap neg_part e in omega arith)
    | inl enough ↦ elim (Option-cases (view 8 d.ring)) [
      | inl nothing ↦ rw (enough, nothing, read_packet) tt
      | inr (bytes, there) ↦ elim (Bool-cases (is_string bytes adctoken)) [
        | inl same ↦ rw (enough, there, same, read_packet) tt
        | inr differs ↦
            rw (enough, there, differs, read_packet)
              (take_packet-Shrinks (record d { pre_hdr = read_pre_hdr bytes }) v)
      ]
    ]
  ]

  get_adc_data-Shrinks :
      (index : ℕ) (d : ClientData)
      → IsValid d.ring
      → Shrinks (bytes_stored d.ring) (get_adc_data timegm m c index d)
  unfolding get_adc_data
  get_adc_data-Shrinks index d v =
      let front = if ltb 0 index then (delete (pos index) d.ring).1 else d.ring in
      let (v', less) = front-stored v index in
      Shrinks-le (bytes_stored front) (bytes_stored d.ring)
        (read_packet timegm m c (record d { ring = front })) less
        (read_packet-Shrinks (record d { ring = front }) v')

  pub check_found-Shrinks :
      (chanidx adcidx : ℤ) (d : ClientData)
      → IsValid d.ring
      → (found chanidx || found adcidx) ≡ true
      → Shrinks (bytes_stored d.ring) (check_found timegm m c chanidx adcidx d)
  unfolding check_found
  check_found-Shrinks chanidx adcidx d v some_found =
      by_case (found chanidx) (found adcidx) (ltb_ℤ chanidx adcidx) some_found
    where
      info_taken : Outcome (ℤ × ClientData)
      info_taken =
          let (info, rest) = get_chan_info (pos_part chanidx) d.new_channel_info d.ring in
          done (info.0, record d { new_channel_info = info.1; ring = rest })

      taken : Shrinks (bytes_stored d.ring) info_taken
      taken = get_chan_info-stored (pos_part chanidx) d.new_channel_info v

      packet : Shrinks (bytes_stored d.ring) (get_adc_data timegm m c (pos_part adcidx) d)
      packet = get_adc_data-Shrinks (pos_part adcidx) d v

      by_case :
          (a b first : Bool)
          → (a || b) ≡ true
          → Shrinks (bytes_stored d.ring) (
              if a && first
              then info_taken
              else (if b
                  then get_adc_data timegm m c (pos_part adcidx) d
                  else (if a then info_taken else done (pos 0, d))))
      by_case true b true e = taken
      by_case true true false e = packet
      by_case true false false e = taken
      by_case false true first e = packet
      by_case false false first e = cc
