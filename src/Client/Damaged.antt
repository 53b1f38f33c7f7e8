-- ===== src/Client/Damaged.antt =====
-- A packet of which a byte has changed on its way, in `get_adc_data` of src/client.c.
use sdrproxy.Prelude.{
  ℕ, zero, suc, ◌+◌, ◌≤◌, ◌<◌, ◌≡◌, ◌≢◌, refl, sym, ap, ◌∙◌, arith, List, [], ◌∷◌, length, get_or,
  get_or-set_self, get_or-set_ne, set, take, drop, ne→==, ℤ, pos,
}
use native.Mathlib.Decide.{dec_lt}
use sdrproxy.Memory.{slice, length-slice, get_or-slice}
use sdrproxy.Util.{ChannelInfo, load, do_crc}
use sdrproxy.Util.Crc.{do_crc-set}
use sdrproxy.Databfr.{done}
use sdrproxy.Databfr.Ops.{Allocator}
use sdrproxy.Client.{Tm, ClientData, process_packet}
use sdrproxy.Client.Stored.{IsPacket, load-same}

module _ {A : Type 0} where
  drop-set : (n : ℕ) (xs : List A) (i : ℕ) (v : A) → drop n (set xs (n + i) v) ≡ set (drop n xs) i v
  drop-set zero xs i v = ap (λ k. set xs k v) {x = 0 + i} (omega arith)
  drop-set (suc n) [] i v = refl
  drop-set (suc n) (x ∷ xs) i v =
      ap (λ k. drop (suc n) (set (x ∷ xs) k v)) {x = suc n + i} {y = suc (n + i)} (omega arith)
      ∙ drop-set n xs i v

  take-set : (n : ℕ) (xs : List A) (i : ℕ) (v : A) → take n (set xs i v) ≡ set (take n xs) i v
  take-set zero xs i v = refl
  take-set (suc n) [] i v = refl
  take-set (suc n) (x ∷ xs) zero v = refl
  take-set (suc n) (x ∷ xs) (suc i) v = ap (λ l. x ∷ l) (take-set n xs i v)

  set_beyond : (xs : List A) (i : ℕ) (v : A) → length xs ≤ i → set xs i v ≡ xs
  set_beyond [] i v h = refl
  set_beyond (x ∷ xs) zero v h = absurd (omega arith)
  set_beyond (x ∷ xs) (suc i) v h = ap (λ l. x ∷ l) (set_beyond xs i v (omega arith))

slice-set : (at n i v : ℕ) (xs : List ℕ) → slice at n (set xs (at + i) v) ≡ set (slice at n xs) i v
unfolding slice
slice-set at n i v xs = ap (take n) (drop-set at xs i v) ∙ take-set n (drop at xs) i v

module _ (timegm : Tm → ℤ) (m : Allocator) (c : ChannelInfo) (packet : List ℕ)
    (good : IsPacket packet) where
  abbrev checked_bytes : ℕ
  checked_bytes = load 2 4 packet + 3

  crc-differs :
      (i b : ℕ)
      → 4 + i < length packet
      → get_or packet (4 + i) 0 ≢ b
      → do_crc 0 (slice 4 checked_bytes (set packet (4 + i) b))
        ≢ get_or (set packet (4 + i) b) (load 2 4 packet + 7) 0
  crc-differs i b h d = elim (dec_lt i checked_bytes) [
    | yes inside ↦ λ e.
        do_crc-set (slice 4 checked_bytes packet) 0 i b
          (omega (arith, length-slice 4 checked_bytes packet (omega (arith, good.whole))))
          (λ same. d (sym (get_or-slice 4 checked_bytes packet i inside) ∙ same))
          (ap (do_crc 0) (sym (slice-set 4 checked_bytes i b packet))
            ∙ e
            ∙ get_or-set_ne packet (4 + i) (load 2 4 packet + 7) b 0 (omega arith)
            ∙ sym good.checked)
    | no behind ↦ λ e.
        let last : 4 + i ≡ load 2 4 packet + 7 = omega (arith, good.whole) in
        d (
          ap (λ k. get_or packet k 0) last
          ∙ sym good.checked
          ∙ ap (do_crc 0) (
              sym (
                set_beyond (slice 4 checked_bytes packet) i b
                  (omega (arith, length-slice 4 checked_bytes packet (omega (arith, good.whole)))))
              ∙ sym (slice-set 4 checked_bytes i b packet))
          ∙ e
          ∙ ap (λ k. get_or (set packet (4 + i) b) k 0) (sym last)
          ∙ get_or-set_self packet (4 + i) b 0 h)
  ]

  -- A good packet of samples of which one byte behind the length of its preheader, the CRC byte
  -- included, has another value when it arrives is not stored: process_packet returns with the data
  -- ring, the packet's id and all else as they were.
  pub process_packet-refused :
      (i b : ℕ) (d : ClientData)
      → 2 ≤ i
      → 4 + i < length packet
      → get_or packet (4 + i) 0 ≢ b
      → d.pre_hdr.datalen ≡ load 2 4 (set packet (4 + i) b)
      → process_packet timegm m c (set packet (4 + i) b) d ≡ done (pos 0, d)
  unfolding process_packet
  process_packet-refused i b d later h differs len =
      let bad = ne→== _ _ (crc-differs i b h differs) in
      let same_length : load 2 4 (set packet (4 + i) b) ≡ load 2 4 packet =
        load-same 2 4 (set packet (4 + i) b) packet
          (λ j l u. get_or-set_ne packet (4 + i) j b 0 (omega arith)) in
      simp (len ∙ same_length, bad, process_packet) refl
