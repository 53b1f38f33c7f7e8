-- ===== src/Client/Refused.antt =====
-- The test of the token in `get_adc_data` of src/client.c.
use sdrproxy.Prelude.{
  ℕ, ◌≤◌, ◌<◌, ◌≡◌, refl, ap, ◌∙◌, arith, List, [], ◌∷◌, ◌++◌, length, length-append, drop,
  drop-append_length, ltb_no, lt→ltb, ℤ, pos,
}
use sdrproxy.Buffer.{bytes_stored, view, delete}
use sdrproxy.Buffer.Valid.{IsValid}
use sdrproxy.Buffer.Contents.{contents, copy_bytes-take}
use sdrproxy.Buffer.Take.{length-contents, delete-contents}
use sdrproxy.Util.{ChannelInfo}
use sdrproxy.Databfr.{failed}
use sdrproxy.Databfr.Ops.{Allocator}
use sdrproxy.Client.{Tm, ClientData, adctoken, is_string, read_packet, get_adc_data}

module _ (timegm : Tm → ℤ) (m : Allocator) (c : ChannelInfo) where
  read_packet-failed :
      (d : ClientData) (rest : List ℕ)
      → IsValid d.ring
      → contents d.ring ≡ adctoken ++ (0 ∷ rest)
      → 4 ≤ length rest
      → read_packet timegm m c d ≡ failed
  unfolding read_packet view is_string
  read_packet-failed d rest v held long =
      let enough : 8 < bytes_stored d.ring = omega (arith, length-contents v, ap length held) in
      rw
        (
          lt→ltb 8 (bytes_stored d.ring) enough,
          ltb_no (bytes_stored d.ring) 8 (omega arith),
          copy_bytes-take v 8 (omega arith),
          held,
          read_packet,
        )
        refl

  -- On a valid receive ring, get_adc_data ends the program in fail for a packet whose length has a
  -- low byte of 0, once at least nine of its bytes are on the ring, whatever stands before it.
  pub get_adc_data-failed :
      (d : ClientData) (before rest : List ℕ)
      → IsValid d.ring
      → contents d.ring ≡ before ++ (adctoken ++ (0 ∷ rest))
      → 4 ≤ length rest
      → get_adc_data timegm m c (length before) d ≡ failed
  unfolding get_adc_data
  get_adc_data-failed d [] rest v held long = read_packet-failed d rest v held long
  get_adc_data-failed d (b ∷ before) rest v held long =
      let n = length (b ∷ before) in
      let room : n ≤ bytes_stored d.ring = omega (
        arith,
        length-contents v,
        ap length held,
        length-append (b ∷ before) (adctoken ++ (0 ∷ rest)),
      ) in
      let (v', left) = delete-contents v n (omega arith) room in
      rw (lt→ltb 0 n (omega arith)) (
        read_packet-failed (record d { ring = (delete (pos n) d.ring).1 }) rest v'
          (left
            ∙ ap (drop n) held
            ∙ drop-append_length (b ∷ before) (adctoken ++ (0 ∷ rest)) n refl)
          long)
