-- ===== src/Channels.antt =====
-- The channel information: what `sscanf` makes of it, `check_channel_info` and `get_chan_info` of
-- src/client.c, `find_chan_info` of src/buffer.c.
pub mod RoundTrip
mod Tests
use sdrproxy.Prelude.{
  ℕ, zero, suc, ◌+◌, ◌-◌, ◌*◌, Bool, true, false, ◌&&◌, ◌||◌, Option, none, some, List, [], ◌∷◌,
  ltb, leb, drop, ◌==◌, if◌then◌else◌, ℤ, pos, negsuc, sub_ℕ, pos_part, ltb_ℤ, eqb_ℤ,
}
use sdrproxy.Buffer.{RingSet, bytes_stored}
use sdrproxy.Buffer
use sdrproxy.Buffer.Search.{search_ring}
use sdrproxy.Util.{ChannelInfo}

-- A part of the format of `sscanf`: a character, white space, or "%d".
pub data Directive : Type 0 where
  literal : ℕ → Directive
  space number : Directive

-- CHANINFOSCANFMT, "SPS: %d Chans: %d Type: %d ", and CHANTOKEN, "SPS: "
abbrev pub chaninfoscanfmt : List Directive
chaninfoscanfmt =
    literal 83
    ∷ literal 80
    ∷ literal 83
    ∷ literal 58
    ∷ space
    ∷ number
    ∷ space
    ∷ literal 67
    ∷ literal 104
    ∷ literal 97
    ∷ literal 110
    ∷ literal 115
    ∷ literal 58
    ∷ space
    ∷ number
    ∷ space
    ∷ literal 84
    ∷ literal 121
    ∷ literal 112
    ∷ literal 101
    ∷ literal 58
    ∷ space
    ∷ number
    ∷ space
    ∷ []

abbrev pub chantoken : List ℕ
chantoken = 83 ∷ 80 ∷ 83 ∷ 58 ∷ 32 ∷ []

abbrev pub chaninfolen : ℕ
chaninfolen = 25

abbrev pub maxchannels : ℕ
maxchannels = 8

-- `isspace`
abbrev pub is_space : ℕ → Bool
is_space b = (b == 32) || (leb 9 b && leb b 13)

abbrev pub is_digit : ℕ → Bool
is_digit b = leb 48 b && leb b 57

unfoldable pub skip_space : List ℕ → List ℕ
skip_space [] = []
skip_space (b ∷ bytes) = if is_space b then skip_space bytes else b ∷ bytes

-- The digits at the front, after a value read so far; `some_read` says that there was one.
unfoldable pub scan_digits : ℕ → Bool → List ℕ → Option (ℕ × List ℕ)
scan_digits value some_read [] = if some_read then some (value, []) else none
scan_digits value some_read (b ∷ bytes) =
    if is_digit b
    then scan_digits (10 * value + (b - 48)) true bytes
    else (if some_read then some (value, b ∷ bytes) else none)

abbrev signed : (ℕ → ℤ) → Option (ℕ × List ℕ) → Option (ℤ × List ℕ)
signed sign none = none
signed sign (some (value, rest)) = some (sign value, rest)

-- "%d". A value that is no `int` is undefined there; here it is the value, which
-- `check_channel_info` refuses.
unfoldable pub scan_number : List ℕ → Option (ℤ × List ℕ)
scan_number [] = none
scan_number (b ∷ bytes) =
    if b == 45
    then signed (λ n. sub_ℕ 0 n) (scan_digits 0 false bytes)
    else (if b == 43
        then signed pos (scan_digits 0 false bytes)
        else signed pos (scan_digits 0 false (b ∷ bytes)))

-- `sscanf`: the values stored, up to the first directive that does not match.
unfoldable pub sscanf : List Directive → List ℕ → List ℤ
sscanf [] bytes = []
sscanf (literal c ∷ format) [] = []
sscanf (literal c ∷ format) (b ∷ bytes) = if b == c then sscanf format bytes else []
sscanf (space ∷ format) bytes = sscanf format (skip_space bytes)
sscanf (number ∷ format) bytes = elim (scan_number (skip_space bytes)) [
  | none ↦ []
  | some (value, rest) ↦ value ∷ sscanf format rest
]

-- The `for` of `check_channel_info` over `valid_sps`.
unfoldable pub is_one_of : List ℕ → ℤ → Bool
is_one_of [] sps = false
is_one_of (valid ∷ others) sps = if eqb_ℤ sps (pos valid) then true else is_one_of others sps

abbrev pub valid_sps : List ℕ
valid_sps = 10 ∷ 20 ∷ 25 ∷ 50 ∷ 100 ∷ 200 ∷ 500 ∷ []

-- `check_channel_info`; `true` is its 0.
unfoldable pub check_channel_info : ℤ → ℤ → ℤ → Bool
check_channel_info sps chans type =
    if ltb_ℤ chans (pos 1) || ltb_ℤ (pos maxchannels) chans
    then false
    else (if ltb_ℤ type (pos 1) || ltb_ℤ (pos 9) type then false else is_one_of valid_sps sps)

-- What `get_chan_info` makes of the values that were scanned.
unfoldable pub checked_info : List ℤ → Option ChannelInfo
checked_info (sps ∷ chans ∷ type ∷ []) =
    if check_channel_info sps chans type
    then some (record { sps = pos_part sps; num_channels = pos_part chans; type = pos_part type })
    else none
checked_info _ = none

abbrev of_info : Option ChannelInfo → ChannelInfo → ℤ × ChannelInfo
of_info none new_channel_info = (negsuc 0, new_channel_info)
of_info (some info) new_channel_info = (pos 0, info)

-- `get_chan_info` once nothing stands before the token: its return, `*new_channel_info` and the ring.
unfoldable pub read_chan_info : ChannelInfo → RingSet → (ℤ × ChannelInfo) × RingSet
read_chan_info new_channel_info ring =
    let (rcv_bfr, rest) = Buffer.retr chaninfolen ring in
    if leb chaninfolen (bytes_stored ring)
    then elim rcv_bfr [
      | none ↦ ((negsuc 0, new_channel_info), rest)
      | some bytes ↦ (of_info (checked_info (sscanf chaninfoscanfmt bytes)) new_channel_info, rest)
    ]
    else ((negsuc 0, new_channel_info), ring)

-- `get_chan_info`
unfoldable pub get_chan_info : ℕ → ChannelInfo → RingSet → (ℤ × ChannelInfo) × RingSet
get_chan_info index new_channel_info ring =
    read_chan_info new_channel_info
      (if ltb 0 index then (Buffer.delete (pos index) ring).1 else ring)

abbrev three_values : List ℤ → Bool
three_values (a ∷ b ∷ c ∷ []) = true
three_values _ = false

-- What `find_chan_info` does with the place of the token.
unfoldable pub token_found : ℤ → RingSet → ℤ
token_found (negsuc n) ring = negsuc n
token_found (pos chanidx) ring =
    if ltb (bytes_stored ring) (chanidx + chaninfolen)
    then negsuc 0
    else elim (Buffer.view (chanidx + chaninfolen) ring) [
      | none ↦ negsuc 0
      | some temp_bfr ↦
          if three_values (sscanf chaninfoscanfmt (drop chanidx temp_bfr))
          then pos chanidx
          else negsuc 0
    ]

-- `find_chan_info`
unfoldable pub find_chan_info : RingSet → ℤ
find_chan_info ring = token_found (search_ring chantoken ring) ring
