-- ===== src/Channels/Tests.antt =====
-- The channel information of 100 samples of 4 channels, on a ring.
use sdrproxy.Prelude.{◌≡◌, refl, arith, [], ◌∷◌, ◌++◌}
use sdrproxy.Buffer.{RingSet, bytes_stored}
use sdrproxy.Buffer.Valid.{IsValid}
use sdrproxy.Buffer.Contents.{contents}
use sdrproxy.Util.{ChannelInfo}
use sdrproxy.Server.{print_chan_info, decimal, pad}
use sdrproxy.Channels.{check_channel_info, is_one_of, get_chan_info}
use sdrproxy.Channels.RoundTrip.{IsKnown, Reads, get_chan_info-print_chan_info}

abbrev channels : ChannelInfo
channels = record { sps = 100; num_channels = 4; type = 4 }

-- A byte, then "SPS: 100 Chans: 4 Type: 4", then a byte.
abbrev announced : RingSet
announced = record {
  readptr = 0;
  writeptr = 27;
  bfrsize = 28;
  ring =
      7 ∷ 83 ∷ 80 ∷ 83 ∷ 58 ∷ 32 ∷ 49 ∷ 48 ∷ 48 ∷ 32 ∷ 67 ∷ 104 ∷ 97 ∷ 110 ∷ 115 ∷ 58 ∷ 32 ∷ 52 ∷ 32
      ∷ 84 ∷ 121 ∷ 112 ∷ 101 ∷ 58 ∷ 32 ∷ 52 ∷ 9 ∷ 0 ∷ [];
}

announced-IsValid : IsValid announced
announced-IsValid = record { read_in = omega arith; write_in = omega arith; whole = refl }

known : IsKnown channels
unfolding check_channel_info is_one_of
known = refl

contents-announced : contents announced ≡ (7 ∷ []) ++ (print_chan_info channels ++ (9 ∷ []))
unfolding bytes_stored print_chan_info decimal pad
contents-announced = refl

get_chan_info-print_chan_info_example :
    Reads channels known
      (9 ∷ [])
      (get_chan_info 1 (record { sps = 0; num_channels = 0; type = 0 }) announced)
get_chan_info-print_chan_info_example =
    get_chan_info-print_chan_info channels known (7 ∷ []) (9 ∷ [])
      (record { sps = 0; num_channels = 0; type = 0 }) announced-IsValid contents-announced
