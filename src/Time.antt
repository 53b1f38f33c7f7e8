-- ===== src/Time.antt =====
-- The conversions of src/time.c between times and the header of a packet. `timegm` and `gmtime_r` are
-- parameters.
pub mod RoundTrip
mod Tests
use sdrproxy.Prelude.{
  ℕ, ◌+◌, ◌-◌, ◌/◌, ◌%◌, List, [], ◌∷◌, set, ltb_ℤ, if◌then◌else◌, ℤ, pos, negsuc, ◌+ℤ◌,
}
use sdrproxy.Client.{Tm, short_at}

-- `struct mstime`
pub record MsTime : Type 0 where
  pub sec : ℤ
  pub msec : ℤ

-- A number stored in a `short`: its low sixteen bits.
unfoldable pub low_bits : ℤ → ℕ
low_bits (pos n) = n % 65536
low_bits (negsuc n) = 65535 - n % 65536

-- `short`s of an array, one after the other from a byte on, the low byte first.
unfoldable pub put_short : ℕ → ℤ → List ℕ → List ℕ
put_short at v bytes = set (set bytes at (low_bits v % 256)) (at + 1) (low_bits v / 256)

unfoldable pub put_shorts : ℕ → List ℤ → List ℕ → List ℕ
put_shorts at [] bytes = bytes
put_shorts at (v ∷ vs) bytes = put_shorts (at + 2) vs (put_short at v bytes)

-- `data_hdr_to_timeval`; `sbuf[i]` is the `short` at byte 2 * i.
unfoldable pub data_hdr_to_timeval : (Tm → ℤ) → List ℕ → MsTime
data_hdr_to_timeval timegm bfr = record {
  sec = timegm (record {
    tm_year = short_at 0 bfr +ℤ negsuc 1899;
    tm_mon = short_at 2 bfr +ℤ negsuc 0;
    tm_mday = short_at 6 bfr;
    tm_hour = short_at 8 bfr;
    tm_min = short_at 10 bfr;
    tm_sec = short_at 12 bfr;
  });
  msec = short_at 14 bfr;
}

-- What `timeval_to_data_hdr` assigns to `sbuf[0]` up to `sbuf[7]`.
abbrev pub header_values : Tm → ℤ → List ℤ
header_values ptime msec =
    (ptime.tm_year +ℤ pos 1900)
    ∷ (ptime.tm_mon +ℤ pos 1)
    ∷ pos 0
    ∷ ptime.tm_mday
    ∷ ptime.tm_hour
    ∷ ptime.tm_min
    ∷ ptime.tm_sec
    ∷ msec
    ∷ []

-- `timeval_to_data_hdr`
unfoldable pub timeval_to_data_hdr : (ℤ → Tm) → MsTime → List ℕ → List ℕ
timeval_to_data_hdr gmtime data_time bfr =
    put_shorts 0 (header_values (gmtime data_time.sec) data_time.msec) bfr

-- `cmp_pkt_time`
unfoldable pub cmp_pkt_time : ℤ → ℤ → ℤ
cmp_pkt_time a b = if ltb_ℤ b a then pos 1 else (if ltb_ℤ a b then negsuc 0 else pos 0)
