-- ===== src/Time/Tests.antt =====
-- Tests of the model of src/time.c.
use sdrproxy.Prelude.{◌≡◌, refl, arith, replicate, ℤ, pos, ◌+ℤ◌}
use sdrproxy.Client.{Tm, get_packet_time, decode_pkt_time, milliseconds}
use sdrproxy.Time.{MsTime, data_hdr_to_timeval, timeval_to_data_hdr}
use sdrproxy.Time.RoundTrip.{timeval-header}

-- The times of the first minute of 2024.
abbrev first_minute : ℤ → Tm
first_minute t = record {
  tm_year = pos 124;
  tm_mon = pos 0;
  tm_mday = pos 1;
  tm_hour = pos 0;
  tm_min = pos 0;
  tm_sec = t;
}

abbrev second_of : Tm → ℤ
second_of tm = tm.tm_sec

abbrev some_time : MsTime
some_time = record { sec = pos 42; msec = pos 7 }

timeval-header_example :
    let header = timeval_to_data_hdr first_minute some_time (replicate 16 0) in
    (data_hdr_to_timeval second_of header ≡ some_time)
    × (get_packet_time second_of header ≡ pos 42)
    × (decode_pkt_time second_of header ≡ milliseconds (pos 42) +ℤ pos 7)
unfolding ◌+ℤ◌
timeval-header_example =
    timeval-header second_of first_minute (λ t. refl) some_time (replicate 16 0)
      (
        omega arith,
        (
          omega arith,
          (
            omega arith,
            (omega arith, (omega arith, (omega arith, (omega arith, (omega arith, tt))))),
          ),
        ),
      )
      (omega arith)
