-- ===== src/Main/Tests.antt =====
-- The threads of src/main.c, with channel information that has just come.
use sdrproxy.Prelude.{
  ℕ, ◌≡◌, ◌⊎◌, refl, true, false, some, List, [], ◌∷◌, replicate, length-replicate,
}
use sdrproxy.Util.{ChannelInfo}
use sdrproxy.Databfr.Alloc.{Serves}
use sdrproxy.Databfr.Tests.{ring_of, allocator, channels}
use sdrproxy.Main.{
  watching, elsewhere, checking, System, start, client_reads, client_notifies, Reach, here, next,
  reallocate, main_start,
}
use sdrproxy.Main.Order.{is_reallocating, is_storing, is_allocated, IsAlone, Reach-IsAlone}
use sdrproxy.Main.Change.{change-completes, change-lost, Anew, reallocate-Anew}
use sdrproxy.Main.Start.{Starts, main_start-Starts}

abbrev zeros : ChannelInfo
zeros = record { sps = 0; num_channels = 0; type = 0 }

abbrev others : ChannelInfo
others = record { sps = 50; num_channels = 2; type = 2 }

-- The client's thread has checked once, and has received channel information.
abbrev announced : System
announced = record (start zeros) { chanchange = true; chan_info = channels }

to_announced : Reach (start zeros) announced
to_announced =
    next (next here (client_reads (start zeros) refl))
      (client_notifies (record (start zeros) { client = checking false }) false channels refl)

Reach-IsAlone_example :
    (is_reallocating announced.main ≡ true → IsAlone announced)
    × (((is_storing announced.client ≡ true) ⊎ (announced.serving ≡ true))
        → is_allocated announced.memory ≡ true)
Reach-IsAlone_example = Reach-IsAlone zeros announced to_announced

change-completes_example :
    (t : System) × (Reach announced t
      × (t.main ≡ watching)
      × (t.chanchange ≡ false)
      × (t.serving ≡ true)
      × (t.client ≡ elsewhere)
      × (t.chan_info_g ≡ channels)
      × (t.memory ≡ some channels))
change-completes_example = change-completes announced refl refl

change-lost_example :
    (t : System) × (Reach announced t
      × (t.main ≡ watching)
      × (t.chanchange ≡ false)
      × (t.serving ≡ true)
      × (t.client ≡ elsewhere)
      × (t.chan_info_g ≡ others)
      × (t.memory ≡ some channels))
change-lost_example = change-lost announced refl refl others refl

serves : Serves allocator (λ i. i) (λ i n. replicate n 0)
serves = record {
  gives = λ i. refl;
  gives_bytes = λ i n. refl;
  differ = λ i j e. e;
  enough = λ i n. length-replicate {A = ℕ} n 0;
}

reallocate-Anew_example :
    Anew allocator
      (λ i. i)
      (λ i n. replicate n 0)
      serves
      channels
      (reallocate allocator channels (ring_of 2))
reallocate-Anew_example =
    reallocate-Anew allocator (λ i. i) (λ i n. replicate n 0) serves channels (ring_of 2) refl refl

-- Of "256" the low byte is taken, which is a client number.
abbrev arguments : List (List ℕ)
arguments = (115 ∷ []) ∷ (104 ∷ []) ∷ (112 ∷ []) ∷ (50 ∷ 53 ∷ 54 ∷ []) ∷ []

main_start-Starts_example :
    Starts allocator
      (λ i. i)
      (λ i n. replicate n 0)
      serves
      true
      zeros
      arguments
      (main_start allocator true zeros arguments (ring_of 2))
main_start-Starts_example =
    main_start-Starts allocator (λ i. i) (λ i n. replicate n 0) serves true zeros arguments
      (ring_of 2) refl
