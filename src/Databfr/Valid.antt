-- ===== src/Databfr/Valid.antt =====
-- The invariant of the data ring of src/databfr.c, and the packets that it holds, oldest first.
use sdrproxy.Prelude.{ℕ, ◌≤◌, ◌<◌, ◌≡◌, List, true, length, tabulate, ◌<ℤ◌}
use sdrproxy.Memory.{slice}
use sdrproxy.Databfr.{DataRing, DataStore, datasize}
use sdrproxy.Databfr.Rotate.{place}
use sdrproxy.Databfr.Spec.{Packet, time}

-- What `retr_element` gives for a pointer's target.
abbrev pub packet : DataStore → Packet
packet d = (d.packet_info, slice 0 d.packet_info.packet_len d.sdr_packet)

module _ (s : DataRing) where
  abbrev pub slot : ℕ → DataStore
  slot k = s.store (s.data_store_g (place s.datar_start k))

  -- The packet `k` places after the oldest.
  abbrev pub packet_at : ℕ → Packet
  packet_at k = packet (slot k)

  abbrev pub contents : List Packet
  contents = tabulate s.datar_cnt packet_at

-- `size` is the memory allocated for a packet. The pointers differ, so that a write through one
-- changes no other packet.
pub record IsValid (size : ℕ) (s : DataRing) : Type 0 where
  pub start_in : s.datar_start < datasize
  pub count_in : s.datar_cnt ≤ datasize
  pub end_at : s.datar_end ≡ place s.datar_start s.datar_cnt
  pub is_live : s.live ≡ true
  pub distinct :
      (i j : ℕ) → i < datasize → j < datasize → s.data_store_g i ≡ s.data_store_g j → i ≡ j
  pub roomy : (i : ℕ) → i < datasize → length (s.store (s.data_store_g i)).sdr_packet ≡ size
  pub fits : (k : ℕ) → k < s.datar_cnt → (slot s k).packet_info.packet_len ≤ size
  pub sorted : (i j : ℕ) → i < j → j < s.datar_cnt → time (packet_at s i) <ℤ time (packet_at s j)
