-- ===== src/Databfr/Tests.antt =====
-- The data ring of src/databfr.c on small rings.
use sdrproxy.Prelude.{
  ℕ, ◌+◌, ◌*◌, ◌<◌, ◌≡◌, refl, inl, arith, true, false, some, List, [], ◌∷◌, replicate,
  length-replicate, pos,
}
use sdrproxy.Buffer.{ring_elements_stored, ring_store}
use sdrproxy.Util.{ChannelInfo}
use sdrproxy.Databfr.{PacketInfo, DataStore, DataRing, done, blocked, search_data_bfr, store_packet}
use sdrproxy.Databfr.Valid.{IsValid, contents}
use sdrproxy.Databfr.Search.{Locates, search_data_bfr-Locates}
use sdrproxy.Databfr.Store.{Stores, store_packet-Stores}
use sdrproxy.Databfr.Ops.{Allocator, Reply, data_ring_ops}
use sdrproxy.Databfr.Alloc.{Serves}
use sdrproxy.Databfr.Run.{Call, store, retr, run, run_list, run-run_list, counts_block}

abbrev pub info : ℕ → PacketInfo
info seconds = record {
  packet_len = 2;
  packet_time = pos (1000 * seconds);
  packet_id = seconds;
  valid = true;
}

abbrev pub slot_of : ℕ → DataStore
slot_of i = record { packet_info = info (i + 1); sdr_packet = 7 ∷ i ∷ [] }

-- A ring with memory of two bytes a slot, that holds `n` packets of the seconds 1, 2, ...
abbrev pub ring_of : ℕ → DataRing
ring_of n = record {
  data_store_g = λ i. i;
  store = slot_of;
  datar_start = 0;
  datar_end = n;
  datar_cnt = n;
  live = true;
  locked = false;
}

pub ring_of-IsValid : (n : ℕ) → n < 14400 → IsValid 2 (ring_of n)
ring_of-IsValid n h = record {
  start_in = omega arith;
  count_in = omega arith;
  end_at = omega arith;
  is_live = refl;
  distinct = λ i j hi hj e. e;
  roomy = λ i h'. refl;
  fits = λ k h'. omega arith;
  sorted = λ i j lt h'. omega arith;
}

two_held : IsValid 2 (ring_of 2)
two_held = ring_of-IsValid 2 (omega arith)

abbrev pub allocator : Allocator
allocator = record { struct = λ i. some i; bytes = λ i n. some (replicate n 0) }

abbrev pub channels : ChannelInfo
channels = record { sps = 10; num_channels = 1; type = 1 }

abbrev calls : List Call
calls =
    store (info 5) (1 ∷ 2 ∷ []) ∷ retr (pos 2000) ∷ store (info 1) (3 ∷ 4 ∷ []) ∷ retr (pos 0) ∷ []

run-run_list_example :
    run allocator channels (info 0) (ring_of 2) calls ≡ run_list (contents (ring_of 2)) calls
run-run_list_example =
    run-run_list allocator channels (info 0) 2 calls {s = ring_of 2}
      (omega arith, omega arith, (omega arith, omega arith, tt)) two_held refl

store_packet-Stores_example :
    Stores 2 (ring_of 2) (info 5, 1 ∷ 2 ∷ []) (store_packet (info 5) (1 ∷ 2 ∷ []) (ring_of 2))
store_packet-Stores_example =
    store_packet-Stores two_held (info 5) (1 ∷ 2 ∷ []) (omega arith) (omega arith)

search_data_bfr-Locates_example :
    Locates (pos 1500) (ring_of 2) (search_data_bfr (pos 1500) (ring_of 2))
search_data_bfr-Locates_example = search_data_bfr-Locates two_held (pos 1500)

serves : Serves allocator (λ i. i) (λ i n. replicate n 0)
serves = record {
  gives = λ i. refl;
  gives_bytes = λ i n. refl;
  differ = λ i j e. e;
  enough = λ i n. length-replicate n 0;
}

counts_block_example :
    (r : Reply) × (data_ring_ops allocator channels
        (info 0)
        []
        (pos 0)
        ring_elements_stored
        (ring_of 2)
      ≡ done r)
    × (data_ring_ops allocator channels (info 0) [] (pos 0) ring_store r.2 ≡ blocked)
counts_block_example =
    counts_block allocator channels (info 0) [] (pos 0) (ring_of 2) ring_elements_stored (inl refl)
      refl ring_store
