-- ===== src/Databfr.antt =====
-- The data ring of src/databfr.c: `data_store_g`, its three indexes and `data_ring_ops`.
-- PACKETTIME is a number of milliseconds: a double of seconds holds the times of the packets, which
-- have whole milliseconds, in the same order.
pub mod Spec
pub mod Rotate
pub mod Valid
pub mod Search
pub mod Placed
pub mod Room
pub mod Replace
pub mod Store
pub mod Retrieve
pub mod Ops
pub mod Alloc
pub mod Run
pub mod Tests
use sdrproxy.Prelude.{
  ℕ, zero, suc, ◌+◌, ◌-◌, ◌/◌, ◌%◌, Bool, true, false, ◌||◌, not, Option, none, some, List, length,
  take, update, ltb, ◌==◌, if◌then◌else◌, ℤ, pos, negsuc, sub_ℕ, ◌+ℤ◌, ltb_ℤ, eqb_ℤ,
}
use sdrproxy.Memory.{memcpy, slice}

abbrev pub datasize : ℕ
datasize = 14400

-- `struct packetinfo` (src/sdrproxy.h)
pub record PacketInfo : Type 0 where
  pub packet_len : ℕ
  pub packet_time : ℤ
  pub packet_id : ℕ
  pub valid : Bool

-- `struct datastore`; `sdr_packet` is the memory allocated for the packet.
pub record DataStore : Type 0 where
  pub packet_info : PacketInfo
  pub sdr_packet : List ℕ

-- The globals of databfr.c. `data_store_g` maps an index to a pointer, `store` a pointer to what
-- it points at; `live` says that this memory is allocated, `locked` that `mutex_datastore` is held.
pub record DataRing : Type 0 where
  pub data_store_g : ℕ → ℕ
  pub store : ℕ → DataStore
  pub datar_start : ℕ
  pub datar_end : ℕ
  pub datar_cnt : ℕ
  pub live : Bool
  pub locked : Bool

-- A call gives a value, reads or writes outside of the memory allocated (`fault`), ends the program
-- in `fail`, or waits for the mutex for ever (`blocked`).
pub data Outcome {ℓ} (A : Type ℓ) : Type ℓ where
  done : A → Outcome A
  fault failed blocked : Outcome A

infixl 5 ◌>>=◌
abbrev pub ◌>>=◌ {ℓ κ} : {A : Type ℓ} {B : Type κ} → Outcome A → (A → Outcome B) → Outcome B
done a >>= f = f a
fault >>= f = fault
failed >>= f = failed
blocked >>= f = blocked

-- `%` of C on the offsets that occur, which are at least `- DATASIZE`.
unfoldable pub datar_normalize : ℤ → ℕ
datar_normalize (pos offset) = (offset + datasize) % datasize
datar_normalize (negsuc k) = (datasize - suc k) % datasize

abbrev pub datar_isempty : DataRing → Bool
datar_isempty s = s.datar_cnt == 0

abbrev pub datar_isfull : DataRing → Bool
datar_isfull s = s.datar_cnt == datasize

-- `data_store_g[index]->packet_info.packet_time`
abbrev pub time_at : DataRing → ℕ → ℤ
time_at s index = (s.store (s.data_store_g index)).packet_info.packet_time

unfoldable pub compare_index : ℤ → ℕ → DataRing → ℤ
compare_index target index s =
    if ltb_ℤ (time_at s index) target
    then pos 1
    else (if ltb_ℤ target (time_at s index) then negsuc 0 else pos 0)

-- What `search_data_bfr` returns: its status, -2, +1, -1, +2 or 0, with `*index`.
pub data Found : Type 0 where
  empty : Found
  oldest newest between exact : ℕ → Found

-- `while (min < max)`, with fuel; `lo` and `hi` are `min` and `max`.
unfoldable pub search_loop : ℕ → ℤ → DataRing → ℕ → ℕ → ℕ
search_loop zero target s lo hi = lo
search_loop (suc fuel) target s lo hi =
    let mid = lo + (hi - lo + 1) / 2 in
    elim (ltb lo hi) [
      | true ↦
          elim (ltb_ℤ (compare_index target (datar_normalize (pos (s.datar_start + mid))) s)
            (pos 0)) [
              | true ↦ search_loop fuel target s lo (mid - 1)
              | false ↦ search_loop fuel target s mid hi
            ]
      | false ↦ lo
    ]

unfoldable pub search_data_bfr : ℤ → DataRing → Found
search_data_bfr target s =
    let last = datar_normalize (sub_ℕ s.datar_end 1) in
    let index =
      datar_normalize
        (pos (s.datar_start + search_loop s.datar_cnt target s 0 (s.datar_cnt - 1))) in
    if s.datar_cnt == 0
    then empty
    else (if ltb_ℤ (pos 0) (compare_index target last s)
        then newest last
        else (if ltb_ℤ (compare_index target s.datar_start s) (pos 0)
            then oldest s.datar_start
            else (if eqb_ℤ (compare_index target index s) (pos 0)
                then exact index
                else between (datar_normalize (pos (index + 1))))))

-- The two `memcpy` of `store_element`, into the memory behind the pointer at `index`.
unfoldable pub store_element : ℕ → PacketInfo → List ℕ → DataRing → Outcome DataRing
store_element index element sdr_pkt s =
    let pointer = s.data_store_g index in
    let target = s.store pointer in
    if not s.live
      || (ltb (length target.sdr_packet) element.packet_len
          || ltb (length sdr_pkt) element.packet_len)
    then fault
    else done (record s {
      store = update s.store pointer (record {
        packet_info = element;
        sdr_packet = memcpy target.sdr_packet 0 sdr_pkt 0 element.packet_len;
      });
    })

-- The two `memcpy` of `retr_element`: `*element`, and the bytes that `*sdr_pkt` gets.
unfoldable pub retr_element : ℕ → DataRing → PacketInfo × List ℕ
retr_element index s =
    let target = s.store (s.data_store_g index) in
    (target.packet_info, slice 0 target.packet_info.packet_len target.sdr_packet)

-- The `for` of `datar_rotate_right`, with fuel.
unfoldable pub rotate_loop : ℕ → ℕ → ℕ → (ℕ → ℕ) → ℕ → ℕ
rotate_loop zero start dest slots = slots
rotate_loop (suc fuel) start dest slots = elim (dest == start) [
  | true ↦ slots
  | false ↦
      rotate_loop fuel start (datar_normalize (sub_ℕ dest 1))
        (update slots (datar_normalize (pos (dest + 1))) (slots dest))
]

unfoldable pub datar_rotate_right : ℕ → ℕ → DataRing → DataRing
datar_rotate_right start end s =
    let slots = rotate_loop datasize start (datar_normalize (sub_ℕ end 1)) s.data_store_g in
    record s {
      data_store_g =
          update (update slots (datar_normalize (pos (start + 1))) (slots start)) start
            (s.data_store_g end);
    }

-- `datar_end = datar_normalize(datar_end + 1)`
abbrev pub move_end : DataRing → DataRing
move_end s = record s { datar_end = datar_normalize (pos (s.datar_end + 1)) }

-- "If the ring is full, update the start pointer, otherwise increment the count"
abbrev pub move_start : DataRing → DataRing
move_start s =
    if datar_isfull s
    then record s { datar_start = datar_normalize (pos (s.datar_start + 1)) }
    else record s { datar_cnt = s.datar_cnt + 1 }

-- The branches of RING_STORE on what the search returned.
unfoldable pub store_found : PacketInfo → List ℕ → DataRing → Found → Outcome (ℤ × DataRing)
store_found element pkt_img s empty = failed
store_found element pkt_img s (oldest location) = if datar_isfull s then done (pos 1, s) else (do
  s' ← store_element s.datar_start element pkt_img (datar_rotate_right s.datar_start s.datar_end s)
  done (pos 0, record (move_end s') { datar_cnt = s'.datar_cnt + 1 }))
store_found element pkt_img s (newest location) = do
  s' ← store_element s.datar_end element pkt_img s
  done (pos 0, move_start (move_end s'))
store_found element pkt_img s (between location) = do
  s' ← store_element location element pkt_img (datar_rotate_right location s.datar_end s)
  done (pos 0, move_start (move_end s'))
store_found element pkt_img s (exact location) = do
  s' ← store_element location element pkt_img s
  done (pos 0, s')

-- RING_STORE
unfoldable pub store_packet : PacketInfo → List ℕ → DataRing → Outcome (ℤ × DataRing)
store_packet element pkt_img s =
    if datar_isempty s
    then (do
      s' ← store_element s.datar_end element pkt_img s
      done (pos 0, record (move_end s') { datar_cnt = s'.datar_cnt + 1 }))
    else store_found element pkt_img s (search_data_bfr element.packet_time s)

-- What RING_RETR does with the result of its search; `none` is the return of 1.
unfoldable pub retr_found : DataRing → Found → Option (PacketInfo × List ℕ)
retr_found s empty = none
retr_found s (newest location) = none
retr_found s (oldest location) = some (retr_element location s)
retr_found s (between location) = some (retr_element location s)
retr_found s (exact location) = some (retr_element location s)

-- RING_RETR: the time asked for is one millisecond past the target.
unfoldable pub retr_packet : ℤ → DataRing → Option (PacketInfo × List ℕ)
retr_packet target_time s = retr_found s (search_data_bfr (target_time +ℤ pos 1) s)
