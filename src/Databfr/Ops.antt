-- ===== src/Databfr/Ops.antt =====
-- `data_ring_ops` of src/databfr.c, whole: the mutex, and the allocation of the memory.
use sdrproxy.Prelude.{
  ℕ, zero, suc, ◌+◌, ◌-◌, true, false, Option, none, some, List, update, if◌then◌else◌, ℤ, pos,
}
use sdrproxy.Buffer.{
  Action, ring_alloc, ring_dealloc, ring_init, ring_store, ring_retr, ring_ismt, ring_isfull,
  ring_elements_free, ring_elements_stored, ring_view, ring_delete,
}
use sdrproxy.Util.{ChannelInfo, sdr_pkt_size}
use sdrproxy.Databfr.{
  PacketInfo, DataRing, Outcome, done, fault, failed, blocked, ◌>>=◌, datasize, store_packet,
  retr_packet,
}

-- What `malloc` gives the `i`th time round the loop: a `struct datastore`, and `n` bytes.
pub record Allocator : Type 0 where
  pub struct : ℕ → Option ℕ
  pub bytes : ℕ → ℕ → Option (List ℕ)

-- The `for` of RING_ALLOC from index `i` on, `n` rounds.
unfoldable pub alloc_loop : Allocator → ℕ → ℕ → ℕ → DataRing → Outcome DataRing
alloc_loop m size zero i s = done s
alloc_loop m size (suc n) i s = elim (m.struct i) [
  | none ↦ failed
  | some pointer ↦ elim (m.bytes i size) [
    | none ↦ failed
    | some mem ↦ alloc_loop m size n (i + 1) (record s {
      data_store_g = update s.data_store_g i pointer;
      store = update s.store pointer (record (s.store pointer) { sdr_packet = mem });
    })
  ]
]

-- RING_ALLOC
unfoldable pub alloc : Allocator → ChannelInfo → DataRing → Outcome DataRing
alloc m c s = do
  s' ← alloc_loop m (sdr_pkt_size c) datasize 0 s
  done (record s' { datar_start = 0; datar_end = 0; datar_cnt = 0; live = true })

-- RING_DEALLOC; a second `free` is undefined.
unfoldable pub dealloc : DataRing → Outcome DataRing
dealloc s =
    if s.live
    then done (record s { datar_start = 0; datar_end = 0; datar_cnt = 0; live = false })
    else fault

-- What a caller gets: the `int`, what RING_RETR wrote to `*element` and `*pkt_img`, and the ring.
abbrev pub Reply : Type 0
Reply = ℤ × Option (PacketInfo × List ℕ) × DataRing

abbrev pub unlock : DataRing → DataRing
unlock s = record s { locked = false }

abbrev pub retrieved : DataRing → Option (PacketInfo × List ℕ) → Outcome Reply
retrieved s none = done (pos 1, none, unlock s)
retrieved s (some p) = done (pos 0, some p, unlock s)

-- The `switch`, with the mutex held. The two counts return with no unlock.
unfoldable pub switch :
    Allocator → ChannelInfo → PacketInfo → List ℕ → ℤ → Action → DataRing → Outcome Reply
switch m c element pkt_img target_time ring_elements_stored s = done (pos s.datar_cnt, none, s)
switch m c element pkt_img target_time ring_elements_free s =
    done (pos (datasize - s.datar_cnt), none, s)
switch m c element pkt_img target_time ring_alloc s = do
  s' ← alloc m c s
  done (pos 0, none, unlock s')
switch m c element pkt_img target_time ring_dealloc s = do
  s' ← dealloc s
  done (pos 0, none, unlock s')
switch m c element pkt_img target_time ring_store s = do
  r ← store_packet element pkt_img s
  done (r.0, none, unlock r.1)
switch m c element pkt_img target_time ring_retr s = retrieved s (retr_packet target_time s)
switch m c element pkt_img target_time ring_init s = failed
switch m c element pkt_img target_time ring_ismt s = failed
switch m c element pkt_img target_time ring_isfull s = failed
switch m c element pkt_img target_time ring_view s = failed
switch m c element pkt_img target_time ring_delete s = failed

-- A thread that finds the mutex held waits for another to give it back; `blocked` if none will.
unfoldable pub data_ring_ops :
    Allocator → ChannelInfo → PacketInfo → List ℕ → ℤ → Action → DataRing → Outcome Reply
data_ring_ops m c element pkt_img target_time action s =
    if s.locked
    then blocked
    else switch m c element pkt_img target_time action (record s { locked = true })
