-- ===== src/Buffer.antt =====
-- The byte ring of src/buffer.c: `struct ringset` (src/sdrproxy.h) and `ring_ops`.
-- Pointers and counts are the C `int`s of a ring whose size is far below 2 ^ 31; where a C
-- difference could be negative before `+ ring->bfrsize`, the sum is written first.
pub mod Valid
pub mod Contents
pub mod Store
pub mod Take
pub mod Refine
pub mod Queue
pub mod Search
mod Tests
use sdrproxy.Prelude.{
  ℕ, zero, suc, ◌+◌, ◌-◌, ◌%◌, ◌^◌, Bool, Option, none, some, List, [], ◌++◌, ltb, ◌==◌,
  if◌then◌else◌, ℤ, pos, negsuc,
}
use sdrproxy.Memory.{memcpy, slice}

-- `struct ringset`; `ring` is the memory behind the pointer.
pub record RingSet : Type 0 where
  pub readptr : ℕ
  pub writeptr : ℕ
  pub bfrsize : ℕ
  pub ring : List ℕ

-- `enum ringbfract_t`
pub data Action : Type 0 where
  ring_alloc ring_dealloc ring_init ring_store ring_retr ring_ismt ring_isfull : Action
  ring_elements_free ring_elements_stored ring_view ring_delete : Action

-- How a call ends: it returns its `int`, with the bytes that it wrote to `bfr` and the ring that it
-- leaves; or the program ends in `fail`; or the call is undefined behaviour of C.
pub data Outcome : Type 0 where
  returned : ℤ → List ℕ → RingSet → Outcome
  failed : Outcome
  fault : Outcome

unfoldable pub normalize : ℕ → RingSet → ℕ
normalize index r = (index + r.bfrsize) % r.bfrsize

unfoldable pub bytes_free : RingSet → ℕ
bytes_free r = (r.readptr + r.bfrsize - r.writeptr - 1) % r.bfrsize

unfoldable pub bytes_stored : RingSet → ℕ
bytes_stored r = (r.writeptr + r.bfrsize - r.readptr) % r.bfrsize

unfoldable pub isfull : RingSet → Bool
isfull r = ((r.writeptr + 1) % r.bfrsize) == r.readptr

unfoldable pub isempty : RingSet → Bool
isempty r = r.readptr == r.writeptr

-- RING_ALLOC. `malloc n` is the memory given, with whatever it holds, or `none`.
unfoldable pub alloc : (ℕ → Option (List ℕ)) → ℕ → Option RingSet
alloc malloc bytes = elim (malloc (bytes + 1)) [
  | none ↦ none
  | some mem ↦ some (record { readptr = 0; writeptr = 0; bfrsize = bytes + 1; ring = mem })
]

-- RING_INIT
unfoldable pub init : RingSet → RingSet
init r = record r { readptr = 0; writeptr = 0 }

-- The two `memcpy` of RING_STORE: in two parts if it wraps.
unfoldable pub store_bytes : RingSet → List ℕ → ℕ → List ℕ
store_bytes r bfr bytes =
    let room = r.bfrsize - r.writeptr in
    if ltb room bytes
    then memcpy (memcpy r.ring r.writeptr bfr 0 room) 0 bfr room (bytes - room)
    else memcpy r.ring r.writeptr bfr 0 bytes

-- RING_STORE
unfoldable pub store : List ℕ → ℕ → RingSet → ℤ × RingSet
store bfr bytes r = if ltb (bytes_free r) bytes then (negsuc 0, r) else (
  pos 0,
  record r { ring = store_bytes r bfr bytes; writeptr = normalize (r.writeptr + bytes) r },
)

-- The two `memcpy` of RING_RETR and RING_VIEW: the bytes that `*bfr` holds afterwards.
unfoldable pub copy_bytes : RingSet → ℕ → List ℕ
copy_bytes r bytes =
    let room = r.bfrsize - r.readptr in
    if ltb room bytes
    then slice r.readptr room r.ring ++ slice 0 (bytes - room) r.ring
    else slice r.readptr bytes r.ring

-- RING_VIEW; `none` is the return of -1, which leaves `*bfr` alone.
unfoldable pub view : ℕ → RingSet → Option (List ℕ)
view bytes r = if ltb (bytes_stored r) bytes then none else some (copy_bytes r bytes)

-- RING_RETR
unfoldable pub retr : ℕ → RingSet → Option (List ℕ) × RingSet
retr bytes r =
    if ltb (bytes_stored r) bytes
    then (none, r)
    else (some (copy_bytes r bytes), record r { readptr = normalize (r.readptr + bytes) r })

-- RING_DELETE; it refuses nothing to delete, and a negative number.
unfoldable pub delete : ℤ → RingSet → ℤ × RingSet
delete (negsuc _) r = (negsuc 0, r)
delete (pos bytes) r =
    if ltb 0 bytes
    then (if ltb (bytes_stored r) bytes
        then (negsuc 0, r)
        else (pos 0, record r { readptr = normalize (r.readptr + bytes) r }))
    else (negsuc 0, r)

abbrev of_bool : Bool → ℤ
of_bool b = if b then pos 1 else pos 0

abbrev of_view : RingSet → Option (List ℕ) → Outcome
of_view r none = returned (negsuc 0) [] r
of_view r (some bytes) = returned (pos 0) bytes r

abbrev of_alloc : Option RingSet → Outcome
of_alloc none = failed
of_alloc (some r) = returned (pos 0) [] r

-- `ring_ops`, whole. A negative number of bytes to copy goes to `memcpy` as a huge `size_t`, and
-- `bytes + 1` to `malloc` likewise; a ring that has got a negative size then stands as `fault`.
unfoldable pub ring_ops : (ℕ → Option (List ℕ)) → List ℕ → ℤ → Action → RingSet → Outcome
ring_ops malloc bfr (pos bytes) ring_alloc r = of_alloc (alloc malloc bytes)
ring_ops malloc bfr (negsuc zero) ring_alloc r = elim (malloc 0) [
  | none ↦ failed
  | some mem ↦ returned (pos 0) [] (record { readptr = 0; writeptr = 0; bfrsize = 0; ring = mem })
]
ring_ops malloc bfr (negsuc (suc k)) ring_alloc r = elim (malloc (2 ^ 32 - suc k)) [
  | none ↦ failed
  | some mem ↦ fault
]
ring_ops malloc bfr bytes ring_dealloc r = returned (pos 0) [] (record r { ring = [] })
ring_ops malloc bfr bytes ring_init r = returned (pos 0) [] (init r)
ring_ops malloc bfr (pos bytes) ring_store r =
    let (ret, r') = store bfr bytes r in returned ret [] r'
ring_ops malloc bfr (negsuc _) ring_store r = fault
ring_ops malloc bfr (pos bytes) ring_retr r = let (out, r') = retr bytes r in of_view r' out
ring_ops malloc bfr (negsuc _) ring_retr r = fault
ring_ops malloc bfr bytes ring_ismt r = returned (of_bool (isempty r)) [] r
ring_ops malloc bfr bytes ring_isfull r = returned (of_bool (isfull r)) [] r
ring_ops malloc bfr bytes ring_elements_free r = returned (pos (bytes_free r)) [] r
ring_ops malloc bfr bytes ring_elements_stored r = returned (pos (bytes_stored r)) [] r
ring_ops malloc bfr (pos bytes) ring_view r = of_view r (view bytes r)
ring_ops malloc bfr (negsuc _) ring_view r = fault
ring_ops malloc bfr bytes ring_delete r = let (ret, r') = delete bytes r in returned ret [] r'
