-- ===== src/Buffer/Queue.antt =====
-- What `ring_ops` of src/buffer.c promises: a queue of at most `cap` bytes, oldest first.
use sdrproxy.Prelude.{
  ℕ, ◌+◌, ◌-◌, Bool, List, [], ◌∷◌, ◌++◌, length, take, drop, ltb, ◌==◌, if◌then◌else◌, ℤ, pos,
  negsuc,
}

-- A call of `ring_ops` on a ring that is allocated, with the argument that it reads.
pub data Call : Type 0 where
  init ismt isfull elements_free elements_stored : Call
  store : List ℕ → Call
  retr view : ℕ → Call
  delete : ℤ → Call

-- What the caller sees: the `int` returned, and the bytes that `*bfr` got.
abbrev pub Reply : Type 0
Reply = ℤ × List ℕ

abbrev pub Queue : Type 0
Queue = List ℕ

abbrev pub status : ℤ → Queue → Reply × Queue
status ret q = ((ret, []), q)

abbrev pub flag : Bool → ℤ
flag b = if b then pos 1 else pos 0

unfoldable pub step : ℕ → Queue → Call → Reply × Queue
step cap q init = status (pos 0) []
step cap q ismt = status (flag (length q == 0)) q
step cap q isfull = status (flag (length q == cap)) q
step cap q elements_free = status (pos (cap - length q)) q
step cap q elements_stored = status (pos (length q)) q
step cap q (store bytes) =
    if ltb cap (length q + length bytes) then status (negsuc 0) q else status (pos 0) (q ++ bytes)
step cap q (retr n) =
    if ltb (length q) n then status (negsuc 0) q else ((pos 0, take n q), drop n q)
step cap q (view n) = if ltb (length q) n then status (negsuc 0) q else ((pos 0, take n q), q)
step cap q (delete (negsuc n)) = status (negsuc 0) q
step cap q (delete (pos n)) =
    if ltb 0 n
    then (if ltb (length q) n then status (negsuc 0) q else status (pos 0) (drop n q))
    else status (negsuc 0) q

unfoldable pub run : ℕ → Queue → List Call → List Reply
run cap q [] = []
run cap q (c ∷ cs) = let (reply, q') = step cap q c in reply ∷ run cap q' cs
