-- ===== src/Buffer/Tests.antt =====
-- The byte ring of src/buffer.c on a small ring that has wrapped.
use sdrproxy.Prelude.{ℕ, ◌-◌, ◌≡◌, refl, arith, Option, some, List, [], ◌∷◌, replicate, pos}
use sdrproxy.Buffer.{RingSet}
use sdrproxy.Buffer.Valid.{IsValid}
use sdrproxy.Buffer.Contents.{contents}
use sdrproxy.Buffer.Queue
use sdrproxy.Buffer.Queue.{Call}
use sdrproxy.Buffer.Refine.{run, run-refines}

abbrev malloc : ℕ → Option (List ℕ)
malloc n = some (replicate n 0)

-- It holds 12, 13 and 10.
abbrev wrapped : RingSet
wrapped = record { readptr = 2; writeptr = 1; bfrsize = 5; ring = 10 ∷ 11 ∷ 12 ∷ 13 ∷ 14 ∷ [] }

wrapped-IsValid : IsValid wrapped
wrapped-IsValid = record { read_in = omega arith; write_in = omega arith; whole = refl }

abbrev calls : List Call
calls =
    Call.retr 2
    ∷ Call.store (7 ∷ 8 ∷ [])
    ∷ Call.view 3
    ∷ Call.delete (pos 1)
    ∷ Call.store (1 ∷ 2 ∷ 3 ∷ 4 ∷ [])
    ∷ Call.isfull
    ∷ []

run-refines_example :
    run malloc wrapped calls ≡ Queue.run (wrapped.bfrsize - 1) (contents wrapped) calls
run-refines_example = run-refines malloc calls {r = wrapped} wrapped-IsValid
