-- ===== src/Buffer/Search.antt =====
-- `search_ring` of src/buffer.c. Its `testbfr` of BFRSIZE bytes holds what the rings that are
-- searched hold.
use sdrproxy.Prelude.{
  ℕ, ◌<◌, and_false, none, some, List, arith, length, leb, leb_no, le→leb, ◌==◌, ne→==, ◌&&◌, not,
  if◌then◌else◌, ℤ, pos, negsuc,
}
use native.Mathlib.Decide.{dec_le}
use sdrproxy.Util.{Match, found, absent, running, bytes_in_bytes}
use sdrproxy.Util.Search.{IsBytes, OccursAt, Finds, bytes_in_bytes-Finds}
use sdrproxy.Buffer.{RingSet, bytes_stored, view}
use sdrproxy.Buffer.Valid.{IsValid}
use sdrproxy.Buffer.Take.{length-contents, view-contents}
use sdrproxy.Buffer.Contents.{contents}

-- `(int)(pos - testbfr)`, or -1
abbrev pub of_match : Match → ℤ
of_match (found p) = pos p
of_match absent = negsuc 0
of_match running = negsuc 0

-- `search_ring`
unfoldable pub search_ring : List ℕ → RingSet → ℤ
search_ring target r =
    let size = bytes_stored r in
    if not (size == 0) && leb (length target) size
    then elim (view size r) [
      | none ↦ negsuc 0
      | some testbfr ↦ of_match (bytes_in_bytes testbfr size target (length target))
    ]
    else negsuc 0

-- The bytes `target` stand at `p` of `bytes`.
abbrev pub Holds : List ℕ → List ℕ → ℕ → Type 0
Holds bytes target p = OccursAt bytes (length bytes) target (length target) p

-- An answer of the search: the first position, or -1 where there is none.
abbrev pub IsFirst : List ℕ → List ℕ → ℤ → Type 0
IsFirst bytes target (pos p) = Holds bytes target p × ((q : ℕ) → q < p → ¬ Holds bytes target q)
IsFirst bytes target (negsuc _) = (q : ℕ) → ¬ Holds bytes target q

module _ {r : RingSet} (v : IsValid r) (target : List ℕ) (held : IsBytes (contents r))
    (sought : IsBytes target) (some_sought : 0 < length target) where
  Finds-IsFirst :
      (m : Match)
      → Finds (contents r) (bytes_stored r) target (length target) m
      → IsFirst (contents r) target (of_match m)
  Finds-IsFirst (found p) h = rw (length-contents v) h
  Finds-IsFirst absent h = rw (length-contents v) h
  Finds-IsFirst running h = elim h [ ]

  -- On a valid ring of bytes, search_ring gives the first position of a target that is not empty,
  -- or -1 where it is not there.
  pub search_ring-IsFirst : IsFirst (contents r) target (search_ring target r)
  unfolding search_ring
  search_ring-IsFirst = elim (dec_le (length target) (bytes_stored r)) [
    | yes enough ↦
        rw
          (
            ne→== (bytes_stored r) 0 (omega arith),
            le→leb (length target) (bytes_stored r) enough,
            (view-contents v),
          )
          (Finds-IsFirst (bytes_in_bytes (contents r) (bytes_stored r) target (length target)) (
            bytes_in_bytes-Finds (contents r) (bytes_stored r) target (length target) held sought
              some_sought enough))
    | no short ↦
        rw
          (
            leb_no (length target) (bytes_stored r) (omega arith),
            and_false (not (bytes_stored r == 0)),
          )
          (λ q h. let room = h.0 in omega (arith, length-contents v))
  ]
