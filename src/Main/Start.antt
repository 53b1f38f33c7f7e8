-- ===== src/Main/Start.antt =====
-- `main` of src/main.c before its loop, on every branch.
use sdrproxy.Prelude.{
  ℕ, ◌<◌, ◌≤◌, ◌≡◌, ◌⊎◌, inl, inr, refl, arith, Bool, true, false, Option, none, some, List, [],
  ◌∷◌, length, get_elem?, ℤ, pos,
}
use sdrproxy.Util.{ChannelInfo, sdr_pkt_size}
use sdrproxy.Databfr.{DataRing, Outcome, done, fault, failed, blocked, ◌>>=◌}
use sdrproxy.Databfr.Ops.{Allocator, Reply, alloc, switch, data_ring_ops}
use sdrproxy.Databfr.Valid.{IsValid, contents}
use sdrproxy.Databfr.Run.{relock}
use sdrproxy.Databfr.Alloc.{Serves, Allocates, alloc-Allocates}
use sdrproxy.Client.Thread.Request.{IsClientNo, is_default}
use sdrproxy.Main.{client_no_of, Startup, returns, launches, main_start}
use sdrproxy.Main.Number.{is_missing, Numbers, client_no_of-Numbers}

-- The third argument, in `argv`.
abbrev pub third : List (List ℕ) → Option (List ℕ)
third argv = get_elem? argv 3

module _ (m : Allocator) (pointer : ℕ → ℕ) (mem : ℕ → ℕ → List ℕ) (serves : Serves m pointer mem)
    (opened : Bool) (zeros : ChannelInfo) (argv : List (List ℕ)) where
  -- What is to be said of each way to go on.
  abbrev pub Starts : Outcome Startup → Type 0
  Starts (done (returns status)) =
      (status ≡ 1)
      × ((length argv < 3)
          ⊎ ((is_missing (third argv) ≡ false) × (client_no_of (third argv) ≡ none)))
  Starts (done (launches host port client_no data_ring)) =
      ((get_elem? argv 1 ≡ some host) × (get_elem? argv 2 ≡ some port))
      × (client_no_of (third argv) ≡ some client_no)
      × (IsClientNo client_no × (is_default client_no ≡ is_missing (third argv)))
      × (IsValid (sdr_pkt_size zeros) data_ring
          × (contents data_ring ≡ [])
          × (data_ring.locked ≡ false))
  Starts failed = (3 ≤ length argv) × (opened ≡ false)
  Starts fault = ⊥
  Starts blocked = ⊥

module _ (m : Allocator) (pointer : ℕ → ℕ) (mem : ℕ → ℕ → List ℕ) (serves : Serves m pointer mem)
    (zeros : ChannelInfo) (name host port : List ℕ) (rest : List (List ℕ)) where
  abbrev argv : List (List ℕ)
  argv = name ∷ host ∷ port ∷ rest

  numbered-Starts :
      (data_ring : DataRing) (o : Option ℤ)
      → IsValid (sdr_pkt_size zeros) data_ring
      → contents data_ring ≡ []
      → data_ring.locked ≡ false
      → client_no_of (third argv) ≡ o
      → Numbers (is_missing (third argv)) o
      → Starts m pointer mem serves true zeros argv (elim o [
        | none ↦ done (returns 1)
        | some client_no ↦ done (launches host port client_no data_ring)
      ])
  numbered-Starts data_ring none v empty free e given = (refl, inr (given, e))
  numbered-Starts data_ring (some n) v empty free e (digit, default) =
      ((refl, refl), e, (digit, default), (v, empty, free))

  abbrev replied : DataRing → Outcome Reply
  replied s' = done (pos 0, none, record s' { locked = false })

  allocated-Starts :
      (s : DataRing) (o : Outcome DataRing)
      → Allocates m pointer mem serves zeros s o
      → Starts m pointer mem serves true zeros argv (
          (o >>= replied) >>= λ r. elim (client_no_of (third argv)) [
            | none ↦ done (returns 1)
            | some client_no ↦ done (launches host port client_no r.2)
          ])
  allocated-Starts s (done s') (v, empty, e) =
      numbered-Starts (record s' { locked = false }) (client_no_of (third argv)) (relock false v)
        empty refl refl (client_no_of-Numbers (third argv))
  allocated-Starts s fault h = elim h [ ]
  allocated-Starts s failed h = elim h [ ]
  allocated-Starts s blocked h = elim h [ ]

-- Where malloc serves and the data ring is unlocked, main, whatever its arguments are, comes to its
-- loop, returns 1 or fails: it starts the client's thread with its first two arguments as host and
-- port, with a client number that is a digit, or, exactly if there is no third argument, the number
-- below zero of the default request, and with a valid, empty, unlocked data ring; it returns 1 only
-- if there are fewer than two arguments or the third is refused, and fails only if there are two
-- and the log does not open.
pub main_start-Starts :
    (m : Allocator) (pointer : ℕ → ℕ) (mem : ℕ → ℕ → List ℕ) (serves : Serves m pointer mem)
    (opened : Bool) (zeros : ChannelInfo) (argv : List (List ℕ)) (data_ring : DataRing)
    → data_ring.locked ≡ false
    → Starts m pointer mem serves opened zeros argv (main_start m opened zeros argv data_ring)
unfolding main_start data_ring_ops switch
main_start-Starts m pointer mem serves true zeros (name ∷ host ∷ port ∷ rest) data_ring free =
    rw (free, main_start, data_ring_ops, switch)
      (allocated-Starts m pointer mem serves zeros name host port rest
        (record data_ring { locked = true }) (alloc m zeros (record data_ring { locked = true }))
        (alloc-Allocates m pointer mem serves zeros (record data_ring { locked = true })))
main_start-Starts m pointer mem serves false zeros (name ∷ host ∷ port ∷ rest) data_ring free =
    (omega arith, refl)
main_start-Starts m pointer mem serves opened zeros (name ∷ host ∷ []) data_ring free =
    (refl, inl (omega arith))
main_start-Starts m pointer mem serves opened zeros (name ∷ []) data_ring free =
    (refl, inl (omega arith))
main_start-Starts m pointer mem serves opened zeros [] data_ring free = (refl, inl (omega arith))
