-- ===== src/Client/Thread/Invariant.antt =====
-- The invariant of `client_thread` of src/client.c, and what a part of a round may leave.
use sdrproxy.Prelude.{◌+◌, ◌≤◌, ◌≡◌, refl, sym, ◌∙◌, Bool, true, false}
use sdrproxy.Buffer.Valid.{IsValid}
use sdrproxy.Databfr.{Outcome, done, fault, failed, blocked, ◌>>=◌}
use sdrproxy.Client.{bfrsize}
use sdrproxy.Client.Thread.{ClientThread}

-- Both rings are valid, and what is to be sent fits the buffer of `send_to_host`.
pub record IsSound (t : ClientThread) : Type 0 where
  pub receives : IsValid t.input.ring
  pub sends : IsValid t.send_ring
  pub outbfr : t.send_ring.bfrsize ≤ bfrsize + 1

-- Nothing is stored between two states of the thread, and CHANCHANGE stays set.
abbrev pub Holds : ClientThread → ClientThread → Type 0
Holds t t' =
    (t'.chanchange ≡ true)
    × (t'.input.data_ring ≡ t.input.data_ring)
    × (t'.input.packet_id ≡ t.input.packet_id)

-- What a part of a round leaves: a sound thread, that has held back the data if CHANCHANGE was set;
-- or the program has ended; only without CHANCHANGE may it be undefined, or wait for ever.
abbrev pub Leaves : ClientThread → Outcome ClientThread → Type 0
Leaves t (done t') = IsSound t' × (t.chanchange ≡ true → Holds t t')
Leaves t failed = Unit {0}
Leaves t fault = t.chanchange ≡ false
Leaves t blocked = t.chanchange ≡ false

not_set : (b b' : Bool) → (b ≡ true → b' ≡ true) → b' ≡ false → b ≡ false
not_set true b' h e = sym (h refl) ∙ e
not_set false b' h e = refl

pub Leaves-after :
    (t h : ClientThread) (o : Outcome ClientThread)
    → (t.chanchange ≡ true → Holds t h)
    → Leaves h o
    → Leaves t o
Leaves-after t h (done t') k (s, k') =
    (s, λ e. ((k' (k e).0).0, (k' (k e).0).1 ∙ (k e).1, (k' (k e).0).2 ∙ (k e).2))
Leaves-after t h failed k l = tt
Leaves-after t h fault k l = not_set t.chanchange h.chanchange (λ e. (k e).0) l
Leaves-after t h blocked k l = not_set t.chanchange h.chanchange (λ e. (k e).0) l

pub Leaves-bind :
    (t : ClientThread) (o : Outcome ClientThread) (f : ClientThread → Outcome ClientThread)
    → Leaves t o
    → ((h : ClientThread) → IsSound h → Leaves h (f h))
    → Leaves t (o >>= f)
Leaves-bind t (done h) f (s, k) next = Leaves-after t h (f h) k (next h s)
Leaves-bind t failed f l next = tt
Leaves-bind t fault f l next = l
Leaves-bind t blocked f l next = l
