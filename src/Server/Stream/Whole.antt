-- ===== src/Server/Stream/Whole.antt =====
-- What a client of src/server.c is sent by sockets that are ready and take all that they are given.
use sdrproxy.Prelude.{
  ℕ, suc, ◌≤◌, ◌<◌, ◌≡◌, ◌⊎◌, inl, inr, refl, sym, ap, ◌∙◌, subst, arith, true, Bool-cases, Option,
  none, some, List, [], ◌∷◌, ◌++◌, length, length-append, empty_list, take-length, ◌==◌, ℤ,
}
use sdrproxy.Buffer.{bytes_stored, bytes_free}
use sdrproxy.Buffer.Valid.{free-add-stored}
use sdrproxy.Buffer.Contents.{contents}
use sdrproxy.Util.{ChannelInfo}
use sdrproxy.Databfr.{Outcome, done, fault, failed, blocked, ◌>>=◌}
use sdrproxy.Databfr.Ops.{Allocator}
use sdrproxy.Databfr.Spec.{Packet, time, next_after}
use sdrproxy.Server.{World, put_adc_data, sent, send_error, service_outgoing}
use sdrproxy.Server.Outgoing.{Puts, put_adc_data-Puts}
use sdrproxy.Buffer.Take.{length-contents}
use sdrproxy.Server.Service.{IsSocket}
use sdrproxy.Server.Stream.{later, bytes_of, Turn, with_ret, wire, served, rounds, Ready}
use sdrproxy.Server.Stream.Round.{
  put_then, served-sending, Advances, Puts-Advances, Passes, outgoing-Passes,
}

-- The socket is ready and takes all that it is given.
pub record TakesAll (a : Turn) : Type 0 where
  pub ready : a.writable ≡ true
  pub all : (bytes : List ℕ) → a.send bytes ≡ sent (length bytes)

abbrev pub AllTaken : List Turn → Type 0
AllTaken [] = Unit {0}
AllTaken (a ∷ turns) = TakesAll a × AllTaken turns

pub TakesAll-IsSocket : (a : Turn) → TakesAll a → IsSocket a.send
TakesAll-IsSocket a takes = record {
  at_most = λ bytes n e.
      let same : sent (length bytes) ≡ sent n = sym (takes.all bytes) ∙ e in
      let all : length bytes ≡ n = cc in omega arith;
  no_error =
      λ bytes e. let same : sent (length bytes) ≡ send_error = sym (takes.all bytes) ∙ e in cc;
}

wire-all :
    (size : ℕ) (ps : List Packet) (a : Turn) (t : ℤ) (w : World)
    → TakesAll a
    → Ready size ps t w
    → wire a w ≡ contents w.conn.send_ring
wire-all size ps a t w takes ready = elim (Bool-cases (bytes_stored w.conn.send_ring == 0)) [
  | inl empty ↦ rw empty (
      sym
        (empty_list (contents w.conn.send_ring) (length-contents ready.sound.sends ∙ ground arith)))
  | inr some_bytes ↦
      simp (some_bytes, takes.ready, ready.sending, takes.all (contents w.conn.send_ring))
        (take-length (contents w.conn.send_ring))
]

module _ (size : ℕ) (ps : List Packet) where
  -- The next packet is sent, if there is one, and the ring is empty again.
  abbrev Exact : ℤ → World → Outcome (List ℕ × World) → Type 0
  Exact t w (done (out, w')) =
      (contents w'.conn.send_ring ≡ [])
      × (w'.conn.send_ring.bfrsize ≡ w.conn.send_ring.bfrsize)
      × ((Ready size ps t w' × (out ≡ []) × (later t ps ≡ []))
          ⊎ ((p : Packet) × (Ready size ps (time p) w'
                × (out ≡ p.1)
                × (later t ps ≡ p ∷ later (time p) ps))))
  Exact t w fault = ⊥
  Exact t w failed = ⊥
  Exact t w blocked = ⊥

  abbrev pub All : ℤ → Outcome (List ℕ × World) → Type 0
  All t (done (out, w')) =
      (out ≡ bytes_of (later t ps))
      × (contents w'.conn.send_ring ≡ [])
      × ((t' : ℤ) × (Ready size ps t' w' × (later t' ps ≡ [])))
  All t fault = ⊥
  All t failed = ⊥
  All t blocked = ⊥

  module _ (a : Turn) (takes : TakesAll a) (t : ℤ) (w : World) (ready : Ready size ps t w)
      (empty : contents w.conn.send_ring ≡ []) (room : size < w.conn.send_ring.bfrsize) where
    sent-Exact :
        (t' : ℤ) (w' : World) (bytes : List ℕ) (o : Outcome (List ℕ × World))
        → w'.conn.send_ring.bfrsize ≡ w.conn.send_ring.bfrsize
        → contents w'.conn.send_ring ≡ bytes
        → Ready size ps t' w'
        → ((w'' : World)
            → Ready size ps t' w''
            → ((Ready size ps t w'' × (bytes ≡ []) × (later t ps ≡ []))
                ⊎ ((p : Packet) × (Ready size ps (time p) w''
                      × (bytes ≡ p.1)
                      × (later t ps ≡ p ∷ later (time p) ps)))))
        → Passes size ps a t' w' o
        → Exact t w o
    sent-Exact t' w' bytes (done (out, w'')) same_size held ready' moved
          (ready'', passed, taken, same_size') =
        let all : out ≡ bytes = taken ∙ wire-all size ps a t' w' takes ready' ∙ held in
        let none_left : contents w''.conn.send_ring ≡ [] =
          empty_list (contents w''.conn.send_ring) (
            omega (
              arith,
              ap length (passed ∙ held),
              ap length all,
              length-append out (contents w''.conn.send_ring),
            )) in
        (none_left, same_size' ∙ same_size, rw all (moved w'' ready''))
    sent-Exact t' w' bytes fault same_size held ready' moved s = elim s [ ]
    sent-Exact t' w' bytes failed same_size held ready' moved s = elim s [ ]
    sent-Exact t' w' bytes blocked same_size held ready' moved s = elim s [ ]

    free_room : size ≤ bytes_free w.conn.send_ring
    free_room = omega (
      arith,
      free-add-stored ready.sound.sends,
      length-contents ready.sound.sends,
      ap length empty,
    )

    advanced-Exact :
        (ret : ℤ) (w' : World) (o : Option Packet)
        → Advances size ps t w w' o
        → w'.conn.send_ring.bfrsize ≡ w.conn.send_ring.bfrsize
        → Exact t w (
            (service_outgoing a.writable a.send w' >>= λ w''. done (with_ret ret w'')) >>= λ s.
            done (wire a w', s.1))
    advanced-Exact ret w' none (ready', bytes, over) same_size =
        sent-Exact t w' [] _ same_size (bytes ∙ empty) ready'
          (λ w'' ready''. inl (ready'', refl, over))
          (outgoing-Passes size ps a (TakesAll-IsSocket a takes) ret t w' ready')
    advanced-Exact ret w' (some p) (fits, inl (full, (ready', bytes))) same_size =
        absurd (omega (arith, free_room))
    advanced-Exact ret w' (some p) (fits, inr (ready', bytes, more)) same_size =
        sent-Exact (time p) w' p.1 _ same_size (bytes ∙ ap (λ l. l ++ p.1) empty) ready'
          (λ w'' ready''. inr (p, (ready'', refl, more)))
          (outgoing-Passes size ps a (TakesAll-IsSocket a takes) ret (time p) w' ready')

    put-Exact :
        (o : Outcome (ℤ × World)) → Puts a.now w ready.last_sent.0 size o → Exact t w (put_then a o)
    put-Exact (done (ret, w')) puts =
        let (advances, same_size) = Puts-Advances size ps t w a.now ready ret w' puts in
        advanced-Exact ret w' (next_after t ps) advances same_size
    put-Exact fault s = elim s [ ]
    put-Exact failed s = elim s [ ]
    put-Exact blocked s = elim s [ ]

    served-Exact : (m : Allocator) (c : ChannelInfo) → Exact t w (served m c a w)
    served-Exact m c = subst (Exact t w) (sym (served-sending m c a w ready.sending)) (
        put-Exact (put_adc_data m c a.now w) (
          put_adc_data-Puts a.now w ready.last_sent.0 ready.sound.sends ready.sound.stored
            ready.sound.slots m c ready.last_sent.1.0 ready.sound.unlocked))

  All-after :
      (t t' : ℤ) (out : List ℕ) (o : Outcome (List ℕ × World))
      → bytes_of (later t ps) ≡ out ++ bytes_of (later t' ps)
      → All t' o
      → All t (o >>= λ r. done (out ++ r.0, r.1))
  All-after t t' out (done (out', w')) e (same, empty, over) =
      (ap (λ l. out ++ l) same ∙ sym e, empty, over)
  All-after t t' out fault e s = elim s [ ]
  All-after t t' out failed e s = elim s [ ]
  All-after t t' out blocked e s = elim s [ ]

  module _ (m : Allocator) (c : ChannelInfo) (turns : List Turn)
      (others : (t : ℤ) (w : World)
        → Ready size ps t w
        → contents w.conn.send_ring ≡ []
        → size < w.conn.send_ring.bfrsize
        → length (later t ps) ≤ length turns
        → All t (rounds m c turns w)) where
    rounds-then :
        (t : ℤ) (w : World) (o : Outcome (List ℕ × World))
        → size < w.conn.send_ring.bfrsize
        → length (later t ps) ≤ suc (length turns)
        → Exact t w o
        → All t (o >>= λ r. rounds m c turns r.1 >>= λ r'. done (r.0 ++ r'.0, r'.1))
    rounds-then t w (done (out, w')) room enough
          (empty', same_size, inl (ready', none_sent, over)) =
        All-after t t out (rounds m c turns w')
          (ap (λ l. l ++ bytes_of (later t ps)) (sym none_sent))
          (others t w' ready' empty' (omega (arith, same_size)) (omega (arith, ap length over)))
    rounds-then t w (done (out, w')) room enough
          (empty', same_size, inr (p, (ready', one_sent, more))) =
        All-after t (time p) out (rounds m c turns w')
          (ap bytes_of more ∙ ap (λ l. l ++ bytes_of (later (time p) ps)) (sym one_sent))
          (others (time p) w' ready' empty' (omega (arith, same_size))
            (omega (arith, ap length more)))
    rounds-then t w fault room enough s = elim s [ ]
    rounds-then t w failed room enough s = elim s [ ]
    rounds-then t w blocked room enough s = elim s [ ]

  -- With such a connection and data ring, sockets that are ready and take all that they are given,
  -- an empty send ring with room for a packet, and at least as many rounds as packets are later
  -- than the last one sent, the rounds return, the bytes that the sockets took are those of all
  -- these packets, in order, and none is left to send.
  pub rounds-All :
      (m : Allocator) (c : ChannelInfo) (turns : List Turn) (t : ℤ) (w : World)
      → AllTaken turns
      → Ready size ps t w
      → contents w.conn.send_ring ≡ []
      → size < w.conn.send_ring.bfrsize
      → length (later t ps) ≤ length turns
      → All t (rounds m c turns w)
  unfolding rounds
  rounds-All m c [] t w takes ready empty room enough =
      let over : later t ps ≡ [] = empty_list (later t ps) (omega arith) in
      (rw over refl, empty, (t, (ready, over)))
  rounds-All m c (a ∷ turns) t w (takes, others) ready empty room enough =
      rounds-then m c turns (λ t' w'. rounds-All m c turns t' w' others) t w (served m c a w) room
        enough (served-Exact a takes t w ready empty room m c)
