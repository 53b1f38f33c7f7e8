-- ===== src/Server/Stream/Feed.antt =====
-- A connection of src/server.c that is served while packets are stored in the data ring.
use sdrproxy.Prelude.{
  ℕ, ◌≤◌, ◌<◌, ◌≡◌, ◌⊎◌, refl, sym, ap, ◌∙◌, subst, false, Option, some, List, [], ◌∷◌, ◌++◌,
  length, get_elem?, take, ℤ, pos, ◌<ℤ◌,
}
use mathlib.Core.List.{append_assoc, append-nil}
use mathlib.Core.Option.{some-injective}
use sdrproxy.Buffer.{ring_store}
use sdrproxy.Buffer.Contents.{contents}
use sdrproxy.Util.{ChannelInfo}
use sdrproxy.Databfr.{PacketInfo, DataRing, Outcome, done, fault, failed, blocked, datasize}
use sdrproxy.Databfr.Valid
use sdrproxy.Databfr.Spec.{Packet, insert, newest_of}
use sdrproxy.Databfr.Ops.{Allocator, Reply, data_ring_ops}
use sdrproxy.Databfr.Run.{store, step, call, Answers, step-Answers}
use sdrproxy.History.{ConnHistData}
use sdrproxy.Server.{World}
use sdrproxy.Server.Service.{IsSocket}
use sdrproxy.Server.Stream.{later, bytes_of, Turn, served, Ready, Follows, Served}
use sdrproxy.Server.Stream.Rounds.{served-Served, bytes-then}
use sdrproxy.Server.Stream.Arriving.{AllBefore, OldestSent, later-stored}

module _ (m : Allocator) (c : ChannelInfo) (size : ℕ) where
  -- RING_STORE of a packet
  abbrev pub arrives : PacketInfo → List ℕ → DataRing → Outcome Reply
  arrives element pkt s = data_ring_ops m c element pkt (pos 0) ring_store s

  -- What is kept of it.
  abbrev pub kept : PacketInfo → List ℕ → Packet
  kept element pkt = (element, take element.packet_len pkt)

  -- Rounds of a connection and calls of RING_STORE, in any order, from `w` on. `out` is what the
  -- sockets took, `arrived` the packets stored. A packet that comes is later than those held and
  -- than the last one sent, of the time `t`; if the ring is full, its oldest packet was sent.
  pub data Feed (w : World) : List ℕ → List Packet → World → Type 0 where
    begin : Feed w [] [] w
    serve :
        {out out' : List ℕ} {arrived : List Packet} {w' w'' : World}
        → Feed w out arrived w'
        → (a : Turn) → IsSocket a.send
        → served m c a w' ≡ done (out', w'')
        → Feed w (out ++ out') arrived w''
    arrive :
        {out : List ℕ} {arrived : List Packet} {w' : World} {r : Reply}
        → Feed w out arrived w'
        → (element : PacketInfo) (pkt : List ℕ) → element.packet_len ≤ length pkt
        → element.packet_len ≤ size
        → (h : ConnHistData) → get_elem? w'.hist w'.conn.history ≡ some h
        → h.last_packet_time <ℤ element.packet_time
        → AllBefore element.packet_time (Valid.contents w'.data_ring)
        → (length (Valid.contents w'.data_ring) < datasize)
          ⊎ OldestSent h.last_packet_time (Valid.contents w'.data_ring)
        → arrives element pkt w'.data_ring ≡ done r
        → Feed w out (arrived ++ (kept element pkt ∷ [])) (record w' { data_ring = r.2 })

  -- The packets `qs` were sent, those of the ones to be sent at first, `due`, and of those that
  -- arrived that are not to be sent any more.
  abbrev pub Fed : List Packet → World → List ℕ → List Packet → World → Type 0
  Fed due w out arrived w' =
      (ps : List Packet) × ((t : ℤ) × ((qs : List Packet) × (Ready size ps t w'
            × ((due ++ arrived ≡ qs ++ later t ps)
                × (out ++ contents w'.conn.send_ring ≡ contents w.conn.send_ring ++ bytes_of qs)))))

  serve-Fed :
      (due : List Packet) (w : World) (out : List ℕ) (arrived : List Packet) (w' : World)
      (fed : Fed due w out arrived w') (out' : List ℕ) (w'' : World)
      → Follows size fed.0 fed.1.0 w' out' w''
      → Fed due w (out ++ out') arrived w''
  serve-Fed due w out arrived w' (ps, (t, (qs, (ready, (more, bytes))))) out' w''
        (t', (qs', (ready', (more', bytes')))) =
      (
        ps,
        (
          t',
          (
            qs ++ qs',
            (
              ready',
              (
                more ∙ ap (λ l. qs ++ l) more' ∙ sym (append_assoc qs qs' (later t' ps)),
                bytes-then out out' (contents w.conn.send_ring) (contents w'.conn.send_ring)
                    (contents w''.conn.send_ring) qs qs' bytes bytes',
              ),
            ),
          ),
        ),
      )

  stored-Ready :
      (ps : List Packet) (t : ℤ) (w : World) (s : DataRing)
      → Ready size ps t w
      → (ps' : List Packet) → Valid.contents s ≡ ps'
      → Valid.IsValid size s
      → s.locked ≡ false
      → Ready size ps' t (record w { data_ring = s })
  stored-Ready ps t w s ready ps' held v free = record {
    sound = record {
      receives = ready.sound.receives;
      sends = ready.sound.sends;
      sendbfr = ready.sound.sendbfr;
      stored = v;
      slots = ready.sound.slots;
      unlocked = free;
      recorded = ready.sound.recorded;
    };
    sending = ready.sending;
    held = held;
    last_sent = ready.last_sent;
  }

  module _ (element : PacketInfo) (pkt : List ℕ) (reads : element.packet_len ≤ length pkt)
      (fits : element.packet_len ≤ size) where
    store-Fed :
        (due : List Packet) (w : World) (out : List ℕ) (arrived : List Packet) (w' : World)
        (fed : Fed due w out arrived w')
        → fed.1.0 <ℤ element.packet_time
        → AllBefore element.packet_time fed.0
        → (length fed.0 < datasize) ⊎ OldestSent fed.1.0 fed.0
        → (r : Reply) → arrives element pkt w'.data_ring ≡ done r
        → Fed due w out (arrived ++ (kept element pkt ∷ [])) (record w' { data_ring = r.2 })
    unfolding call step
    store-Fed due w out arrived w' (ps, (t, (qs, (ready, (more, bytes))))) new before kept_all r
          stored =
        let (answer, held, v, free) =
          subst (Answers m c element size (step (Valid.contents w'.data_ring) (store element pkt)))
            stored
            (step-Answers m c element size (store element pkt) {s = w'.data_ring} (reads, fits, tt)
              ready.sound.stored ready.sound.unlocked) in
        (
          newest_of datasize (insert (kept element pkt) ps),
          (
            t,
            (
              qs,
              (
                stored-Ready ps t w' r.2 ready _
                    (held ∙ ap (λ l. newest_of datasize (insert (kept element pkt) l)) ready.held) v
                    free,
                (
                  sym (append_assoc due arrived (kept element pkt ∷ []))
                      ∙ ap (λ l. l ++ (kept element pkt ∷ [])) more
                      ∙ append_assoc qs (later t ps) (kept element pkt ∷ [])
                      ∙ ap (λ l. qs ++ l)
                          (sym (later-stored t (kept element pkt) ps new before kept_all)),
                  bytes,
                ),
              ),
            ),
          ),
        )

  -- Whatever comes next returns.
  abbrev pub GoesOn : World → Type 0
  GoesOn w =
      ((a : Turn) → IsSocket a.send → (r : List ℕ × World) × (served m c a w ≡ done r))
      × ((element : PacketInfo) (pkt : List ℕ)
          → element.packet_len ≤ length pkt
          → element.packet_len ≤ size
          → (r : Reply) × (arrives element pkt w.data_ring ≡ done r))

  Served-returns :
      (ps : List Packet) (t : ℤ) (w : World) (o : Outcome (List ℕ × World))
      → Served size ps t w o
      → (r : List ℕ × World) × (o ≡ done r)
  Served-returns ps t w (done r) h = (r, refl)
  Served-returns ps t w fault h = elim h [ ]
  Served-returns ps t w failed h = elim h [ ]
  Served-returns ps t w blocked h = elim h [ ]

  store-returns :
      (none_given : PacketInfo) (e : (ℤ × Option Packet) × List Packet) (o : Outcome Reply)
      → Answers m c none_given size e o
      → (r : Reply) × (o ≡ done r)
  store-returns none_given (a, ps) (done r) h = (r, refl)
  store-returns none_given (a, ps) fault h = elim h [ ]
  store-returns none_given (a, ps) failed h = elim h [ ]
  store-returns none_given (a, ps) blocked h = elim h [ ]

  Ready-GoesOn : (ps : List Packet) (t : ℤ) (w : World) → Ready size ps t w → GoesOn w
  unfolding call
  Ready-GoesOn ps t w ready = (
    λ a socket.
        Served-returns ps t w (served m c a w) (served-Served size ps m c a socket t w ready),
    λ element pkt reads fits. store-returns element _ (arrives element pkt w.data_ring) (
        step-Answers m c element size (store element pkt) {s = w.data_ring} (reads, fits, tt)
          ready.sound.stored ready.sound.unlocked),
  )

  Feed-Fed :
      (ps : List Packet) (t : ℤ) {w : World}
      → Ready size ps t w
      → {out : List ℕ} {arrived : List Packet} {w' : World} → Feed w out arrived w'
      → Fed (later t ps) w out arrived w'
  Feed-Fed ps t {w} ready begin = (
    ps,
    (t, ([], (ready, (append-nil (later t ps), sym (append-nil (contents w.conn.send_ring)))))),
  )
  Feed-Fed ps t {w} ready (serve {out} {out'} {arrived} {w'} {w''} before a socket e) =
      let fed = Feed-Fed ps t ready before in
      serve-Fed (later t ps) w out arrived w' fed out' w'' (
        subst (Served size fed.0 fed.1.0 w') e
          (served-Served size fed.0 m c a socket fed.1.0 w' fed.1.1.1.0))
  Feed-Fed ps t {w} ready
        (arrive {out} {arrived} {w'} {r} before element pkt reads fits h place new older kept_all
          e) =
      let fed = Feed-Fed ps t ready before in
      let now = fed.1.1.1.0 in
      let last : h.last_packet_time ≡ fed.1.0 =
        ap (λ k. k.last_packet_time)
          (some-injective h now.last_sent.0 (sym place ∙ now.last_sent.1.0))
        ∙ now.last_sent.1.1 in
      store-Fed element pkt reads fits (later t ps) w out arrived w' fed (rw last at new)
        (subst (AllBefore element.packet_time) now.held older)
        (subst (λ l. (length l < datasize) ⊎ OldestSent fed.1.0 l) now.held (rw last at kept_all)) r
        e

  -- While a connection in SRVR_STATE_SENDADC for which the invariant holds is served, by sockets
  -- that take at most what they are given and fail only with EAGAIN or EPIPE, its client being
  -- silent, and packets are stored in the data ring between the rounds, in any interleaving, each
  -- later than those held and than the last one sent, and in a full ring only once its oldest
  -- packet was sent: the bytes taken and then those on the send ring are those that were on it and
  -- then, unchanged, in order and each once, the first of the packets that were to be sent and of
  -- those that arrived, and just the others are still to be sent; and whatever round or packet
  -- comes next, the call returns.
  pub Feed-Delivers :
      (ps : List Packet) (t : ℤ) {w : World}
      → Ready size ps t w
      → {out : List ℕ} {arrived : List Packet} {w' : World} → Feed w out arrived w'
      → Fed (later t ps) w out arrived w' × GoesOn w'
  Feed-Delivers ps t ready feed =
      let fed = Feed-Fed ps t ready feed in (fed, Ready-GoesOn fed.0 fed.1.0 _ fed.1.1.1.0)
