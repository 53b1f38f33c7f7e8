-- ===== src/Server/Stream/Rounds.antt =====
-- What many rounds of `service_connection` of src/server.c send of the data ring.
use sdrproxy.Prelude.{
  ℕ, ◌≡◌, Option, none, some, inl, inr, refl, sym, ap, ◌∙◌, subst, List, [], ◌∷◌, ◌++◌, ℤ,
}
use mathlib.Core.List.{append_assoc, append-nil}
use sdrproxy.Buffer.Contents.{contents}
use sdrproxy.Util.{ChannelInfo}
use sdrproxy.Databfr.{Outcome, done, fault, failed, blocked, ◌>>=◌}
use sdrproxy.Databfr.Spec.{Packet, time, next_after}
use sdrproxy.Databfr.Ops.{Allocator}
use sdrproxy.Server.{World, put_adc_data}
use sdrproxy.Server.Outgoing.{Puts, put_adc_data-Puts}
use sdrproxy.Server.Service.{IsSocket}
use sdrproxy.Server.Stream.{
  later, bytes_of, Turn, AllSockets, served, rounds, Ready, Follows, Served,
}
use sdrproxy.Server.Stream.Round.{
  put_then, served-sending, Advances, Puts-Advances, Passes, outgoing-Passes,
}

bytes_of-append : (ps qs : List Packet) → bytes_of (ps ++ qs) ≡ bytes_of ps ++ bytes_of qs
bytes_of-append [] qs = refl
bytes_of-append (p ∷ ps) qs =
    ap (λ l. p.1 ++ l) (bytes_of-append ps qs) ∙ sym (append_assoc p.1 _ _)

-- What leaves a ring in two parts, with the bytes of packets behind it.
pub bytes-then :
    (out out' r r' r'' : List ℕ) (qs qs' : List Packet)
    → out ++ r' ≡ r ++ bytes_of qs
    → out' ++ r'' ≡ r' ++ bytes_of qs'
    → (out ++ out') ++ r'' ≡ r ++ bytes_of (qs ++ qs')
bytes-then out out' r r' r'' qs qs' bytes bytes' =
    append_assoc out out' r''
    ∙ ap (λ l. out ++ l) bytes'
    ∙ sym (append_assoc out r' (bytes_of qs'))
    ∙ ap (λ l. l ++ bytes_of qs') bytes
    ∙ append_assoc r (bytes_of qs) (bytes_of qs')
    ∙ ap (λ l. r ++ l) (sym (bytes_of-append qs qs'))

module _ (size : ℕ) (ps : List Packet) where
  Follows-then :
      (t : ℤ) (w : World) (out : List ℕ) (w' : World) (first : Follows size ps t w out w')
      (out' : List ℕ) (w'' : World)
      → Follows size ps first.0 w' out' w''
      → Follows size ps t w (out ++ out') w''
  Follows-then t w out w' (t', (qs, (ready, (more, bytes)))) out' w''
        (t'', (qs', (ready', (more', bytes')))) =
      (
        t'',
        (
          qs ++ qs',
          (
            ready',
            (
              more ∙ ap (λ l. qs ++ l) more' ∙ sym (append_assoc qs qs' (later t'' ps)),
              bytes-then out out' (contents w.conn.send_ring) (contents w'.conn.send_ring)
                  (contents w''.conn.send_ring) qs qs' bytes bytes',
            ),
          ),
        ),
      )

  Served-then :
      (t : ℤ) (w : World) (out : List ℕ) (w' : World) (first : Follows size ps t w out w')
      (o : Outcome (List ℕ × World))
      → Served size ps first.0 w' o
      → Served size ps t w (o >>= λ r. done (out ++ r.0, r.1))
  Served-then t w out w' first (done (out', w'')) following =
      Follows-then t w out w' first out' w'' following
  Served-then t w out w' first fault s = elim s [ ]
  Served-then t w out w' first failed s = elim s [ ]
  Served-then t w out w' first blocked s = elim s [ ]

  Served-weaker :
      (t : ℤ) (w w' : World) (first : Follows size ps t w [] w') (o : Outcome (List ℕ × World))
      → Served size ps first.0 w' o
      → Served size ps t w o
  Served-weaker t w w' first (done (out', w'')) following =
      Follows-then t w [] w' first out' w'' following
  Served-weaker t w w' first fault s = elim s [ ]
  Served-weaker t w w' first failed s = elim s [ ]
  Served-weaker t w w' first blocked s = elim s [ ]

  Advances-Follows :
      (t : ℤ) (w w' : World) (o : Option Packet)
      → Advances size ps t w w' o
      → Follows size ps t w [] w'
  Advances-Follows t w w' none (ready, bytes, over) =
      (t, ([], (ready, (refl, bytes ∙ sym (append-nil _)))))
  Advances-Follows t w w' (some p) (fits, inl (full, (ready, bytes))) =
      (t, ([], (ready, (refl, bytes ∙ sym (append-nil _)))))
  Advances-Follows t w w' (some p) (fits, inr (ready, bytes, more)) = (
    time p,
    (
      p ∷ [],
      (ready, (more, bytes ∙ ap (λ l. contents w.conn.send_ring ++ l) (sym (append-nil p.1)))),
    ),
  )

  Passes-Served :
      (a : Turn) (t : ℤ) (w : World) (o : Outcome (List ℕ × World))
      → Passes size ps a t w o
      → Served size ps t w o
  Passes-Served a t w (done (out, w')) (ready, bytes, taken, same_size) =
      (t, ([], (ready, (refl, bytes ∙ sym (append-nil _)))))
  Passes-Served a t w fault s = elim s [ ]
  Passes-Served a t w failed s = elim s [ ]
  Passes-Served a t w blocked s = elim s [ ]

  module _ (m : Allocator) (c : ChannelInfo) where
    put-Served :
        (a : Turn) (socket : IsSocket a.send) (t : ℤ) (w : World) (ready : Ready size ps t w)
        (o : Outcome (ℤ × World))
        → Puts a.now w ready.last_sent.0 size o
        → Served size ps t w (put_then a o)
    put-Served a socket t w ready (done (ret, w')) puts =
        let first =
          Advances-Follows t w w' (next_after t ps)
            (Puts-Advances size ps t w a.now ready ret w' puts).0 in
        Served-weaker t w w' first _ (
          Passes-Served a first.0 w' _
            (outgoing-Passes size ps a socket ret first.0 w' first.1.1.0))
    put-Served a socket t w ready fault s = elim s [ ]
    put-Served a socket t w ready failed s = elim s [ ]
    put-Served a socket t w ready blocked s = elim s [ ]

    pub served-Served :
        (a : Turn)
        → IsSocket a.send
        → (t : ℤ) (w : World) → Ready size ps t w
        → Served size ps t w (served m c a w)
    served-Served a socket t w ready =
        subst (Served size ps t w) (sym (served-sending m c a w ready.sending)) (
          put-Served a socket t w ready (put_adc_data m c a.now w) (
            put_adc_data-Puts a.now w ready.last_sent.0 ready.sound.sends ready.sound.stored
              ready.sound.slots m c ready.last_sent.1.0 ready.sound.unlocked))

    rounds-then :
        (turns : List Turn)
        → ((t : ℤ) (w : World) → Ready size ps t w → Served size ps t w (rounds m c turns w))
        → (t : ℤ) (w : World) (o : Outcome (List ℕ × World)) → Served size ps t w o
        → Served size ps t w (o >>= λ r. rounds m c turns r.1 >>= λ r'. done (r.0 ++ r'.0, r'.1))
    rounds-then turns next t w (done (out, w')) first =
        Served-then t w out w' first (rounds m c turns w') (next first.0 w' first.1.1.0)
    rounds-then turns next t w fault s = elim s [ ]
    rounds-then turns next t w failed s = elim s [ ]
    rounds-then turns next t w blocked s = elim s [ ]

    -- While the data ring stays as it is and the client is silent, rounds of service_connection on
    -- a connection in SRVR_STATE_SENDADC for which the invariant holds return, whatever part of the
    -- bytes the sockets take, if they take at most what they are given and fail only with EAGAIN or
    -- EPIPE; the bytes taken and then those on the send ring are those that were on it and then,
    -- unchanged and in order, packets of the data ring, of those later than the last one sent the
    -- first ones, up to the last one sent now.
    pub rounds-Served :
        (turns : List Turn) (t : ℤ) (w : World)
        → AllSockets turns
        → Ready size ps t w
        → Served size ps t w (rounds m c turns w)
    unfolding rounds
    rounds-Served [] t w sockets ready = (t, ([], (ready, (refl, sym (append-nil _)))))
    rounds-Served (a ∷ turns) t w (socket, sockets) ready =
        rounds-then turns (λ t' w' ready'. rounds-Served turns t' w' sockets ready') t w
          (served m c a w) (served-Served a socket t w ready)
