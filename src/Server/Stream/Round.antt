-- ===== src/Server/Stream/Round.antt =====
-- What one round of `service_connection` of src/server.c sends of the data ring.
use sdrproxy.Prelude.{
  ℕ, ◌≤◌, ◌<◌, ◌⊎◌, ◌≡◌, ◌≢◌, refl, sym, ap, ◌∙◌, subst, arith, inl, inr, ◌&&◌, not, Bool-cases,
  Option, none, some, List, [], ◌∷◌, ◌++◌, get_elem?, get_elem?-length, get_elem?-set_self, ◌==◌, ℤ,
}
use sdrproxy.Buffer.{bytes_stored, bytes_free}
use sdrproxy.Buffer.Valid.{IsValid, free-add-stored}
use sdrproxy.Buffer.Contents.{contents}
use sdrproxy.Databfr.{Outcome, done, fault, failed, blocked, ◌>>=◌}
use sdrproxy.Databfr.Valid
use sdrproxy.Util.{ChannelInfo}
use sdrproxy.Databfr.Ops.{Allocator}
use sdrproxy.Databfr.Spec.{Packet, time, next_after}
use sdrproxy.History.{ConnHistData}
use sdrproxy.Server.{
  World, ConnectionData, sendadc, put_adc_data, service_state, service_connection, service_incoming,
  is_sending, Sent, sent, send_again, broken_pipe, send_error, send_to_client, service_outgoing,
}
use sdrproxy.Server.Outgoing.{Placed, Puts, given-length}
use sdrproxy.Server.Sending.{Sends, send_to_client-Sends}
use sdrproxy.Server.Invariant.{with_send}
use sdrproxy.Server.Service.{Puts-Sound, IsSocket}
use sdrproxy.Server.Stream.{served, later, Turn, taken_of, with_ret, wire, Ready}
use sdrproxy.Server.Stream.Later.{later-next, later-none}

-- A round that puts what `o` does on the ring and then sends.
abbrev pub put_then : Turn → Outcome (ℤ × World) → Outcome (List ℕ × World)
put_then a o = o >>= λ r.
    (o >>= λ r'. service_outgoing a.writable a.send r'.1 >>= λ w'. done (with_ret r'.0 w')) >>= λ s.
    done (wire a r.1, s.1)

pub served-sending :
    (m : Allocator) (c : ChannelInfo) (a : Turn) (w : World)
    → w.conn.state ≡ sendadc
    → served m c a w ≡ put_then a (put_adc_data m c a.now w)
unfolding served service_state service_connection service_incoming
served-sending m c a w sending = simp (sending, served) refl

module _ (size : ℕ) (ps : List Packet) where
  -- What becomes of the next packet: it follows what is on the ring, if there is room for it.
  abbrev pub Advances : ℤ → World → World → Option Packet → Type 0
  Advances t w w' none =
      Ready size ps t w'
      × (contents w'.conn.send_ring ≡ contents w.conn.send_ring)
      × (later t ps ≡ [])
  Advances t w w' (some p) =
      (p.0.packet_len ≤ size)
      × (((bytes_free w.conn.send_ring < p.0.packet_len)
            × (Ready size ps t w' × (contents w'.conn.send_ring ≡ contents w.conn.send_ring)))
          ⊎ (Ready size ps (time p) w'
              × (contents w'.conn.send_ring ≡ contents w.conn.send_ring ++ p.1)
              × (later t ps ≡ p ∷ later (time p) ps)))

  -- The `switch`
  pub Puts-Advances :
      (t : ℤ) (w : World) (now : ℤ) (ready : Ready size ps t w) (ret : ℤ) (w' : World)
      → Puts now w ready.last_sent.0 size (done (ret, w'))
      → Advances t w w' (next_after t ps) × (w'.conn.send_ring.bfrsize ≡ w.conn.send_ring.bfrsize)
  Puts-Advances t w now ready ret w' puts =
      let (v, dv, unlocked, same, conn, same_size, placed) = puts in
      (
        placed-Advances (next_after t ps) refl
            (subst (λ o. Placed now w h o ret w') (rw (this, ready.held) refl) placed),
        same_size,
      )
    where
      h : ConnHistData
      h = ready.last_sent.0

      place : get_elem? w.hist w.conn.history ≡ some h
      place = ready.last_sent.1.0

      this : h.last_packet_time ≡ t
      this = ready.last_sent.1.1

      sent_to : Packet → ConnHistData
      sent_to p = record h { last_packet_time = p.0.packet_time; last_update = now }

      still :
          (t' : ℤ) (h' : ConnHistData)
          → get_elem? w'.hist w.conn.history ≡ some h'
          → h'.last_packet_time ≡ t'
          → Ready size ps t' w'
      still t' h' place' e =
          let (v, dv, unlocked, same, conn, same_size, placed) = puts in
          record {
            sound = Puts-Sound size now w ready.sound h (done (ret, w')) puts;
            sending = ap (λ d. d.state) conn ∙ ready.sending;
            held = same ∙ ready.held;
            last_sent = (h', (rw (ap (λ d. d.history) conn) place', e));
          }

      given : (p : Packet) → next_after t ps ≡ some p → p.0.packet_len ≤ size
      given p e = (given-length ready.sound.stored t p (ap (next_after t) ready.held ∙ e)).1

      next : (p : Packet) → next_after t ps ≡ some p → later t ps ≡ p ∷ later (time p) ps
      next p e =
          subst (λ l. next_after t l ≡ some p → later t l ≡ p ∷ later (time p) l) ready.held
            (later-next t w.data_ring.datar_cnt (Valid.packet_at w.data_ring) p
              ready.sound.stored.sorted)
            e

      placed-Advances :
          (o : Option Packet) → next_after t ps ≡ o → Placed now w h o ret w' → Advances t w w' o
      placed-Advances none e (e', (bytes, hist)) =
          (still t h (rw hist place) this, bytes, later-none t ps e)
      placed-Advances (some p) e (inl (full, e', (bytes, hist))) =
          (given p e, inl (full, (still t h (rw hist place) this, bytes)))
      placed-Advances (some p) e (inr (room, e', bytes, hist)) = (
        given p e,
        inr (
          still (time p) (sent_to p)
              (ap (λ l. get_elem? l w.conn.history) hist
                ∙ get_elem?-set_self w.hist w.conn.history (sent_to p)
                    (get_elem?-length w.hist w.conn.history h place))
              refl,
          bytes,
          next p e,
        ),
      )

  -- What leaves the ring is what the socket took, the oldest bytes.
  abbrev pub Passes : Turn → ℤ → World → Outcome (List ℕ × World) → Type 0
  Passes a t w (done (out, w')) =
      Ready size ps t w'
      × (out ++ contents w'.conn.send_ring ≡ contents w.conn.send_ring)
      × (out ≡ wire a w)
      × (w'.conn.send_ring.bfrsize ≡ w.conn.send_ring.bfrsize)
  Passes a t w fault = ⊥
  Passes a t w failed = ⊥
  Passes a t w blocked = ⊥

  module _ (a : Turn) (socket : IsSocket a.send) (ret : ℤ) (t : ℤ) (w : World)
      (ready : Ready size ps t w) where
    left :
        (after : ConnectionData)
        → IsValid after.send_ring
        → after ≡ record (w.conn) { send_ring = after.send_ring }
        → after.send_ring.bfrsize ≡ w.conn.send_ring.bfrsize
        → Ready size ps t (record w { conn = after })
    left after v same same_size = record {
      sound =
          with_send size w ready.sound after v same_size (ap (λ d. d.rcv_ring) same)
            (ap (λ d. d.history) same);
      sending = ap (λ d. d.state) same ∙ ready.sending;
      held = ready.held;
      last_sent = (
        ready.last_sent.0,
        (rw (ap (λ d. d.history) same) ready.last_sent.1.0, ready.last_sent.1.1),
      );
    }

    -- The end of the round, once the socket has given its answer.
    abbrev answered : Sent → Outcome (ℤ × ConnectionData) → Outcome (List ℕ × World)
    answered answer o =
        ((o >>= λ r. done (record w { conn = r.1 })) >>= λ w'. done (with_ret ret w')) >>= λ s.
        done (taken_of answer (contents w.conn.send_ring), s.1)

    none_taken :
        wire a w ≡ []
        → (after : ConnectionData) → after ≡ w.conn
        → Passes a t w (done ([], record w { conn = after }))
    none_taken e after same =
        subst (λ d. Passes a t w (done ([], record w { conn = d }))) (sym same)
          (ready, refl, sym e, refl)

    answered-Passes :
        (answer : Sent) (o : Outcome (ℤ × ConnectionData))
        → wire a w ≡ taken_of answer (contents w.conn.send_ring)
        → answer ≢ send_error
        → Sends w.conn answer o
        → Passes a t w (answered answer o)
    answered-Passes (sent n) (done (rv, after)) taken fine (e, v, same, same_size, bytes) =
        (left after v same same_size, bytes, sym taken, same_size)
    answered-Passes send_again (done (rv, after)) taken fine (e, same) = none_taken taken after same
    answered-Passes broken_pipe (done (rv, after)) taken fine (e, same) =
        none_taken taken after same
    answered-Passes send_error o taken fine s = absurd (fine refl)
    answered-Passes (sent n) fault taken fine s = elim s [ ]
    answered-Passes (sent n) failed taken fine s = elim s [ ]
    answered-Passes (sent n) blocked taken fine s = elim s [ ]
    answered-Passes send_again fault taken fine s = elim s [ ]
    answered-Passes send_again failed taken fine s = elim s [ ]
    answered-Passes send_again blocked taken fine s = elim s [ ]
    answered-Passes broken_pipe fault taken fine s = elim s [ ]
    answered-Passes broken_pipe failed taken fine s = elim s [ ]
    answered-Passes broken_pipe blocked taken fine s = elim s [ ]

    pub outgoing-Passes : Passes a t w (
        (service_outgoing a.writable a.send w >>= λ w'. done (with_ret ret w')) >>= λ s.
        done (wire a w, s.1))
    unfolding service_outgoing
    outgoing-Passes =
        elim (Bool-cases
          (not (bytes_stored w.conn.send_ring == 0) && (a.writable && is_sending w.conn.state))) [
            | inl sends ↦
                let taken : wire a w
                    ≡ taken_of (a.send (contents w.conn.send_ring)) (contents w.conn.send_ring) =
                  rw sends refl in
                rw (sends, service_outgoing)
                  (answered-Passes (a.send (contents w.conn.send_ring))
                    (send_to_client a.send w.conn) taken
                    (socket.no_error (contents w.conn.send_ring))
                    (send_to_client-Sends w.conn a.send ready.sound.sends
                      (let fits = ready.sound.sendbfr in
                        omega (arith, free-add-stored ready.sound.sends))
                      socket.at_most))
            | inr rests ↦ rw (rests, service_outgoing) (ready, refl, rw rests refl, refl)
          ]
