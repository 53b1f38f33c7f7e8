-- ===== src/Server/Stream.antt =====
-- What a client of src/server.c receives over many rounds of `service_connection`, while the data ring
-- stays as it is and the client is silent.
pub mod Later
pub mod Round
pub mod Rounds
pub mod Whole
pub mod Arriving
pub mod Feed
use sdrproxy.Prelude.{
  ℕ, zero, suc, ◌≤◌, ◌<◌, ◌≡◌, ◌≢◌, refl, sym, ap, ◌∙◌, subst, arith, ◌⊎◌, inl, inr, Bool, true,
  false, ◌&&◌, not, Bool-cases, Option, none, some, List, [], ◌∷◌, ◌++◌, ◌+◌, pos_part, neg_part,
  length, get_elem?, get_elem?-length, get_elem?-set_self, set, take, tabulate, ltb, ltb_no, lt→ltb,
  ◌==◌, if◌then◌else◌, ℤ, pos, negsuc, ltb_ℤ, ◌<ℤ◌, ◌≤ℤ◌,
}
use mathlib.Core.List.{append_assoc, append-nil}
use mathlib.Core.Option.{some-injective}
use sdrproxy.Buffer.{RingSet, bytes_free, bytes_stored}
use sdrproxy.Buffer.Valid.{IsValid, free-add-stored}
use sdrproxy.Buffer.Contents.{contents}
use sdrproxy.Util.{ChannelInfo}
use sdrproxy.Databfr.{DataRing, Outcome, done, fault, failed, blocked, ◌>>=◌}
use sdrproxy.Databfr.Valid
use sdrproxy.Databfr.Spec.{Packet, time, next_after}
use sdrproxy.Databfr.Ops.{Allocator}
use sdrproxy.History.{ConnHistData}
use sdrproxy.Server.{
  World, ConnectionData, ServrState, sendadc, is_sending, Sent, sent, send_again, broken_pipe,
  send_error, try_again, put_adc_data, send_to_client, service_state, service_incoming,
  service_outgoing, service_connection,
}
use sdrproxy.Server.Outgoing.{Placed, Puts, put_adc_data-Puts, next_after-held}
use sdrproxy.Server.Sending.{Sends, send_to_client-Sends}
use sdrproxy.Server.Invariant.{IsSound, with_send}
use sdrproxy.Server.Service.{Sound, Puts-Sound, IsSocket}

-- The packets later than a time.
abbrev pub later : ℤ → List Packet → List Packet
later t [] = []
later t (q ∷ qs) = let rest = later t qs in if ltb_ℤ t (time q) then q ∷ rest else rest

abbrev pub bytes_of : List Packet → List ℕ
bytes_of [] = []
bytes_of (p ∷ ps) = p.1 ++ bytes_of ps

-- What the system answers in a round.
pub record Turn : Type 0 where
  pub now : ℤ
  pub writable : Bool
  pub send : List ℕ → Sent

abbrev pub taken_of : Sent → List ℕ → List ℕ
taken_of (sent n) bytes = take n bytes
taken_of send_again bytes = []
taken_of broken_pipe bytes = []
taken_of send_error bytes = []

abbrev pub with_ret : ℤ → World → ℤ × World
with_ret ret w = (ret, w)

-- What the socket takes in a round, once the `switch` has left `w`.
abbrev pub wire : Turn → World → List ℕ
wire a w =
    if not (bytes_stored w.conn.send_ring == 0) && (a.writable && is_sending w.conn.state)
    then taken_of (a.send (contents w.conn.send_ring)) (contents w.conn.send_ring)
    else []

module _ (m : Allocator) (c : ChannelInfo) where
  -- A round of `service_connection`, and what the socket takes.
  unfoldable pub served : Turn → World → Outcome (List ℕ × World)
  served a w = service_state m c a.now w w.conn.state >>= λ r.
      service_connection m c a.now false a.writable (λ n. try_again) a.send w >>= λ s.
      done (wire a r.1, s.1)

  -- Rounds, and all that the socket takes.
  unfoldable pub rounds : List Turn → World → Outcome (List ℕ × World)
  rounds [] w = done ([], w)
  rounds (a ∷ turns) w = served a w >>= λ r. rounds turns r.1 >>= λ r'. done (r.0 ++ r'.0, r'.1)

abbrev pub AllSockets : List Turn → Type 0
AllSockets [] = Unit {0}
AllSockets (a ∷ turns) = IsSocket a.send × AllSockets turns

-- A connection that is sent the packets `ps`, of which the last one sent has the time `t`.
pub record Ready (size : ℕ) (ps : List Packet) (t : ℤ) (w : World) : Type 0 where
  pub sound : IsSound size w
  pub sending : w.conn.state ≡ sendadc
  pub held : Valid.contents w.data_ring ≡ ps
  pub last_sent :
      (h : ConnHistData) × ((get_elem? w.hist w.conn.history ≡ some h) × (h.last_packet_time ≡ t))

-- The packets `qs` follow, those that were later than `t` and are no longer; `out` and the ring hold their bytes.
abbrev pub Follows : ℕ → List Packet → ℤ → World → List ℕ → World → Type 0
Follows size ps t w out w' =
    (t' : ℤ) × ((qs : List Packet) × (Ready size ps t' w'
        × ((later t ps ≡ qs ++ later t' ps)
            × (out ++ contents w'.conn.send_ring ≡ contents w.conn.send_ring ++ bytes_of qs))))

abbrev pub Served : ℕ → List Packet → ℤ → World → Outcome (List ℕ × World) → Type 0
Served size ps t w (done (out, w')) = Follows size ps t w out w'
Served size ps t w fault = ⊥
Served size ps t w failed = ⊥
Served size ps t w blocked = ⊥
