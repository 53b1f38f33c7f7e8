-- ===== src/Server/Invariant.antt =====
-- The invariant of a connection of src/server.c, and what hearing the client keeps of it.
use sdrproxy.Prelude.{
  ℕ, ◌+◌, ◌-◌, ◌≤◌, ◌≡◌, refl, Bool, true, false, Bool-cases, inl, inr, some, length, get_elem?,
  min, ltb, ◌==◌, if◌then◌else◌, ℤ, pos, negsuc, ltb_ℤ,
}
use sdrproxy.Buffer.{RingSet, bytes_free, bytes_stored, store}
use sdrproxy.Buffer.Valid.{IsValid, store-IsValid, retr-IsValid, delete-IsValid}
use sdrproxy.Buffer.Search.{search_ring}
use sdrproxy.Databfr.Valid
use sdrproxy.History.{ConnHistData}
use sdrproxy.Descriptors.{Descriptors}
use sdrproxy.Server.{
  sendchan, shutdown, ConnectionData, World, maxpacketsize, chanrequest, Received, received,
  try_again, connection_error, closed_by_peer, server_rcv_to_ring, take_request,
  check_server_incoming, service_incoming,
}

-- Both rings and the data ring are valid, the buffers of the code have room for what the rings hold,
-- the mutex is free, and the connection has a record in the history.
pub record IsSound (size : ℕ) (w : World) : Type 0 where
  pub receives : IsValid w.conn.rcv_ring
  pub sends : IsValid w.conn.send_ring
  pub sendbfr : w.conn.send_ring.bfrsize ≤ maxpacketsize + 1
  pub stored : Valid.IsValid size w.data_ring
  pub slots : size ≤ maxpacketsize
  pub unlocked : w.data_ring.locked ≡ false
  pub recorded : (h : ConnHistData) × (get_elem? w.hist w.conn.history ≡ some h)

pub with_fds :
    (size : ℕ) (w : World) (fds : Descriptors)
    → IsSound size w
    → IsSound size (record w { fds = fds })
with_fds size w fds sound = record {
  receives = sound.receives;
  sends = sound.sends;
  sendbfr = sound.sendbfr;
  stored = sound.stored;
  slots = sound.slots;
  unlocked = sound.unlocked;
  recorded = sound.recorded;
}

taken-IsValid : (found : ℤ) {r : RingSet} → IsValid r → IsValid (take_request found r).1
unfolding take_request
taken-IsValid (pos p) {r} v = elim (Bool-cases (ltb 0 p)) [
  | inl some_before ↦ rw some_before (delete-IsValid (retr-IsValid v p) (pos (length chanrequest)))
  | inr none_before ↦ rw none_before (delete-IsValid v (pos (length chanrequest)))
]
taken-IsValid (negsuc n) {r} v = elim (Bool-cases (ltb 7 (bytes_stored r))) [
  | inl many ↦ rw many (retr-IsValid v (bytes_stored r - 7))
  | inr few ↦ rw few v
]

module _ (size : ℕ) (w : World) (sound : IsSound size w) where
  -- What else of the connection is as it was.
  pub with_rcv :
      (conn_data : ConnectionData)
      → IsValid conn_data.rcv_ring
      → conn_data.send_ring ≡ w.conn.send_ring
      → conn_data.history ≡ w.conn.history
      → IsSound size (record w { conn = conn_data })
  with_rcv conn_data v same_ring same_place = record {
    receives = v;
    sends = rw same_ring sound.sends;
    sendbfr = rw same_ring sound.sendbfr;
    stored = sound.stored;
    slots = sound.slots;
    unlocked = sound.unlocked;
    recorded = rw same_place sound.recorded;
  }

  pub with_send :
      (conn_data : ConnectionData)
      → IsValid conn_data.send_ring
      → conn_data.send_ring.bfrsize ≡ w.conn.send_ring.bfrsize
      → conn_data.rcv_ring ≡ w.conn.rcv_ring
      → conn_data.history ≡ w.conn.history
      → IsSound size (record w { conn = conn_data })
  with_send conn_data v same_size same_ring same_place = record {
    receives = rw same_ring sound.receives;
    sends = v;
    sendbfr = rw same_size sound.sendbfr;
    stored = sound.stored;
    slots = sound.slots;
    unlocked = sound.unlocked;
    recorded = rw same_place sound.recorded;
  }

  -- What hearing the client keeps.
  abbrev pub Keeps : ConnectionData → Type 0
  Keeps conn_data =
      IsValid conn_data.rcv_ring
      × (conn_data.send_ring ≡ w.conn.send_ring)
      × (conn_data.history ≡ w.conn.history)

  rcv-Keeps : (recv : ℕ → Received) → Keeps (server_rcv_to_ring recv w.conn).1
  unfolding server_rcv_to_ring
  rcv-Keeps recv =
      by_case (min 300 (bytes_free w.conn.rcv_ring) == 0)
        (recv (min 300 (bytes_free w.conn.rcv_ring)))
    where
      left : ℤ × ConnectionData → ConnectionData
      left (ret, conn_data) = conn_data

      by_case :
          (b : Bool) (got : Received)
          → Keeps (
              left (
                if b then (pos 0, w.conn) else elim got [
                  | received bfr ↦ (
                    pos (length bfr),
                    record (w.conn) { rcv_ring = (store bfr (length bfr) w.conn.rcv_ring).1 },
                  )
                  | try_again ↦ (pos 0, w.conn)
                  | connection_error ↦ (negsuc 0, w.conn)
                  | closed_by_peer ↦ (negsuc 1, w.conn)
                ]))
      by_case true got = (sound.receives, refl, refl)
      by_case false (received bfr) = (store-IsValid sound.receives bfr (length bfr), refl, refl)
      by_case false try_again = (sound.receives, refl, refl)
      by_case false connection_error = (sound.receives, refl, refl)
      by_case false closed_by_peer = (sound.receives, refl, refl)

  chosen-Keeps :
      (is_lost some_bytes found : Bool) (got checked : ConnectionData)
      → Keeps got
      → Keeps checked
      → Keeps (
          if is_lost
          then record got { state = shutdown }
          else (if some_bytes
              then (if found then record checked { state = sendchan } else checked)
              else got))
  chosen-Keeps true some_bytes found got checked k k' = k
  chosen-Keeps false true true got checked k k' = k'
  chosen-Keeps false true false got checked k k' = k'
  chosen-Keeps false false found got checked k k' = k

  pub incoming-Keeps :
      (readable : Bool) (recv : ℕ → Received) → Keeps (service_incoming readable recv w.conn)
  unfolding service_incoming check_server_incoming
  incoming-Keeps false recv = (sound.receives, refl, refl)
  incoming-Keeps true recv =
      let got = server_rcv_to_ring recv w.conn in
      let kept = rcv-Keeps recv in
      chosen-Keeps (ltb_ℤ got.0 (pos 0)) (ltb_ℤ (pos 0) got.0) (check_server_incoming got.1).0 got.1
        (check_server_incoming got.1).1 kept
        (taken-IsValid (search_ring chanrequest got.1.rcv_ring) kept.0, kept.1, kept.2)
