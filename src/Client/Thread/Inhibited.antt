-- ===== src/Client/Thread/Inhibited.antt =====
-- `check_data` of src/client.c while the storing of data is inhibited.
use sdrproxy.Prelude.{
  ℕ, zero, suc, ◌+◌, ◌<◌, ◌≡◌, refl, ◌∙◌, arith, Bool, true, false, Bool-cases, inl, inr, Option,
  none, some, ltb, ℤ, pos, negsuc, pos_part, ltb_ℤ, eqb_ℤ, eq_of_parts, ==_iff,
}
use sdrproxy.Buffer.{bytes_stored}
use sdrproxy.Buffer.Valid.{IsValid, delete-IsValid}
use sdrproxy.Util.{ChannelInfo}
use sdrproxy.Databfr.{Outcome, done, fault, failed, blocked, ◌>>=◌}
use sdrproxy.Databfr.Ops.{Allocator}
use sdrproxy.Channels.{get_chan_info, find_chan_info}
use sdrproxy.Client.{
  Tm, ClientData, found, check_found, check_loop, cleared, clear_inhibited, check_data,
}
use sdrproxy.Client.Taken.{get_chan_info-stored}
use sdrproxy.Client.Rounds.{check_found_none}

-- The call returns, and stores no packet.
abbrev pub Spares : ClientData → Outcome (Option ClientData) → Type 0
Spares d (done (some d')) =
    IsValid d'.ring × (d'.data_ring ≡ d.data_ring) × (d'.packet_id ≡ d.packet_id)
Spares d (done none) = ⊥
Spares d fault = ⊥
Spares d failed = ⊥
Spares d blocked = ⊥

module _ (timegm : Tm → ℤ) (m : Allocator) (c : ChannelInfo) where
  abbrev info_taken : ℤ → ClientData → ℤ × ClientData
  info_taken chanidx d =
      let (info, rest) = get_chan_info (pos_part chanidx) d.new_channel_info d.ring in
      (info.0, record d { new_channel_info = info.1; ring = rest })

  check_found-info :
      (chanidx : ℤ) (d : ClientData)
      → found chanidx ≡ true
      → check_found timegm m c chanidx (negsuc 0) d ≡ done (info_taken chanidx d)
  unfolding check_found
  check_found-info chanidx d there = elim (Bool-cases (ltb_ℤ chanidx (negsuc 0))) [
    | inl before ↦ rw (there, before, check_found) refl
    | inr after ↦ rw (there, after, check_found) refl
  ]

  Spares-same :
      (d d' : ClientData) (o : Outcome (Option ClientData))
      → d'.data_ring ≡ d.data_ring
      → d'.packet_id ≡ d.packet_id
      → Spares d' o
      → Spares d o
  Spares-same d d' (done (some d'')) same_ring same_id s = (s.0, s.1 ∙ same_ring, s.2 ∙ same_id)
  Spares-same d d' (done none) same_ring same_id s = elim s [ ]
  Spares-same d d' fault same_ring same_id s = elim s [ ]
  Spares-same d d' failed same_ring same_id s = elim s [ ]
  Spares-same d d' blocked same_ring same_id s = elim s [ ]

  again-Spares :
      (fuel : ℕ) (d : ClientData)
      → bytes_stored d.ring < suc fuel
      → ((d' : ClientData)
          → IsValid d'.ring
          → bytes_stored d'.ring < fuel
          → Spares d' (check_loop timegm m c fuel true d'))
      → (r : ℤ × ClientData)
      → IsValid r.1.ring × (r.0 ≡ pos 0 → bytes_stored r.1.ring < bytes_stored d.ring)
      → r.1.data_ring ≡ d.data_ring
      → r.1.packet_id ≡ d.packet_id
      → (b : Bool) → eqb_ℤ r.0 (pos 0) ≡ b
      → Spares d (elim b [ true ↦ check_loop timegm m c fuel true r.1 | false ↦ done (some r.1) ])
  again-Spares fuel d h loop r (v, less) same_ring same_id false e = (v, same_ring, same_id)
  again-Spares fuel d h loop r (v, less) same_ring same_id true e =
      let fewer = less (eq_of_parts r.0 (pos 0) ((==_iff _ _).0 e)) in
      Spares-same d r.1 (check_loop timegm m c fuel true r.1) same_ring same_id
        (loop r.1 v (omega arith))

  check_loop-Spares :
      (fuel : ℕ) (d : ClientData)
      → IsValid d.ring
      → bytes_stored d.ring < fuel
      → Spares d (check_loop timegm m c fuel true d)
  unfolding check_loop
  check_loop-Spares zero d v h = elim h [ ]
  check_loop-Spares (suc fuel) d v h =
      let chanidx = find_chan_info d.ring in
      elim (Bool-cases (found chanidx)) [
        | inr none_found ↦
            rw
              (
                none_found,
                check_found_none timegm m c chanidx (negsuc 0) d (rw none_found refl),
                check_loop,
              )
              (v, refl, refl)
        | inl there ↦
            rw (there, check_found-info chanidx d there, check_loop)
              (again-Spares fuel d h (check_loop-Spares fuel) (info_taken chanidx d)
                (get_chan_info-stored (pos_part chanidx) d.new_channel_info v) refl refl
                (eqb_ℤ (info_taken chanidx d).0 (pos 0)) refl)
      ]

  clear_inhibited-Spares :
      (d d' : ClientData)
      → Spares d (done (some d'))
      → Spares d (done (some (clear_inhibited true d')))
  unfolding clear_inhibited
  clear_inhibited-Spares d d' (v, same_ring, same_id) =
      elim (Bool-cases (ltb 5 (bytes_stored d'.ring))) [
        | inl clears ↦
            rw (clears, clear_inhibited)
              (delete-IsValid v (pos (bytes_stored d'.ring)), same_ring, same_id)
        | inr keeps ↦ rw (keeps, clear_inhibited) (v, same_ring, same_id)
      ]

  -- On a valid ring check_data returns if the storing of data is inhibited, with a valid ring, and
  -- no packet is stored.
  pub check_data-Spares :
      (d : ClientData) → IsValid d.ring → Spares d (check_data timegm m c true d)
  unfolding check_data
  check_data-Spares d v =
      clears (check_loop timegm m c (bytes_stored d.ring + 1) true d)
        (check_loop-Spares (bytes_stored d.ring + 1) d v (omega arith))
    where
      clears :
          (o : Outcome (Option ClientData))
          → Spares d o
          → Spares d (o >>= λ o'. done (cleared true o'))
      clears (done (some d')) s = clear_inhibited-Spares d d' s
      clears (done none) s = elim s [ ]
      clears fault s = elim s [ ]
      clears failed s = elim s [ ]
      clears blocked s = elim s [ ]
