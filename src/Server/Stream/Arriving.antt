-- ===== src/Server/Stream/Arriving.antt =====
-- A packet that comes to the data ring of src/databfr.c, later than all others, among those that a
-- connection of src/server.c is still to send.
use sdrproxy.Prelude.{
  ◌+◌, ◌<◌, ◌≡◌, ◌⊎◌, inl, inr, refl, ap, arith, Bool-cases, List, [], ◌∷◌, ◌++◌, length,
  length-append, ltb, ltb_no, lt→ltb, ℤ, pos_part, neg_part, ltb_ℤ, ◌<ℤ◌, ◌≤ℤ◌,
}
use sdrproxy.Databfr.{datasize}
use sdrproxy.Databfr.Spec.{Packet, time, insert, newest_of}
use sdrproxy.Server.Stream.{later}

-- All are of times before `t`.
abbrev pub AllBefore : ℤ → List Packet → Type 0
AllBefore t [] = Unit {0}
AllBefore t (q ∷ qs) = (time q <ℤ t) × AllBefore t qs

-- The oldest of the packets is not later than `t`.
abbrev pub OldestSent : ℤ → List Packet → Type 0
OldestSent t [] = ⊥
OldestSent t (q ∷ qs) = time q ≤ℤ t

insert-newest :
    (p : Packet) (ps : List Packet) → AllBefore (time p) ps → insert p ps ≡ ps ++ (p ∷ [])
unfolding insert
insert-newest p [] before = refl
insert-newest p (q ∷ qs) (older, before) =
    rw
      (
        ltb_no (pos_part (time p) + neg_part (time q)) (pos_part (time q) + neg_part (time p))
            (omega (arith, older)),
        lt→ltb _ _ older,
      )
      (ap (λ l. q ∷ l) (insert-newest p qs before))

later-newest :
    (t : ℤ) (p : Packet) (ps : List Packet)
    → t <ℤ time p
    → later t (ps ++ (p ∷ [])) ≡ later t ps ++ (p ∷ [])
later-newest t p [] h = rw (lt→ltb _ _ h) refl
later-newest t p (q ∷ qs) h = elim (Bool-cases (ltb_ℤ t (time q))) [
  | inl new ↦ rw new (ap (λ l. q ∷ l) (later-newest t p qs h))
  | inr old ↦ rw old (later-newest t p qs h)
]

-- A packet that comes is the last of those that are to be sent.
pub later-stored :
    (t : ℤ) (p : Packet) (ps : List Packet)
    → t <ℤ time p
    → AllBefore (time p) ps
    → (length ps < datasize) ⊎ OldestSent t ps
    → later t (newest_of datasize (insert p ps)) ≡ later t ps ++ (p ∷ [])
later-stored t p ps new before (inl room) = rw (insert-newest p ps before) (
    rw (ltb_no datasize (length (ps ++ (p ∷ []))) (omega (arith, length-append ps (p ∷ []))))
      (later-newest t p ps new))
later-stored t p [] new before (inr old) = elim old [ ]
later-stored t p (q ∷ qs) new before (inr old) =
    rw (insert-newest p (q ∷ qs) before)
      (elim (Bool-cases (ltb datasize (length (q ∷ qs ++ (p ∷ []))))) [
        | inl full ↦
            rw
              (
                full,
                ltb_no (pos_part t + neg_part (time q)) (pos_part (time q) + neg_part t)
                    (omega (arith, old)),
              )
              (later-newest t p qs new)
        | inr room ↦ rw room (later-newest t p (q ∷ qs) new)
      ])
