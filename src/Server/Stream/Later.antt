-- ===== src/Server/Stream/Later.antt =====
-- The packets of a data ring that are later than a time.
use sdrproxy.Prelude.{
  ℕ, zero, suc, ◌<◌, ◌≡◌, refl, sym, ap, ◌∙◌, subst, arith, inl, inr, Bool-cases, none, some, List,
  [], ◌∷◌, ◌+◌, pos_part, neg_part, tabulate, ltb_no, lt→ltb, ℤ, ltb_ℤ, ◌<ℤ◌,
}
use mathlib.Core.Option.{some-injective}
use sdrproxy.Databfr.Spec.{Packet, time, next_after}
use sdrproxy.Server.Outgoing.{next_after-held}
use sdrproxy.Server.Stream.{later}

later-all :
    (t : ℤ) (c : ℕ) (f : ℕ → Packet)
    → ((k : ℕ) → k < c → t <ℤ time (f k))
    → later t (tabulate c f) ≡ tabulate c f
later-all t zero f h = refl
later-all t (suc c) f h =
    rw (lt→ltb _ _ (h 0 (omega arith)))
      (ap (λ l. f 0 ∷ l) (later-all t c (λ k. f (suc k)) (λ k b. h (suc k) (omega arith))))

-- Behind the next packet are those that are later than it.
pub later-next :
    (t : ℤ) (c : ℕ) (f : ℕ → Packet) (p : Packet)
    → ((i j : ℕ) → i < j → j < c → time (f i) <ℤ time (f j))
    → next_after t (tabulate c f) ≡ some p
    → later t (tabulate c f) ≡ p ∷ later (time p) (tabulate c f)
unfolding next_after
later-next t zero f p sorted e = cc
later-next t (suc c) f p sorted e =
    let rest : ℕ → Packet = λ k. f (suc k) in
    let sorted' : (i j : ℕ) → i < j → j < c → time (rest i) <ℤ time (rest j) =
      λ i j h b. sorted (suc i) (suc j) (omega arith) (omega arith) in
    elim (Bool-cases (ltb_ℤ t (time (f 0)))) [
      | inl first ↦
          let same : f 0 ≡ p = some-injective (f 0) p (rw first at e) in
          let others = λ (k : ℕ) (b : k < c). sorted 0 (suc k) (omega arith) (omega arith) in
          subst (λ q. later t (tabulate (suc c) f) ≡ q ∷ later (time q) (tabulate (suc c) f)) same
            (rw
              (
                first,
                ltb_no (pos_part (time (f 0)) + neg_part (time (f 0)))
                    (pos_part (time (f 0)) + neg_part (time (f 0))) (omega arith),
              )
              (ap (λ l. f 0 ∷ l)
                (later-all t c rest (λ k b. let h = others k b in ground (arith, first))
                  ∙ sym (later-all (time (f 0)) c rest others))))
      | inr passed ↦
          let e' : next_after t (tabulate c rest) ≡ some p = rw passed at e in
          let (k, (held, here)) = next_after-held t c rest p e' in
          let older : time (f 0) <ℤ time p =
            subst (λ q. time (f 0) <ℤ time q) here (sorted 0 (suc k) (omega arith) (omega arith)) in
          rw
            (
              passed,
              ltb_no (pos_part (time p) + neg_part (time (f 0)))
                  (pos_part (time (f 0)) + neg_part (time p)) (omega arith),
            )
            (later-next t c rest p sorted' e')
    ]

pub later-none : (t : ℤ) (ps : List Packet) → next_after t ps ≡ none → later t ps ≡ []
unfolding next_after
later-none t [] e = refl
later-none t (q ∷ qs) e = elim (Bool-cases (ltb_ℤ t (time q))) [
  | inl first ↦ let e' = rw first at e in cc
  | inr passed ↦ rw passed (later-none t qs (rw passed at e))
]
