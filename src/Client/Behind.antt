-- ===== src/Client/Behind.antt =====
-- A token of src/client.c among the bytes on a ring, when other bytes stand before or behind them.
use sdrproxy.Prelude.{
  ℕ, zero, suc, ◌+◌, ◌≡◌, refl, sym, ap, ◌∙◌, arith, List, ◌++◌, length, length-append, get_or,
  get_or-append, get_or-drop, drop-append_length, ℤ, pos, negsuc,
}
use sdrproxy.Buffer.Search.{Holds, IsFirst}
use sdrproxy.Util.Search.{IsBytes}

module _ (xs ys : List ℕ) where
  get_or-behind : (i : ℕ) → get_or ys i 0 ≡ get_or (xs ++ ys) (length xs + i) 0
  get_or-behind i =
      ap (λ l. get_or l i 0) (sym (drop-append_length xs ys (length xs) refl))
      ∙ get_or-drop (length xs) (xs ++ ys) i 0

  pub IsBytes-behind : IsBytes (xs ++ ys) → IsBytes ys
  IsBytes-behind h i = rw (get_or-behind i) (h (length xs + i))

  pub Holds-behind :
      (target : List ℕ) (p : ℕ) → Holds ys target p → Holds (xs ++ ys) target (length xs + p)
  Holds-behind target p (room, same) = (
    omega (arith, length-append xs ys),
    λ k h.
        ap (λ i. get_or (xs ++ ys) i 0) {y = length xs + (p + k)} (omega arith)
        ∙ sym (get_or-behind (p + k))
        ∙ same k h,
  )

  pub Holds-front : (target : List ℕ) → Holds xs target 0 → Holds (xs ++ ys) target 0
  Holds-front target (room, same) = (
    omega (arith, length-append xs ys),
    λ k h. get_or-append xs ys (0 + k) 0 (omega arith) ∙ same k h,
  )

pub first_place :
    (bytes target : List ℕ) (i : ℤ) → IsFirst bytes target i → Holds bytes target 0 → i ≡ pos 0
first_place bytes target (pos zero) first there = refl
first_place bytes target (pos (suc p)) (at, none_before) there =
    absurd (none_before 0 (omega arith) there)
first_place bytes target (negsuc n) nowhere there = absurd (nowhere 0 there)

pub not_found :
    (bytes target : List ℕ) (i : ℤ)
    → IsFirst bytes target i
    → ((p : ℕ) → ¬ Holds bytes target p)
    → (n : ℕ) × (i ≡ negsuc n)
not_found bytes target (pos p) (at, _) nowhere = absurd (nowhere p at)
not_found bytes target (negsuc n) first nowhere = (n, refl)
