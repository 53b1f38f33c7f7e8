-- ===== src/Log/Widths.antt =====
-- The widths of what `hexdumplog` of src/util.c prints.
use sdrproxy.Prelude.{
  ℕ, zero, suc, ◌+◌, ◌-◌, ◌*◌, ◌/◌, ◌%◌, ◌==◌, ◌≤◌, ◌<◌, ◌≡◌, refl, ap, arith, Bool-cases, inl, inr,
  List, [], ◌∷◌, length, length-append, ltb, lt→ltb,
}
use sdrproxy.Log.{count_digits, address_len, hex, hex_digit, pad_zeros, address_text}

abbrev power : ℕ → ℕ → ℕ
power base zero = 1
power base (suc w) = base * power base w

length-hex : (w fuel n : ℕ) → n < power 16 (suc w) → length (hex fuel n) ≤ suc w
unfolding hex
length-hex w zero n h = omega arith
length-hex zero (suc fuel) n h = rw (lt→ltb n 16 (omega arith)) (omega arith)
length-hex (suc w) (suc fuel) n h = elim (Bool-cases (ltb n 16)) [
  | inl small ↦ rw small (omega arith)
  | inr large ↦ rw large (
      let front = length-hex w fuel (n / 16) (omega arith) in
      omega (arith, front, length-append (hex fuel (n / 16)) (hex_digit (n % 16) ∷ [])))
]

length-pad_zeros :
    (width : ℕ) (text : List ℕ)
    → length (pad_zeros width text) ≡ length text + (width - length text)
unfolding pad_zeros
length-pad_zeros zero text = omega arith
length-pad_zeros (suc width) text =
    let before = length-pad_zeros width text in
    elim (Bool-cases (ltb (length (pad_zeros width text)) (suc width))) [
      | inl short ↦ rw short (ground (arith, before, short))
      | inr long ↦ rw long (ground (arith, before, long))
    ]

pub length-address_text : (n : ℕ) → n < 65536 → length (address_text 4 n) ≡ 4
length-address_text n h =
    omega (arith, length-pad_zeros 4 (hex (n + 1) n), length-hex 3 (n + 1) n (omega arith))

count_digits-le : (w fuel n : ℕ) → n < power 32 w → count_digits fuel n ≤ w
unfolding count_digits
count_digits-le w zero n h = omega arith
count_digits-le zero (suc fuel) n h =
    rw (ap (λ k. k == 0) {x = n} {y = 0} (omega arith)) (omega arith)
count_digits-le (suc w) (suc fuel) n h = elim (Bool-cases (n == 0)) [
  | inl none_left ↦ rw none_left (omega arith)
  | inr some_left ↦ rw some_left (omega (arith, count_digits-le w fuel (n / 32) (omega arith)))
]

pub address_len-four : (len : ℕ) → len ≤ 65536 → address_len len ≡ 4
unfolding address_len
address_len-four len h =
    let few = count_digits-le 4 len len (omega arith) in
    elim (Bool-cases (ltb (count_digits len len) 4)) [
      | inl less ↦ rw less refl
      | inr four ↦ rw four (ground (arith, few, four))
    ]
