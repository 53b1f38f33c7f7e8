-- ===== src/Util/Crc.antt =====
-- The CRC of src/util.c, an exclusive or of bytes, when one of the bytes is another.
use Prim.Native.Nat.{bit_xor, bit_xor-bitwise, digits, differ}
use sdrproxy.Prelude.{
  ℕ, zero, suc, ◌+◌, ◌*◌, ◌/◌, ◌%◌, ◌≤◌, ◌<◌, ◌≡◌, ◌≢◌, refl, sym, ap, ap₂, ◌∙◌, arith, List, [],
  ◌∷◌, length, get_or, set,
}
use sdrproxy.Util.{do_crc}

-- More digits to go than the number has change nothing.
digits-more :
    (n m a b : ℕ) → a ≤ n → a ≤ m → digits (λ b. b) differ n a b ≡ digits (λ b. b) differ m a b
digits-more zero zero a b h h' = refl
digits-more zero (suc m) zero b h h' = refl
digits-more zero (suc m) (suc a) b h h' = absurd (omega arith)
digits-more (suc n) zero zero b h h' = refl
digits-more (suc n) zero (suc a) b h h' = absurd (omega arith)
digits-more (suc n) (suc m) zero b h h' = refl
digits-more (suc n) (suc m) (suc a) b h h' =
    rw (digits-more n m (suc a / 2) (b / 2) (omega arith) (omega arith)) refl

-- The lowest digit and the others.
bit_xor-halves : (a b : ℕ) → bit_xor a b ≡ bit_xor (a / 2) (b / 2) * 2 + differ (a % 2) (b % 2)
bit_xor-halves zero b =
    bit_xor-bitwise 0 b ∙ omega arith ∙ ap (λ t. t * 2 + b % 2) (sym (bit_xor-bitwise 0 (b / 2)))
bit_xor-halves (suc a) b =
    bit_xor-bitwise (suc a) b
    ∙ ap (λ t. t * 2 + differ (suc a % 2) (b % 2))
        (digits-more a (suc a / 2) (suc a / 2) (b / 2) (omega arith) (omega arith)
          ∙ sym (bit_xor-bitwise (suc a / 2) (b / 2)))

differ-right : (a b c : ℕ) → a < 2 → b < 2 → c < 2 → differ a b ≡ differ a c → b ≡ c
differ-right zero b c ha hb hc e = e
differ-right (suc zero) zero zero ha hb hc e = refl
differ-right (suc zero) (suc zero) (suc zero) ha hb hc e = refl
differ-right (suc zero) zero (suc zero) ha hb hc e = absurd (omega arith)
differ-right (suc zero) (suc zero) zero ha hb hc e = absurd (omega arith)
differ-right (suc zero) (suc (suc b)) c ha hb hc e = absurd (omega arith)
differ-right (suc zero) b (suc (suc c)) ha hb hc e = absurd (omega arith)
differ-right (suc (suc a)) b c ha hb hc e = absurd (omega arith)

differ_comm : (a b : ℕ) → differ a b ≡ differ b a
differ_comm zero zero = refl
differ_comm zero (suc b) = refl
differ_comm (suc a) zero = refl
differ_comm (suc a) (suc b) = differ_comm a b

differ_digit : (a b : ℕ) → a < 2 → b < 2 → differ a b < 2
differ_digit zero b ha hb = hb
differ_digit (suc a) zero ha hb = ha
differ_digit (suc a) (suc b) ha hb = differ_digit a b (omega arith) (omega arith)

-- As long as one of the numbers has digits: `n` bounds all of them.
bit_xor_comm : (n a b : ℕ) → a ≤ n → b ≤ n → bit_xor a b ≡ bit_xor b a
bit_xor_comm zero zero zero ha hb = refl
bit_xor_comm zero (suc a) b ha hb = absurd (omega arith)
bit_xor_comm zero zero (suc b) ha hb = absurd (omega arith)
bit_xor_comm (suc n) a b ha hb =
    bit_xor-halves a b
    ∙ ap₂ (λ t d. t * 2 + d) (bit_xor_comm n (a / 2) (b / 2) (omega arith) (omega arith))
        (differ_comm (a % 2) (b % 2))
    ∙ sym (bit_xor-halves b a)

bit_xor-right : (n a b c : ℕ) → b ≤ n → c ≤ n → bit_xor a b ≡ bit_xor a c → b ≡ c
bit_xor-right zero a b c hb hc e = omega arith
bit_xor-right (suc n) a b c hb hc e =
    let same : bit_xor (a / 2) (b / 2) * 2 + differ (a % 2) (b % 2)
        ≡ bit_xor (a / 2) (c / 2) * 2 + differ (a % 2) (c % 2) =
      sym (bit_xor-halves a b) ∙ e ∙ bit_xor-halves a c in
    let lb = differ_digit (a % 2) (b % 2) (omega arith) (omega arith) in
    let lc = differ_digit (a % 2) (c % 2) (omega arith) (omega arith) in
    let low : b % 2 ≡ c % 2 =
      differ-right (a % 2) (b % 2) (c % 2) (omega arith) (omega arith) (omega arith)
        (omega arith) in
    let high : b / 2 ≡ c / 2 =
      bit_xor-right n (a / 2) (b / 2) (c / 2) (omega arith) (omega arith) (omega arith) in
    omega arith

bit_xor-injective : (a b c : ℕ) → bit_xor a b ≡ bit_xor a c → b ≡ c
bit_xor-injective a b c e = bit_xor-right (b + c) a b c (omega arith) (omega arith) e

bit_xor-left : (a b c : ℕ) → bit_xor b a ≡ bit_xor c a → b ≡ c
bit_xor-left a b c e = bit_xor-injective a b c (
    bit_xor_comm (a + b) a b (omega arith) (omega arith)
    ∙ e
    ∙ bit_xor_comm (a + c) c a (omega arith) (omega arith))

do_crc-injective : (bytes : List ℕ) (b c : ℕ) → do_crc b bytes ≡ do_crc c bytes → b ≡ c
unfolding do_crc
do_crc-injective [] b c e = e
do_crc-injective (x ∷ bytes) b c e =
    bit_xor-left x b c (do_crc-injective bytes (bit_xor b x) (bit_xor c x) e)

-- Another byte at one place gives another CRC.
pub do_crc-set :
    (bytes : List ℕ) (crc i b : ℕ)
    → i < length bytes
    → get_or bytes i 0 ≢ b
    → do_crc crc (set bytes i b) ≢ do_crc crc bytes
unfolding do_crc
do_crc-set [] crc i b h d e = absurd (omega arith)
do_crc-set (x ∷ bytes) crc zero b h d e =
    d (sym (bit_xor-injective crc b x (do_crc-injective bytes (bit_xor crc b) (bit_xor crc x) e)))
do_crc-set (x ∷ bytes) crc (suc i) b h d e = do_crc-set bytes (bit_xor crc x) i b (omega arith) d e
