-- ===== src/Log/Whole.antt =====
-- `hexdumplog` of src/util.c, whole, beside the text that it means.
use mathlib.Core.List.{append_assoc}
use sdrproxy.Prelude.{
  ℕ, zero, suc, ◌+◌, ◌-◌, ◌*◌, ◌/◌, ◌%◌, ◌==◌, ◌≤◌, ◌<◌, ◌≡◌, refl, sym, ap, subst, ◌∙◌, arith,
  false, Bool-cases, inl, inr, List, [], ◌∷◌, ◌++◌, length, length-append, take, drop,
  if◌then◌else◌, ltb_no, lt→ltb, ne→==, leb, take-set_at, eq→==, ==_iff, length-drop, Option, none,
  some,
}
use sdrproxy.Databfr.{Outcome, done, fault, failed, blocked, ◌>>=◌}
use sdrproxy.Log.{
  bytes_per_line, address_len, num_lines, output_len, address_text, byte_text, newline_at,
  dump_loop, hexdumplog,
}
use sdrproxy.Log.Reference.{row, dump_lines}
use sdrproxy.Log.Widths.{length-address_text, address_len-four}
use sdrproxy.Log.Dump.{rest, Appends, dump_loop-Appends}

-- The bytes up to the end of a line.
rest-row :
    (q n k : ℕ) (bfr : List ℕ)
    → k + n ≡ 32 * q
    → n < 32
    → rest k bfr ≡ row (take n bfr) ++ rest (k + n) (drop n bfr)
unfolding rest row
rest-row q zero k bfr e h = ap (λ i. rest i bfr) {y = k + 0} (omega arith)
rest-row q (suc n) k [] e h = refl
rest-row q (suc n) k (b ∷ bfr) e h =
    let within : (k % 32 == 0) ≡ false = ne→== (k % 32) 0 (omega arith) in
    rw within (
      ap (λ l. byte_text b ++ l)
        (rest-row q n (k + 1) bfr (omega arith) (omega arith)
          ∙ ap (λ i. row (take n bfr) ++ rest i (drop n bfr)) {x = k + 1 + n} {y = k + suc n}
              (omega arith)))

abbrev Lines : ℕ → ℕ → Type 0
Lines fuel q =
    (b : ℕ) (bfr : List ℕ)
    → length bfr < fuel
    → (address_text 4 (32 * q) ++ (byte_text b ++ rest (32 * q + 1) bfr)) ++ (10 ∷ [])
      ≡ dump_lines fuel (32 * q) (b ∷ bfr)

next-Lines :
    (fuel q k : ℕ) (bfr : List ℕ)
    → Lines fuel (q + 1)
    → k ≡ 32 * (q + 1)
    → length bfr ≤ fuel
    → rest k bfr ++ (10 ∷ []) ≡ 10 ∷ dump_lines fuel (32 * q + bytes_per_line) bfr
unfolding rest dump_lines
next-Lines zero q k [] lines e h = refl
next-Lines (suc fuel) q k [] lines e h = refl
next-Lines fuel q k (b ∷ bfr) lines e h =
    rw (eq→== (k % 32) 0 (omega arith), ne→== k 0 (omega arith), e)
      (ap (λ l. 10 ∷ l)
        (lines b bfr (omega arith)
          ∙ ap (λ i. dump_lines fuel i (b ∷ bfr)) {y = 32 * q + 32} (omega arith)))

-- Lines that end with a new line are lines that begin with one.
line-Lines : (fuel q : ℕ) → Lines fuel q
unfolding dump_lines row
line-Lines zero q b bfr h = absurd (omega arith)
line-Lines (suc fuel) q b bfr h =
    let others = rest (32 * q + 1 + 31) (drop 31 bfr) in
    ap (λ l. (address_text 4 (32 * q) ++ (byte_text b ++ l)) ++ (10 ∷ []))
      (rest-row (q + 1) 31 (32 * q + 1) bfr (omega arith) (omega arith))
    ∙ append_assoc (address_text 4 (32 * q)) (byte_text b ++ (row (take 31 bfr) ++ others))
        (10 ∷ [])
    ∙ ap (λ l. address_text 4 (32 * q) ++ (byte_text b ++ l))
        (append_assoc (row (take 31 bfr)) others (10 ∷ [])
          ∙ ap (λ l. row (take 31 bfr) ++ l)
              (next-Lines fuel q (32 * q + 1 + 31) (drop 31 bfr) (line-Lines fuel (q + 1))
                (omega arith) (omega (arith, length-drop 31 bfr))))

length-rest :
    (bfr : List ℕ) (k : ℕ)
    → 0 < k
    → k + length bfr ≤ 65536
    → length (rest k bfr) ≡ 3 * length bfr + 5 * ((k + length bfr + 31) / 32 - (k + 31) / 32)
unfolding rest
length-rest [] k later small = omega arith
length-rest (b ∷ bfr) k later small =
    let tail = length-rest bfr (k + 1) (omega arith) (omega arith) in
    elim (Bool-cases (k % 32 == 0)) [
      | inr within ↦ rw within (ground (arith, tail, within))
      | inl begins ↦
          rw (begins, ne→== k 0 (omega arith))
            (let size = length-append (address_text 4 k) (byte_text b ++ rest (k + 1) bfr) in
              let four = length-address_text k (omega arith) in
              let line : k % 32 ≡ 0 = (==_iff (k % 32) 0).0 begins in
              omega (arith, tail, size, four, line))
    ]

length-whole :
    (b : ℕ) (bfr : List ℕ)
    → suc (length bfr) ≤ 65536
    → length (rest 0 (b ∷ bfr)) + 1 ≤ 101 * num_lines (suc (length bfr))
unfolding rest
length-whole b bfr small =
    let size = length-append (address_text 4 0) (byte_text b ++ rest 1 bfr) in
    let four = length-address_text 0 (omega arith) in
    omega (arith, size, four, length-rest bfr 1 (omega arith) (omega arith))

-- What `hexdumplog` gives to `fwrite`. With no bytes it stores a new line behind its memory.
abbrev pub dumped : List ℕ → Outcome (Option (List ℕ))
dumped [] = fault
dumped (b ∷ bfr) = done (some (dump_lines (suc (length bfr)) 0 (b ∷ bfr)))

-- The final new line, and the text.
abbrev ended : Outcome (ℕ × List ℕ) → Outcome (Option (List ℕ))
ended o = o >>= λ r. newline_at r.0 r.1 >>= λ out. done (some (take (r.0 + 1) out))

finished :
    (b : ℕ) (bfr mem : List ℕ) (o : Outcome (ℕ × List ℕ))
    → length (rest 0 (b ∷ bfr)) + 1 ≤ length mem
    → Appends 0 (rest 0 (b ∷ bfr)) mem o
    → ended o ≡ dumped (b ∷ bfr)
unfolding newline_at rest
finished b bfr mem (done (at, mem')) room (e, bytes, same) =
    let inside : at < length mem' = omega (arith, e, same, room) in
    rw (lt→ltb at (length mem') inside) (
      ap (λ l. done (some l))
        (take-set_at mem' at 10 inside
          ∙ ap (λ l. l ++ (10 ∷ [])) bytes
          ∙ line-Lines (suc (length bfr)) 0 b bfr (omega arith)))
finished b bfr mem fault room h = elim h [ ]
finished b bfr mem failed room h = elim h [ ]
finished b bfr mem blocked room h = elim h [ ]

in_memory :
    (bfr mem : List ℕ)
    → length bfr ≤ 65536
    → length mem ≡ output_len (length bfr)
    → ended (dump_loop (address_len (length bfr)) bfr 0 0 mem) ≡ dumped bfr
unfolding newline_at dump_loop
in_memory [] mem small size =
    let none_given : length mem ≡ 0 = size ∙ omega arith in
    rw (ltb_no 0 (length mem) (omega (arith, none_given))) refl
in_memory (b ∷ bfr) mem small size =
    let four = address_len-four (suc (length bfr)) small in
    let size' : length mem ≡ 101 * num_lines (suc (length bfr)) =
      size ∙ ap (λ n. (n + 96 + 1) * num_lines (suc (length bfr))) four in
    let enough : length (rest 0 (b ∷ bfr)) + 1 ≤ length mem =
      omega (arith, size', length-whole b bfr small) in
    subst (λ n. ended (dump_loop n (b ∷ bfr) 0 0 mem) ≡ dumped (b ∷ bfr)) (sym four)
      (finished b bfr mem (dump_loop 4 (b ∷ bfr) 0 0 mem) enough
        (dump_loop-Appends (b ∷ bfr) 0 0 mem (omega arith) (omega (arith, enough))))

module _ (malloc : ℕ → Option (List ℕ))
    (gives : (n : ℕ) → (mem : List ℕ) × ((malloc n ≡ some mem) × (length mem ≡ n)))
    (debug_level_g level : ℕ) where
  -- For at most 65536 bytes, where malloc gives the memory asked for, hexdumplog does nothing if
  -- the debug level is below that of the message, and else gives fwrite just the lines of the
  -- reference dump, each of 32 bytes behind its address in four digits, and stays in its memory;
  -- only with no bytes at all it stores its new line behind its memory, which is empty.
  pub hexdumplog-dumped :
      (bfr : List ℕ)
      → length bfr ≤ 65536
      → hexdumplog malloc debug_level_g level bfr
        ≡ (if leb level debug_level_g then dumped bfr else done none)
  unfolding hexdumplog
  hexdumplog-dumped bfr small = elim (Bool-cases (leb level debug_level_g)) [
    | inr quiet ↦ rw quiet refl
    | inl loud ↦
        let (mem, (given, size)) = gives (output_len (length bfr)) in
        rw (loud, given) (in_memory bfr mem small size)
  ]
