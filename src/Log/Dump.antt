-- ===== src/Log/Dump.antt =====
-- The loop of `hexdumplog` of src/util.c, and what it leaves in memory.
use mathlib.Core.List.{append_assoc, append-nil}
use sdrproxy.Prelude.{
  ℕ, suc, ◌+◌, ◌%◌, ◌==◌, ◌≤◌, ◌<◌, ◌≡◌, refl, sym, ap, subst, ◌∙◌, arith, Bool-cases, inl, inr,
  List, [], ◌∷◌, ◌++◌, length, length-append, take, if◌then◌else◌,
}
use sdrproxy.Databfr.{Outcome, done, fault, failed, blocked, ◌>>=◌}
use sdrproxy.Log.{
  bytes_per_line, address_text, byte_text, sprintf_at, newline_at, put_address, begin_line,
  dump_loop,
}
use sdrproxy.Log.Writing.{Writes, sprintf_at-Writes, newline_at-Writes}
use sdrproxy.Log.Widths.{length-address_text}

-- What the loop writes before a byte, and what it writes for the bytes from an address on.
abbrev pub line_start : ℕ → List ℕ
line_start k =
    if k % bytes_per_line == 0
    then (if k == 0 then address_text 4 k else 10 ∷ address_text 4 k)
    else []

unfoldable pub rest : ℕ → List ℕ → List ℕ
rest k [] = []
rest k (b ∷ bfr) = line_start k ++ (byte_text b ++ rest (k + 1) bfr)

-- Behind the bytes before `at` there is `text`, and `outptr` is behind it.
abbrev pub Appends : ℕ → List ℕ → List ℕ → Outcome (ℕ × List ℕ) → Type 0
Appends at text mem (done (at', mem')) =
    (at' ≡ at + length text) × (take at' mem' ≡ take at mem ++ text) × (length mem' ≡ length mem)
Appends at text mem fault = ⊥
Appends at text mem failed = ⊥
Appends at text mem blocked = ⊥

Writes-Appends :
    (at after : ℕ) (text mem : List ℕ) (o : Outcome (List ℕ))
    → after ≡ at + length text
    → Writes at text mem o
    → Appends at text mem (o >>= λ out. done (after, out))
Writes-Appends at after text mem (done mem') e (bytes, same) =
    (e, ap (λ n. take n mem') e ∙ bytes, same)
Writes-Appends at after text mem fault e h = h
Writes-Appends at after text mem failed e h = h
Writes-Appends at after text mem blocked e h = h

-- Text behind text.
Appends-after :
    (at : ℕ) (text text' mem mem' : List ℕ) (o : Outcome (ℕ × List ℕ))
    → take (at + length text) mem' ≡ take at mem ++ text
    → length mem' ≡ length mem
    → Appends (at + length text) text' mem' o
    → Appends at (text ++ text') mem o
Appends-after at text text' mem mem' (done (at'', mem'')) bytes same (e', bytes', same') = (
  omega (arith, e', length-append text text'),
  bytes' ∙ ap (λ l. l ++ text') bytes ∙ append_assoc (take at mem) text text',
  same' ∙ same,
)
Appends-after at text text' mem mem' fault bytes same h = h
Appends-after at text text' mem mem' failed bytes same h = h
Appends-after at text text' mem mem' blocked bytes same h = h

Appends-then :
    (at : ℕ) (text text' mem : List ℕ) (o : Outcome (ℕ × List ℕ))
    (f : ℕ × List ℕ → Outcome (ℕ × List ℕ))
    → Appends at text mem o
    → ((mem' : List ℕ)
        → length mem' ≡ length mem
        → Appends (at + length text) text' mem' (f (at + length text, mem')))
    → Appends at (text ++ text') mem (o >>= f)
Appends-then at text text' mem (done (at', mem')) f (e, bytes, same) next =
    subst (λ i. Appends at (text ++ text') mem (f (i, mem'))) (sym e)
      (Appends-after at text text' mem mem' (f (at + length text, mem'))
        (ap (λ n. take n mem') (sym e) ∙ bytes) same (next mem' same))
Appends-then at text text' mem fault f h next = elim h [ ]
Appends-then at text text' mem failed f h next = elim h [ ]
Appends-then at text text' mem blocked f h next = elim h [ ]

Writes-then :
    (at : ℕ) (text text' mem : List ℕ) (o : Outcome (List ℕ)) (f : List ℕ → Outcome (ℕ × List ℕ))
    → Writes at text mem o
    → ((mem' : List ℕ) → length mem' ≡ length mem → Appends (at + length text) text' mem' (f mem'))
    → Appends at (text ++ text') mem (o >>= f)
Writes-then at text text' mem (done mem') f (bytes, same) next =
    Appends-after at text text' mem mem' (f mem') bytes same (next mem' same)
Writes-then at text text' mem fault f h next = elim h [ ]
Writes-then at text text' mem failed f h next = elim h [ ]
Writes-then at text text' mem blocked f h next = elim h [ ]

module _ (k at : ℕ) (mem : List ℕ) (small : k < 65536) where
  put_address-Appends :
      at + 5 ≤ length mem → Appends at (address_text 4 k) mem (put_address 4 k at mem)
  put_address-Appends room =
      let size = length-address_text k small in
      Writes-Appends at (at + 4) (address_text 4 k) mem (sprintf_at at (address_text 4 k) mem)
        (omega (arith, size)) (sprintf_at-Writes at (address_text 4 k) mem (omega (arith, size)))

module _ (k at : ℕ) (mem : List ℕ) (small : k < 65536) where
  begin_line-Appends :
      at + length (line_start k) + 1 ≤ length mem
      → Appends at (line_start k) mem (begin_line 4 k at mem)
  unfolding begin_line
  begin_line-Appends room = elim (Bool-cases (k % bytes_per_line == 0)) [
    | inr within ↦ rw within (omega arith, sym (append-nil (take at mem)), refl)
    | inl begins ↦ elim (Bool-cases (k == 0)) [
      | inl first ↦
          rw (begins, first)
            (let enough : at + length (address_text 4 k) + 1 ≤ length mem =
                rw (begins, first) at room in
              put_address-Appends k at mem small
                (omega (arith, enough, length-address_text k small)))
      | inr later ↦
          rw (begins, later)
            (let enough : at + suc (length (address_text 4 k)) + 1 ≤ length mem =
                rw (begins, later) at room in
              let size = length-address_text k small in
              Writes-then at (10 ∷ []) (address_text 4 k) mem (newline_at at mem)
                (put_address 4 k (at + 1)) (newline_at-Writes at mem (omega (arith, enough)))
                (λ mem' same.
                  put_address-Appends k (at + 1) mem' small (omega (arith, enough, size, same))))
    ]
  ]

pub dump_loop-Appends :
    (bfr : List ℕ) (k at : ℕ) (mem : List ℕ)
    → k + length bfr ≤ 65536
    → at + length (rest k bfr) + 1 ≤ length mem
    → Appends at (rest k bfr) mem (dump_loop 4 bfr k at mem)
unfolding dump_loop rest
dump_loop-Appends [] k at mem small room = (omega arith, sym (append-nil (take at mem)), refl)
dump_loop-Appends (b ∷ bfr) k at mem small room =
    let size = length-append (line_start k) (byte_text b ++ rest (k + 1) bfr) in
    Appends-then at (line_start k) (byte_text b ++ rest (k + 1) bfr) mem (begin_line 4 k at mem) _
      (begin_line-Appends k at mem (omega arith) (omega (arith, size)))
      (λ mem' same.
        let here = at + length (line_start k) in
        Writes-then here (byte_text b) (rest (k + 1) bfr) mem' (sprintf_at here (byte_text b) mem')
          _ (sprintf_at-Writes here (byte_text b) mem' (omega (arith, size, same)))
          (λ mem'' same'.
            dump_loop-Appends bfr (k + 1) (here + 3) mem'' (omega arith)
              (omega (arith, size, same, same'))))
