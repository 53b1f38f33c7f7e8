-- ===== src/Descriptors.antt =====
-- The file descriptors that the program has open, as src/server.c opens and closes them.
use sdrproxy.Prelude.{
  ℕ, ◌≡◌, refl, sym, ap, ◌∙◌, Bool-cases, inl, inr, lt→ltb, arith, eq→==, Bool, false, ◌||◌, List,
  [], ◌∷◌, ◌==◌, ◌+◌, ltb, if◌then◌else◌,
}

abbrev pub Descriptors : Type 0
Descriptors = List ℕ

unfoldable pub is_open : Descriptors → ℕ → Bool
is_open [] fd = false
is_open (x ∷ fds) fd = (x == fd) || is_open fds fd

-- What is open after `close`.
unfoldable pub close : ℕ → Descriptors → Descriptors
close fd [] = []
close fd (x ∷ fds) = let rest = close fd fds in if x == fd then rest else x ∷ rest

-- How often a descriptor stands among those open.
abbrev one : ℕ → ℕ → ℕ
one x fd = if x == fd then 1 else 0

unfoldable pub count : Descriptors → ℕ → ℕ
count [] fd = 0
count (x ∷ fds) fd = one x fd + count fds fd

pub count-cons :
    (x : ℕ) (fds : Descriptors) (fd : ℕ)
    → count (x ∷ fds) fd ≡ (if x == fd then 1 else 0) + count fds fd
unfolding count
count-cons x fds fd = refl

pub is_open-count : (fds : Descriptors) (fd : ℕ) → is_open fds fd ≡ ltb 0 (count fds fd)
unfolding is_open count
is_open-count [] fd = refl
is_open-count (x ∷ fds) fd = elim (Bool-cases (x == fd)) [
  | inl same ↦ rw same (sym (lt→ltb 0 (1 + count fds fd) (omega arith)))
  | inr differs ↦
      rw differs (is_open-count fds fd ∙ ap (ltb 0) {y = 0 + count fds fd} (omega arith))
]

pub count-close :
    (fds : Descriptors) (fd x : ℕ) → count (close fd fds) x ≡ (if fd == x then 0 else count fds x)
unfolding count close
count-close [] fd x = ground arith
count-close (y ∷ fds) fd x = elim (Bool-cases (y == fd)) [
  | inl same ↦ let later = count-close fds fd x in rw same (ground arith)
  | inr differs ↦ let later = count-close fds fd x in rw differs (ground arith)
]

pub close_absent : (fds : Descriptors) (fd : ℕ) → is_open fds fd ≡ false → close fd fds ≡ fds
unfolding is_open close
close_absent [] fd e = refl
close_absent (x ∷ fds) fd e = elim (Bool-cases (x == fd)) [
  | inl same ↦ let off = rw same at e in cc
  | inr differs ↦ rw differs (ap (λ l. x ∷ l) (close_absent fds fd (rw differs at e)))
]

pub close_open : (fd : ℕ) (fds : Descriptors) → is_open fds fd ≡ false → close fd (fd ∷ fds) ≡ fds
unfolding is_open close
close_open fd fds e = rw (eq→== fd fd refl) (close_absent fds fd e)
