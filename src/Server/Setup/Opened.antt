-- ===== src/Server/Setup/Opened.antt =====
-- The descriptors that `server_setup` of src/server.c opens, and their closing.
use sdrproxy.Prelude.{
  ℕ, ◌≡◌, ◌≢◌, ◌==◌, ◌||◌, refl, sym, subst, ap, ◌∙◌, ◌+◌, ◌<◌, ◌≤◌, ◌==◌, ==_iff, eq→==,
  if◌then◌else◌, ltb, lt→ltb, Bool-cases, inl, inr, arith, Bool, true, false, List, [], ◌∷◌,
}
use sdrproxy.Databfr.{Outcome, done, fault, failed, blocked}
use sdrproxy.Descriptors.{
  Descriptors, is_open, close, count, count-cons, count-close, is_open-count,
}
use sdrproxy.Server.Setup.{close_listeners}

-- What is open when these are opened one after the other.
abbrev pub opened : List ℕ → Descriptors → Descriptors
opened [] fds = fds
opened (fd ∷ rest) fds = opened rest (fd ∷ fds)

-- None of these is open, and no two are the same.
abbrev pub AreFresh : List ℕ → Descriptors → Type 0
AreFresh [] fds = Unit {0}
AreFresh (fd ∷ rest) fds = (is_open fds fd ≡ false) × AreFresh rest (fd ∷ fds)

abbrev AreAbsent : ℕ → List ℕ → Type 0
AreAbsent fd [] = Unit {0}
AreAbsent fd (x ∷ l) = (x ≢ fd) × AreAbsent fd l

opened-stays :
    (l : List ℕ) (fds : Descriptors) (fd : ℕ)
    → is_open fds fd ≡ true
    → is_open (opened l fds) fd ≡ true
unfolding is_open
opened-stays [] fds fd e = e
opened-stays (x ∷ l) fds fd e = opened-stays l (x ∷ fds) fd (ground arith)

close-opened :
    (l : List ℕ) (fds : Descriptors) (fd : ℕ)
    → AreAbsent fd l
    → close fd (opened l fds) ≡ opened l (close fd fds)
unfolding close
close-opened [] fds fd absent = refl
close-opened (x ∷ l) fds fd (differs, absent) =
    let kept : close fd (x ∷ fds) ≡ x ∷ close fd fds = ground arith in
    close-opened l (x ∷ fds) fd absent ∙ ap (opened l) kept

-- What is fresh beside more descriptors is fresh beside fewer.
AreFresh-fewer :
    (l : List ℕ) (more fds : Descriptors)
    → ((x : ℕ) → is_open more x ≡ false → is_open fds x ≡ false)
    → AreFresh l more
    → AreFresh l fds
unfolding is_open
AreFresh-fewer [] more fds fewer fresh = tt
AreFresh-fewer (y ∷ l) more fds fewer (new, fresh) =
    (fewer y new, AreFresh-fewer l (y ∷ more) (y ∷ fds) (λ x e. kept x (y == x) e) fresh)
  where
    kept : (x : ℕ) (b : Bool) → b || is_open more x ≡ false → b || is_open fds x ≡ false
    kept x true e = e
    kept x false e = fewer x e

AreFresh-absent :
    (l : List ℕ) (fds : Descriptors) (fd : ℕ)
    → is_open fds fd ≡ true
    → AreFresh l fds
    → AreAbsent fd l
unfolding is_open
AreFresh-absent [] fds fd e fresh = tt
AreFresh-absent (x ∷ l) fds fd e (new, fresh) = (
  λ same. let shut = subst (λ y. is_open fds y ≡ false) same new in cc,
  AreFresh-absent l (x ∷ fds) fd (ground arith) fresh,
)

-- How often each descriptor is open when these are opened too.
opened-count :
    (l : List ℕ) (fds : Descriptors) (fd : ℕ) → count (opened l fds) fd ≡ count fds fd + count l fd
unfolding count
opened-count [] fds fd = omega arith
opened-count (x ∷ l) fds fd = let later = opened-count l (x ∷ fds) fd in omega arith

no_count : (n : ℕ) → ltb 0 n ≡ false → n ≡ 0
no_count n e = ground arith

AreFresh-count :
    (l : List ℕ) (fds : Descriptors) (fd : ℕ) → 0 < count fds fd → AreFresh l fds → count l fd ≡ 0
unfolding count
AreFresh-count [] fds fd there fresh = refl
AreFresh-count (x ∷ l) fds fd there (new, fresh) =
    let later = AreFresh-count l (x ∷ fds) fd (omega arith) fresh in
    let absent = is_open-count fds x in
    elim (Bool-cases (x == fd)) [
      | inl same ↦
          let e = (==_iff x fd).0 same in
          let none_there : count fds fd ≡ 0 =
            subst (λ k. count fds k ≡ 0) e (no_count (count fds x) (sym absent ∙ new)) in
          absurd (omega arith)
      | inr differs ↦ rw differs (omega arith)
    ]

-- The closing returns, and leaves these open.
abbrev pub Closed : Descriptors → Outcome Descriptors → Type 0
Closed fds (done left) = (fd : ℕ) → count left fd ≡ count fds fd
Closed fds fault = ⊥
Closed fds failed = ⊥
Closed fds blocked = ⊥

pub close_listeners-Closed :
    (l : List ℕ) (fds now : Descriptors)
    → AreFresh l fds
    → ((fd : ℕ) → count now fd ≡ count (opened l fds) fd)
    → Closed fds (close_listeners l now)
unfolding close_listeners is_open
close_listeners-Closed [] fds now fresh same = same
close_listeners-Closed (fd ∷ l) fds now (new, fresh) same =
    let all : (x : ℕ) → count now x ≡ count (fd ∷ fds) x + count l x =
      λ x. same x ∙ opened-count l (fd ∷ fds) x in
    let here : count (fd ∷ fds) fd ≡ 1 + count fds fd =
      count-cons fd fds fd ∙ ap (λ b. (if b then 1 else 0) + count fds fd) (eq→== fd fd refl) in
    let at = all fd in
    let there : is_open now fd ≡ true =
      is_open-count now fd ∙ lt→ltb 0 (count now fd) (omega arith) in
    let none_before = no_count (count fds fd) (sym (is_open-count fds fd) ∙ new) in
    let none_later = AreFresh-count l (fd ∷ fds) fd (omega arith) fresh in
    rw (there, close_listeners)
      (close_listeners-Closed l fds (close fd now)
        (AreFresh-fewer l (fd ∷ fds) fds (λ x e. grind arith) fresh)
        (λ x.
          let closed = count-close now fd x in
          let later = opened-count l fds x in
          let head = count-cons fd fds x in
          let here' = all x in
          elim (Bool-cases (fd == x)) [
            | inl equal ↦
                let e = (==_iff fd x).0 equal in
                let gone : count (close fd now) x ≡ 0 = rw equal at closed in
                let before : count fds x ≡ 0 = subst (λ k. count fds k ≡ 0) e none_before in
                let after : count l x ≡ 0 = subst (λ k. count l k ≡ 0) e none_later in omega arith
            | inr differs ↦
                let kept : count (close fd now) x ≡ count now x = rw differs at closed in
                let alone : count (fd ∷ fds) x ≡ 0 + count fds x = rw differs at head in omega arith
          ]))

-- If no two of those before are the same, no two are with these.
pub opened-once :
    (l : List ℕ) (fds : Descriptors)
    → AreFresh l fds
    → ((fd : ℕ) → count fds fd ≤ 1)
    → (fd : ℕ) → count (opened l fds) fd ≤ 1
opened-once [] fds fresh once fd = once fd
opened-once (x ∷ l) fds (new, fresh) once fd = opened-once l (x ∷ fds) fresh more fd
  where
    more : (k : ℕ) → count (x ∷ fds) k ≤ 1
    more k =
        let head = count-cons x fds k in
        let before = once k in
        elim (Bool-cases (x == k)) [
          | inl same ↦
              let none_there = no_count (count fds x) (sym (is_open-count fds x) ∙ new) in
              let none_here : count fds k ≡ 0 =
                subst (λ y. count fds y ≡ 0) ((==_iff x k).0 same) none_there in
              let one_here : count (x ∷ fds) k ≡ 1 + count fds k = rw same at head in omega arith
          | inr differs ↦
              let as_before : count (x ∷ fds) k ≡ 0 + count fds k = rw differs at head in
              omega arith
        ]
