-- ===== src/Log/Writing.antt =====
-- What `sprintf` and the store of a new line leave in memory, in `hexdumplog` of src/util.c.
use sdrproxy.Prelude.{
  ℕ, ◌+◌, ◌≤◌, ◌<◌, ◌≡◌, sym, ap, ◌∙◌, arith, List, [], ◌∷◌, ◌++◌, length, length-append,
  length-set, length-take, take, take-take, take-set_at, take-append_length, le→leb, lt→ltb,
}
use mathlib.Core.List.{append_assoc}
use sdrproxy.Memory.{memcpy, take-memcpy, length-memcpy}
use sdrproxy.Databfr.{Outcome, done, fault, failed, blocked}
use sdrproxy.Log.{sprintf_at, newline_at}

-- Behind the bytes before `at` there is `text`, in as much memory as before.
abbrev pub Writes : ℕ → List ℕ → List ℕ → Outcome (List ℕ) → Type 0
Writes at text mem (done mem') =
    (take (at + length text) mem' ≡ take at mem ++ text) × (length mem' ≡ length mem)
Writes at text mem fault = ⊥
Writes at text mem failed = ⊥
Writes at text mem blocked = ⊥

module _ (at : ℕ) (text mem : List ℕ) where
  pub sprintf_at-Writes :
      at + length text + 1 ≤ length mem → Writes at text mem (sprintf_at at text mem)
  unfolding sprintf_at
  sprintf_at-Writes room =
      let ended = text ++ (0 ∷ []) in
      let size : length ended ≡ length text + 1 = length-append text (0 ∷ []) in
      let written : take (at + length ended) (memcpy mem at ended 0 (length ended))
          ≡ take at mem ++ ended =
        take-memcpy mem at ended (omega (arith, size)) in
      rw (le→leb (at + length text + 1) (length mem) room, sym size)
        (
          sym (take-take (at + length text) (at + length ended) _ (omega (arith, size)))
              ∙ ap (take (at + length text))
                  (written ∙ sym (append_assoc (take at mem) text (0 ∷ [])))
              ∙ take-append_length (take at mem ++ text) (0 ∷ []) (at + length text)
                  (omega (arith, length-append (take at mem) text, length-take at mem)),
          length-memcpy mem at ended 0 (length ended),
        )

pub newline_at-Writes :
    (at : ℕ) (mem : List ℕ) → at < length mem → Writes at (10 ∷ []) mem (newline_at at mem)
unfolding newline_at
newline_at-Writes at mem room =
    rw (lt→ltb at (length mem) room) (take-set_at mem at 10 room, length-set mem at 10)
