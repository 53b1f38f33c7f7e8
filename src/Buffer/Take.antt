-- ===== src/Buffer/Take.antt =====
-- RING_RETR and RING_DELETE of src/buffer.c, of bytes that the ring holds.
use sdrproxy.Prelude.{
  ℕ, ◌≤◌, ◌<◌, ◌≡◌, some, ap, sym, ◌∙◌, take-length, length, length-tabulate, take, drop, ltb_no,
  lt→ltb, pos,
}
use native.Mathlib.Nat.{le_refl}
use sdrproxy.Buffer.{RingSet, bytes_stored, view, retr, delete}
use sdrproxy.Buffer.Valid.{IsValid}
use sdrproxy.Buffer.Contents.{contents, byte, advanced-IsValid, contents-advanced, copy_bytes-take}

module _ {r : RingSet} (v : IsValid r) where
  pub length-contents : length (contents r) ≡ bytes_stored r
  length-contents = length-tabulate (bytes_stored r) (byte r)

  -- All that the ring holds.
  pub view-contents : view (bytes_stored r) r ≡ some (contents r)
  unfolding view
  view-contents = rw (ltb_no (bytes_stored r) (bytes_stored r) (le_refl _)) (
      ap some (
        copy_bytes-take v (bytes_stored r) (le_refl _)
        ∙ ap (λ n. take n (contents r)) (sym length-contents)
        ∙ take-length (contents r)))

  -- Bytes taken off that are there.
  pub retr-contents :
      (n : ℕ)
      → n ≤ bytes_stored r
      → IsValid (retr n r).1 × (contents (retr n r).1 ≡ drop n (contents r))
  unfolding retr
  retr-contents n held =
      rw (ltb_no (bytes_stored r) n held, retr)
        (advanced-IsValid v n held, contents-advanced v n held)

  pub delete-contents :
      (n : ℕ)
      → 0 < n
      → n ≤ bytes_stored r
      → IsValid (delete (pos n) r).1 × (contents (delete (pos n) r).1 ≡ drop n (contents r))
  unfolding delete
  delete-contents n asked held =
      rw (lt→ltb 0 n asked, ltb_no (bytes_stored r) n held, delete)
        (advanced-IsValid v n held, contents-advanced v n held)

  pub retr-some : (n : ℕ) → n ≤ bytes_stored r → (retr n r).0 ≡ some (take n (contents r))
  unfolding retr
  retr-some n held = rw (ltb_no (bytes_stored r) n held, retr) (ap some (copy_bytes-take v n held))
