-- ===== src/Main/Number.antt =====
-- The number of the client among the arguments of src/main.c.
use sdrproxy.Prelude.{
  ℕ, suc, ◌+◌, ◌≡◌, refl, arith, Bool, true, false, Option, none, some, List, [], ◌∷◌, ltb, lt→ltb,
  ltb_no, if◌then◌else◌, ℤ, pos, negsuc, ltb_ℤ,
}
use sdrproxy.Channels.{skip_space, scan_number}
use sdrproxy.Client.Thread.Request.{IsClientNo, is_default}
use sdrproxy.Main.{signed_char, clamped, client_no_of}

abbrev pub is_missing : Option (List ℕ) → Bool
is_missing none = true
is_missing (some argument) = false

-- A number that the program goes on with, where an argument is missing or not.
abbrev pub Numbers : Bool → Option ℤ → Type 0
Numbers missing none = missing ≡ false
Numbers missing (some n) = IsClientNo n × (is_default n ≡ missing)

in_range :
    (v : ℤ)
    → Numbers false (if ltb_ℤ v (pos 0) then none else (if ltb_ℤ (pos 9) v then none else some v))
in_range (negsuc n) = rw (lt→ltb 0 (0 + suc n) (omega arith)) refl
in_range (pos n) = rw (ltb_no (n + 0) 0 (omega arith)) (by_case (ltb 9 (n + 0)) refl)
  where
    by_case : (b : Bool) → ltb 9 (n + 0) ≡ b → Numbers false (if b then none else some (pos n))
    by_case true large = refl
    by_case false small = (ground arith, refl)

-- Whatever the third argument is, main returns or goes on with a client number that is a digit;
-- with no third argument it goes on with the number below zero that stands for the default request.
pub client_no_of-Numbers :
    (argument : Option (List ℕ)) → Numbers (is_missing argument) (client_no_of argument)
unfolding client_no_of
client_no_of-Numbers none = (tt, refl)
client_no_of-Numbers (some argument) = scanned (skip_space argument)
  where
    valued :
        (o : Option (ℤ × List ℕ))
        → Numbers false (elim o [
          | none ↦ none
          | some (value, rest) ↦
              let client_no = signed_char (clamped value) in
              if ltb_ℤ client_no (pos 0)
              then none
              else (if ltb_ℤ (pos 9) client_no then none else some client_no)
        ])
    valued none = refl
    valued (some (value, rest)) = in_range (signed_char (clamped value))

    scanned :
        (text : List ℕ)
        → Numbers false (elim text [
          | [] ↦ some (pos 0)
          | b ∷ bytes ↦ elim (scan_number (b ∷ bytes)) [
            | none ↦ none
            | some (value, rest) ↦
                let client_no = signed_char (clamped value) in
                if ltb_ℤ client_no (pos 0)
                then none
                else (if ltb_ℤ (pos 9) client_no then none else some client_no)
          ]
        ])
    scanned [] = (omega arith, refl)
    scanned (b ∷ bytes) = valued (scan_number (b ∷ bytes))
