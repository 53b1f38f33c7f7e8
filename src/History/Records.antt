-- ===== src/History/Records.antt =====
-- Finding and removing records of the connection history of src/server.c.
use sdrproxy.Prelude.{
  ℕ, suc, ◌≡◌, refl, inl, inr, arith, Bool, true, false, Bool-cases, Option, none, some, List, [],
  ◌∷◌, ◌++◌, length, get_elem?, ◌==◌, ==_iff, if◌then◌else◌, ℤ, ltb_ℤ,
}
use sdrproxy.History.{
  ConnHistData, strings_equal, is_record_of, find, delete, remove_old, one_on, keeping,
}

strings_equal_refl : (a : List ℕ) → strings_equal a a ≡ true
unfolding strings_equal
strings_equal_refl [] = refl
strings_equal_refl (a ∷ xs) = rw ((==_iff a a).1 refl) (strings_equal_refl xs)

==_sym : (a b : ℕ) → (a == b) ≡ (b == a)
==_sym a b = ground arith

strings_equal-sym : (a b : List ℕ) → strings_equal a b ≡ strings_equal b a
unfolding strings_equal
strings_equal-sym [] [] = refl
strings_equal-sym [] (y ∷ ys) = refl
strings_equal-sym (x ∷ xs) [] = refl
strings_equal-sym (x ∷ xs) (y ∷ ys) = rw (==_sym x y, strings_equal-sym xs ys) refl

pub is_record_of-sym :
    (a b : ConnHistData) → is_record_of a.ip a.server_port b ≡ is_record_of b.ip b.server_port a
unfolding is_record_of
is_record_of-sym a b = rw (strings_equal-sym b.ip a.ip, ==_sym b.server_port a.server_port) refl

pub own_record : (new : ConnHistData) → is_record_of new.ip new.server_port new ≡ true
unfolding is_record_of
own_record new =
    rw (strings_equal_refl new.ip, (==_iff new.server_port new.server_port).1 refl) refl

-- No client has two records.
unfoldable pub IsUnique : List ConnHistData → Type 0
IsUnique [] = Unit {0}
IsUnique (cur ∷ rest) = (find cur.ip cur.server_port rest ≡ none) × IsUnique rest

abbrev pub at_place : List ConnHistData → Option ℕ → Option ConnHistData
at_place hist none = none
at_place hist (some at) = get_elem? hist at

one_on-none : (o : Option ℕ) → one_on o ≡ none → o ≡ none
one_on-none none e = refl
one_on-none (some at) e = cc

module _ (ip : List ℕ) (port : ℕ) where
  -- After ID_DELETE nothing of the client is found, whatever the list was.
  pub find-delete : (hist : List ConnHistData) → find ip port (delete ip port hist) ≡ none
  unfolding find delete
  find-delete [] = refl
  find-delete (cur ∷ rest) = elim (Bool-cases (is_record_of ip port cur)) [
    | inl same ↦ rw same (find-delete rest)
    | inr other ↦ rw (other, find, other, find-delete rest) refl
  ]

  pub find-none :
      (cur : ConnHistData) (rest : List ConnHistData)
      → find ip port (cur ∷ rest) ≡ none
      → (is_record_of ip port cur ≡ false) × (find ip port rest ≡ none)
  unfolding find
  find-none cur rest e = elim (Bool-cases (is_record_of ip port cur)) [
    | inl same ↦ (let no_place = rw same at e in cc)
    | inr other ↦ (other, one_on-none (find ip port rest) (rw other at e))
  ]

  pub none-find :
      (cur : ConnHistData) (rest : List ConnHistData)
      → is_record_of ip port cur ≡ false
      → find ip port rest ≡ none
      → find ip port (cur ∷ rest) ≡ none
  unfolding find
  none-find cur rest other absent = rw (other, absent) refl

  pub find-append :
      (hist : List ConnHistData) (cur : ConnHistData)
      → find ip port hist ≡ none
      → find ip port (hist ++ (cur ∷ []))
        ≡ (if is_record_of ip port cur then some (length hist) else none)
  unfolding find
  find-append [] cur absent = refl
  find-append (first ∷ rest) cur absent =
      let (other, later) = find-none first rest absent in
      rw (other, find-append rest cur later) (one_on-if (is_record_of ip port cur))
    where
      one_on-if :
          (b : Bool)
          → one_on (if b then some (length rest) else none)
            ≡ (if b then some (suc (length rest)) else none)
      one_on-if true = refl
      one_on-if false = refl

  -- What is not there is not there after a removal.
  pub find-delete-none :
      (other_ip : List ℕ) (other_port : ℕ) (hist : List ConnHistData)
      → find ip port hist ≡ none
      → find ip port (delete other_ip other_port hist) ≡ none
  unfolding delete
  find-delete-none other_ip other_port [] absent = absent
  find-delete-none other_ip other_port (cur ∷ rest) absent =
      let (other, later) = find-none cur rest absent in
      let rest_absent = find-delete-none other_ip other_port rest later in
      elim (Bool-cases (is_record_of other_ip other_port cur)) [
        | inl same ↦ rw same rest_absent
        | inr differs ↦
            rw differs (none-find cur (delete other_ip other_port rest) other rest_absent)
      ]

-- The records that ID_REMOVE_OLD means to leave, and the last record's age.
module _ (search_time : ℤ) where
  unfoldable pub newer : List ConnHistData → List ConnHistData
  newer [] = []
  newer (cur ∷ rest) = if ltb_ℤ cur.last_update search_time then newer rest else cur ∷ newer rest

  unfoldable pub last_is_old : List ConnHistData → Bool
  last_is_old [] = false
  last_is_old (cur ∷ []) = ltb_ℤ cur.last_update search_time
  last_is_old (cur ∷ next ∷ rest) = last_is_old (next ∷ rest)

  -- ID_REMOVE_OLD leaves the records that are not old, in order, unless the last record is old:
  -- then its message is read through NULL.
  pub remove_old_lem :
      (hist : List ConnHistData)
      → remove_old search_time hist ≡ (if last_is_old hist then none else some (newer hist))
  unfolding remove_old last_is_old newer
  remove_old_lem [] = refl
  remove_old_lem (cur ∷ []) = elim (Bool-cases (ltb_ℤ cur.last_update search_time)) [
    | inl old ↦ rw old refl
    | inr new ↦ rw new refl
  ]
  remove_old_lem (cur ∷ next ∷ rest) = elim (Bool-cases (ltb_ℤ cur.last_update search_time)) [
    | inl old ↦ rw old (remove_old_lem (next ∷ rest))
    | inr new ↦ rw new (rw (remove_old_lem (next ∷ rest)) (keeping-if (last_is_old (next ∷ rest))))
  ]
    where
      keeping-if :
          (b : Bool)
          → keeping cur (if b then none else some (newer (next ∷ rest)))
            ≡ (if b then none else some (cur ∷ newer (next ∷ rest)))
      keeping-if true = refl
      keeping-if false = refl

  find-newer :
      (ip : List ℕ) (port : ℕ) (hist : List ConnHistData)
      → find ip port hist ≡ none
      → find ip port (newer hist) ≡ none
  unfolding newer
  find-newer ip port [] absent = absent
  find-newer ip port (cur ∷ rest) absent =
      let (other, later) = find-none ip port cur rest absent in
      let rest_absent = find-newer ip port rest later in
      elim (Bool-cases (ltb_ℤ cur.last_update search_time)) [
        | inl old ↦ rw old rest_absent
        | inr new ↦ rw new (none-find ip port cur (newer rest) other rest_absent)
      ]

  pub newer-IsUnique : (hist : List ConnHistData) → IsUnique hist → IsUnique (newer hist)
  unfolding newer IsUnique
  newer-IsUnique [] u = tt
  newer-IsUnique (cur ∷ rest) (alone, u) = elim (Bool-cases (ltb_ℤ cur.last_update search_time)) [
    | inl old ↦ rw old (newer-IsUnique rest u)
    | inr new ↦ rw new (find-newer cur.ip cur.server_port rest alone, newer-IsUnique rest u)
  ]
