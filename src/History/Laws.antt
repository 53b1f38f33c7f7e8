-- ===== src/History/Laws.antt =====
-- What `clhistory_lookup` of src/server.c keeps true of the connection history.
use sdrproxy.Prelude.{
  ℕ, ◌≡◌, refl, sym, ◌∙◌, inl, inr, Bool-cases, Option-cases, Option, none, some, List, [], ◌∷◌,
  ◌++◌, length, get_elem?, take, take-append_length, take-length, ℤ, pos,
}
use sdrproxy.History.{
  ConnHistData, is_record_of, find, add, delete, LastIdDbCmd, id_add, id_retr, id_delete,
  id_remove_old, clhistory_lookup,
}
use sdrproxy.History.Records.{
  IsUnique, last_is_old, find-none, find-append, find-delete-none, newer-IsUnique, own_record,
  is_record_of-sym, remove_old_lem,
}

module _ (ip : List ℕ) (port : ℕ) where
  delete-IsUnique : (hist : List ConnHistData) → IsUnique hist → IsUnique (delete ip port hist)
  unfolding delete IsUnique
  delete-IsUnique [] u = tt
  delete-IsUnique (cur ∷ rest) (alone, u) = elim (Bool-cases (is_record_of ip port cur)) [
    | inl same ↦ rw same (delete-IsUnique rest u)
    | inr other ↦
        rw other
          (find-delete-none cur.ip cur.server_port ip port rest alone, delete-IsUnique rest u)
  ]

  append-IsUnique :
      (hist : List ConnHistData) (new : ConnHistData)
      → IsUnique hist
      → find new.ip new.server_port hist ≡ none
      → IsUnique (hist ++ (new ∷ []))
  unfolding IsUnique find
  append-IsUnique [] new u absent = (refl, tt)
  append-IsUnique (cur ∷ rest) new (alone, u) absent =
      let (other, later) = find-none new.ip new.server_port cur rest absent in
      (
        find-append cur.ip cur.server_port rest new alone
            ∙ rw (is_record_of-sym cur new, other) refl,
        append-IsUnique rest new u later,
      )

  get_elem?-append :
      (hist : List ConnHistData) (new : ConnHistData)
      → get_elem? (hist ++ (new ∷ [])) (length hist) ≡ some new
  get_elem?-append [] new = refl
  get_elem?-append (cur ∷ rest) new = get_elem?-append rest new

  add-IsUnique :
      (unset : ℤ) (hist : List ConnHistData) → IsUnique hist → IsUnique (add unset ip port hist).1
  unfolding add
  add-IsUnique unset hist u = elim (Option-cases (find ip port hist)) [
    | inl absent ↦ rw (absent, add) (append-IsUnique hist _ u absent)
    | inr (at, there) ↦ rw (there, add) u
  ]

  -- What ID_ADD promises of its pointer and of the list: the pointer is to the client's record, with
  -- no packet sent yet if it is new; and all the records that were there stay in their places.
  pub record Added (unset : ℤ) (hist : List ConnHistData) (r : ℕ × List ConnHistData) : Type 0 where
    pub points : find ip port r.1 ≡ some r.0
    pub stay : take (length hist) r.1 ≡ hist
    pub new :
        find ip port hist ≡ none
        → get_elem? r.1 r.0
          ≡ some (record {
            last_update = unset;
            last_packet_time = pos 0;
            ip = ip;
            server_port = port;
          })

  -- ID_ADD points to the client's record, with no packet sent yet if it is new, and all the records
  -- that were there stay in their places.
  pub add-Added : (unset : ℤ) (hist : List ConnHistData) → Added unset hist (add unset ip port hist)
  unfolding add
  add-Added unset hist = elim (Option-cases (find ip port hist)) [
    | inl absent ↦
        let new : ConnHistData = record {
          last_update = unset;
          last_packet_time = pos 0;
          ip = ip;
          server_port = port;
        } in
        rw (absent, add)
          (record {
            points = find-append ip port hist new absent ∙ rw (own_record new) refl;
            stay = take-append_length hist (new ∷ []) (length hist) refl;
            new = λ _. get_elem?-append hist new;
          })
    | inr (at, there) ↦
        rw (there, add)
          (record {
            points = there;
            stay = take-length hist;
            new = λ absent. let no_place = sym there ∙ absent in cc;
          })
  ]

-- Of the list that a command leaves, if it returns.
abbrev pub LeavesUnique : Option (Option ℕ × List ConnHistData) → Type 0
LeavesUnique none = Unit {0}
LeavesUnique (some (ret, hist)) = IsUnique hist

-- If no client has two records, none has two after a command of clhistory_lookup that returns.
pub clhistory_lookup-IsUnique :
    (unset : ℤ) (hist : List ConnHistData) (claddr : List ℕ) (svr_port : ℕ) (search_time : ℤ)
    (action : LastIdDbCmd)
    → IsUnique hist
    → LeavesUnique (clhistory_lookup unset hist claddr svr_port search_time action)
unfolding clhistory_lookup
clhistory_lookup-IsUnique unset hist claddr svr_port search_time id_add u =
    add-IsUnique claddr svr_port unset hist u
clhistory_lookup-IsUnique unset hist claddr svr_port search_time id_retr u = u
clhistory_lookup-IsUnique unset hist claddr svr_port search_time id_delete u =
    delete-IsUnique claddr svr_port hist u
clhistory_lookup-IsUnique unset hist claddr svr_port search_time id_remove_old u =
    elim (Bool-cases (last_is_old search_time hist)) [
      | inl old ↦ rw (remove_old_lem search_time hist, old, clhistory_lookup) tt
      | inr new ↦
          rw (remove_old_lem search_time hist, new, clhistory_lookup)
            (newer-IsUnique search_time hist u)
    ]
