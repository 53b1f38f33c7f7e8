-- ===== src/History.antt =====
-- The connection history of src/server.c: `struct conn_hist_data` and `clhistory_lookup`. The
-- linked list is the list of its records in order, and a pointer to a record its place there.
-- `malloc` and `strdup` succeed.
pub mod Records
pub mod Laws
mod Tests
use sdrproxy.Prelude.{
  ℕ, suc, Bool, true, false, ◌&&◌, Option, none, some, List, [], ◌∷◌, ◌++◌, length, ◌==◌,
  if◌then◌else◌, ℤ, pos, ltb_ℤ,
}

-- `ip` is the string's bytes; the times are PACKETTIME in milliseconds and `time_t`.
pub record ConnHistData : Type 0 where
  pub last_update : ℤ
  pub last_packet_time : ℤ
  pub ip : List ℕ
  pub server_port : ℕ

-- `!strcmp(a, b)`
unfoldable pub strings_equal : List ℕ → List ℕ → Bool
strings_equal [] [] = true
strings_equal [] (b ∷ ys) = false
strings_equal (a ∷ xs) [] = false
strings_equal (a ∷ xs) (b ∷ ys) = (a == b) && strings_equal xs ys

unfoldable pub is_record_of : List ℕ → ℕ → ConnHistData → Bool
is_record_of claddr svr_port cur = strings_equal cur.ip claddr && (cur.server_port == svr_port)

abbrev pub one_on : Option ℕ → Option ℕ
one_on none = none
one_on (some at) = some (suc at)

abbrev pub keeping : ConnHistData → Option (List ConnHistData) → Option (List ConnHistData)
keeping cur none = none
keeping cur (some kept) = some (cur ∷ kept)

-- The `while` of ID_ADD and ID_RETR: the place of the first record of the client.
unfoldable pub find : List ℕ → ℕ → List ConnHistData → Option ℕ
find claddr svr_port [] = none
find claddr svr_port (cur ∷ rest) =
    if is_record_of claddr svr_port cur then some 0 else one_on (find claddr svr_port rest)

-- ID_ADD; `unset` is what `malloc` leaves in `last_update`.
unfoldable pub add : ℤ → List ℕ → ℕ → List ConnHistData → ℕ × List ConnHistData
add unset claddr svr_port hist = elim (find claddr svr_port hist) [
  | some at ↦ (at, hist)
  | none ↦ (
    length hist,
    hist
        ++ (record {
          last_update = unset;
          last_packet_time = pos 0;
          ip = claddr;
          server_port = svr_port;
        }
            ∷ []),
  )
]

-- ID_DELETE
unfoldable pub delete : List ℕ → ℕ → List ConnHistData → List ConnHistData
delete claddr svr_port [] = []
delete claddr svr_port (cur ∷ rest) =
    if is_record_of claddr svr_port cur
    then delete claddr svr_port rest
    else cur ∷ delete claddr svr_port rest

-- ID_REMOVE_OLD. After a removal `warn` reads the record that follows; `none` is its read through
-- NULL, where none does.
unfoldable pub remove_old : ℤ → List ConnHistData → Option (List ConnHistData)
remove_old search_time [] = some []
remove_old search_time (cur ∷ rest) =
    let rest' = remove_old search_time rest in
    if ltb_ℤ cur.last_update search_time
    then elim rest [ [] ↦ none | _ ∷ _ ↦ rest' ]
    else keeping cur rest'

pub data LastIdDbCmd : Type 0 where
  id_add id_retr id_delete id_remove_old : LastIdDbCmd

-- `clhistory_lookup`, whole: the pointer that it returns, and the list; `none` is the read through
-- NULL.
unfoldable pub clhistory_lookup :
    ℤ → List ConnHistData → List ℕ → ℕ → ℤ → LastIdDbCmd → Option (Option ℕ × List ConnHistData)
clhistory_lookup unset hist claddr svr_port search_time id_add =
    let (at, hist') = add unset claddr svr_port hist in some (some at, hist')
clhistory_lookup unset hist claddr svr_port search_time id_retr =
    some (find claddr svr_port hist, hist)
clhistory_lookup unset hist claddr svr_port search_time id_delete =
    some (none, delete claddr svr_port hist)
clhistory_lookup unset hist claddr svr_port search_time id_remove_old =
    elim (remove_old search_time hist) [ none ↦ none | some hist' ↦ some (none, hist') ]
