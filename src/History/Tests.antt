-- ===== src/History/Tests.antt =====
-- The connection history of src/server.c on two records.
use sdrproxy.Prelude.{ℕ, ◌*◌, ◌≡◌, refl, none, some, List, [], ◌∷◌, if◌then◌else◌, pos}
use sdrproxy.History.{
  ConnHistData, strings_equal, is_record_of, find, remove_old, id_add, clhistory_lookup,
}
use sdrproxy.History.Records.{IsUnique, last_is_old, newer, remove_old_lem}
use sdrproxy.History.Laws.{LeavesUnique, clhistory_lookup-IsUnique}

abbrev client : ℕ → ConnHistData
client n = record {
  last_update = pos (10 * n);
  last_packet_time = pos n;
  ip = 49 ∷ n ∷ [];
  server_port = 16065;
}

abbrev hist : List ConnHistData
hist = client 1 ∷ client 2 ∷ []

hist-IsUnique : IsUnique hist
unfolding IsUnique find is_record_of strings_equal
hist-IsUnique = (refl, (refl, tt))

clhistory_lookup-IsUnique_example :
    LeavesUnique (clhistory_lookup (pos 0) hist (49 ∷ 3 ∷ []) 16065 (pos 0) id_add)
clhistory_lookup-IsUnique_example =
    clhistory_lookup-IsUnique (pos 0) hist (49 ∷ 3 ∷ []) 16065 (pos 0) id_add hist-IsUnique

remove_old_lem_example :
    remove_old (pos 15) hist
    ≡ (if last_is_old (pos 15) hist then none else some (newer (pos 15) hist))
remove_old_lem_example = remove_old_lem (pos 15) hist
