-- ===== src/Util/Tests.antt =====
-- The byte search of src/util.c on a small array.
use sdrproxy.Prelude.{ℕ, List, [], ◌∷◌, refl, arith}
use sdrproxy.Util.{bytes_in_bytes}
use sdrproxy.Util.Search.{Finds, all_bytes-IsBytes, bytes_in_bytes-Finds}

abbrev hay : List ℕ
hay = 1 ∷ 2 ∷ 1 ∷ 2 ∷ 3 ∷ 9 ∷ []

abbrev need : List ℕ
need = 1 ∷ 2 ∷ 3 ∷ []

bytes_in_bytes-Finds_example : Finds hay 6 need 3 (bytes_in_bytes hay 6 need 3)
bytes_in_bytes-Finds_example =
    bytes_in_bytes-Finds hay 6 need 3 (all_bytes-IsBytes hay refl) (all_bytes-IsBytes need refl)
      (omega arith) (omega arith)
