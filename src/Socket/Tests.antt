-- ===== src/Socket/Tests.antt =====
-- src/socket.c with a socket that takes three bytes at most.
use sdrproxy.Prelude.{ℕ, min, true, List, [], ◌∷◌, length}
use sdrproxy.Socket.{Selected, selected, SendResult, taken}

abbrev text : List ℕ
text = 1 ∷ 2 ∷ 3 ∷ 4 ∷ 5 ∷ []

abbrev select : List ℕ → Selected
select bytes = selected 1 true

abbrev send : List ℕ → SendResult
send bytes = taken (min 3 (length bytes))
