-- ===== src/Log/Reference.antt =====
-- A hexadecimal dump as src/util.c means it: lines of 32 bytes, each with its address first.
use sdrproxy.Prelude.{ℕ, zero, suc, ◌+◌, List, [], ◌∷◌, ◌++◌, take, drop}
use sdrproxy.Log.{bytes_per_line, address_text, byte_text}

unfoldable pub row : List ℕ → List ℕ
row [] = []
row (b ∷ bytes) = byte_text b ++ row bytes

-- The lines from an address on; there are fewer lines than bytes.
unfoldable pub dump_lines : ℕ → ℕ → List ℕ → List ℕ
dump_lines zero address bytes = []
dump_lines (suc fuel) address [] = []
dump_lines (suc fuel) address (b ∷ bytes) =
    address_text 4 address
    ++ (row (take bytes_per_line (b ∷ bytes))
        ++ (10 ∷ dump_lines fuel (address + bytes_per_line) (drop bytes_per_line (b ∷ bytes))))
