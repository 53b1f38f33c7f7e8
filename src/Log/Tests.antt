-- ===== src/Log/Tests.antt =====
-- The dump of 33 bytes, in memory that is filled with zeros.
use sdrproxy.Prelude.{ℕ, ◌≡◌, refl, arith, List, replicate, length-replicate, Option, some}
use sdrproxy.Log.{hexdumplog}
use sdrproxy.Log.Whole.{dumped, hexdumplog-dumped}

abbrev malloc : ℕ → Option (List ℕ)
malloc n = some (replicate n 0)

abbrev bytes : List ℕ
bytes = replicate 33 171

hexdumplog-dumped_example : hexdumplog malloc 6 4 bytes ≡ dumped bytes
hexdumplog-dumped_example =
    hexdumplog-dumped malloc (λ n. (replicate n 0, (refl, length-replicate n 0))) 6 4 bytes
      (omega arith)
