-- ===== src/Log.antt =====
-- `hexdumplog` of src/util.c, which builds its text in memory of its own. `malloc` is a parameter.
pub mod Reference
pub mod Writing
pub mod Widths
pub mod Dump
pub mod Whole
mod Tests
use sdrproxy.Prelude.{
  ℕ, zero, suc, ◌+◌, ◌-◌, ◌*◌, ◌/◌, ◌%◌, ◌==◌, ltb, leb, if◌then◌else◌, List, [], ◌∷◌, ◌++◌, length,
  take, set, Option, none, some,
}
use sdrproxy.Memory.{memcpy}
use sdrproxy.Databfr.{Outcome, done, fault, ◌>>=◌}

abbrev pub bytes_per_line : ℕ
bytes_per_line = 32

-- The loop that counts the digits of the addresses.
unfoldable pub count_digits : ℕ → ℕ → ℕ
count_digits zero saved_len = 0
count_digits (suc fuel) saved_len =
    let rest = count_digits fuel (saved_len / bytes_per_line) in
    if saved_len == 0 then 0 else suc rest

unfoldable pub address_len : ℕ → ℕ
address_len len = let addrlen = count_digits len len in if ltb addrlen 4 then 4 else addrlen

abbrev pub num_lines : ℕ → ℕ
num_lines len = (len + bytes_per_line - 1) / bytes_per_line

abbrev pub output_len : ℕ → ℕ
output_len len = (address_len len + bytes_per_line * 3 + 1) * num_lines len

-- `%X`, digit by digit; a number has fewer digits than its value plus one.
abbrev pub hex_digit : ℕ → ℕ
hex_digit d = if ltb d 10 then 48 + d else 55 + d

unfoldable pub hex : ℕ → ℕ → List ℕ
hex zero n = []
hex (suc fuel) n =
    let front = hex fuel (n / 16) in
    if ltb n 16 then hex_digit n ∷ [] else front ++ (hex_digit (n % 16) ∷ [])

-- `%0*X`: zeros first, up to the width.
unfoldable pub pad_zeros : ℕ → List ℕ → List ℕ
pad_zeros zero text = text
pad_zeros (suc width) text =
    let rest = pad_zeros width text in if ltb (length rest) (suc width) then 48 ∷ rest else rest

abbrev pub address_text : ℕ → ℕ → List ℕ
address_text addrlen n = pad_zeros addrlen (hex (n + 1) n)

-- " %02hhX" of a byte
abbrev pub byte_text : ℕ → List ℕ
byte_text b = 32 ∷ hex_digit (b / 16 % 16) ∷ hex_digit (b % 16) ∷ []

-- `sprintf(&output_str[outptr], ...)`, with the zero byte that it puts behind the text.
unfoldable pub sprintf_at : ℕ → List ℕ → List ℕ → Outcome (List ℕ)
sprintf_at outptr text output_str =
    if leb (outptr + length text + 1) (length output_str)
    then done (memcpy output_str outptr (text ++ (0 ∷ [])) 0 (length text + 1))
    else fault

-- `output_str[outptr++] = '\n'`
unfoldable pub newline_at : ℕ → List ℕ → Outcome (List ℕ)
newline_at outptr output_str =
    if ltb outptr (length output_str) then done (set output_str outptr 10) else fault

-- The address, and `outptr` behind it.
abbrev pub put_address : ℕ → ℕ → ℕ → List ℕ → Outcome (ℕ × List ℕ)
put_address addrlen bfrptr outptr output_str =
    sprintf_at outptr (address_text addrlen bfrptr) output_str >>= λ out.
    done (outptr + addrlen, out)

-- A new line, if one begins here, with its address.
unfoldable pub begin_line : ℕ → ℕ → ℕ → List ℕ → Outcome (ℕ × List ℕ)
begin_line addrlen bfrptr outptr output_str =
    if bfrptr % bytes_per_line == 0
    then (if bfrptr == 0
        then put_address addrlen bfrptr outptr output_str
        else (newline_at outptr output_str >>= λ out. put_address addrlen bfrptr (outptr + 1) out))
    else done (outptr, output_str)

-- The loop over the bytes of `bfr`.
unfoldable pub dump_loop : ℕ → List ℕ → ℕ → ℕ → List ℕ → Outcome (ℕ × List ℕ)
dump_loop addrlen [] bfrptr outptr output_str = done (outptr, output_str)
dump_loop addrlen (b ∷ bfr) bfrptr outptr output_str =
    begin_line addrlen bfrptr outptr output_str >>= λ r.
    sprintf_at r.0 (byte_text b) r.1 >>= λ out. dump_loop addrlen bfr (bfrptr + 1) (r.0 + 3) out

-- `hexdumplog` of all of `bfr`: the text that `fwrite` is given, or nothing.
unfoldable pub hexdumplog : (ℕ → Option (List ℕ)) → ℕ → ℕ → List ℕ → Outcome (Option (List ℕ))
hexdumplog malloc debug_level_g level bfr =
    let len = length bfr in
    if leb level debug_level_g
    then elim (malloc (output_len len)) [
      | none ↦ fault
      | some output_str ↦ dump_loop (address_len len) bfr 0 0 output_str >>= λ r.
          newline_at r.0 r.1 >>= λ out. done (some (take (r.0 + 1) out))
    ]
    else done none
