-- ===== src/Util.antt =====
-- src/util.c: the CRC, the sizes, the byte search. `hexdumplog` is in Log.
pub mod Search
pub mod Crc
mod Tests
use Prim.Native.Nat.{bit_xor}
use sdrproxy.Prelude.{
  ℕ, zero, suc, ◌+◌, ◌-◌, ◌*◌, ◌/◌, ◌≤◌, ◌<◌, Bool, true, false, ◌&&◌, List, [], ◌∷◌, Option, none,
  some, length, get_or, drop, take, ltb, leb, ◌==◌, if◌then◌else◌, not,
}

-- `struct channelinfo` (src/sdrproxy.h)
pub record ChannelInfo : Type 0 where
  pub sps : ℕ
  pub num_channels : ℕ
  pub type : ℕ

abbrev pub prehdrlen : ℕ
prehdrlen = 8

abbrev pub datahdrlen : ℕ
datahdrlen = 22

abbrev pub crclen : ℕ
crclen = 1

unfoldable pub data_bfr_size : ChannelInfo → ℕ
data_bfr_size c = c.sps * c.num_channels * (if c.type == 4 then 4 else 2)

unfoldable pub sdr_pkt_size : ChannelInfo → ℕ
unfolding data_bfr_size
sdr_pkt_size c = prehdrlen + datahdrlen + data_bfr_size c + crclen

-- `do_crc`: the exclusive or of the bytes.
unfoldable pub do_crc : ℕ → List ℕ → ℕ
do_crc crc [] = crc
do_crc crc (b ∷ bytes) = do_crc (bit_xor crc b) bytes

-- The value of `n` bytes read as one unsigned number, the low byte first.
unfoldable pub load : ℕ → ℕ → List ℕ → ℕ
load zero at bytes = 0
load (suc n) at bytes = get_or bytes at 0 + 256 * load n (at + 1) bytes

-- What `bytes_in_bytes` returns: the position of the match, or NULL; `running` if its loop has not
-- ended within the rounds given.
pub data Match : Type 0 where
  found : ℕ → Match
  absent running : Match

-- `sizeof(unsigned long)` and `sizeof(unsigned short)`
abbrev pub lsize : ℕ
lsize = 4

abbrev pub ssize : ℕ
ssize = 2

-- How many bytes are compared at once, at `haystack` and `testneed`.
unfoldable pub increment : ℕ → ℕ → ℕ → ℕ → ℕ
increment haysize nsize haystack testneed =
    if leb (haystack + lsize) haysize && leb (testneed + lsize) nsize
    then lsize
    else (if leb (haystack + ssize) haysize && leb (testneed + ssize) nsize then ssize else 1)

module _ (hay : List ℕ) (haysize : ℕ) (need : List ℕ) (nsize : ℕ) where
  -- The `while` of `bytes_in_bytes`; the pointers are positions in `hay` and `need`.
  unfoldable pub match_loop : ℕ → ℕ → ℕ → Bool → ℕ → Match
  match_loop zero haystack testneed inmatch savedhay = running
  match_loop (suc fuel) haystack testneed inmatch savedhay =
      let step = increment haysize nsize haystack testneed in
      let restart = if inmatch then savedhay + 1 else haystack + 1 in
      let first = if inmatch then 0 else testneed in
      elim (ltb haystack haysize && ltb testneed nsize) [
        | false ↦ if inmatch then found savedhay else absent
        | true ↦ elim (load step haystack hay == load step testneed need) [
          | true ↦
              match_loop fuel (haystack + step) (testneed + step) true
                (if inmatch then savedhay else haystack)
          | false ↦ elim (ltb (haysize - restart) nsize) [
            | true ↦ absent
            | false ↦ match_loop fuel restart first false savedhay
          ]
        ]
      ]

  -- `bytes_in_bytes`, with as many rounds as the loop can take. Nothing is read through `savedhay`
  -- before it is set.
  unfoldable pub bytes_in_bytes : Match
  bytes_in_bytes = match_loop ((haysize + 1) * (nsize + 1) + 1) 0 0 false 0
