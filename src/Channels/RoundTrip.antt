-- ===== src/Channels/RoundTrip.antt =====
-- What `put_channel_data` of src/server.c prints, as `get_chan_info` of src/client.c reads it.
use sdrproxy.Prelude.{
  ℕ, zero, suc, ◌+◌, ◌-◌, ◌≤◌, ◌<◌, ◌≡◌, refl, sym, ap, ◌∙◌, subst, arith, Bool, true, false, ◌&&◌,
  Bool-cases, inl, inr, Option, none, some, List, [], ◌∷◌, ◌++◌, length, take, drop, length-append,
  take-append_length, drop-append_length, le→leb, lt→ltb, ◌==◌, ==_iff, ℤ, pos, eqb_ℤ,
}
use native.Mathlib.Decide.{ℕ_discrete}
use sdrproxy.Buffer.{RingSet, bytes_stored}
use sdrproxy.Buffer.Valid.{IsValid}
use sdrproxy.Buffer.Contents.{contents}
use sdrproxy.Buffer.Take.{length-contents, retr-contents, retr-some, delete-contents}
use sdrproxy.Util.{ChannelInfo}
use sdrproxy.Server.{print_chan_info, decimal, pad}
use sdrproxy.Channels.{
  chaninfoscanfmt, check_channel_info, checked_info, get_chan_info, read_chan_info, is_one_of,
  valid_sps, sscanf, scan_number, scan_digits, skip_space,
}

-- A configuration that `check_channel_info` lets through.
abbrev pub IsKnown : ChannelInfo → Type 0
IsKnown c = check_channel_info (pos c.sps) (pos c.num_channels) (pos c.type) ≡ true

abbrev is_info : Option ChannelInfo → ChannelInfo → Bool
is_info none c = false
is_info (some info) c =
    (info.sps == c.sps) && ((info.num_channels == c.num_channels) && (info.type == c.type))

abbrev reads_back : ChannelInfo → Bool
reads_back c =
    (length (print_chan_info c) == 25)
    && is_info (checked_info (sscanf chaninfoscanfmt (print_chan_info c))) c

and_true : (p q : Bool) → (p && q) ≡ true → (p ≡ true) × (q ≡ true)
and_true true q e = (refl, e)
and_true false q e = cc

unfoldable pub all_below : ℕ → (ℕ → Bool) → Bool
all_below zero test = true
all_below (suc n) test = test n && all_below n test

pub all_below-test : (n k : ℕ) (test : ℕ → Bool) → all_below n test ≡ true → k < n → test k ≡ true
unfolding all_below
all_below-test zero k test e h = elim h [ ]
all_below-test (suc n) k test e h =
    let (last, others) = and_true (test n) (all_below n test) e in
    elim (ℕ_discrete k n) [
      | yes same ↦ ap test same ∙ last
      | no differs ↦ all_below-test n k test others (omega arith)
    ]

all_of : List ℕ → (ℕ → Bool) → Bool
all_of [] test = true
all_of (x ∷ xs) test = test x && all_of xs test

all_of-test :
    (xs : List ℕ) (k : ℕ) (test : ℕ → Bool)
    → all_of xs test ≡ true
    → is_one_of xs (pos k) ≡ true
    → test k ≡ true
unfolding all_of is_one_of
all_of-test [] k test e h = cc
all_of-test (x ∷ xs) k test e h =
    let (first, others) = and_true (test x) (all_of xs test) e in
    elim (Bool-cases (eqb_ℤ (pos k) (pos x))) [
      | inl same ↦ ap test {x = k} {y = x} (ground arith) ∙ first
      | inr differs ↦ all_of-test xs k test others (rw differs at h)
    ]

abbrev info : ℕ → ℕ → ℕ → ChannelInfo
info sps chans type = record { sps = sps; num_channels = chans; type = type }

abbrev for_all_types : ℕ → ℕ → Bool
for_all_types sps n = all_below 9 (λ t. reads_back (info sps (n + 1) (t + 1)))

every_known_reads_back : all_of valid_sps (λ sps. all_below 8 (for_all_types sps)) ≡ true
unfolding all_of all_below print_chan_info decimal pad sscanf scan_number scan_digits skip_space
    checked_info check_channel_info is_one_of
every_known_reads_back = refl

known_bounds :
    (c : ChannelInfo)
    → IsKnown c
    → (1 ≤ c.num_channels)
      × (c.num_channels ≤ 8)
      × (1 ≤ c.type)
      × (c.type ≤ 9)
      × (is_one_of valid_sps (pos c.sps) ≡ true)
unfolding check_channel_info
known_bounds c known = ground arith

known-reads_back : (c : ChannelInfo) → IsKnown c → reads_back c ≡ true
known-reads_back c known =
    let (n_low, n_high, t_low, t_high, sps) = known_bounds c known in
    let chans =
      all_of-test valid_sps c.sps (λ s. all_below 8 (for_all_types s)) every_known_reads_back sps in
    let types = all_below-test 8 (c.num_channels - 1) (for_all_types c.sps) chans (omega arith) in
    let this = all_below-test 9 (c.type - 1) _ types (omega arith) in
    subst (λ n. reads_back (info c.sps n c.type) ≡ true) {x = c.num_channels - 1 + 1} (omega arith)
      (subst (λ t. reads_back (info c.sps (c.num_channels - 1 + 1) t) ≡ true) {x = c.type - 1 + 1}
        (omega arith) this)

is_info-some : (o : Option ChannelInfo) (c : ChannelInfo) → is_info o c ≡ true → o ≡ some c
is_info-some none c e = cc
is_info-some (some a) c e =
    let (same_sps, others) = and_true (a.sps == c.sps) _ e in
    let (same_chans, same_type) =
      and_true (a.num_channels == c.num_channels) (a.type == c.type) others in
    ap some (
      ap (λ s. info s a.num_channels a.type) ((==_iff a.sps c.sps).0 same_sps)
      ∙ ap (λ n. info c.sps n a.type) ((==_iff a.num_channels c.num_channels).0 same_chans)
      ∙ ap (λ t. info c.sps c.num_channels t) ((==_iff a.type c.type).0 same_type))

module _ (c : ChannelInfo) (known : IsKnown c) where
  length-print_chan_info : length (print_chan_info c) ≡ 25
  length-print_chan_info =
      let (long, read) = and_true (length (print_chan_info c) == 25) _ (known-reads_back c known) in
      (==_iff (length (print_chan_info c)) 25).0 long

  checked_info-print_chan_info : checked_info (sscanf chaninfoscanfmt (print_chan_info c)) ≡ some c
  checked_info-print_chan_info =
      let (long, read) = and_true (length (print_chan_info c) == 25) _ (known-reads_back c known) in
      is_info-some (checked_info (sscanf chaninfoscanfmt (print_chan_info c))) c read

  -- The text is read as `c`, and what follows it is left.
  abbrev pub Reads : List ℕ → (ℤ × ChannelInfo) × RingSet → Type 0
  Reads after o = (o.0.0 ≡ pos 0) × (o.0.1 ≡ c) × IsValid o.1 × (contents o.1 ≡ after)

  read_chan_info-Reads :
      {r : RingSet} (after : List ℕ) (old : ChannelInfo)
      → IsValid r
      → contents r ≡ print_chan_info c ++ after
      → Reads after (read_chan_info old r)
  unfolding read_chan_info
  read_chan_info-Reads {r} after old v held =
      let total : 25 ≤ bytes_stored r = omega (
        arith,
        length-contents v,
        ap length held,
        length-append (print_chan_info c) after,
        length-print_chan_info,
      ) in
      let (v', left) = retr-contents v 25 total in
      rw
        (
          le→leb 25 (bytes_stored r) total,
          retr-some v 25 total
              ∙ ap (λ l. some (take 25 l)) held
              ∙ ap some
                  (take-append_length (print_chan_info c) after 25 (sym length-print_chan_info)),
          checked_info-print_chan_info,
          read_chan_info,
        )
        (
          refl,
          refl,
          v',
          left
              ∙ ap (drop 25) held
              ∙ drop-append_length (print_chan_info c) after 25 (sym length-print_chan_info),
        )

  -- For every configuration that check_channel_info lets through, the text that put_channel_data
  -- prints, found on a valid receive ring behind the bytes before its index, is read back by
  -- get_chan_info as that configuration, and exactly the bytes behind it are left on the ring.
  pub get_chan_info-print_chan_info :
      {r : RingSet} (before after : List ℕ) (old : ChannelInfo)
      → IsValid r
      → contents r ≡ before ++ (print_chan_info c ++ after)
      → Reads after (get_chan_info (length before) old r)
  unfolding get_chan_info
  get_chan_info-print_chan_info {r} [] after old v held = read_chan_info-Reads after old v held
  get_chan_info-print_chan_info {r} (b ∷ before) after old v held =
      let n = length (b ∷ before) in
      let room : n ≤ bytes_stored r = omega (
        arith,
        length-contents v,
        ap length held,
        length-append (b ∷ before) (print_chan_info c ++ after),
      ) in
      let (v', left) = delete-contents v n (omega arith) room in
      rw (lt→ltb 0 n (omega arith)) (
        read_chan_info-Reads after old v' (
          left
          ∙ ap (drop n) held
          ∙ drop-append_length (b ∷ before) (print_chan_info c ++ after) n refl))
