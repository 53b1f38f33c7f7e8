-- ===== src/Client/Rounds.antt =====
-- The rounds of the loop of `check_data` of src/client.c.
use sdrproxy.Prelude.{◌≡◌, refl, false, ◌||◌, Option, none, some, ℤ, pos}
use sdrproxy.Buffer.Valid.{IsValid}
use sdrproxy.Util.{ChannelInfo}
use sdrproxy.Databfr.{Outcome, done, fault, failed, blocked}
use sdrproxy.Databfr.Ops.{Allocator}
use sdrproxy.Client.{Tm, ClientData, found, check_found}
use sdrproxy.Client.Taken.{or_false}

module _ (timegm : Tm → ℤ) (m : Allocator) (c : ChannelInfo) where
  -- It has ended, with a valid ring; or the program has ended, or undefined behaviour is met.
  abbrev pub Ends : Outcome (Option ClientData) → Type 0
  Ends (done none) = ⊥
  Ends (done (some d)) = IsValid d.ring
  Ends fault = Unit {0}
  Ends failed = Unit {0}
  Ends blocked = Unit {0}

  pub check_found_none :
      (chanidx adcidx : ℤ) (d : ClientData)
      → (found chanidx || found adcidx) ≡ false
      → check_found timegm m c chanidx adcidx d ≡ done (pos 0, d)
  unfolding check_found
  check_found_none chanidx adcidx d none_found =
      let (no_chan, no_adc) = or_false (found chanidx) (found adcidx) none_found in
      rw (no_chan, no_adc, check_found) refl
