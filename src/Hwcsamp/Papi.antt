-- ===== src/Hwcsamp/Papi.antt =====
-- services/src/papi/PapiAPI.c: the calls that read the hardware counters of an event set into an array
-- of values. What PAPI reports is given as arguments; an event set that is PAPI_NULL is `none`.
use cbtf_krell.Prelude.{ℕ, Bool, List, [], ◌∷◌, Option, none, some, if◌then◌else◌}
use cbtf_krell.PcData.{add_events}

-- What PAPI reports of an event set that is to be stopped: whether it is stopped already, and the
-- values that PAPI_stop writes, of which there are none if it fails.
pub record Reading : Type 0 where
  pub stopped : Bool
  pub values : List ℕ

-- PAPI_stop writes one value for each event of the set, and leaves the others.
unfoldable pub overwrite : List ℕ → List ℕ → List ℕ
overwrite [] _ = []
overwrite (n ∷ ns) [] = n ∷ ns
overwrite (n ∷ ns) (m ∷ ms) = m ∷ overwrite ns ms

-- `CBTF_Stop`.
unfoldable pub cbtf_stop : Option ℕ → Reading → List ℕ → List ℕ
unfolding overwrite
cbtf_stop none reading evalues = evalues
cbtf_stop (some set) reading evalues =
    if reading.stopped then evalues else overwrite evalues reading.values

-- `CBTF_HWCAccum`: PAPI_accum adds what was counted for each event of the set, and nothing if it
-- fails.
unfoldable pub cbtf_hwc_accum : Option ℕ → List ℕ → List ℕ → List ℕ
unfolding add_events
cbtf_hwc_accum none counted evalues = evalues
cbtf_hwc_accum (some set) counted evalues = add_events evalues counted

-- `CBTF_Create_Eventset`, with what PAPI_create_eventset returns: `none` if it fails, which leaves
-- PAPI_NULL.
abbrev pub cbtf_create_eventset : Option ℕ → Option ℕ → Option ℕ
cbtf_create_eventset created _ = created
