-- ===== src/Hwcsamp/Values.antt =====
-- What CBTF_HWCAccum and CBTF_Stop do to each of the values.
use cbtf_krell.Prelude.{
  ℕ, zero, suc, ◌+◌, ◌%◌, ◌^◌, ◌<◌, List, [], ◌∷◌, ◌≡◌, refl, length, get_or, arith, ap, Option,
  some, if◌then◌else◌, Bool-cases, inl, inr,
}
use cbtf_krell.PcData.{add_events}
use cbtf_krell.Hwcsamp.Papi.{Reading, overwrite, cbtf_stop, cbtf_hwc_accum}

pub get_or-overwrite :
    (ns ms : List ℕ) (k : ℕ)
    → k < length ns
    → get_or (overwrite ns ms) k 0 ≡ get_or ms k (get_or ns k 0)
unfolding overwrite
get_or-overwrite [] ms k h = absurd (omega arith)
get_or-overwrite (n ∷ ns) [] k h = refl
get_or-overwrite (n ∷ ns) (m ∷ ms) zero h = refl
get_or-overwrite (n ∷ ns) (m ∷ ms) (suc k) h = get_or-overwrite ns ms k (omega arith)

pub length-overwrite : (ns ms : List ℕ) → length (overwrite ns ms) ≡ length ns
unfolding overwrite
length-overwrite [] ms = refl
length-overwrite (n ∷ ns) [] = refl
length-overwrite (n ∷ ns) (m ∷ ms) = ap suc (length-overwrite ns ms)

-- Modulo 2^64, also where fewer events are counted than there are values.
pub get_or-add_events-wraps :
    (ns ms : List ℕ) (k : ℕ)
    → k < length ns
    → get_or (add_events ns ms) k 0 % 2 ^ 64 ≡ (get_or ns k 0 + get_or ms k 0) % 2 ^ 64
unfolding add_events
get_or-add_events-wraps [] ms k h = absurd (omega arith)
get_or-add_events-wraps (n ∷ ns) [] k h = omega arith
get_or-add_events-wraps (n ∷ ns) (m ∷ ms) zero h = omega arith
get_or-add_events-wraps (n ∷ ns) (m ∷ ms) (suc k) h = get_or-add_events-wraps ns ms k (omega arith)

module _ {set : ℕ} (o : Option ℕ) (present : o ≡ some set) where
  pub cbtf_hwc_accum-set :
      (counted ns : List ℕ) → cbtf_hwc_accum o counted ns ≡ add_events ns counted
  unfolding cbtf_hwc_accum
  cbtf_hwc_accum-set counted ns = rw present refl

  pub length-cbtf_stop : (r : Reading) (ns : List ℕ) → length (cbtf_stop o r ns) ≡ length ns
  unfolding cbtf_stop
  length-cbtf_stop r ns = rw present (ground (arith, length-overwrite ns r.values))

  pub get_or-cbtf_stop :
      (r : Reading) (ns : List ℕ) (k : ℕ)
      → k < length ns
      → get_or (cbtf_stop o r ns) k 0
        ≡ (if r.stopped then get_or ns k 0 else get_or r.values k (get_or ns k 0))
  unfolding cbtf_stop
  get_or-cbtf_stop r ns k h = rw present (elim (Bool-cases r.stopped) [
    | inl e ↦ rw e refl
    | inr e ↦ rw e (get_or-overwrite ns r.values k h)
  ])
