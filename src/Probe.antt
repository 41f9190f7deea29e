-- ===== src/Probe.antt =====
-- The linear probe that the sample buffers (services/src/data) and the thread-local map
-- (services/src/common/TLS.c) share: `while (!stop(bucket)) bucket = (bucket + 1) % size;`.
use mathlib.Core.Bool.{false≢true}
use native.Mathlib.Decide.{ℕ_discrete}
use cbtf_krell.Prelude.{
  ℕ, zero, suc, ◌+◌, ◌-◌, ◌%◌, ◌<◌, Bool, true, Option, none, some, ◌≡◌, ◌≢◌, leb, ◌==◌,
  if◌then◌else◌, arith, Bool-cases, inl, inr, ◌∙◌, sym, ap,
}

-- `none` is a loop that is still running after `fuel` buckets.
unfoldable pub probe : (ℕ → Bool) → ℕ → ℕ → ℕ → Option ℕ
probe stop size zero b = none
probe stop size (suc fuel) b =
    let rest = probe stop size fuel ((b + 1) % size) in if stop b then some b else rest

-- How many steps lead from one bucket to another, going round at `size`.
abbrev pub distance : ℕ → ℕ → ℕ → ℕ
distance size b e = if leb b e then e - b else e + size - b

pub next_bucket : (size b : ℕ) → b < size → (b + 1) % size ≡ (if b + 1 == size then 0 else b + 1)
next_bucket size b h = grind arith

next_bucket-lt : (size b : ℕ) → b < size → (b + 1) % size < size
next_bucket-lt size b h = grind arith

distance-next_bucket :
    (size b e fuel : ℕ)
    → b < size
    → e < size
    → b ≢ e
    → distance size b e < suc fuel
    → distance size ((b + 1) % size) e < fuel
distance-next_bucket size b e fuel hb he ne h = ground (arith, next_bucket size b hb)

-- A bucket that stops the loop is reached within as many rounds as it is away, so the loop ends, at
-- a bucket of the table that stops it.
pub probe_total :
    (stop : ℕ → Bool) (size e fuel b : ℕ)
    → stop e ≡ true
    → e < size
    → b < size
    → distance size b e < fuel
    → (r : ℕ) × (probe stop size fuel b ≡ some r) × (r < size) × (stop r ≡ true)
unfolding probe
probe_total stop size e zero b he hs hb h = absurd (omega arith)
probe_total stop size e (suc fuel) b he hs hb h = elim (Bool-cases (stop b)) [
  | inl t ↦ (b, ground arith, hb, t)
  | inr f ↦ rw f (
      probe_total stop size e fuel ((b + 1) % size) he hs (next_bucket-lt size b hb)
        (distance-next_bucket size b e fuel hb hs (λ q. false≢true (sym f ∙ ap stop q ∙ he)) h))
]

-- The loop ends only at a bucket that stops it.
pub stop-probe :
    (stop : ℕ → Bool) (size fuel b r : ℕ) → probe stop size fuel b ≡ some r → stop r ≡ true
unfolding probe
stop-probe stop size zero b r h = ground arith
stop-probe stop size (suc fuel) b r h = ground (arith, stop-probe stop size fuel ((b + 1) % size) r)

-- If stop' agrees with stop but for one bucket, at which the loop by stop does not end, the loop by
-- stop' ends where the one by stop does; and the same if it ends there and stop' holds there.
pub probe-change :
    (stop stop' : ℕ → Bool) (size r fuel b x : ℕ)
    → ((y : ℕ) → y ≢ x → stop' y ≡ stop y)
    → stop x ≡ true
    → (r ≡ x → stop' x ≡ true)
    → probe stop size fuel b ≡ some r
    → probe stop' size fuel b ≡ some r
unfolding probe
probe-change stop stop' size r zero b x same sx keep h = ground arith
probe-change stop stop' size r (suc fuel) b x same sx keep h = elim (ℕ_discrete b x) [
  | yes e ↦ ground (arith, keep)
  | no ne ↦
      ground (arith, same b ne, probe-change stop stop' size r fuel ((b + 1) % size) x same sx keep)
]
