-- ===== src/PcData/Tally.antt =====
-- What a sample buffer stands for: how often each address was sampled. CBTF_UpdatePCData adds one
-- occurrence of its address, whether it counts up an entry or makes a new one.
use cbtf_krell.Prelude.{
  ℕ, zero, suc, ◌+◌, ◌-◌, ◌%◌, ◌^◌, ◌<◌, Bool, true, List, [], ◌∷◌, some, ◌≡◌, ◌==◌, if◌then◌else◌,
  length, get_or, set, arith, Bool-cases, inl, inr,
}
use cbtf_krell.PcData.{
  PcData, bucket_entry, has_room, count_up, add_entry, update_at, update_pc_data,
}
use cbtf_krell.PcData.Invariant.{IsValid}
use cbtf_krell.PcData.Update.{entry-lt-len, update_pc_data-eq-update_at}

-- The sum of the counts of the first `n` entries that hold the address `q`.
abbrev pub tally : ℕ → ℕ → List ℕ → List ℕ → ℕ
tally q zero ps cs = 0
tally q (suc n) [] cs = 0
tally q (suc n) (p ∷ ps) [] = 0
tally q (suc n) (p ∷ ps) (c ∷ cs) = (if p == q then c else 0) + tally q n ps cs

abbrev pub samples_of : PcData → ℕ → ℕ
samples_of d q = tally q d.len d.pc d.count

-- Counting up one entry.
tally-count_up :
    (q n i : ℕ) (ps cs : List ℕ)
    → i < n
    → i < length ps
    → i < length cs
    → tally q n ps (set cs i (get_or cs i 0 + 1))
      ≡ tally q n ps cs + (if get_or ps i 0 == q then 1 else 0)
tally-count_up q zero i ps cs h k l = absurd (omega arith)
tally-count_up q (suc n) i [] cs h k l = absurd (omega arith)
tally-count_up q (suc n) i (p ∷ ps) [] h k l = absurd (omega arith)
tally-count_up q (suc n) zero (p ∷ ps) (c ∷ cs) h k l = ground arith
tally-count_up q (suc n) (suc i) (p ∷ ps) (c ∷ cs) h k l =
    ground (arith, tally-count_up q n i ps cs)

-- Writing a new entry behind the others.
tally-add_entry :
    (q n x : ℕ) (ps cs : List ℕ)
    → n < length ps
    → n < length cs
    → tally q (suc n) (set ps n x) (set cs n 1) ≡ tally q n ps cs + (if x == q then 1 else 0)
tally-add_entry q n x [] cs k l = absurd (omega arith)
tally-add_entry q n x (p ∷ ps) [] k l = absurd (omega arith)
tally-add_entry q zero x (p ∷ ps) (c ∷ cs) k l = ground arith
tally-add_entry q (suc n) x (p ∷ ps) (c ∷ cs) k l = ground (arith, tally-add_entry q n x ps cs)

module _ {cap hsize : ℕ} (d : PcData) (x b q : ℕ) (v : IsValid cap hsize d) where
  samples_of-count_up :
      has_room d x b ≡ true
      → samples_of (count_up d b) q ≡ samples_of d q + (if x == q then 1 else 0)
  unfolding has_room
  samples_of-count_up r =
      let i = bucket_entry d b - 1 in
      let exact : (get_or d.count i 0 + 1) % 2 ^ 8 ≡ get_or d.count i 0 + 1 = ground arith in
      let same : get_or d.pc i 0 ≡ x = ground arith in
      let below = entry-lt-len d x b v r in
      rw exact (
        rw (← same) (
          tally-count_up q d.len i d.pc d.count below (omega (arith, v.len_le, v.pc_size))
            (omega (arith, v.len_le, v.count_size))))

  samples_of-add_entry :
      d.len < cap → samples_of (add_entry d x b) q ≡ samples_of d q + (if x == q then 1 else 0)
  samples_of-add_entry h =
      let exact : (d.len + 1) % 2 ^ 16 ≡ suc d.len = omega (arith, v.small) in
      rw exact (
        tally-add_entry q d.len x d.pc d.count (omega (arith, v.pc_size))
          (omega (arith, v.count_size)))

  pub samples_of-update_at :
      d.len < cap
      → samples_of (update_at cap d x b).0 q ≡ samples_of d q + (if x == q then 1 else 0)
  unfolding update_at
  samples_of-update_at h = elim (Bool-cases (has_room d x b)) [
    | inl r ↦ rw r (samples_of-count_up r)
    | inr r ↦ rw r (samples_of-add_entry h)
  ]

-- Each call of CBTF_UpdatePCData on a valid buffer that is not full records exactly one sample: for
-- every address `q`, the counts of the entries that hold `q` add up to what they did before, plus
-- one if `q` is the sampled address. No count wraps or is lost, whether the call counts up an entry
-- or makes a new one.
pub samples_of-update_pc_data :
    {cap hsize : ℕ} (d : PcData) (x q : ℕ) {r : PcData × Bool}
    → IsValid cap hsize d
    → d.len < cap
    → update_pc_data cap hsize x d ≡ some r
    → samples_of r.0 q ≡ samples_of d q + (if x == q then 1 else 0)
samples_of-update_pc_data {cap} {hsize} d x q v h e =
    let (b, inside, same) = update_pc_data-eq-update_at d x v e in
    rw same (samples_of-update_at d x b q v h)
