-- ===== src/PcData/Tests.antt =====
-- The sample buffers of services/src/data at small sizes: two entries and three buckets.
use cbtf_krell.Prelude.{
  ℕ, ◌<◌, Bool, false, List, [], ◌∷◌, some, ◌≡◌, refl, ◌==◌, replicate, length-replicate,
  get_or-replicate, arith,
}
use cbtf_krell.Buckets.{occupied-replicate}
use cbtf_krell.Probe.{probe}
use cbtf_krell.PcData.{PcData, HwcPcData, update_pc_data, update_hwcpc_data}
use cbtf_krell.PcData.Invariant.{IsValid}
use cbtf_krell.PcData.Update.{update_pc_data_total}
use cbtf_krell.PcData.Tally.{samples_of, samples_of-update_pc_data}
use cbtf_krell.PcData.Events.{RowsValid, Recorded, update_hwcpc_data_lem}

-- A buffer as the collectors initialise it.
abbrev empty_buffer : ℕ → ℕ → PcData
empty_buffer cap hsize = record {
  addr_begin = 1000000;
  addr_end = 0;
  len = 0;
  pc = replicate cap 0;
  count = replicate cap 0;
  hash_table = replicate hsize 0;
}

empty_buffer-IsValid :
    (cap hsize : ℕ) → cap < hsize → cap < 65536 → IsValid cap hsize (empty_buffer cap hsize)
empty_buffer-IsValid cap hsize h k = record {
  pc_size = length-replicate cap 0;
  count_size = length-replicate cap 0;
  table_size = length-replicate hsize 0;
  spare = h;
  small = k;
  len_le = omega arith;
  in_use = omega (arith, occupied-replicate hsize);
  entries = λ b. omega (arith, get_or-replicate hsize b);
  in_range = λ i q. absurd (omega arith);
  counted = λ i q. absurd (omega arith);
}

abbrev small-IsValid : IsValid 2 3 (empty_buffer 2 3)
small-IsValid = empty_buffer-IsValid 2 3 (omega arith) (omega arith)

abbrev once : PcData × Bool
once = (
  record {
    addr_begin = 64;
    addr_end = 64;
    len = 1;
    pc = 64 ∷ 0 ∷ [];
    count = 1 ∷ 0 ∷ [];
    hash_table = 0 ∷ 1 ∷ 0 ∷ [];
  },
  false,
)

update_pc_data-empty : update_pc_data 2 3 64 (empty_buffer 2 3) ≡ some once
unfolding update_pc_data probe
update_pc_data-empty = refl

update_pc_data_total_example :
    (r : PcData × Bool) × (update_pc_data 2 3 64 (empty_buffer 2 3) ≡ some r)
    × IsValid 2 3 r.0
    × (r.1 ≡ (r.0.len == 2))
update_pc_data_total_example =
    update_pc_data_total (empty_buffer 2 3) 64 small-IsValid (omega arith)

samples_of-update_pc_data_example : samples_of once.0 64 ≡ 1
samples_of-update_pc_data_example =
    samples_of-update_pc_data (empty_buffer 2 3) 64 64 small-IsValid (omega arith)
      update_pc_data-empty

abbrev empty_hwc : HwcPcData
empty_hwc = record { samples = empty_buffer 2 3; hwccounts = replicate 2 (replicate 6 0) }

empty_hwc-RowsValid : RowsValid 2 empty_hwc
empty_hwc-RowsValid = record { rows_size = refl; row_size = λ i h. absurd (omega arith) }

update_hwcpc_data_lem_example :
    let events : List ℕ = 1 ∷ 2 ∷ 3 ∷ 4 ∷ 5 ∷ 6 ∷ [] in
    (r : HwcPcData × Bool) × (update_hwcpc_data 2 3 64 events empty_hwc ≡ some r)
    × IsValid 2 3 r.0.samples
    × RowsValid 2 r.0
    × (r.1 ≡ (r.0.samples.len == 2))
    × Recorded empty_hwc r.0 64 events
update_hwcpc_data_lem_example =
    update_hwcpc_data_lem empty_hwc 64 (1 ∷ 2 ∷ 3 ∷ 4 ∷ 5 ∷ 6 ∷ []) small-IsValid
      empty_hwc-RowsValid refl (omega arith)
