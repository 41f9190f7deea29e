-- ===== src/PcData/Invariant.antt =====
-- The representation invariant of the sample buffers, and the bucket that every search can end at.
use cbtf_krell.Prelude.{ℕ, ◌≤◌, ◌<◌, ◌≡◌, length, get_or}
use cbtf_krell.Buckets.{occupied}
use cbtf_krell.PcData.{PcData, bucket_entry}

pub record IsValid (cap hsize : ℕ) (d : PcData) : Type 0 where
  pub pc_size : length d.pc ≡ cap
  pub count_size : length d.count ≡ cap
  pub table_size : length d.hash_table ≡ hsize
  pub spare : cap < hsize
  pub small : cap < 65536
  pub len_le : d.len ≤ cap
  pub in_use : occupied d.hash_table ≤ d.len
  pub entries : (b : ℕ) → bucket_entry d b ≤ d.len
  pub in_range :
      (i : ℕ) → i < d.len → (d.addr_begin ≤ get_or d.pc i 0) × (get_or d.pc i 0 ≤ d.addr_end)
  pub counted : (i : ℕ) → i < d.len → (1 ≤ get_or d.count i 0) × (get_or d.count i 0 ≤ 255)
