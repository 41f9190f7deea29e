-- ===== src/PcData/Update.antt =====
-- CBTF_UpdatePCData: its loop ends, every access is inside its array, and the invariant is kept.
use cbtf_krell.Probe.{probe, probe_total}
use cbtf_krell.Prelude.{
  ℕ, ◌+◌, ◌-◌, ◌%◌, ◌^◌, ◌<◌, true, ◌≡◌, get_or, length-set, get_or-set, arith, ◌==◌, some, Bool,
}
use cbtf_krell.PcData.{
  PcData, bucket_entry, has_room, count_up, add_entry, update_at, update_pc_data, stops, home,
}
use cbtf_krell.Buckets.{occupied-set, free_bucket}
use cbtf_krell.PcData.Invariant.{IsValid}

module _ {cap hsize : ℕ} (d : PcData) (x b : ℕ) (v : IsValid cap hsize d) where
  -- A bucket in use holds an entry below `len`.
  pub entry-lt-len : has_room d x b ≡ true → bucket_entry d b - 1 < d.len
  unfolding has_room
  entry-lt-len r = ground (arith, v.entries b)

  pub count_up-IsValid : has_room d x b ≡ true → IsValid cap hsize (count_up d b)
  unfolding has_room
  count_up-IsValid r = record {
    pc_size = v.pc_size;
    count_size = ground (
      arith,
      v.count_size,
      length-set d.count (bucket_entry d b - 1)
          ((get_or d.count (bucket_entry d b - 1) 0 + 1) % 2 ^ 8),
    );
    table_size = v.table_size;
    spare = v.spare;
    small = v.small;
    len_le = v.len_le;
    in_use = v.in_use;
    entries = v.entries;
    in_range = v.in_range;
    counted = λ i h. ground (
      arith,
      v.counted i h,
      entry-lt-len r,
      v.count_size,
      v.len_le,
      get_or-set d.count (bucket_entry d b - 1) i
          ((get_or d.count (bucket_entry d b - 1) 0 + 1) % 2 ^ 8) 0,
    );
  }

  pub add_entry-IsValid : d.len < cap → b < hsize → IsValid cap hsize (add_entry d x b)
  add_entry-IsValid h hb = record {
    pc_size = ground (arith, v.pc_size, length-set d.pc d.len x);
    count_size = ground (arith, v.count_size, length-set d.count d.len 1);
    table_size = ground (arith, v.table_size, length-set d.hash_table b (d.len + 1));
    spare = v.spare;
    small = v.small;
    len_le = omega (arith, v.small);
    in_use = omega (arith, v.small, v.in_use, occupied-set d.hash_table b (d.len + 1));
    entries = λ c.
        ground
          (arith, v.entries c, v.small, v.table_size, get_or-set d.hash_table b c (d.len + 1) 0);
    in_range = λ i k. ground (arith, v.in_range i, v.small, v.pc_size, get_or-set d.pc d.len i x 0);
    counted =
        λ i k. ground (arith, v.counted i, v.small, v.count_size, get_or-set d.count d.len i 1 0);
  }

  pub update_at-IsValid : d.len < cap → b < hsize → IsValid cap hsize (update_at cap d x b).0
  unfolding update_at
  update_at-IsValid h hb = ground (arith, count_up-IsValid, add_entry-IsValid h hb)

  -- The result says whether the buffer is full.
  pub update_at-full : d.len < cap → (update_at cap d x b).1 ≡ ((update_at cap d x b).0.len == cap)
  unfolding update_at
  update_at-full h = ground arith

module _ {cap hsize : ℕ} (d : PcData) (x : ℕ) (v : IsValid cap hsize d) where
  -- The loop over the table ends at a bucket of the table that stops it.
  pub probe-stops :
      (r : ℕ) × (probe (stops d x) hsize hsize (home hsize x) ≡ some r)
      × (r < hsize)
      × (stops d x r ≡ true)
  unfolding stops
  probe-stops =
      let (e, he, free) =
        free_bucket d.hash_table (omega (arith, v.in_use, v.len_le, v.spare, v.table_size)) in
      let inside : home hsize x < hsize = grind (arith, v.spare) in
      let at : e < hsize = omega (arith, v.table_size) in
      probe_total (stops d x) hsize e hsize (home hsize x) (ground arith) at inside (ground arith)

  -- On a valid buffer that is not full, CBTF_UpdatePCData ends its search of the hash table within
  -- one round of the table and returns; the buffer is valid again, and the result is true exactly
  -- if it is now full.
  pub update_pc_data_total :
      d.len < cap
      → (r : PcData × Bool) × (update_pc_data cap hsize x d ≡ some r)
        × IsValid cap hsize r.0
        × (r.1 ≡ (r.0.len == cap))
  unfolding update_pc_data
  update_pc_data_total h =
      let (b, found, inside, stop) = probe-stops in
      (
        update_at cap d x b,
        rw (found, update_pc_data),
        update_at-IsValid d x b v h inside,
        update_at-full d x b v h,
      )

  -- Every result is that of one bucket of the table.
  pub update_pc_data-eq-update_at :
      {r : PcData × Bool}
      → update_pc_data cap hsize x d ≡ some r
      → (b : ℕ) × (b < hsize) × (r ≡ update_at cap d x b)
  unfolding update_pc_data
  update_pc_data-eq-update_at {r} e =
      let (b, found, inside, stop) = probe-stops in
      let same : some (update_at cap d x b) ≡ some r = rw (found, update_pc_data) at e in
      (b, inside, cc)
