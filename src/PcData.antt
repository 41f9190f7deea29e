-- ===== src/PcData.antt =====
-- services/src/data/UpdatePCData.c and UpdateHWCPCData.c: the sample buffers of the program-counter
-- collectors, with their hash table (types in Data.h).
pub mod Invariant
pub mod Update
pub mod Tally
pub mod Events
mod Tests
use cbtf_krell.Prelude.{
  ℕ, ◌+◌, ◌-◌, ◌*◌, ◌/◌, ◌%◌, ◌^◌, Bool, true, false, ◌&&◌, ◌||◌, List, [], ◌∷◌, Option, none, some,
  ltb, ◌==◌, if◌then◌else◌, get_or, set,
}
use cbtf_krell.Probe.{probe}

-- CBTF_PCData. The arrays are lists of the sizes of the declaration; `len` is the field `length`.
pub record PcData : Type 0 where
  pub addr_begin : ℕ
  pub addr_end : ℕ
  pub len : ℕ
  pub pc : List ℕ
  pub count : List ℕ
  pub hash_table : List ℕ

-- The sizes of the arrays, from CBTF_BlobSizeFactor (8 or 15).
abbrev pub pc_buffer_size : ℕ → ℕ
pc_buffer_size factor = 256 * factor

abbrev pub hwcpc_buffer_size : ℕ → ℕ
hwcpc_buffer_size factor = 128 * factor

abbrev pub hash_table_size : ℕ → ℕ
hash_table_size buffer_size = buffer_size + buffer_size / 4

-- A bucket holds 0, or the index of an entry plus one.
abbrev pub bucket_entry : PcData → ℕ → ℕ
bucket_entry d b = get_or d.hash_table b 0

-- The negation of the loop's condition.
unfoldable pub stops : PcData → ℕ → ℕ → Bool
stops d x b = (bucket_entry d b == 0) || (get_or d.pc (bucket_entry d b - 1) 0 == x)

-- The bucket at which the search for an address begins.
abbrev pub home : ℕ → ℕ → ℕ
home hsize x = (x / 2 ^ 4) % hsize

-- The entry of the bucket is that of the address, and its count can still grow.
unfoldable pub has_room : PcData → ℕ → ℕ → Bool
has_room d x b =
    (ltb 0 (bucket_entry d b) && (get_or d.pc (bucket_entry d b - 1) 0 == x))
    && ltb (get_or d.count (bucket_entry d b - 1) 0) 255

abbrev pub count_up : PcData → ℕ → PcData
count_up d b =
    let i = bucket_entry d b - 1 in
    record d { count = set d.count i ((get_or d.count i 0 + 1) % 2 ^ 8) }

abbrev pub add_entry : PcData → ℕ → ℕ → PcData
add_entry d x b = record {
  addr_begin = if ltb x d.addr_begin then x else d.addr_begin;
  addr_end = if ltb d.addr_end x then x else d.addr_end;
  len = (d.len + 1) % 2 ^ 16;
  pc = set d.pc d.len x;
  count = set d.count d.len 1;
  hash_table = set d.hash_table b (d.len + 1);
}

-- CBTF_UpdatePCData from the end of its loop on, at the bucket that the loop has found.
unfoldable pub update_at : ℕ → PcData → ℕ → ℕ → PcData × Bool
unfolding has_room
update_at cap d x b =
    if has_room d x b
    then (count_up d b, false)
    else (add_entry d x b, (add_entry d x b).len == cap)

-- The loop may run through the whole table; `none` is a loop that has not ended by then.
unfoldable pub update_pc_data : ℕ → ℕ → ℕ → PcData → Option (PcData × Bool)
unfolding stops update_at
update_pc_data cap hsize x d = elim (probe (stops d x) hsize hsize (home hsize x)) [
  | none ↦ none
  | some b ↦ some (update_at cap d x b)
]

-- CBTF_HWCPCData: the same fields, with six event counts for each entry.
pub record HwcPcData : Type 0 where
  pub samples : PcData
  pub hwccounts : List (List ℕ)

-- `hwccounts[e][i] += evcounts[i]` for the six counters, each a uint64_t.
unfoldable pub add_events : List ℕ → List ℕ → List ℕ
add_events [] _ = []
add_events (n ∷ ns) [] = n ∷ ns
add_events (n ∷ ns) (m ∷ ms) = ((n + m) % 2 ^ 64) ∷ add_events ns ms

abbrev pub hwc_count_up : HwcPcData → ℕ → List ℕ → HwcPcData
hwc_count_up h b events =
    let i = bucket_entry h.samples b - 1 in
    record {
      samples = count_up h.samples b;
      hwccounts = set h.hwccounts i (add_events (get_or h.hwccounts i []) events);
    }

abbrev pub hwc_add_entry : HwcPcData → ℕ → ℕ → List ℕ → HwcPcData
hwc_add_entry h x b events = record {
  samples = add_entry h.samples x b;
  hwccounts = set h.hwccounts h.samples.len events;
}

-- CBTF_UpdateHWCPCData from the end of its loop on.
unfoldable pub update_hwc_at : ℕ → HwcPcData → ℕ → List ℕ → ℕ → HwcPcData × Bool
unfolding has_room add_events
update_hwc_at cap h x events b =
    if has_room h.samples x b
    then (hwc_count_up h b events, false)
    else (hwc_add_entry h x b events, (hwc_add_entry h x b events).samples.len == cap)

unfoldable pub update_hwcpc_data : ℕ → ℕ → ℕ → List ℕ → HwcPcData → Option (HwcPcData × Bool)
unfolding stops update_hwc_at
update_hwcpc_data cap hsize x events h =
    elim (probe (stops h.samples x) hsize hsize (home hsize x)) [
      | none ↦ none
      | some b ↦ some (update_hwc_at cap h x events b)
    ]
