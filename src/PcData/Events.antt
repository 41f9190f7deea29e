-- ===== src/PcData/Events.antt =====
-- CBTF_UpdateHWCPCData: the hardware counters of a sample go to the entry of its address.
use cbtf_krell.PcData.Tally.{samples_of, samples_of-update_at}
use cbtf_krell.Prelude.{
  ℕ, zero, suc, ◌+◌, ◌-◌, ◌%◌, ◌^◌, ◌<◌, Bool, true, List, [], ◌∷◌, some, ◌≡◌, refl, ◌==◌,
  if◌then◌else◌, length, get_or, set, length-set, get_or-set, arith, Bool-cases, inl, inr, subst,
  ap, sym,
}
use cbtf_krell.PcData.{
  PcData, HwcPcData, bucket_entry, has_room, add_events, update_hwc_at, update_hwcpc_data,
  update_at, hwc_count_up, hwc_add_entry,
}
use cbtf_krell.PcData.Invariant.{IsValid}
use cbtf_krell.PcData.Update.{entry-lt-len, probe-stops, update_at-IsValid, update_at-full}

-- The sum of counter `k` over the first `n` entries that hold the address `q`.
abbrev pub event_sum : ℕ → ℕ → ℕ → List ℕ → List (List ℕ) → ℕ
event_sum k q zero ps rows = 0
event_sum k q (suc n) [] rows = 0
event_sum k q (suc n) (p ∷ ps) [] = 0
event_sum k q (suc n) (p ∷ ps) (row ∷ rows) =
    (if p == q then get_or row k 0 else 0) + event_sum k q n ps rows

abbrev pub events_of : HwcPcData → ℕ → ℕ → ℕ
events_of h k q = event_sum k q h.samples.len h.samples.pc h.hwccounts

get_or-add_events :
    (ns ms : List ℕ) (k : ℕ)
    → length ns ≡ length ms
    → k < length ns
    → get_or (add_events ns ms) k 0 ≡ (get_or ns k 0 + get_or ms k 0) % 2 ^ 64
unfolding add_events
get_or-add_events [] ms k e h = absurd (omega arith)
get_or-add_events (n ∷ ns) [] k e h = absurd (omega arith)
get_or-add_events (n ∷ ns) (m ∷ ms) zero e h = refl
get_or-add_events (n ∷ ns) (m ∷ ms) (suc k) e h =
    get_or-add_events ns ms k (omega arith) (omega arith)

-- Writing the row of one entry.
event_sum-set :
    (k q n i : ℕ) (ps : List ℕ) (rows : List (List ℕ)) (row : List ℕ)
    → i < n
    → i < length ps
    → i < length rows
    → event_sum k q n ps (set rows i row)
        + (if get_or ps i 0 == q then get_or (get_or rows i []) k 0 else 0)
      ≡ event_sum k q n ps rows + (if get_or ps i 0 == q then get_or row k 0 else 0)
event_sum-set k q zero i ps rows row a b c = absurd (omega arith)
event_sum-set k q (suc n) i [] rows row a b c = absurd (omega arith)
event_sum-set k q (suc n) i (p ∷ ps) [] row a b c = absurd (omega arith)
event_sum-set k q (suc n) zero (p ∷ ps) (r ∷ rows) row a b c = omega arith
event_sum-set k q (suc n) (suc i) (p ∷ ps) (r ∷ rows) row a b c =
    omega (arith, event_sum-set k q n i ps rows row (omega arith) (omega arith) (omega arith))

event_sum-add :
    (k q n x : ℕ) (ps : List ℕ) (rows : List (List ℕ)) (row : List ℕ)
    → n < length ps
    → n < length rows
    → event_sum k q (suc n) (set ps n x) (set rows n row)
      ≡ event_sum k q n ps rows + (if x == q then get_or row k 0 else 0)
event_sum-add k q n x [] rows row b c = absurd (omega arith)
event_sum-add k q n x (p ∷ ps) [] row b c = absurd (omega arith)
event_sum-add k q zero x (p ∷ ps) (r ∷ rows) row b c = omega arith
event_sum-add k q (suc n) x (p ∷ ps) (r ∷ rows) row b c =
    omega (arith, event_sum-add k q n x ps rows row (omega arith) (omega arith))

-- The rows beside the entries: one for each, of six counters.
pub record RowsValid (cap : ℕ) (h : HwcPcData) : Type 0 where
  pub rows_size : length h.hwccounts ≡ cap
  pub row_size : (i : ℕ) → i < h.samples.len → length (get_or h.hwccounts i []) ≡ 6

module _ {cap hsize : ℕ} (h : HwcPcData) (x b k q : ℕ) (events : List ℕ)
    (v : IsValid cap hsize h.samples) (w : RowsValid cap h) (six : length events ≡ 6)
    (small : k < 6) where
  counted :
      has_room h.samples x b ≡ true
      → event_sum k q h.samples.len h.samples.pc (
            set h.hwccounts
              (bucket_entry h.samples b - 1)
              (add_events (get_or h.hwccounts (bucket_entry h.samples b - 1) []) events))
          % 2 ^ 64
        ≡ (events_of h k q + (if x == q then get_or events k 0 else 0)) % 2 ^ 64
  unfolding has_room
  counted r =
      let i = bucket_entry h.samples b - 1 in
      let row = get_or h.hwccounts i [] in
      let same : get_or h.samples.pc i 0 ≡ x = ground arith in
      let below = entry-lt-len h.samples x b v r in
      let wide = w.row_size i below in
      let one = get_or-add_events row events k (omega arith) (omega arith) in
      let all = rw same at (
        event_sum-set k q h.samples.len i h.samples.pc h.hwccounts (add_events row events) below
          (omega (arith, v.len_le, v.pc_size)) (omega (arith, v.len_le, w.rows_size))) in
      ground (arith, one, all)

  added :
      h.samples.len < cap
      → event_sum k q
            ((h.samples.len + 1) % 65536)
            (set h.samples.pc h.samples.len x)
            (set h.hwccounts h.samples.len events)
          % 2 ^ 64
        ≡ (events_of h k q + (if x == q then get_or events k 0 else 0)) % 2 ^ 64
  added room =
      let exact : (h.samples.len + 1) % 65536 ≡ suc h.samples.len = omega (arith, v.small) in
      rw (
        exact,
        event_sum-add k q h.samples.len x h.samples.pc h.hwccounts events (omega (arith, v.pc_size))
            (omega (arith, w.rows_size)),
      )

  events_of-update_hwc_at :
      h.samples.len < cap
      → events_of (update_hwc_at cap h x events b).0 k q % 2 ^ 64
        ≡ (events_of h k q + (if x == q then get_or events k 0 else 0)) % 2 ^ 64
  unfolding update_hwc_at
  events_of-update_hwc_at room = elim (Bool-cases (has_room h.samples x b)) [
    | inl r ↦ rw r (counted r)
    | inr r ↦ rw r (added room)
  ]

pub length-add_events : (ns ms : List ℕ) → length (add_events ns ms) ≡ length ns
unfolding add_events
length-add_events [] ms = refl
length-add_events (n ∷ ns) [] = refl
length-add_events (n ∷ ns) (m ∷ ms) = ap suc (length-add_events ns ms)

module _ {cap hsize : ℕ} (h : HwcPcData) (x b : ℕ) (events : List ℕ)
    (v : IsValid cap hsize h.samples) (w : RowsValid cap h) (six : length events ≡ 6) where
  hwc_count_up-RowsValid : has_room h.samples x b ≡ true → RowsValid cap (hwc_count_up h b events)
  hwc_count_up-RowsValid r =
      let i = bucket_entry h.samples b - 1 in
      let row = add_events (get_or h.hwccounts i []) events in
      let below = entry-lt-len h.samples x b v r in
      record {
        rows_size = ground (arith, length-set h.hwccounts i row, w.rows_size);
        row_size = λ j k.
            rw (get_or-set h.hwccounts i j row [] (omega (arith, w.rows_size, v.len_le))) (
              ground (
                arith,
                w.row_size j k,
                w.row_size i below,
                length-add_events (get_or h.hwccounts i []) events,
              ));
      }

  hwc_add_entry-RowsValid : h.samples.len < cap → RowsValid cap (hwc_add_entry h x b events)
  hwc_add_entry-RowsValid room = record {
    rows_size = ground (arith, length-set h.hwccounts h.samples.len events, w.rows_size);
    row_size = λ j k.
        rw (get_or-set h.hwccounts h.samples.len j events [] (omega (arith, w.rows_size)))
          (ground (arith, w.row_size j, v.small));
  }

  update_hwc_at-RowsValid : h.samples.len < cap → RowsValid cap (update_hwc_at cap h x events b).0
  unfolding update_hwc_at
  update_hwc_at-RowsValid room = elim (Bool-cases (has_room h.samples x b)) [
    | inl r ↦ rw r (hwc_count_up-RowsValid r)
    | inr r ↦ rw r (hwc_add_entry-RowsValid room)
  ]

  update_hwc_at-update_at :
      let r = update_hwc_at cap h x events b in (r.0.samples, r.1) ≡ update_at cap h.samples x b
  unfolding update_hwc_at update_at
  update_hwc_at-update_at = ground arith

-- What one call of CBTF_UpdateHWCPCData does to the sums over the entries of an address.
pub record Recorded (h h' : HwcPcData) (x : ℕ) (events : List ℕ) : Type 0 where
  pub sampled :
      (q : ℕ) → samples_of h'.samples q ≡ samples_of h.samples q + (if x == q then 1 else 0)
  pub added_up :
      (k q : ℕ)
      → k < 6
      → events_of h' k q % 2 ^ 64
        ≡ (events_of h k q + (if x == q then get_or events k 0 else 0)) % 2 ^ 64

-- On a valid buffer of valid rows that is not full, CBTF_UpdateHWCPCData returns; the buffer and its
-- rows are valid again and the result is true exactly if it is now full; the call records one
-- sample for its address and adds each of the six event counts, modulo 2^64, to the sum over the
-- entries of that address, and leaves the sums of every other address alone.
pub update_hwcpc_data_lem :
    {cap hsize : ℕ} (h : HwcPcData) (x : ℕ) (events : List ℕ)
    → IsValid cap hsize h.samples
    → RowsValid cap h
    → length events ≡ 6
    → h.samples.len < cap
    → (r : HwcPcData × Bool) × (update_hwcpc_data cap hsize x events h ≡ some r)
      × IsValid cap hsize r.0.samples
      × RowsValid cap r.0
      × (r.1 ≡ (r.0.samples.len == cap))
      × Recorded h r.0 x events
unfolding update_hwcpc_data
update_hwcpc_data_lem {cap} {hsize} h x events v w six room =
    let (b, found, inside, stop) = probe-stops h.samples x v in
    let same = update_hwc_at-update_at h x b events v w six in
    (
      update_hwc_at cap h x events b,
      rw (found, update_hwcpc_data),
      subst (λ (p : PcData × Bool). IsValid cap hsize p.0) (sym same)
          (update_at-IsValid h.samples x b v room inside),
      update_hwc_at-RowsValid h x b events v w six room,
      subst (λ (p : PcData × Bool). p.1 ≡ (p.0.len == cap)) (sym same)
          (update_at-full h.samples x b v room),
      record {
        sampled = λ q.
            subst
              (λ (p : PcData × Bool).
                samples_of p.0 q ≡ samples_of h.samples q + (if x == q then 1 else 0))
              (sym same) (samples_of-update_at h.samples x b q v room);
        added_up = λ k q small. events_of-update_hwc_at h x b k q events v w six small room;
      },
    )
