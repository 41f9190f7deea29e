-- ===== src/Hwcsamp/Send.antt =====
-- What a send of the hwcsamp collector does: the blob holds what the buffer held, and the buffer is
-- empty and valid.
use cbtf_krell.Prelude.{
  zeroed, length-zeroed, get_or-zeroed, ℕ, zero, suc, ◌+◌, ◌≤◌, List, [], ◌∷◌, ◌++◌, Option, ◌≡◌,
  refl, length, take, map, arith, ap,
}
use cbtf_krell.PcData.{HwcPcData}
use cbtf_krell.PcData.Invariant.{IsValid}
use cbtf_krell.PcData.Tally.{samples_of}
use cbtf_krell.PcData.Events.{event_sum, events_of, RowsValid}
use cbtf_krell.Pcsamp.Send.{occupied-zeroed, tally-take, Sized, IsValid-Sized}
use cbtf_krell.Hwcsamp.Collector.{State, Action, initialize_data, filled_in, send_samples}
use cbtf_krell.Hwcsamp.Run.{sent, sent_events, watch_of}

-- What is sent of the rows is what they hold.
event_sum-take :
    (k q n : ℕ) (ps : List ℕ) (rows : List (List ℕ))
    → n ≤ length ps
    → n ≤ length rows
    → event_sum k q (length (take n ps)) (take n ps) (take n rows) ≡ event_sum k q n ps rows
event_sum-take k q zero ps rows h j = refl
event_sum-take k q (suc n) [] rows h j = absurd (omega arith)
event_sum-take k q (suc n) (p ∷ ps) [] h j = absurd (omega arith)
event_sum-take k q (suc n) (p ∷ ps) (row ∷ rows) h j = ground (arith, event_sum-take k q n ps rows)

pub sent-append : (q : ℕ) (xs ys : List Action) → sent q (xs ++ ys) ≡ sent q xs + sent q ys
sent-append q [] ys = omega arith
sent-append q (Action.send b ∷ xs) ys = omega (arith, sent-append q xs ys)
sent-append q (_ ∷ xs) ys = sent-append q xs ys

pub sent_events-append :
    (k q : ℕ) (xs ys : List Action)
    → sent_events k q (xs ++ ys) ≡ sent_events k q xs + sent_events k q ys
sent_events-append k q [] ys = omega arith
sent_events-append k q (Action.send b ∷ xs) ys = omega (arith, sent_events-append k q xs ys)
sent_events-append k q (_ ∷ xs) ys = sent_events-append k q xs ys

length-map-zeroed : (rows : List (List ℕ)) → length (map zeroed rows) ≡ length rows
length-map-zeroed [] = refl
length-map-zeroed (row ∷ rows) = ap suc (length-map-zeroed rows)

-- The arrays have the declared sizes: `cap` entries, as many rows, and six values.
pub record SizedState (cap hsize : ℕ) (s : State) : Type 0 where
  pub arrays : Sized cap hsize s.tls.buffer.samples
  pub rows_size : length s.tls.buffer.hwccounts ≡ cap
  pub values_size : length s.evalues ≡ 6

-- An emptied buffer.
pub record Emptied (cap hsize : ℕ) (b : HwcPcData) : Type 0 where
  pub valid : IsValid cap hsize b.samples
  pub rows : RowsValid cap b
  pub none_left : b.samples.len ≡ 0

pub initialize_data-Emptied :
    {cap hsize : ℕ} (now : ℕ) (s : State)
    → Sized cap hsize s.tls.buffer.samples
    → length s.tls.buffer.hwccounts ≡ cap
    → Emptied cap hsize (initialize_data now s).tls.buffer
unfolding initialize_data
initialize_data-Emptied now s v w = record {
  valid = record {
    pc_size = v.pc_size;
    count_size = v.count_size;
    table_size = ground (arith, v.table_size, length-zeroed s.tls.buffer.samples.hash_table);
    spare = v.spare;
    small = v.small;
    len_le = omega arith;
    in_use = omega (arith, occupied-zeroed s.tls.buffer.samples.hash_table);
    entries = λ b. omega (arith, get_or-zeroed s.tls.buffer.samples.hash_table b);
    in_range = λ i h. absurd (omega arith);
    counted = λ i h. absurd (omega arith);
  };
  rows = record {
    rows_size = ground (arith, w, length-map-zeroed s.tls.buffer.hwccounts);
    row_size = λ i h. absurd (omega arith);
  };
  none_left = refl;
}

-- A send moves what the buffer holds to the blob.
pub record Flushed (cap hsize : ℕ) (s : State) (r : State × List Action) : Type 0 where
  pub emptied : Emptied cap hsize r.0.tls.buffer
  pub samples_sent : (q : ℕ) → sent q r.1 ≡ samples_of s.tls.buffer.samples q
  pub events_sent : (k q : ℕ) → sent_events k q r.1 ≡ events_of s.tls.buffer k q
  pub samples_gone : (q : ℕ) → samples_of r.0.tls.buffer.samples q ≡ 0
  pub events_gone : (k q : ℕ) → events_of r.0.tls.buffer k q ≡ 0
  pub mode : (k : ℕ) → (watch_of k r.0).mode ≡ (watch_of k s).mode
  pub event_set : r.0.tls.event_set ≡ s.tls.event_set
  pub papi_init_done : r.0.papi_init_done ≡ s.papi_init_done
  pub evalues : r.0.evalues ≡ zeroed s.evalues

pub send_samples_lem :
    {cap hsize : ℕ} (now later : ℕ) (rank : Option ℕ) (s : State)
    → IsValid cap hsize s.tls.buffer.samples
    → RowsValid cap s.tls.buffer
    → Flushed cap hsize s (send_samples now later rank s)
unfolding send_samples
send_samples_lem now later rank s v w =
    let b = s.tls.buffer.samples in
    record {
      emptied =
          initialize_data-Emptied later (record s { tls = filled_in now rank s.tls })
            (IsValid-Sized v) w.rows_size;
      samples_sent =
          λ q. omega (arith, tally-take q b.len b.pc b.count, v.len_le, v.pc_size, v.count_size);
      events_sent = λ k q. omega (
        arith,
        event_sum-take k q b.len b.pc s.tls.buffer.hwccounts,
        v.len_le,
        v.pc_size,
        w.rows_size,
      );
      samples_gone = λ q. refl;
      events_gone = λ k q. refl;
      mode = λ k. refl;
      event_set = refl;
      papi_init_done = refl;
      evalues = refl;
    }
