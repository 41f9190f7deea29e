-- ===== src/Pcsamp/Send.antt =====
-- What a send of the pcsamp collector does: the blob holds what the buffer held, and the buffer is
-- empty and valid.
use cbtf_krell.Prelude.{
  zeroed, length-zeroed, get_or-zeroed, ℕ, zero, suc, ◌+◌, ◌≤◌, ◌<◌, List, [], ◌∷◌, ◌++◌, Option,
  ◌≡◌, refl, length, take, arith,
}
use cbtf_krell.Buckets.{occupied}
use cbtf_krell.PcData.{PcData}
use cbtf_krell.PcData.Invariant.{IsValid}
use cbtf_krell.PcData.Tally.{tally, samples_of}
use cbtf_krell.Pcsamp.Collector.{Tls, Action, initialize_data, filled_in, send_samples}
use cbtf_krell.Pcsamp.Run.{sent, mode_of}

pub occupied-zeroed : (xs : List ℕ) → occupied (zeroed xs) ≡ 0
unfolding occupied
occupied-zeroed [] = refl
occupied-zeroed (x ∷ xs) = ground (arith, occupied-zeroed xs)

-- What is sent of a buffer is what it holds.
pub tally-take :
    (q n : ℕ) (ps cs : List ℕ)
    → n ≤ length ps
    → n ≤ length cs
    → tally q (length (take n ps)) (take n ps) (take n cs) ≡ tally q n ps cs
tally-take q zero ps cs h k = refl
tally-take q (suc n) [] cs h k = refl
tally-take q (suc n) (p ∷ ps) [] h k = absurd (omega arith)
tally-take q (suc n) (p ∷ ps) (c ∷ cs) h k = ground (arith, tally-take q n ps cs)

pub sent-append : (q : ℕ) (xs ys : List Action) → sent q (xs ++ ys) ≡ sent q xs + sent q ys
sent-append q [] ys = omega arith
sent-append q (Action.send b ∷ xs) ys = omega (arith, sent-append q xs ys)
sent-append q (Action.start_timer _ ∷ xs) ys = sent-append q xs ys
sent-append q (Action.stop_timer ∷ xs) ys = sent-append q xs ys
sent-append q (Action.block_signal ∷ xs) ys = sent-append q xs ys
sent-append q (Action.unblock_signal ∷ xs) ys = sent-append q xs ys

-- Arrays of the declared sizes.
pub record Sized (cap hsize : ℕ) (d : PcData) : Type 0 where
  pub pc_size : length d.pc ≡ cap
  pub count_size : length d.count ≡ cap
  pub table_size : length d.hash_table ≡ hsize
  pub spare : cap < hsize
  pub small : cap < 65536

pub IsValid-Sized : {cap hsize : ℕ} {d : PcData} → IsValid cap hsize d → Sized cap hsize d
IsValid-Sized v = record {
  pc_size = v.pc_size;
  count_size = v.count_size;
  table_size = v.table_size;
  spare = v.spare;
  small = v.small;
}

-- The buffer is valid, and has room for a sample.
pub record Ready (cap hsize : ℕ) (t : Tls) : Type 0 where
  pub valid : IsValid cap hsize t.buffer
  pub room : t.buffer.len < cap

module _ {cap hsize : ℕ} (some_room : 0 < cap) where
  pub initialize_data-Ready :
      (now : ℕ) (t : Tls) → Sized cap hsize t.buffer → Ready cap hsize (initialize_data now t)
  unfolding initialize_data
  initialize_data-Ready now t v = record {
    valid = record {
      pc_size = v.pc_size;
      count_size = v.count_size;
      table_size = ground (arith, v.table_size, length-zeroed t.buffer.hash_table);
      spare = v.spare;
      small = v.small;
      len_le = omega arith;
      in_use = omega (arith, occupied-zeroed t.buffer.hash_table);
      entries = λ b. omega (arith, get_or-zeroed t.buffer.hash_table b);
      in_range = λ i h. absurd (omega arith);
      counted = λ i h. absurd (omega arith);
    };
    room = some_room;
  }

  -- A send moves what the buffer holds to the blob.
  pub send_samples_lem :
      (now later : ℕ) (rank : Option ℕ) (t : Tls)
      → IsValid cap hsize t.buffer
      → Ready cap hsize (send_samples now later rank t).0
        × ((q : ℕ) → sent q (send_samples now later rank t).1 ≡ samples_of t.buffer q)
        × ((q : ℕ) → samples_of (send_samples now later rank t).0.buffer q ≡ 0)
        × (mode_of (send_samples now later rank t).0 ≡ mode_of t)
  unfolding send_samples
  send_samples_lem now later rank t v = (
    initialize_data-Ready later (filled_in now rank t) (IsValid-Sized v),
    λ q. omega (
      arith,
      tally-take q t.buffer.len t.buffer.pc t.buffer.count,
      v.len_le,
      v.pc_size,
      v.count_size,
    ),
    λ q. refl,
    refl,
  )
