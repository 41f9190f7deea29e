-- ===== src/Usertime/Counts.antt =====
-- One sample is counted once, wherever it goes.
use cbtf_krell.Prelude.{
  ℕ, suc, zero, ◌+◌, ◌≤◌, ◌<◌, Bool, true, false, List, [], ◌∷◌, ◌++◌, Option, none, some, ◌≡◌,
  refl, subst, ltb, if◌then◌else◌, length, get_or, set, take, length-zeroed, get_or-zeroed,
  length-set, get_or-set, arith, Bool-cases, inl, inr,
}
use cbtf_krell.Usertime.Types.{
  Tls, Action, Layout, send, start_timer, stop_timer, block_signal, unblock_signal,
  install_segv_handler,
}
use cbtf_krell.Usertime.Collector.{
  initialize_data, send_samples, add_frame, add_frames, count_up, add_stack, record_at,
  record_stack,
}
use cbtf_krell.Usertime.Buffer.{total, held, IsValid, total-set, total-end, Found, search-Found}

-- The samples that the blobs among the actions hold.
abbrev pub sent : List Action → ℕ
sent [] = 0
sent (send b ∷ acts) = total (length b.counts) b.counts + sent acts
sent (start_timer _ ∷ acts) = sent acts
sent (stop_timer ∷ acts) = sent acts
sent (block_signal ∷ acts) = sent acts
sent (unblock_signal ∷ acts) = sent acts
sent (install_segv_handler ∷ acts) = sent acts

pub sent-append : (xs ys : List Action) → sent (xs ++ ys) ≡ sent xs + sent ys
sent-append [] ys = omega arith
sent-append (send b ∷ xs) ys = omega (arith, sent-append xs ys)
sent-append (start_timer _ ∷ xs) ys = sent-append xs ys
sent-append (stop_timer ∷ xs) ys = sent-append xs ys
sent-append (block_signal ∷ xs) ys = sent-append xs ys
sent-append (unblock_signal ∷ xs) ys = sent-append xs ys
sent-append (install_segv_handler ∷ xs) ys = sent-append xs ys

pub total-take :
    (n : ℕ) (cs : List ℕ) → n ≤ length cs → total (length (take n cs)) (take n cs) ≡ total n cs
total-take zero cs h = refl
total-take (suc n) [] h = absurd (omega arith)
total-take (suc n) (c ∷ cs) h = omega (arith, total-take n cs (omega arith))

pub ltb_of_lt : (m n : ℕ) → m < n → ltb m n ≡ true
ltb_of_lt m n h = ground arith

-- What an operation leaves: a valid buffer, with `extra` samples more held or sent, and the flag as it
-- was.
pub record Gains (cap extra : ℕ) (t : Tls) (r : Tls × List Action) : Type 0 where
  pub valid : IsValid cap r.0
  pub balance : held r.0 + sent r.1 ≡ held t + extra
  pub flag : r.0.defer_sampling ≡ t.defer_sampling

module _ {cap : ℕ} where
  pub add_frame-IsValid :
      (top : Bool) (f : ℕ) (t : Tls)
      → IsValid cap t
      → t.count_len < cap
      → IsValid cap (add_frame top f t)
  add_frame-IsValid top f t v h = record {
    stacks_size = omega (arith, length-set t.stacktraces t.stacktraces_len f, v.stacks_size);
    counts_size =
        omega (arith, length-set t.count t.count_len (if top then 1 else 0), v.counts_size);
    same_len = omega (arith, v.same_len);
    len_le = omega arith;
    bytes = λ i. ground (
      arith,
      get_or-set t.count t.count_len i (if top then 1 else 0) 0 (omega (arith, v.counts_size)),
      v.bytes i,
    );
  }

  held-add_frame :
      (top : Bool) (f : ℕ) (t : Tls)
      → IsValid cap t
      → t.count_len < cap
      → held (add_frame top f t) ≡ held t + (if top then 1 else 0)
  held-add_frame top f t v h =
      let top_count : ℕ = if top then 1 else 0 in
      let one_more : suc t.count_len ≡ t.count_len + 1 = omega arith in
      subst (λ n. total n (set t.count t.count_len top_count) ≡ held t + top_count) one_more
        (total-end t.count_len top_count t.count (omega (arith, v.counts_size)))

  add_rest :
      (fs : List ℕ) (t : Tls)
      → IsValid cap t
      → t.count_len + length fs ≤ cap
      → Gains cap 0 t (add_frames false fs t, [])
  unfolding add_frames
  add_rest [] t v h = record { valid = v; balance = omega arith; flag = refl }
  add_rest (f ∷ fs) t v h =
      let v' = add_frame-IsValid false f t v (omega arith) in
      let g = add_rest fs (add_frame false f t) v' (omega arith) in
      record {
        valid = g.valid;
        balance = omega (arith, g.balance, held-add_frame false f t v (omega arith));
        flag = g.flag;
      }

  add_all :
      (f : ℕ) (fs : List ℕ) (t : Tls)
      → IsValid cap t
      → t.count_len + length (f ∷ fs) ≤ cap
      → Gains cap 1 t (add_frames true (f ∷ fs) t, [])
  unfolding add_frames
  add_all f fs t v h =
      let v' = add_frame-IsValid true f t v (omega arith) in
      let g = add_rest fs (add_frame true f t) v' (omega arith) in
      record {
        valid = g.valid;
        balance = omega (arith, g.balance, held-add_frame true f t v (omega arith));
        flag = g.flag;
      }

  pub initialize_data-IsValid :
      (now : ℕ) (t : Tls)
      → length t.stacktraces ≡ cap
      → length t.count ≡ cap
      → IsValid cap (initialize_data now t)
  unfolding initialize_data
  initialize_data-IsValid now t a b = record {
    stacks_size = omega (arith, length-zeroed t.stacktraces);
    counts_size = omega (arith, length-zeroed t.count);
    same_len = refl;
    len_le = omega arith;
    bytes = λ i. omega (arith, get_or-zeroed t.count i);
  }

  pub send_samples-Gains :
      (now later : ℕ) (rank : Option ℕ) (t : Tls)
      → IsValid cap t
      → Gains cap 0 t (send_samples now later rank t)
        × (held (send_samples now later rank t).0 ≡ 0)
        × ((send_samples now later rank t).0.count_len ≡ 0)
  unfolding send_samples
  send_samples-Gains now later rank t v = (
    record {
      valid =
          initialize_data-IsValid later
            (record t { header = record t.header { time_end = now; rank = rank } }) v.stacks_size
            v.counts_size;
      balance = omega (arith, total-take t.count_len t.count, v.len_le, v.counts_size);
      flag = refl;
    },
    refl,
    refl,
  )

  count_up-Gains :
      (i : ℕ) (t : Tls)
      → IsValid cap t
      → i < t.count_len
      → get_or t.count i 0 < 255
      → Gains cap 1 t (count_up i t, [])
  count_up-Gains i t v h b =
      let inside : i < length t.count = omega (arith, v.len_le, v.counts_size) in
      let n = get_or t.count i 0 + 1 in
      record {
        valid = record {
          stacks_size = v.stacks_size;
          counts_size = omega (arith, length-set t.count i n, v.counts_size);
          same_len = v.same_len;
          len_le = v.len_le;
          bytes = λ j. ground (arith, get_or-set t.count i j n 0 inside, v.bytes j);
        };
        balance = omega (arith, total-set t.count_len i n t.count h inside);
        flag = refl;
      }

  add_stack-Gains :
      (now later : ℕ) (rank : Option ℕ) (f : ℕ) (fs : List ℕ) (t : Tls)
      → IsValid cap t
      → length (f ∷ fs) ≤ cap
      → Gains cap 1 t (add_stack cap now later rank (f ∷ fs) t)
  unfolding add_stack
  add_stack-Gains now later rank f fs t v h =
      elim (Bool-cases (ltb cap (t.stacktraces_len + length (f ∷ fs)))) [
        | inr fits ↦ rw fits (add_all f fs t v (ground (arith, v.same_len)))
        | inl full ↦
            let (g, none_held, empty) = send_samples-Gains now later rank t v in
            let s = (send_samples now later rank t).0 in
            let a = add_all f fs s g.valid (omega arith) in
            rw full (record {
              valid = a.valid;
              balance = omega (arith, a.balance, g.balance, none_held);
              flag = ground (arith, a.flag, g.flag);
            })
      ]

  record_at-Gains :
      (past : ℕ → ℕ) (now later : ℕ) (rank : Option ℕ) (f : ℕ) (fs : List ℕ) (r : Option ℕ)
      (t : Tls)
      → IsValid cap t
      → length (f ∷ fs) ≤ cap
      → ((i : ℕ) → r ≡ some i → Found past t.stacktraces t.count (f ∷ fs) t.count_len i)
      → Gains cap 1 t (record_at cap now later rank (f ∷ fs) r t)
  unfolding record_at
  record_at-Gains past now later rank f fs none t v h k = add_stack-Gains now later rank f fs t v h
  record_at-Gains past now later rank f fs (some i) t v h k =
      let found = k i refl in
      let room : get_or t.count i 0 < 255 = ground (arith, found.grows, v.bytes i) in
      rw (ltb_of_lt (get_or t.count i 0) 255 room) (count_up-Gains i t v found.below room)

  -- A stack of at least one frame that fits into an empty buffer is counted once.
  pub record_stack-Gains :
      (y : Layout) (now later : ℕ) (rank : Option ℕ) (f : ℕ) (fs : List ℕ) (t : Tls)
      → IsValid cap t
      → length (f ∷ fs) ≤ cap
      → Gains cap 1 t (record_stack cap y now later rank (f ∷ fs) t)
  unfolding record_stack
  record_stack-Gains y now later rank f fs t v h =
      record_at-Gains y.past now later rank f fs _ t v h
        (λ i e. search-Found y.past t.stacktraces t.count (f ∷ fs) t.count_len i e)
