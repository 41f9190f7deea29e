-- ===== src/Usertime/Place.antt =====
-- Where a sample is counted.
use cbtf_krell.Prelude.{
  ℕ, suc, zero, ◌+◌, ◌≤◌, ◌<◌, Bool, true, false, ◌&&◌, List, [], ◌∷◌, Option, none, some, ◌≡◌,
  refl, sym, subst, ltb, ◌==◌, if◌then◌else◌, length, get_or, set, length-set, get_or-set, arith,
  Bool-cases, inl, inr,
}
use cbtf_krell.Usertime.Types.{Tls, Action, Layout, Unwound, faulted, walked}
use cbtf_krell.Usertime.Collector.{
  word, reads, is_open, add_frame, add_frames, add_stack, record_at, record_stack, send_samples,
  service_timer_handler, unwound, frames_of,
}
use cbtf_krell.Usertime.Buffer.{held, IsValid, total-set, Found, search-Found, search_open}
use cbtf_krell.Usertime.Counts.{add_frame-IsValid, send_samples-Gains, ltb_of_lt}

-- A tick whose unwinding faults has no frames to look for, and yet, where some held stack has a count
-- that can grow, one sample more is counted, for a stack that the tick has not seen.
pub faulted_tick_counted :
    {cap : ℕ} (y : Layout) (now later : ℕ) (rank : Option ℕ) (t : Tls) (a : ℕ)
    → IsValid cap t
    → t.defer_sampling ≡ false
    → a < t.count_len
    → is_open (get_or t.count a 0) ≡ true
    → held (service_timer_handler cap y now later rank faulted t).0 ≡ held t + 1
unfolding service_timer_handler frames_of unwound record_stack record_at
faulted_tick_counted y now later rank t a v on below grows =
    let (r, e) =
      search_open y.past t.stacktraces t.count t.count_len 0 a none (omega arith) (omega arith)
        grows in
    let f = search-Found y.past t.stacktraces t.count [] t.count_len r e in
    let room : get_or t.count r 0 < 255 = ground (arith, f.grows, v.bytes r) in
    let counted =
      total-set t.count_len r (get_or t.count r 0 + 1) t.count f.below
        (omega (arith, f.below, v.len_le, v.counts_size)) in
    simp (on, e, ltb_of_lt (get_or t.count r 0) 255 room) (omega (arith, counted))

module _ (past : ℕ → ℕ) where
  word-set :
      (xs : List ℕ) (i j v : ℕ)
      → i < length xs
      → word past (set xs i v) j ≡ (if i == j then v else word past xs j)
  word-set [] i j v h = absurd (omega arith)
  word-set (x ∷ xs) zero zero v h = refl
  word-set (x ∷ xs) zero (suc j) v h = ground arith
  word-set (x ∷ xs) (suc i) zero v h = ground arith
  word-set (x ∷ xs) (suc i) (suc j) v h = ground (arith, word-set xs i j v)

  -- Adding frames at the end disturbs nothing before it.
  keeps_words :
      (fs : List ℕ) (top : Bool) (t : Tls) (j : ℕ)
      → t.stacktraces_len + length fs ≤ length t.stacktraces
      → j < t.stacktraces_len
      → word past (add_frames top fs t).stacktraces j ≡ word past t.stacktraces j
  unfolding add_frames
  keeps_words [] top t j h k = refl
  keeps_words (f ∷ fs) top t j h k =
      let size = length-set t.stacktraces t.stacktraces_len f in
      let rest = keeps_words fs false (add_frame top f t) j (omega (arith, size)) (omega arith) in
      ground (arith, rest, word-set t.stacktraces t.stacktraces_len j f)

  reads-add_frames :
      (fs : List ℕ) (top : Bool) (t : Tls)
      → t.stacktraces_len + length fs ≤ length t.stacktraces
      → reads past (add_frames top fs t).stacktraces t.stacktraces_len fs ≡ true
  unfolding add_frames
  reads-add_frames [] top t h = refl
  reads-add_frames (f ∷ fs) top t h =
      let u = add_frame top f t in
      let size = length-set t.stacktraces t.stacktraces_len f in
      let rest = reads-add_frames fs false u (omega (arith, size)) in
      let kept = keeps_words fs false u t.stacktraces_len (omega (arith, size)) (omega arith) in
      let here = word-set t.stacktraces t.stacktraces_len t.stacktraces_len f (omega arith) in
      ground (arith, rest, kept, here)

-- The count at a place, where that is in use.
abbrev pub in_use : Tls → ℕ → ℕ
in_use t j = if ltb j t.count_len then get_or t.count j 0 else 0

module _ {cap : ℕ} where
  in_use-add_frame :
      (top : Bool) (f : ℕ) (t : Tls) (j : ℕ)
      → IsValid cap t
      → t.count_len < cap
      → in_use (add_frame top f t) j ≡ in_use t j + (if top && (j == t.count_len) then 1 else 0)
  in_use-add_frame top f t j v h =
      let one : ℕ = if top then 1 else 0 in
      ground (arith, get_or-set t.count t.count_len j one 0, v.counts_size)

  in_use-add_rest :
      (fs : List ℕ) (t : Tls) (j : ℕ)
      → IsValid cap t
      → t.count_len + length fs ≤ cap
      → in_use (add_frames false fs t) j ≡ in_use t j
  unfolding add_frames
  in_use-add_rest [] t j v h = refl
  in_use-add_rest (f ∷ fs) t j v h =
      let v' = add_frame-IsValid false f t v (omega arith) in
      let rest = in_use-add_rest fs (add_frame false f t) j v' (omega arith) in
      ground (arith, rest, in_use-add_frame false f t j v)

  -- Adding a stack counts 1 at its first place and changes no other count.
  in_use-add_all :
      (f : ℕ) (fs : List ℕ) (t : Tls) (j : ℕ)
      → IsValid cap t
      → t.count_len + length (f ∷ fs) ≤ cap
      → in_use (add_frames true (f ∷ fs) t) j ≡ in_use t j + (if j == t.count_len then 1 else 0)
  unfolding add_frames
  in_use-add_all f fs t j v h =
      let v' = add_frame-IsValid true f t v (omega arith) in
      let rest = in_use-add_rest fs (add_frame true f t) j v' (omega arith) in
      ground (arith, rest, in_use-add_frame true f t j v)

count_len-add_frames :
    (fs : List ℕ) (top : Bool) (t : Tls) → (add_frames top fs t).count_len ≡ t.count_len + length fs
unfolding add_frames
count_len-add_frames [] top t = omega arith
count_len-add_frames (f ∷ fs) top t =
    omega (arith, count_len-add_frames fs false (add_frame top f t))

-- The counts that an operation begins with: none, once the buffer has been sent.
abbrev pub earlier : Tls → List Action → ℕ → ℕ
earlier t [] j = in_use t j
earlier t (_ ∷ _) j = 0

-- What an operation on the record `t` leaves: a place in use, from which on the buffer reads as the
-- frames; the count there is 1 more than at the beginning, and all others are the same.
pub record Held (past : ℕ → ℕ) (fs : List ℕ) (t : Tls) (r : Tls × List Action) : Type 0 where
  pub place : ℕ
  pub below : place < r.0.count_len
  pub stands : reads past r.0.stacktraces place fs ≡ true
  pub counts : (j : ℕ) → in_use r.0 j ≡ earlier t r.1 j + (if j == place then 1 else 0)

module _ {cap : ℕ} (past : ℕ → ℕ) where
  add_frames-Held :
      (f : ℕ) (fs : List ℕ) (t : Tls)
      → IsValid cap t
      → t.count_len + length (f ∷ fs) ≤ cap
      → Held past (f ∷ fs) t (add_frames true (f ∷ fs) t, [])
  add_frames-Held f fs t v h = record {
    place = t.count_len;
    below = omega (arith, count_len-add_frames (f ∷ fs) true t);
    stands =
        subst (λ n. reads past (add_frames true (f ∷ fs) t).stacktraces n (f ∷ fs) ≡ true)
          v.same_len
          (reads-add_frames past (f ∷ fs) true t (omega (arith, v.stacks_size, v.same_len)));
    counts = λ j. in_use-add_all f fs t j v h;
  }

  add_stack-Held :
      (now later : ℕ) (rank : Option ℕ) (f : ℕ) (fs : List ℕ) (t : Tls)
      → IsValid cap t
      → length (f ∷ fs) ≤ cap
      → Held past (f ∷ fs) t (add_stack cap now later rank (f ∷ fs) t)
  unfolding add_stack send_samples
  add_stack-Held now later rank f fs t v h =
      elim (Bool-cases (ltb cap (t.stacktraces_len + length (f ∷ fs)))) [
        | inr fits ↦ rw fits (add_frames-Held f fs t v (ground (arith, v.same_len)))
        | inl full ↦
            let (g, none_held, empty) = send_samples-Gains now later rank t v in
            let q = add_frames-Held f fs (send_samples now later rank t).0 g.valid (omega arith) in
            rw full (record {
              place = q.place;
              below = q.below;
              stands = q.stands;
              counts = λ j. ground (arith, q.counts j, empty);
            })
      ]

  record_at-Held :
      (now later : ℕ) (rank : Option ℕ) (f : ℕ) (fs : List ℕ) (r : Option ℕ) (t : Tls)
      → IsValid cap t
      → length (f ∷ fs) ≤ cap
      → ((i : ℕ) → r ≡ some i → Found past t.stacktraces t.count (f ∷ fs) t.count_len i)
      → Held past (f ∷ fs) t (record_at cap now later rank (f ∷ fs) r t)
  unfolding record_at
  record_at-Held now later rank f fs none t v h k = add_stack-Held now later rank f fs t v h
  record_at-Held now later rank f fs (some i) t v h k =
      let found = k i refl in
      let room : get_or t.count i 0 < 255 = ground (arith, found.grows, v.bytes i) in
      let inside : i < length t.count = omega (arith, found.below, v.len_le, v.counts_size) in
      rw (ltb_of_lt (get_or t.count i 0) 255 room) (record {
        place = i;
        below = found.below;
        stands = found.stands;
        counts = λ j.
            ground (arith, get_or-set t.count i j (get_or t.count i 0 + 1) 0 inside, found.below);
      })

-- The other fields of the record do not matter.
of_same :
    {past : ℕ → ℕ} {fs : List ℕ} {t : Tls} {n : ℕ} {b : Bool} {r : Tls × List Action}
    → Held past fs (record t { sample_count = n; is_unwinding = b }) r
    → Held past fs t r
of_same {r = (_, [])} q = record {
  place = q.place;
  below = q.below;
  stands = q.stands;
  counts = q.counts;
}
of_same {r = (_, _ ∷ _)} q = record {
  place = q.place;
  below = q.below;
  stands = q.stands;
  counts = q.counts;
}

handler-on :
    (size : ℕ) (y : Layout) (now later : ℕ) (rank : Option ℕ) (w : Unwound) (t : Tls)
    → t.defer_sampling ≡ false
    → service_timer_handler size y now later rank w t
      ≡ record_stack size y now later rank (frames_of y t w) (unwound w t)
unfolding service_timer_handler
handler-on size y now later rank w t on = simp on refl

-- After a tick that is not deferred, whose unwinding gives at least one frame and no more than the
-- buffer has room for, there is a place in use from which on the buffer (and the memory behind it)
-- reads as the frames of the tick, the innermost one replaced in the OpenMP states. The count there
-- is by 1 higher than before the tick, and every other count in use is as before, where all counts
-- before are taken as 0 if the tick has sent the buffer.
pub tick-Held :
    {cap : ℕ} (y : Layout) (now later : ℕ) (rank : Option ℕ) (f : ℕ) (fs : List ℕ) (t : Tls)
    → IsValid cap t
    → length (f ∷ fs) ≤ cap
    → t.defer_sampling ≡ false
    → Held y.past
        (frames_of y t (walked (f ∷ fs)))
        t
        (service_timer_handler cap y now later rank (walked (f ∷ fs)) t)
unfolding frames_of unwound record_stack
tick-Held {cap} y now later rank f fs t v h on =
    let w : Tls = record t { sample_count = t.sample_count + 1; is_unwinding = false } in
    let stack = frames_of y t (walked (f ∷ fs)) in
    let valid : IsValid cap w = record {
      stacks_size = v.stacks_size;
      counts_size = v.counts_size;
      same_len = v.same_len;
      len_le = v.len_le;
      bytes = v.bytes;
    } in
    let q =
      record_at-Held y.past now later rank _ fs _ w valid h
        (λ i e. search-Found y.past t.stacktraces t.count stack t.count_len i e) in
    subst (Held y.past stack t) (sym (handler-on cap y now later rank (walked (f ∷ fs)) t on))
      (of_same q)
