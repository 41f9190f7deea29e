-- ===== src/Trace/Walk.antt =====
-- The rounds of the search within one stack trace of the tracing buffer.
use native.Mathlib.Decide.{ℕ_discrete}
use cbtf_krell.Prelude.{
  ℕ, suc, zero, ◌+◌, ◌-◌, ◌<◌, ◌≤◌, ◌&&◌, true, false, List, [], ◌∷◌, ◌++◌, ◌≡◌, ◌≢◌, refl, ltb,
  length, get_or, arith,
}
use cbtf_krell.Trace.Search.{advance, search}
use cbtf_krell.Trace.Table.{Stands, AreFrames, starts}

-- From inside a stack trace the inner loop goes to its terminating zero.
advance_lem :
    (n : ℕ) (xs : List ℕ) (k : ℕ) (s rest : List ℕ)
    → AreFrames s
    → Stands xs k (s ++ (0 ∷ rest))
    → length s < n
    → advance n xs k ≡ k + length s
unfolding advance
advance_lem zero xs k s rest a h m = absurd (omega arith)
advance_lem (suc n) xs k [] rest a h m = ground arith
advance_lem (suc n) xs k (f ∷ s) rest a h m =
    ground (arith, advance_lem n xs (k + 1) s rest a.1 h.1)

module _ (xs fs : List ℕ) (len : ℕ) where
  pub search_end :
      (n start i : ℕ)
      → (ltb i (length fs) && ltb (start + i) len) ≡ false
      → search n xs len fs start i ≡ (start, i)
  unfolding search
  search_end zero start i e = refl
  search_end (suc n) start i e = rw e refl

  search_same :
      (n start i k : ℕ)
      → k ≡ start + i
      → i < length fs
      → k < len
      → get_or fs i 0 ≡ get_or xs k 0
      → search (suc n) xs len fs start i ≡ search n xs len fs start (i + 1)
  unfolding search
  search_same n start i k e a b c = ground arith

  search_differ :
      (n start i k : ℕ)
      → k ≡ start + i
      → i < length fs
      → k < len
      → get_or fs i 0 ≢ get_or xs k 0
      → search (suc n) xs len fs start i ≡ search n xs len fs (advance (len - k) xs k + 1) 1
  unfolding search
  search_differ n start i k e a b c = ground arith

  -- The outer loop within one stack trace: `gs` are the frames from the `i`-th on, and `s` is what is
  -- left, from the place `k` on, of the stack trace at `start`.
  pub record Within (start i k : ℕ) (gs s rest : List ℕ) : Type 0 where
    pub place : k ≡ start + i
    pub frames_left : i + length gs ≡ length fs
    pub frames_stand : Stands fs i gs
    pub are_frames : AreFrames gs
    pub words_stand : Stands xs k (s ++ (0 ∷ rest))
    pub are_words : AreFrames s
    pub inside : k + length s < len

  Within-next :
      (start i k g x : ℕ) (gs s rest : List ℕ)
      → Within start i k (g ∷ gs) (x ∷ s) rest
      → Within start (i + 1) (k + 1) gs s rest
  Within-next start i k g x gs s rest w = record {
    place = omega (arith, w.place);
    frames_left = omega (arith, w.frames_left);
    frames_stand = w.frames_stand.1;
    are_frames = w.are_frames.1;
    words_stand = w.words_stand.1;
    are_words = w.are_words.1;
    inside = omega (arith, w.inside);
  }

  pub search_match :
      (n start i k : ℕ) (gs s rest : List ℕ)
      → Within start i k gs s rest
      → len ≤ n + k
      → starts gs s ≡ true
      → search n xs len fs start i ≡ (start, length fs)
  search_match n start i k [] s rest w m y =
      let done : i ≡ length fs = omega (arith, w.frames_left) in
      rw (search_end n start i (ground (arith, done))) (ground (arith, done))
  search_match n start i k (g ∷ gs) [] rest w m y = cc
  search_match zero start i k (g ∷ gs) (x ∷ s) rest w m y = absurd (omega (arith, w.inside))
  search_match (suc n) start i k (g ∷ gs) (x ∷ s) rest w m y =
      let same : get_or fs i 0 ≡ get_or xs k 0 =
        ground (arith, w.frames_stand.0, w.words_stand.0) in
      rw
        (search_same n start i k w.place (omega (arith, w.frames_left)) (omega (arith, w.inside))
          same)
        (search_match n start (i + 1) (k + 1) gs s rest (Within-next start i k g x gs s rest w)
          (omega arith) (ground arith))

  -- The loop goes on at the stack trace after the zero at `zero_at`, with `i` at 1.
  pub record Missed (n start i zero_at : ℕ) : Type 0 where
    pub left : ℕ
    pub enough : len ≤ left + (zero_at + 1)
    pub goes_on : search n xs len fs start i ≡ search left xs len fs (zero_at + 1) 1

  pub search_miss :
      (n start i k : ℕ) (gs s rest : List ℕ)
      → Within start i k gs s rest
      → len ≤ n + k
      → starts gs s ≡ false
      → Missed n start i (k + length s)
  search_miss n start i k [] s rest w m y = cc
  search_miss zero start i k (g ∷ gs) s rest w m y = absurd (omega (arith, w.inside))
  search_miss (suc n) start i k (g ∷ gs) [] rest w m y =
      let differ : get_or fs i 0 ≢ get_or xs k 0 =
        ground (arith, w.frames_stand.0, w.words_stand.0, w.are_frames.0) in
      let zero_here =
        advance_lem (len - k) xs k [] rest tt w.words_stand (omega (arith, w.inside)) in
      record {
        left = n;
        enough = omega arith;
        goes_on =
            rw
              (search_differ n start i k w.place (omega (arith, w.frames_left))
                (omega (arith, w.inside)) differ)
              (rw zero_here refl);
      }
  search_miss (suc n) start i k (g ∷ gs) (x ∷ s) rest w m y = elim (ℕ_discrete g x) [
    | yes e ↦
        let same : get_or fs i 0 ≡ get_or xs k 0 =
          ground (arith, w.frames_stand.0, w.words_stand.0) in
        let r =
          search_miss n start (i + 1) (k + 1) gs s rest (Within-next start i k g x gs s rest w)
            (omega arith) (ground arith) in
        let at : k + 1 + length s ≡ k + length (x ∷ s) = omega arith in
        record {
          left = r.left;
          enough = omega (arith, r.enough);
          goes_on =
              rw
                (search_same n start i k w.place (omega (arith, w.frames_left))
                  (omega (arith, w.inside)) same)
                (rw (← at) r.goes_on);
        }
    | no ne ↦
        let differ : get_or fs i 0 ≢ get_or xs k 0 =
          ground (arith, w.frames_stand.0, w.words_stand.0) in
        let zero_there =
          advance_lem (len - k) xs k (x ∷ s) rest w.are_words w.words_stand
            (omega (arith, w.inside)) in
        record {
          left = n;
          enough = omega arith;
          goes_on =
              rw
                (search_differ n start i k w.place (omega (arith, w.frames_left))
                  (omega (arith, w.inside)) differ)
                (rw zero_there refl);
        }
  ]
