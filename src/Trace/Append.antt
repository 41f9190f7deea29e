-- ===== src/Trace/Append.antt =====
-- Adding a stack trace at the end of the tracing buffer.
use cbtf_krell.Prelude.{
  ℕ, suc, zero, ◌+◌, ◌<◌, ◌≤◌, List, [], ◌∷◌, ◌++◌, append_assoc, ◌≡◌, refl, sym, ap, ◌∙◌, length,
  length-append, get_or, set, length-set, get_or-set, take, arith,
}
use cbtf_krell.Trace.Types.{Tls, Setup}
use cbtf_krell.Trace.Buffer.{add_frames, add_frame, append_stack}
use cbtf_krell.Trace.Table.{Stands, AreFrames, AreStacks, flat, IsTable}

-- Two buffers have the same words below the place `n`.
abbrev pub Agrees : ℕ → List ℕ → List ℕ → Type 0
Agrees n xs ys = (j : ℕ) → j < n → get_or ys j 0 ≡ get_or xs j 0

pub Stands-Agrees :
    (n : ℕ) (xs ys : List ℕ) (k : ℕ) (ws : List ℕ)
    → Agrees n xs ys
    → k + length ws ≤ n
    → Stands xs k ws
    → Stands ys k ws
Stands-Agrees n xs ys k [] a h s = tt
Stands-Agrees n xs ys k (w ∷ ws) a h s =
    (a k (omega arith) ∙ s.0, Stands-Agrees n xs ys (k + 1) ws a (omega arith) s.1)

pub Agrees-take : (n : ℕ) (xs : List ℕ) → Agrees n xs (take n xs)
Agrees-take zero xs j h = absurd (omega arith)
Agrees-take (suc n) [] j h = refl
Agrees-take (suc n) (x ∷ xs) zero h = refl
Agrees-take (suc n) (x ∷ xs) (suc j) h = Agrees-take n xs j (omega arith)

Stands-join :
    (xs : List ℕ) (k j : ℕ) (s ws : List ℕ)
    → j ≡ k + length s
    → Stands xs k s
    → Stands xs j ws
    → Stands xs k (s ++ ws)
Stands-join xs k j [] ws e h g = let at : k ≡ j = omega arith in rw at g
Stands-join xs k j (x ∷ s) ws e h g = (h.0, Stands-join xs (k + 1) j s ws (omega arith) h.1 g)

flat-append : (ss ts : List (List ℕ)) → flat (ss ++ ts) ≡ flat ss ++ flat ts
flat-append [] ts = refl
flat-append (s ∷ ss) ts =
    ap (λ w. s ++ (0 ∷ w)) (flat-append ss ts) ∙ sym (append_assoc s (0 ∷ flat ss) (flat ts))

AreStacks-append :
    (ss : List (List ℕ)) (s : List ℕ)
    → AreStacks ss
    → 0 < length s
    → AreFrames s
    → AreStacks (ss ++ (s ∷ []))
AreStacks-append [] s a h f = (h, f, tt)
AreStacks-append (r ∷ ss) s a h f = (a.0, a.1, AreStacks-append ss s a.2 h f)

-- What adding the frames from the place `k` on does.
record Wrote (k : ℕ) (fs : List ℕ) (t t' : Tls) : Type 0 where
  size : length t'.stacktraces ≡ length t.stacktraces
  kept : Agrees k t.stacktraces t'.stacktraces
  written : Stands t'.stacktraces k fs
  same_len : t'.stacktraces_len ≡ t.stacktraces_len
  same_events : t'.events ≡ t.events
  same_events_len : t'.events_len ≡ t.events_len

add_frame_lem :
    (u : Setup) (k f : ℕ) (t : Tls)
    → 0 < f
    → (add_frame u k f t).stacktraces ≡ set t.stacktraces k f
add_frame_lem u k f t h = ground arith

add_frames-Wrote :
    (u : Setup) (fs : List ℕ) (k : ℕ) (t : Tls)
    → AreFrames fs
    → k + length fs ≤ length t.stacktraces
    → Wrote k fs t (add_frames u k fs t)
unfolding add_frames
add_frames-Wrote u [] k t f_ok h = record {
  size = refl;
  kept = λ j _. refl;
  written = tt;
  same_len = refl;
  same_events = refl;
  same_events_len = refl;
}
add_frames-Wrote u (f ∷ fs) k t f_ok h =
    let plain = add_frame_lem u k f t f_ok.0 in
    let long : length (add_frame u k f t).stacktraces ≡ length t.stacktraces =
      ap length plain ∙ length-set t.stacktraces k f in
    let w = add_frames-Wrote u fs (k + 1) (add_frame u k f t) f_ok.1 (omega (arith, long)) in
    let here = get_or-set t.stacktraces k k f 0 (omega arith) in
    record {
      size = omega (arith, w.size, long);
      kept = λ j b. ground (arith, w.kept j, get_or-set t.stacktraces k j f 0);
      written = (ground (arith, w.kept k, here), w.written);
      same_len = w.same_len;
      same_events = w.same_events;
      same_events_len = w.same_events_len;
    }

-- What adding a stack trace at the end does.
pub record Appended (fs : List ℕ) (t t' : Tls) : Type 0 where
  pub size : length t'.stacktraces ≡ length t.stacktraces
  pub kept : Agrees t.stacktraces_len t.stacktraces t'.stacktraces
  pub written : Stands t'.stacktraces t.stacktraces_len (fs ++ (0 ∷ []))
  pub longer : t'.stacktraces_len ≡ t.stacktraces_len + (length fs + 1)
  pub same_events : t'.events ≡ t.events
  pub same_events_len : t'.events_len ≡ t.events_len

pub append_stack-Appended :
    (u : Setup) (fs : List ℕ) (t : Tls)
    → AreFrames fs
    → t.stacktraces_len + length fs < length t.stacktraces
    → Appended fs t (append_stack u fs t)
unfolding append_stack
append_stack-Appended u fs t f_ok h =
    let n = t.stacktraces_len in
    let t' = add_frames u n fs t in
    let w = add_frames-Wrote u fs n t f_ok (omega arith) in
    let long = length-set t'.stacktraces (n + length fs) 0 in
    let room : n + length fs < length t'.stacktraces = omega (arith, w.size) in
    let below : Agrees (n + length fs) t'.stacktraces (set t'.stacktraces (n + length fs) 0) =
      λ j b. ground (arith, get_or-set t'.stacktraces (n + length fs) j 0 0) in
    let at_end = get_or-set t'.stacktraces (n + length fs) (n + length fs) 0 0 room in
    record {
      size = omega (arith, w.size, long);
      kept = λ j b. below j (omega arith) ∙ w.kept j b;
      written =
          Stands-join _ n (n + length fs) fs (0 ∷ []) refl
            (Stands-Agrees (n + length fs) t'.stacktraces _ n fs below (omega arith) w.written)
            (ground (arith, at_end), tt);
      longer = refl;
      same_events = w.same_events;
      same_events_len = w.same_events_len;
    }

-- The table with one more stack trace.
pub IsTable-Appended :
    (fs : List ℕ) (t t' : Tls) (ss : List (List ℕ))
    → IsTable t.stacktraces 0 t.stacktraces_len ss
    → 0 < length fs
    → AreFrames fs
    → Appended fs t t'
    → IsTable t'.stacktraces 0 t'.stacktraces_len (ss ++ (fs ∷ []))
IsTable-Appended fs t t' ss b h a w =
    let at = flat-append ss (fs ∷ []) in
    record {
      stands = rw at (
          Stands-join t'.stacktraces 0 t.stacktraces_len (flat ss) (fs ++ (0 ∷ []))
            (omega (arith, b.ends))
            (Stands-Agrees t.stacktraces_len t.stacktraces t'.stacktraces 0 (flat ss) w.kept
              (omega (arith, b.ends)) b.stands)
            w.written);
      ends = rw at (
          omega (
            arith,
            b.ends,
            w.longer,
            length-append {0} (flat ss) (fs ++ (0 ∷ [])),
            length-append {0} fs (0 ∷ []),
          ));
      stacks = AreStacks-append ss fs b.stacks h a;
    }
