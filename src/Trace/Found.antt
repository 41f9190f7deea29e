-- ===== src/Trace/Found.antt =====
-- The search of the tracing buffer finds what the list of its stack traces says.
use cbtf_krell.Prelude.{
  ℕ, ◌+◌, ◌≤◌, List, [], ◌∷◌, ◌++◌, ◌≡◌, refl, length, length-append, arith, Bool-cases, inl, inr,
}
use cbtf_krell.Trace.Search.{search, place_of, find_stack}
use cbtf_krell.Trace.Table.{Stands, AreFrames, flat, IsTable, starts, find_later, find}
use cbtf_krell.Trace.Walk.{Within, search_end, search_match, search_miss}

pub Stands-append :
    (xs : List ℕ) (k : ℕ) (s ws : List ℕ)
    → Stands xs k (s ++ ws)
    → (j : ℕ) → j ≡ k + length s
    → Stands xs j ws
Stands-append xs k [] ws h j e = let at : j ≡ k = omega arith in rw at h
Stands-append xs k (x ∷ s) ws h j e = Stands-append xs (k + 1) s ws h.1 j (omega arith)

Stands-cons :
    (x : ℕ) (xs : List ℕ) (k j : ℕ) (ws : List ℕ)
    → j ≡ k + 1
    → Stands xs k ws
    → Stands (x ∷ xs) j ws
Stands-cons x xs k j [] e h = tt
Stands-cons x xs k j (w ∷ ws) e h =
    (ground (arith, h.0), Stands-cons x xs (k + 1) (j + 1) ws (omega arith) h.1)

Stands-self : (xs : List ℕ) → Stands xs 0 xs
Stands-self [] = tt
Stands-self (x ∷ xs) = (refl, Stands-cons x xs 0 (0 + 1) xs (omega arith) (Stands-self xs))

-- The rest of the table after its first stack trace.
pub IsTable-rest :
    (xs : List ℕ) (k len : ℕ) (s : List ℕ) (ss : List (List ℕ))
    → IsTable xs k len (s ∷ ss)
    → IsTable xs (k + (length s + 1)) len ss
IsTable-rest xs k len s ss t = record {
  stands =
      Stands-append xs (k + length s) (0 ∷ []) (flat ss)
        (Stands-append xs k s (0 ∷ flat ss) t.stands (k + length s) refl) (k + (length s + 1))
        (omega arith);
  ends = omega (arith, t.ends, length-append {0} s (0 ∷ flat ss));
  stacks = t.stacks.2;
}

module _ (xs : List ℕ) (len f g : ℕ) (gs : List ℕ) (are : AreFrames (f ∷ g ∷ gs)) where
  abbrev frames : List ℕ
  frames = f ∷ g ∷ gs

  search-find_later :
      (ss : List (List ℕ)) (n k : ℕ)
      → IsTable xs k len ss
      → len ≤ n + (k + 1)
      → place_of (length frames) (search n xs len frames k 1) ≡ find_later k (g ∷ gs) ss
  search-find_later [] n k t m =
      rw (search_end xs frames len n k 1 (ground (arith, t.ends))) (ground arith)
  search-find_later ([] ∷ ss) n k t m = absurd (omega (arith, t.stacks.0))
  search-find_later ((x ∷ s) ∷ ss) n k t m =
      let size = length-append {0} s (0 ∷ flat ss) in
      let w : Within xs frames len k 1 (k + 1) (g ∷ gs) s (flat ss) = record {
        place = refl;
        frames_left = omega arith;
        frames_stand = (Stands-self (f ∷ g ∷ gs)).1;
        are_frames = are.1;
        words_stand = t.stands.1;
        are_words = t.stacks.1.1;
        inside = omega (arith, t.ends, size);
      } in
      elim (Bool-cases (starts (g ∷ gs) s)) [
        | inl y ↦
            rw (y, search_match xs frames len n k 1 (k + 1) (g ∷ gs) s (flat ss) w (omega arith) y)
              (ground arith)
        | inr o ↦
            let r =
              search_miss xs frames len n k 1 (k + 1) (g ∷ gs) s (flat ss) w (omega arith) o in
            let at : k + 1 + length s + 1 ≡ k + (length (x ∷ s) + 1) = omega arith in
            let rest =
              search-find_later ss r.left (k + (length (x ∷ s) + 1))
                (IsTable-rest xs k len (x ∷ s) ss t) (omega (arith, r.enough)) in
            rw (o, r.goes_on, at) rest
      ]

  search-find :
      (ss : List (List ℕ)) → IsTable xs 0 len ss → find_stack xs len frames ≡ find frames ss
  unfolding find_stack
  search-find [] t = rw (search_end xs frames len len 0 0 (ground (arith, t.ends))) (ground arith)
  search-find (s ∷ ss) t =
      let size = length-append {0} s (0 ∷ flat ss) in
      let w : Within xs frames len 0 0 0 frames s (flat ss) = record {
        place = omega arith;
        frames_left = omega arith;
        frames_stand = Stands-self frames;
        are_frames = are;
        words_stand = t.stands;
        are_words = t.stacks.1;
        inside = omega (arith, t.ends, size);
      } in
      elim (Bool-cases (starts frames s)) [
        | inl y ↦
            rw (y, search_match xs frames len len 0 0 0 frames s (flat ss) w (omega arith) y)
              (ground arith)
        | inr o ↦
            let r = search_miss xs frames len len 0 0 0 frames s (flat ss) w (omega arith) o in
            let at : 0 + length s + 1 ≡ length s + 1 = omega arith in
            let at' : 0 + (length s + 1) ≡ length s + 1 = omega arith in
            let rest =
              search-find_later ss r.left (length s + 1) (rw (← at') (IsTable-rest xs 0 len s ss t))
                (omega (arith, r.enough)) in
            rw (o, r.goes_on, at) rest
      ]

-- The search is what the list of stack traces says, for a stack trace of two frames or more: the place
-- of the first stack trace of the buffer if the frames are its beginning, and else that of the first
-- later one whose frames after the first begin with the frames after the first.
pub find_stack-find :
    (xs : List ℕ) (len : ℕ) (fs : List ℕ) (ss : List (List ℕ))
    → IsTable xs 0 len ss
    → AreFrames fs
    → 2 ≤ length fs
    → find_stack xs len fs ≡ find fs ss
find_stack-find xs len [] ss t a h = absurd (omega arith)
find_stack-find xs len (f ∷ []) ss t a h = absurd (omega arith)
find_stack-find xs len (f ∷ g ∷ gs) ss t a h = search-find xs len f g gs a ss t
