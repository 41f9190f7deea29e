-- ===== src/Usertime/Buffer.antt =====
-- The buffer of stacks: its invariant, and how many samples it holds.
use native.Mathlib.Decide.{ℕ_discrete}
use cbtf_krell.Prelude.{
  ℕ, suc, zero, ◌+◌, ◌≤◌, ◌<◌, true, ◌&&◌, List, [], ◌∷◌, Option, none, some, ◌≡◌, refl,
  if◌then◌else◌, length, get_or, set, arith, Bool-cases, inl, inr,
}
use cbtf_krell.Usertime.Types.{Tls}
use cbtf_krell.Usertime.Collector.{reads, is_open, search}

-- The sum of the first `n` counts.
abbrev pub total : ℕ → List ℕ → ℕ
total zero cs = 0
total (suc n) [] = 0
total (suc n) (c ∷ cs) = c + total n cs

abbrev pub held : Tls → ℕ
held t = total t.count_len t.count

pub record IsValid (cap : ℕ) (t : Tls) : Type 0 where
  pub stacks_size : length t.stacktraces ≡ cap
  pub counts_size : length t.count ≡ cap
  pub same_len : t.stacktraces_len ≡ t.count_len
  pub len_le : t.count_len ≤ cap
  pub bytes : (i : ℕ) → get_or t.count i 0 ≤ 255

pub total-set :
    (n i v : ℕ) (cs : List ℕ)
    → i < n
    → i < length cs
    → total n (set cs i v) + get_or cs i 0 ≡ total n cs + v
total-set zero i v cs h k = absurd (omega arith)
total-set (suc n) i v [] h k = absurd (omega arith)
total-set (suc n) zero v (c ∷ cs) h k = omega arith
total-set (suc n) (suc i) v (c ∷ cs) h k =
    omega (arith, total-set n i v cs (omega arith) (omega arith))

-- A write at the end of the part in use.
pub total-end :
    (n v : ℕ) (cs : List ℕ) → n < length cs → total (suc n) (set cs n v) ≡ total n cs + v
total-end n v [] h = absurd (omega arith)
total-end zero v (c ∷ cs) h = omega arith
total-end (suc n) v (c ∷ cs) h = omega (arith, total-end n v cs (omega arith))

-- A place that the search may return: below `n`, with a count that can grow, where the frames stand.
pub record Found (past : ℕ → ℕ) (xs cs fs : List ℕ) (n r : ℕ) : Type 0 where
  pub below : r < n
  pub grows : is_open (get_or cs r 0) ≡ true
  pub stands : reads past xs r fs ≡ true

keep_or_take :
    (past : ℕ → ℕ) (xs cs fs : List ℕ) (i : ℕ) (found : Option ℕ) (r : ℕ)
    → (found ≡ some r → Found past xs cs fs i r)
    → (if is_open (get_or cs i 0) && reads past xs i fs then some i else found) ≡ some r
    → Found past xs cs fs (i + 1) r
keep_or_take past xs cs fs i found r h q =
    elim (Bool-cases (is_open (get_or cs i 0) && reads past xs i fs)) [
      | inl y ↦
          let same : i ≡ r = ground (arith, y) in
          record {
            below = omega arith;
            grows = rw (← same) (ground (arith, y));
            stands = rw (← same) (ground (arith, y));
          }
      | inr o ↦
          let f = h (rw o at q) in
          record { below = omega (arith, f.below); grows = f.grows; stands = f.stands }
    ]

search_sound :
    (past : ℕ → ℕ) (xs cs fs : List ℕ) (n i : ℕ) (found : Option ℕ) (r : ℕ)
    → (found ≡ some r → Found past xs cs fs i r)
    → search past xs cs fs n i found ≡ some r
    → Found past xs cs fs (i + n) r
unfolding search
search_sound past xs cs fs zero i found r h e =
    let f = h e in record { below = omega (arith, f.below); grows = f.grows; stands = f.stands }
search_sound past xs cs fs (suc n) i found r h e =
    let f = search_sound past xs cs fs n (i + 1) _ r (keep_or_take past xs cs fs i found r h) e in
    record { below = omega (arith, f.below); grows = f.grows; stands = f.stands }

-- The whole search finds only what is there.
pub search-Found :
    (past : ℕ → ℕ) (xs cs fs : List ℕ) (n r : ℕ)
    → search past xs cs fs n 0 none ≡ some r
    → Found past xs cs fs n r
search-Found past xs cs fs n r e =
    let f = search_sound past xs cs fs n 0 none r (λ q. absurd (ground arith)) e in
    record { below = omega (arith, f.below); grows = f.grows; stands = f.stands }

-- It finds something, where there is something to find or something was found before.
search_after_match :
    (past : ℕ → ℕ) (xs cs fs : List ℕ) (n i a : ℕ)
    → (r : ℕ) × (search past xs cs fs n i (some a) ≡ some r)
unfolding search
search_after_match past xs cs fs zero i a = (a, refl)
search_after_match past xs cs fs (suc n) i a =
    elim (Bool-cases (is_open (get_or cs i 0) && reads past xs i fs)) [
      | inl y ↦ rw y (search_after_match past xs cs fs n (i + 1) i)
      | inr o ↦ rw o (search_after_match past xs cs fs n (i + 1) a)
    ]

-- Without frames, every count that can grow is a match.
pub search_open :
    (past : ℕ → ℕ) (xs cs : List ℕ) (n i a : ℕ) (found : Option ℕ)
    → i ≤ a
    → a < i + n
    → is_open (get_or cs a 0) ≡ true
    → (r : ℕ) × (search past xs cs [] n i found ≡ some r)
unfolding search
search_open past xs cs zero i a found h k o = absurd (omega arith)
search_open past xs cs (suc n) i a found h k o = elim (ℕ_discrete i a) [
  | yes e ↦
      let at : (is_open (get_or cs i 0) && true) ≡ true = rw e (ground (arith, o)) in
      rw at (search_after_match past xs cs [] n (i + 1) i)
  | no ne ↦ search_open past xs cs n (i + 1) a _ (omega arith) (omega arith) o
]
