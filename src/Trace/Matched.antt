-- ===== src/Trace/Matched.antt =====
-- A place that the search finds: the frames after the first stand there.
use cbtf_krell.Prelude.{
  ℕ, ◌+◌, ◌<◌, ◌≤◌, true, List, [], ◌∷◌, ◌++◌, some, ◌≡◌, length, length-append, arith, Bool-cases,
  inl, inr,
}
use cbtf_krell.Trace.Search.{find_stack}
use cbtf_krell.Trace.Table.{Stands, AreFrames, flat, IsTable, starts, tail, find_later, find}
use cbtf_krell.Trace.Found.{find_stack-find, IsTable-rest}

-- The frames after the first stand in the part in use, after the place `p`.
pub record IsPlace (xs : List ℕ) (len : ℕ) (fs : List ℕ) (p : ℕ) : Type 0 where
  pub stands : Stands xs (p + 1) (tail fs)
  pub inside : p + length fs < len

starts_lem :
    (xs : List ℕ) (k : ℕ) (gs s rest : List ℕ)
    → starts gs s ≡ true
    → Stands xs k (s ++ rest)
    → Stands xs k gs × (length gs ≤ length s)
starts_lem xs k [] s rest y h = (tt, omega arith)
starts_lem xs k (g ∷ gs) [] rest y h = cc
starts_lem xs k (g ∷ gs) (x ∷ s) rest y h =
    let (rest_stands, le) = starts_lem xs (k + 1) gs s rest (ground (arith, y)) h.1 in
    ((ground (arith, y, h.0), rest_stands), omega arith)

module _ (xs : List ℕ) (len g : ℕ) (gs : List ℕ) where
  -- Inside one stack trace, of which the first frame is not compared.
  second_frame-IsPlace :
      (k f x : ℕ) (s : List ℕ) (ss : List (List ℕ))
      → IsTable xs k len ((x ∷ s) ∷ ss)
      → starts (g ∷ gs) s ≡ true
      → IsPlace xs len (f ∷ g ∷ gs) k
  second_frame-IsPlace k f x s ss t y =
      let (stands, le) = starts_lem xs (k + 1) (g ∷ gs) s (0 ∷ flat ss) y t.stands.1 in
      record { stands = stands; inside = omega (arith, t.ends, length-append {0} s (0 ∷ flat ss)) }

  find_later-IsPlace :
      (ss : List (List ℕ)) (k f p : ℕ)
      → IsTable xs k len ss
      → find_later k (g ∷ gs) ss ≡ some p
      → IsPlace xs len (f ∷ g ∷ gs) p
  find_later-IsPlace [] k f p t e = cc
  find_later-IsPlace ([] ∷ ss) k f p t e = absurd (omega (arith, t.stacks.0))
  find_later-IsPlace ((x ∷ s) ∷ ss) k f p t e = elim (Bool-cases (starts (g ∷ gs) s)) [
    | inl y ↦ let at : k ≡ p = ground (arith, y) in rw (← at) (second_frame-IsPlace k f x s ss t y)
    | inr o ↦
        find_later-IsPlace ss (k + (length (x ∷ s) + 1)) f p (IsTable-rest xs k len (x ∷ s) ss t)
          (rw o at e)
  ]

find-IsPlace :
    (xs : List ℕ) (len : ℕ) (f g : ℕ) (gs : List ℕ) (ss : List (List ℕ)) (p : ℕ)
    → IsTable xs 0 len ss
    → find (f ∷ g ∷ gs) ss ≡ some p
    → IsPlace xs len (f ∷ g ∷ gs) p
find-IsPlace xs len f g gs [] p t e = cc
find-IsPlace xs len f g gs ([] ∷ ss) p t e = absurd (omega (arith, t.stacks.0))
find-IsPlace xs len f g gs ((x ∷ s) ∷ ss) p t e = elim (Bool-cases (starts (f ∷ g ∷ gs) (x ∷ s))) [
  | inl y ↦
      let at : 0 ≡ p = ground (arith, y) in
      rw (← at) (second_frame-IsPlace xs len g gs 0 f x s ss t (ground (arith, y)))
  | inr o ↦
      let start : 0 + (length (x ∷ s) + 1) ≡ length (x ∷ s) + 1 = omega arith in
      find_later-IsPlace xs len g gs ss (length (x ∷ s) + 1) f p
        (rw (← start) (IsTable-rest xs 0 len (x ∷ s) ss t)) (rw o at e)
]

pub find_stack-IsPlace :
    (xs : List ℕ) (len : ℕ) (fs : List ℕ) (ss : List (List ℕ)) (p : ℕ)
    → IsTable xs 0 len ss
    → AreFrames fs
    → 2 ≤ length fs
    → find_stack xs len fs ≡ some p
    → IsPlace xs len fs p
find_stack-IsPlace xs len [] ss p t a h e = absurd (omega arith)
find_stack-IsPlace xs len (f ∷ []) ss p t a h e = absurd (omega arith)
find_stack-IsPlace xs len (f ∷ g ∷ gs) ss p t a h e =
    find-IsPlace xs len f g gs ss p t (rw (find_stack-find xs len (f ∷ g ∷ gs) ss t a h) at e)
