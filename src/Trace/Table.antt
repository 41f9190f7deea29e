-- ===== src/Trace/Table.antt =====
-- The tracing buffer as a list of stack traces, and the search in it as the code performs it.
use cbtf_krell.Prelude.{
  ℕ, ◌+◌, ◌<◌, ◌&&◌, Bool, true, false, List, [], ◌∷◌, ◌++◌, Option, none, some, ◌≡◌, ◌==◌,
  if◌then◌else◌, length, get_or,
}

-- The words from the place `k` on.
abbrev pub Stands : List ℕ → ℕ → List ℕ → Type 0
Stands xs k [] = Unit {0}
Stands xs k (w ∷ ws) = (get_or xs k 0 ≡ w) × Stands xs (k + 1) ws

-- A frame's address is not 0.
abbrev pub AreFrames : List ℕ → Type 0
AreFrames [] = Unit {0}
AreFrames (f ∷ fs) = (0 < f) × AreFrames fs

-- Every stack trace has a frame.
abbrev pub AreStacks : List (List ℕ) → Type 0
AreStacks [] = Unit {0}
AreStacks (s ∷ ss) = (0 < length s) × AreFrames s × AreStacks ss

-- The stack traces one after the other, each with its terminating zero.
abbrev pub flat : List (List ℕ) → List ℕ
flat [] = []
flat (s ∷ ss) = s ++ (0 ∷ flat ss)

-- The buffer holds the stack traces `ss` from the place `k` to the length in use.
pub record IsTable (xs : List ℕ) (k len : ℕ) (ss : List (List ℕ)) : Type 0 where
  pub stands : Stands xs k (flat ss)
  pub ends : k + length (flat ss) ≡ len
  pub stacks : AreStacks ss

abbrev pub starts : List ℕ → List ℕ → Bool
starts [] s = true
starts (f ∷ fs) [] = false
starts (f ∷ fs) (x ∷ s) = (f == x) && starts fs s

abbrev pub tail : List ℕ → List ℕ
tail [] = []
tail (_ ∷ fs) = fs

-- A stack trace after the first one is compared from its second frame on.
abbrev pub find_later : ℕ → List ℕ → List (List ℕ) → Option ℕ
find_later k gs [] = none
find_later k gs (s ∷ ss) =
    if starts gs (tail s) then some k else find_later (k + (length s + 1)) gs ss

abbrev pub find : List ℕ → List (List ℕ) → Option ℕ
find fs [] = none
find fs (s ∷ ss) = if starts fs s then some 0 else find_later (length s + 1) (tail fs) ss
