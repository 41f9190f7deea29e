-- ===== src/Buckets.antt =====
-- Hash tables of numbers in which 0 marks a free bucket: how many buckets are in use.
use cbtf_krell.Prelude.{
  ℕ, zero, suc, ◌+◌, ◌≤◌, ◌<◌, List, [], ◌∷◌, ◌≡◌, ◌≢◌, refl, ◌==◌, if◌then◌else◌, length, get_or,
  set, replicate, arith,
}

-- How many buckets are in use.
unfoldable pub occupied : List ℕ → ℕ
occupied [] = 0
occupied (e ∷ es) = (if e == 0 then 0 else 1) + occupied es

-- A table with fewer buckets in use than buckets has a free one.
pub free_bucket :
    (es : List ℕ) → occupied es < length es → (e : ℕ) × (e < length es) × (get_or es e 0 ≡ 0)
unfolding occupied
free_bucket [] h = absurd (omega arith)
free_bucket (zero ∷ es) h = (0, omega arith, refl)
free_bucket (suc x ∷ es) h =
    let (e, p, q) = free_bucket es (ground arith) in (suc e, omega arith, q)

pub occupied-set : (es : List ℕ) (b v : ℕ) → occupied (set es b v) ≤ occupied es + 1
unfolding occupied
occupied-set [] b v = omega arith
occupied-set (e ∷ es) zero v = ground arith
occupied-set (e ∷ es) (suc b) v = ground (arith, occupied-set es b v)

-- Putting something into a free bucket.
pub occupied-set_free :
    (es : List ℕ) (b v : ℕ)
    → b < length es
    → get_or es b 0 ≡ 0
    → v ≢ 0
    → occupied (set es b v) ≡ occupied es + 1
unfolding occupied
occupied-set_free [] b v h e n = absurd (omega arith)
occupied-set_free (e ∷ es) zero v h z n = ground arith
occupied-set_free (e ∷ es) (suc b) v h z n = ground (arith, occupied-set_free es b v)

pub occupied-replicate : (n : ℕ) → occupied (replicate n 0) ≡ 0
unfolding occupied
occupied-replicate zero = refl
occupied-replicate (suc n) = ground (arith, occupied-replicate n)
