-- ===== src/Tls/Laws.antt =====
-- CBTF_GetTLS and CBTF_SetTLS as a map from keys to values.
use native.Mathlib.Decide.{ℕ_discrete, dec_lt}
use cbtf_krell.Prelude.{
  ℕ, ◌<◌, true, some, ◌≡◌, ◌≢◌, refl, get_or, get_or-set, arith, inl, inr, ◌⊎◌, ok, aborted,
}
use cbtf_krell.Tls.Map.{Map, map_size, stops, find_bucket, claim_bucket, get_value}
use cbtf_krell.Tls.Invariant.{IsValid, with_key, with_key-IsValid, find_bucket_total}

-- What `getValue` leaves: the map itself if the key has a bucket, else the map with the key put in.
pub record Claimed (m : Map) (key : ℕ) (r : Map × ℕ) : Type 0 where
  pub valid : IsValid r.0
  pub inside : r.1 < map_size
  pub at_key : get_or r.0.keys r.1 0 ≡ key
  pub same_values : r.0.values ≡ m.values
  pub found : find_bucket m key ≡ some r.1
  pub grown : (r.0 ≡ m) ⊎ ((get_or m.keys r.1 0 ≡ 0) × (r.0 ≡ with_key m key r.1))

claim_free :
    (m : Map) (key b : ℕ)
    → IsValid m
    → key ≢ 0
    → b < map_size
    → find_bucket m key ≡ some b
    → get_or m.keys b 0 ≡ 0
    → m.size < 30
    → Claimed m key (with_key m key b, b)
claim_free m key b v n hb found free room = record {
  valid = with_key-IsValid m key b v hb free n room found;
  inside = hb;
  at_key = ground (arith, get_or-set m.keys b b key 0, v.keys_size);
  same_values = refl;
  found = found;
  grown = inr (free, refl);
}

claim_used :
    (m : Map) (key b : ℕ)
    → IsValid m
    → b < map_size
    → find_bucket m key ≡ some b
    → stops m.keys key b ≡ true
    → get_or m.keys b 0 ≢ 0
    → Claimed m key (m, b)
claim_used m key b v hb found stop used = record {
  valid = v;
  inside = hb;
  at_key = ground arith;
  same_values = refl;
  found = found;
  grown = inl refl;
}

-- `getValue` on a valid map: it returns a bucket of the key, or its Assert fails, and then the map
-- holds 30 keys and the new one is not among them.
pub get_value_cases :
    (m : Map) (key : ℕ)
    → IsValid m
    → key ≢ 0
    → ((r : Map × ℕ) × (get_value m key ≡ ok r) × Claimed m key r)
      ⊎ ((b : ℕ) × (get_value m key ≡ aborted)
          × (m.size ≡ 30)
          × (find_bucket m key ≡ some b)
          × (get_or m.keys b 0 ≡ 0))
unfolding get_value claim_bucket
get_value_cases m key v n =
    let (b, found, hb, stop) = find_bucket_total m key v in
    elim (ℕ_discrete (get_or m.keys b 0) 0) [
      | no used ↦
          inl
            ((m, b), rw (found, get_value) (ground arith), claim_used m key b v hb found stop used)
      | yes free ↦ elim (dec_lt m.size 30) [
        | yes room ↦ inl (
          (with_key m key b, b),
          rw (found, get_value) (ground (arith, v.room)),
          claim_free m key b v n hb found free room,
        )
        | no full ↦
            inr (
              b,
              rw (found, get_value) (ground (arith, v.room)),
              omega (arith, v.room),
              found,
              free,
            )
      ]
    ]
