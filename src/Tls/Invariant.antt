-- ===== src/Tls/Invariant.antt =====
-- The invariant of a thread's map: the search for a key that is there ends at its bucket.
use native.Mathlib.Decide.{ℕ_discrete}
use cbtf_krell.Prelude.{
  ℕ, ◌+◌, ◌%◌, ◌<◌, true, some, ◌≡◌, ◌≢◌, refl, length, get_or, set, length-set, get_or-set,
  get_or-replicate, arith, sym,
}
use cbtf_krell.Probe.{probe_total, probe-change}
use cbtf_krell.Buckets.{occupied, free_bucket, occupied-set_free, occupied-replicate}
use cbtf_krell.Tls.Map.{Map, map_size, zero_map, stops, find_bucket}

pub record IsValid (m : Map) : Type 0 where
  pub keys_size : length m.keys ≡ map_size
  pub values_size : length m.values ≡ map_size
  pub counted : occupied m.keys ≡ m.size
  pub room : m.size < 31
  pub reached :
      (b : ℕ) → b < map_size → get_or m.keys b 0 ≢ 0 → find_bucket m (get_or m.keys b 0) ≡ some b
  pub unset : (b : ℕ) → get_or m.keys b 0 ≡ 0 → get_or m.values b 0 ≡ 0

pub zero_map-IsValid : IsValid zero_map
unfolding zero_map
zero_map-IsValid = record {
  keys_size = refl;
  values_size = refl;
  counted = occupied-replicate 32;
  room = omega arith;
  reached = λ b h n. absurd (n (get_or-replicate 32 b));
  unset = λ b h. get_or-replicate 32 b;
}

module _ (m : Map) (key : ℕ) (v : IsValid m) where
  -- The search ends: there is a free bucket.
  pub find_bucket_total :
      (b : ℕ) × (find_bucket m key ≡ some b) × (b < map_size) × (stops m.keys key b ≡ true)
  unfolding find_bucket
  find_bucket_total =
      let (e, he, free) = free_bucket m.keys (omega (arith, v.counted, v.room, v.keys_size)) in
      let at : e < map_size = omega (arith, v.keys_size) in
      let inside : key % map_size < map_size = omega arith in
      probe_total (stops m.keys key) map_size e map_size (key % map_size) (ground arith) at inside
        (ground arith)

module _ (m : Map) (key b : ℕ) where
  -- The map with the key put into a free bucket.
  abbrev pub with_key : Map
  with_key = record m { keys = set m.keys b key; size = m.size + 1 }

  -- The search for a key that was there is not disturbed.
  pub find_bucket-with_key :
      (j c : ℕ)
      → b < length m.keys
      → get_or m.keys b 0 ≡ 0
      → (c ≡ b → j ≡ key)
      → find_bucket m j ≡ some c
      → find_bucket with_key j ≡ some c
  unfolding find_bucket
  find_bucket-with_key j c hb free same =
      probe-change (stops m.keys j) (stops (set m.keys b key) j) map_size c map_size (j % map_size)
        b (λ y n. ground (arith, get_or-set m.keys b y key 0 hb)) (ground arith)
        (λ e. ground (arith, get_or-set m.keys b b key 0 hb, same e))

  pub with_key-IsValid :
      IsValid m
      → b < map_size
      → get_or m.keys b 0 ≡ 0
      → key ≢ 0
      → m.size < 30
      → find_bucket m key ≡ some b
      → IsValid with_key
  with_key-IsValid v hb free n room found = record {
    keys_size = ground (arith, length-set m.keys b key, v.keys_size);
    values_size = v.values_size;
    counted = ground (arith, occupied-set_free m.keys b key, v.keys_size, v.counted);
    room = omega arith;
    reached = λ c hc used. elim (ℕ_discrete b c) [
      | yes e ↦
          let k : get_or (set m.keys b key) c 0 ≡ key =
            ground (arith, v.keys_size, get_or-set m.keys b c key 0) in
          rw (k, ← e)
            (find_bucket-with_key key b (omega (arith, v.keys_size)) free (λ _. refl) found)
      | no ne ↦
          let k : get_or (set m.keys b key) c 0 ≡ get_or m.keys c 0 =
            ground (arith, v.keys_size, get_or-set m.keys b c key 0) in
          rw k (
            find_bucket-with_key (get_or m.keys c 0) c (omega (arith, v.keys_size)) free
              (λ q. absurd (ne (sym q))) (v.reached c hc (rw k at used)))
    ];
    unset = λ c h. ground (arith, v.unset c, v.keys_size, get_or-set m.keys b c key 0);
  }
