-- ===== src/Tls/Store.antt =====
-- CBTF_GetTLS and CBTF_SetTLS as reads and writes of a map from keys to values.
use native.Mathlib.Decide.{ℕ_discrete}
use cbtf_krell.Prelude.{
  ℕ, ◌<◌, none, some, ◌≡◌, ◌≢◌, ◌==◌, if◌then◌else◌, get_or, set, length-set, get_or-set, arith,
  inl, inr, sym, ◌∙◌, ok, subst, ap,
}
use cbtf_krell.Tls.Map.{Map, map_size, find_bucket, get_tls, set_tls}
use cbtf_krell.Tls.Invariant.{IsValid, with_key, find_bucket_total, find_bucket-with_key}
use cbtf_krell.Tls.Laws.{Claimed, get_value_cases}

-- What stands beside the bucket at which the search for a key ends.
abbrev pub stored : Map → ℕ → ℕ
stored m key = elim (find_bucket m key) [ none ↦ 0 | some b ↦ get_or m.values b 0 ]

pub stored_at :
    (m : Map) (key b : ℕ) → find_bucket m key ≡ some b → stored m key ≡ get_or m.values b 0
stored_at m key b e = rw (e, stored)

-- A key with no bucket reads as the null pointer, in the map and in any valid map with more keys.
module _ (m : Map) (key b j : ℕ) (v : IsValid m) (v' : IsValid (with_key m key b))
    (hb : b < map_size) (free : get_or m.keys b 0 ≡ 0) (n : j ≢ 0) where
  stored_new :
      (c : ℕ) → find_bucket m j ≡ some c → get_or m.keys c 0 ≡ 0 → stored (with_key m key b) j ≡ 0
  stored_new c found unused =
      let (c', found', hc', stop') = find_bucket_total (with_key m key b) j v' in
      let at = get_or-set m.keys b c' key 0 (omega (arith, v.keys_size)) in
      stored_at (with_key m key b) j c' found' ∙ elim (ℕ_discrete (get_or m.keys c' 0) 0) [
        | yes z ↦ v.unset c' z
        | no used ↦
            let here : get_or m.keys c' 0 ≡ j = ground (arith, at) in
            let again : find_bucket m j ≡ some c' = rw here at (v.reached c' hc' used) in
            let same : c ≡ c' = ground (arith, found, again) in absurd (used (rw (← same) unused))
      ]

  stored-with_key : stored (with_key m key b) j ≡ stored m j
  stored-with_key =
      let (c, found, hc, stop) = find_bucket_total m j v in
      elim (ℕ_discrete (get_or m.keys c 0) 0) [
        | yes z ↦ stored_new c found z ∙ sym (v.unset c z) ∙ sym (stored_at m j c found)
        | no used ↦
            let apart : b ≢ c = λ e. used (rw e at free) in
            stored_at (with_key m key b) j c (
              find_bucket-with_key m key b j c (omega (arith, v.keys_size)) free
                (λ e. absurd (apart (sym e))) found)
            ∙ sym (stored_at m j c found)
      ]

-- Taking a bucket for a key changes what no key reads.
pub stored-Claimed :
    (m : Map) (key j : ℕ) (r : Map × ℕ)
    → IsValid m
    → j ≢ 0
    → Claimed m key r
    → stored r.0 j ≡ stored m j
stored-Claimed m key j r v n c = elim c.grown [
  | inl e ↦ rw e
  | inr (free, e) ↦ rw e (stored-with_key m key r.1 j v (subst IsValid e c.valid) c.inside free n)
]

-- Writing the value beside a key.
abbrev with_value : Map → ℕ → ℕ → Map
with_value m b value = record m { values = set m.values b value }

with_value-IsValid :
    (m : Map) (b value : ℕ)
    → IsValid m
    → b < map_size
    → get_or m.keys b 0 ≢ 0
    → IsValid (with_value m b value)
unfolding find_bucket
with_value-IsValid m b value v hb used = record {
  keys_size = v.keys_size;
  values_size = ground (arith, length-set m.values b value, v.values_size);
  counted = v.counted;
  room = v.room;
  reached = v.reached;
  unset = λ c z.
      let apart : b ≢ c = λ e. used (rw e z) in
      ground (arith, get_or-set m.values b c value 0, apart, v.unset c z, v.values_size);
}

stored-with_value :
    (m : Map) (b value key j : ℕ)
    → IsValid m
    → b < map_size
    → get_or m.keys b 0 ≡ key
    → key ≢ 0
    → stored (with_value m b value) j ≡ (if j == key then value else stored m j)
stored-with_value m b value key j v hb at nk =
    let (c, found, hc, stop) = find_bucket_total m j v in
    let here = get_or-set m.values b c value 0 (omega (arith, v.values_size)) in
    let back : find_bucket m key ≡ some b = rw at at (v.reached b hb (λ z. nk (sym at ∙ z))) in
    rw (stored_at (with_value m b value) j c (unfold find_bucket in found), stored_at m j c found)
      (elim (ℕ_discrete b c) [
        | yes e ↦ ground (arith, here, stop)
        | no ne ↦
            let apart : j ≢ key = λ q.
              let again : find_bucket m key ≡ some c = sym (ap (find_bucket m) q) ∙ found in
              ne (ground (arith, back, again)) in
            ground (arith, here, apart)
      ])

-- A successful CBTF_SetTLS on a valid map, for a key that is not 0: the map is valid again, the key
-- reads as the new value, and every other key as before.
pub set_tls_lem :
    (key value : ℕ) (m : Map) {m' : Map}
    → IsValid m
    → key ≢ 0
    → set_tls key value m ≡ ok m'
    → IsValid m' × ((j : ℕ) → j ≢ 0 → stored m' j ≡ (if j == key then value else stored m j))
unfolding set_tls
set_tls_lem key value m {m'} v n e = elim (get_value_cases m key v n) [
  | inl (r, got, c) ↦
      let used : get_or r.0.keys r.1 0 ≢ 0 = λ z. n (sym c.at_key ∙ z) in
      let same : m' ≡ with_value r.0 r.1 value = ground (arith, got) in
      rw same (
        with_value-IsValid r.0 r.1 value c.valid c.inside used,
        λ j k.
            rw (← stored-Claimed m key j r v k c)
              (stored-with_value r.0 r.1 value key j c.valid c.inside c.at_key n),
      )
  | inr f ↦ absurd (ground (arith, f.1))
]

-- A successful CBTF_GetTLS on a valid map, for a key that is not 0, returns what the key reads, keeps
-- the map valid, and changes what no key reads.
pub get_tls_lem :
    (key : ℕ) (m : Map) {r : ℕ × Map}
    → IsValid m
    → key ≢ 0
    → get_tls key m ≡ ok r
    → (r.0 ≡ stored m key) × IsValid r.1 × ((j : ℕ) → j ≢ 0 → stored r.1 j ≡ stored m j)
unfolding get_tls
get_tls_lem key m {r} v n e = elim (get_value_cases m key v n) [
  | inl (g, got, c) ↦
      let same : r ≡ (get_or g.0.values g.1 0, g.0) = ground (arith, got) in
      rw same (
        ap (λ xs. get_or xs g.1 0) c.same_values ∙ sym (stored_at m key g.1 c.found),
        c.valid,
        λ j k. stored-Claimed m key j g v k c,
      )
  | inr f ↦ absurd (ground (arith, f.1))
]
