-- ===== src/Service/Recorded.antt =====
-- What becomes of the linked objects that are recorded.
use native.Mathlib.Decide.{ℕ_discrete}
use cbtf_krell.Prelude.{
  ℕ, ◌+◌, ◌*◌, ◌≤◌, ◌<◌, Bool, true, false, not, ◌||◌, List, [], ◌∷◌, ◌++◌, ◌≡◌, refl, ap, sym, ◌∙◌,
  ltb, set, take, length, length-set, length-replicate, append-nil, append_assoc, take-set, arith,
  Bool-cases, inl, inr,
}
use cbtf_krell.Service.Types.{uses_mrnet, Setup, State, LinkedObject, zero_object, Table}
use cbtf_krell.Service.Objects.{max_linked_objects, send_dsos, add_object, flush_dsos}

-- The table of an array of the declared size. Every name has a character at least.
pub record IsValid (t : Table) : Type 0 where
  pub size : length t.objs ≡ max_linked_objects
  pub len_le : t.len ≤ max_linked_objects
  pub names : t.len ≤ t.dsoname_len

-- Whether what the service sends goes out: always to a file, and to MRNet with a connection.
abbrev pub goes_out : Setup → State → Bool
goes_out u s = not (uses_mrnet u.build) || s.process.connected_to_mrnet

abbrev pub held : Table → List LinkedObject
held t = take t.len t.objs

-- The blobs that are sent, one after the other.
abbrev pub concat : List (List LinkedObject) → List LinkedObject
concat [] = []
concat (b ∷ bs) = b ++ concat bs

pub concat-append : (xs ys : List (List LinkedObject)) → concat (xs ++ ys) ≡ concat xs ++ concat ys
concat-append [] ys = refl
concat-append (b ∷ xs) ys =
    ap (λ zs. b ++ zs) (concat-append xs ys) ∙ sym (append_assoc b (concat xs) (concat ys))

-- There is room in the table at the time of the write.
room_lem :
    (size len names new : ℕ)
    → len ≤ max_linked_objects
    → len ≤ names
    → 0 < new
    → ltb (max_linked_objects * size) (len * size + (names + new)) ≡ false
    → len < max_linked_objects
room_lem size len names new a b c d = elim (ℕ_discrete len max_linked_objects) [
  | no ne ↦ omega arith
  | yes e ↦ let d' = rw e at d in absurd (ground (arith, d'))
]

module _ (size : ℕ) (u : Setup) (s : State) where
  -- The write at the end of a table that has room.
  put_lem :
      (o : LinkedObject) (name_len : ℕ) (t : Table)
      → IsValid t
      → t.len < max_linked_objects
      → 0 < name_len
      → let t' : Table = record t {
        objs = set t.objs t.len o;
        len = t.len + 1;
        dsoname_len = t.dsoname_len + name_len;
      } in
        IsValid t' × (held t' ≡ held t ++ (o ∷ []))
  put_lem o name_len t v h n = (
    record {
      size = omega (arith, length-set t.objs t.len o, v.size);
      len_le = omega arith;
      names = omega (arith, v.names);
    },
    take-set t.objs t.len (t.len + 1) o (omega arith) (omega (arith, v.size)),
  )

  send_dsos-IsValid : (t : Table) → IsValid (send_dsos u s t).0
  unfolding send_dsos
  send_dsos-IsValid t = record {
    size = length-replicate max_linked_objects zero_object;
    len_le = omega arith;
    names = omega arith;
  }

  concat-send_dsos : (t : Table) → goes_out u s ≡ true → concat (send_dsos u s t).1 ≡ held t
  unfolding send_dsos
  concat-send_dsos t g = rw g (append-nil (held t))

  pub add_object_lem :
      (o : LinkedObject) (name_len : ℕ) (t : Table)
      → IsValid t
      → goes_out u s ≡ true
      → 0 < name_len
      → let r = add_object size u s o name_len t in
        IsValid r.0 × (concat r.1 ++ held r.0 ≡ held t ++ (o ∷ []))
  unfolding add_object
  add_object_lem o name_len t v g n =
      elim (Bool-cases
        (ltb (max_linked_objects * size) (t.len * size + (t.dsoname_len + name_len)))) [
          | inr fits ↦ rw fits (
              put_lem o name_len t v
                (room_lem size t.len t.dsoname_len name_len v.len_le v.names n fits) n)
          | inl full ↦
              let (valid, _) =
                put_lem o name_len (send_dsos u s t).0 (send_dsos-IsValid t) (omega arith) n in
              rw full (valid, ap (λ xs. xs ++ (o ∷ [])) (concat-send_dsos t g))
        ]

-- The last message empties the table.
pub concat-flush_dsos :
    (u : Setup) (s : State) (t : Table) → goes_out u s ≡ true → concat (flush_dsos u s t).1 ≡ held t
unfolding flush_dsos
concat-flush_dsos u s t g = elim (Bool-cases (ltb 0 t.len)) [
  | inl some_held ↦ rw some_held (concat-send_dsos 0 u s t g)
  | inr none_held ↦
      let empty : t.len ≡ 0 = ground arith in rw none_held (sym (ap (λ n. take n t.objs) empty))
]
