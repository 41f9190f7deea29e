-- ===== src/Parameters.antt =====
-- services/src/offline/EncodeParameters.c and DecodeParameters.c: the parameters of a runtime function
-- as text, four bits to a character. The XDR routine of a type is not in the sources: it is given
-- by what it encodes a value to, and what it decodes bytes to.
mod Tests
use native.Mathlib.Decide.{ℕ_discrete}
use Prim.Native.Nat.{bit_or}
use cbtf_krell.Prelude.{
  ℕ, zero, suc, ◌+◌, ◌-◌, ◌*◌, ◌/◌, ◌%◌, ◌<◌, Bool, true, false, ◌&&◌, List, [], ◌∷◌, Option, none,
  some, ◌≡◌, refl, ◌==◌, if◌then◌else◌, length, arith, Outcome, ok, aborted, ◌>>=◌, ◌>>◌, check,
  Bool-cases, inl, inr, ap, sym, ◌∙◌,
}

-- The loop of CBTF_EncodeParameters, and the null character at the end. A byte is below 256.
unfoldable pub to_text : List ℕ → List ℕ
to_text [] = 0 ∷ []
to_text (b ∷ bs) = ((b / 16) % 16 + 48) ∷ (b % 16 + 48) ∷ to_text bs

-- The characters before the null character, which `strlen` counts.
unfoldable pub text_of : List ℕ → List ℕ
text_of [] = []
text_of (c ∷ cs) = let rest = text_of cs in if c == 0 then [] else c ∷ rest

-- The two halves of a byte, as a `char` keeps them.
abbrev pub join : ℕ → ℕ → ℕ
join c d = bit_or (((c + 256 - 48) * 16) % 256) ((d + 256 - 48) % 256)

-- The loop of CBTF_DecodeParameters.
unfoldable pub from_text : List ℕ → List ℕ
from_text [] = []
from_text (c ∷ []) = []
from_text (c ∷ d ∷ cs) = join c d ∷ from_text cs

module _ {A : Type 0} where
  -- CBTF_EncodeParameters: `aborted` is a failed Assert.
  unfoldable pub encode_parameters : (A → Option (List ℕ)) → A → Outcome (List ℕ)
  encode_parameters encode_xdr a = elim (encode_xdr a) [
    | none ↦ aborted
    | some bs ↦ ok (to_text bs)
  ]

  abbrev pub of_option : Option A → Outcome A
  of_option none = aborted
  of_option (some a) = ok a

  -- CBTF_DecodeParameters
  unfoldable pub decode_parameters : (List ℕ → Option A) → List ℕ → Outcome A
  decode_parameters decode_xdr argument = do
    check (length (text_of argument) % 2 == 0)
    of_option (decode_xdr (from_text (text_of argument)))

abbrev pub AllBytes : List ℕ → Type 0
AllBytes [] = Unit
AllBytes (b ∷ bs) = (b < 256) × AllBytes bs

-- A test of all numbers below a bound.
abbrev all_below : ℕ → (ℕ → Bool) → Bool
all_below zero p = true
all_below (suc n) p = p n && all_below n p

all_below_lem : (n : ℕ) (p : ℕ → Bool) (i : ℕ) → all_below n p ≡ true → i < n → p i ≡ true
all_below_lem zero p i h k = absurd (omega arith)
all_below_lem (suc n) p i h k = elim (ℕ_discrete i n) [
  | yes e ↦ rw e (ground (arith, h))
  | no ne ↦ all_below_lem n p i (ground (arith, h)) (omega arith)
]

abbrev joins_back : ℕ → Bool
joins_back b = join ((b / 16) % 16 + 48) (b % 16 + 48) == b

all_join_back : all_below 256 joins_back ≡ true
all_join_back = refl

join-halves : (b : ℕ) → b < 256 → join ((b / 16) % 16 + 48) (b % 16 + 48) ≡ b
join-halves b h =
    let e : joins_back b ≡ true = all_below_lem 256 joins_back b all_join_back h in
    ground (arith, e)

-- What the text of bytes holds before its null character.
abbrev characters : List ℕ → List ℕ
characters [] = []
characters (b ∷ bs) = ((b / 16) % 16 + 48) ∷ (b % 16 + 48) ∷ characters bs

text_of-to_text : (bs : List ℕ) → text_of (to_text bs) ≡ characters bs
unfolding text_of to_text
text_of-to_text [] = refl
text_of-to_text (b ∷ bs) = ground (arith, text_of-to_text bs)

length-characters : (bs : List ℕ) → length (characters bs) ≡ 2 * length bs
length-characters [] = refl
length-characters (b ∷ bs) = omega (arith, length-characters bs)

length-to_text : (bs : List ℕ) → length (to_text bs) ≡ 2 * length bs + 1
unfolding to_text
length-to_text [] = refl
length-to_text (b ∷ bs) = omega (arith, length-to_text bs)

from_text-characters : (bs : List ℕ) → AllBytes bs → from_text (characters bs) ≡ bs
unfolding from_text
from_text-characters [] h = refl
from_text-characters (b ∷ bs) h = rw (join-halves b h.0, from_text-characters bs h.1) refl

-- Where the XDR routine encodes a value to some bytes, from which its decoding gives the value back:
-- CBTF_EncodeParameters returns a text, of twice as many characters as there are bytes and the null
-- character, and CBTF_DecodeParameters of that text returns the value; no Assert fails.
pub decode_parameters-encode_parameters :
    {A : Type 0} (encode_xdr : A → Option (List ℕ)) (decode_xdr : List ℕ → Option A) (a : A)
    (bs : List ℕ)
    → encode_xdr a ≡ some bs
    → AllBytes bs
    → decode_xdr bs ≡ some a
    → (text : List ℕ) × (encode_parameters encode_xdr a ≡ ok text)
      × (length text ≡ 2 * length bs + 1)
      × (decode_parameters decode_xdr text ≡ ok a)
unfolding encode_parameters decode_parameters
decode_parameters-encode_parameters encode_xdr decode_xdr a bs e h d =
    let even : (length (characters bs) % 2 == 0) ≡ true = ground (arith, length-characters bs) in
    (
      to_text bs,
      rw (e, encode_parameters) refl,
      length-to_text bs,
      rw (text_of-to_text bs, even, from_text-characters bs h, d, decode_parameters) refl,
    )
