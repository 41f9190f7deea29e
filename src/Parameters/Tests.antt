-- ===== src/Parameters/Tests.antt =====
-- A parameter of one 32-bit number, which XDR encodes to four bytes.
use cbtf_krell.Prelude.{
  ℕ, ◌+◌, ◌*◌, ◌/◌, ◌%◌, List, [], ◌∷◌, Option, none, some, ◌≡◌, refl, length, arith, ok,
}
use cbtf_krell.Parameters.{
  encode_parameters, decode_parameters, decode_parameters-encode_parameters, to_text,
}

abbrev encode_xdr : ℕ → Option (List ℕ)
encode_xdr n = some ((n / 16777216) ∷ ((n / 65536) % 256) ∷ ((n / 256) % 256) ∷ (n % 256) ∷ [])

abbrev decode_xdr : List ℕ → Option ℕ
decode_xdr (a ∷ b ∷ c ∷ d ∷ []) = some (((a * 256 + b) * 256 + c) * 256 + d)
decode_xdr _ = none

-- 100 is 0000 0064 in hexadecimal digits.
text_of_100 : encode_parameters encode_xdr 100 ≡ ok (48 ∷ 48 ∷ 48 ∷ 48 ∷ 48 ∷ 48 ∷ 54 ∷ 52 ∷ 0 ∷ [])
unfolding encode_parameters to_text
text_of_100 = refl

decode_parameters-encode_parameters_example :
    (text : List ℕ) × (encode_parameters encode_xdr 100 ≡ ok text)
    × (length text ≡ 9)
    × (decode_parameters decode_xdr text ≡ ok 100)
decode_parameters-encode_parameters_example =
    decode_parameters-encode_parameters encode_xdr decode_xdr 100 (0 ∷ 0 ∷ 0 ∷ 100 ∷ []) refl
      (omega arith, (omega arith, (omega arith, (omega arith, tt)))) refl
