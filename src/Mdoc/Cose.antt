-- ===== src/Mdoc/Cose.antt =====
-- internal/mdoc/cose.go: COSE_Sign1 and its signature of fixed width.
use fikua_lab_issuer.Platform.{
  Cbor, Elements, Pairs, Platform, byte_string, entry, integer, map_of, member_of, no_elements,
  no_pairs, sequence, text_string,
}
use fikua_lab_issuer.Prelude.{List, [], if◌then◌else◌, ltb, suc, zero, ℕ, ◌%◌, ◌++◌, ◌/◌, ◌^◌, ◌∷◌}
use fikua_lab_issuer.Prelude.Int.{negsuc, pos, ℤ, ℤ-eq}
use fikua_lab_issuer.Result.Exec.{Result, and_then, err, map_error, ok, panic}
use fikua_lab_issuer.Statuslist.Token.{prefixed}

abbrev pub cose_alg_es256 : ℤ
cose_alg_es256 = negsuc 6

abbrev pub cose_header_alg : ℤ
cose_header_alg = pos 1

abbrev pub cose_header_x5chain : ℤ
cose_header_x5chain = pos 33

unfoldable pub elements_of : List Cbor → Elements
elements_of [] = no_elements
elements_of (c ∷ cs) = member_of c (elements_of cs)

unfoldable pub byte_strings : List (List ℕ) → Elements
byte_strings [] = no_elements
byte_strings (b ∷ bs) = member_of (byte_string b) (byte_strings bs)

-- The unprotected header: one certificate as it is, more as an array.
unfoldable pub x5chain_header : List (List ℕ) → Pairs
unfolding byte_strings
x5chain_header [] = no_pairs
x5chain_header (c ∷ []) = entry (integer cose_header_x5chain) (byte_string c) no_pairs
x5chain_header (c ∷ d ∷ ds) =
    entry (integer cose_header_x5chain) (sequence (byte_strings (c ∷ d ∷ ds))) no_pairs

unfoldable pub abs : ℤ → ℕ
abs (pos n) = n
abs (negsuc n) = suc n

-- The lowest `n` bytes of a number, the highest first.
unfoldable pub big_endian : ℕ → ℕ → List ℕ
big_endian zero x = []
big_endian (suc n) x = big_endian n (x / 256) ++ x % 256 ∷ []

-- big.Int.FillBytes into a buffer of `n` bytes: the absolute value, or a panic if it does not fit.
unfoldable pub fill_bytes : ℕ → ℤ → Result (List ℕ)
unfolding big_endian abs
fill_bytes n x =
    if ltb (abs x) (256 ^ n)
    then ok (big_endian n (abs x))
    else err (panic "math/big: buffer too small to fit value")

module _ {Key KeySet : Type 0} (p : Platform Key KeySet) where
  unfoldable pub parse_ecdsa_der : List ℕ → Result (ℤ × ℤ)
  parse_ecdsa_der der = map_error (prefixed "parsing ECDSA signature: ") (p.parse_signature der)

  unfoldable pub sign_raw_p1363 : List ℕ → Result (List ℕ)
  unfolding parse_ecdsa_der
  sign_raw_p1363 data_bytes = and_then (p.sign_hash (p.sha256 data_bytes)) λ der.
      and_then (parse_ecdsa_der der) λ (r, s).
        and_then (fill_bytes 32 r)
          λ first. and_then (fill_bytes 32 s) λ second. ok (first ++ second)

  unfoldable pub sig_structure : List ℕ → List ℕ → Cbor
  unfolding elements_of
  sig_structure protected payload = sequence (
      elements_of (
        text_string "Signature1"
        ∷ byte_string protected
        ∷ byte_string []
        ∷ byte_string payload
        ∷ []))

  unfoldable pub cose_sign1 : List ℕ → List (List ℕ) → List ℕ → List ℕ → Cbor
  unfolding elements_of
  cose_sign1 protected chain payload signature = sequence (
      elements_of (
        byte_string protected
        ∷ map_of (x5chain_header chain)
        ∷ byte_string payload
        ∷ byte_string signature
        ∷ []))

  unfoldable pub sign_cose_sign1 : List ℕ → List (List ℕ) → Result (List ℕ)
  unfolding sign_raw_p1363 sig_structure cose_sign1
  sign_cose_sign1 payload chain =
      and_then
        (p.marshal_cbor
          (map_of (entry (integer cose_header_alg) (integer cose_alg_es256) no_pairs)))
        λ protected. and_then (p.marshal_cbor (sig_structure protected payload)) λ to_be_signed.
          and_then (sign_raw_p1363 to_be_signed)
            λ signature. p.marshal_cbor (cose_sign1 protected chain payload signature)
