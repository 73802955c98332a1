-- ===== src/Statuslist/Token.antt =====
-- internal/statuslist/token.go and compress.go, with BuildX5CChain of internal/crypto/x5c.go.
use fikua_lab_issuer.Platform.{Json, Platform, Time, int, member, no_members, object, second, str}
use fikua_lab_issuer.Prelude.{
  List, Option, String, String-eq, [], concat, none, some, ℕ, ◌*◌, ◌+◌, ◌/◌, ◌∷◌, refl, ◌≡◌,
}
use fikua_lab_issuer.Prelude.Dict.{Dict, put}
use fikua_lab_issuer.Prelude.Int.{pos, sub_ℕ, ℤ, ℤ-eq}
use fikua_lab_issuer.Result.Exec.{
  GoError, Result, and_then, err, error_text, map_error, ok, panic, plain,
}
use fikua_lab_issuer.Statuslist.{pack_bitstring, width}

abbrev pub ttl_seconds : ℕ
ttl_seconds = 3600

abbrev pub validity_seconds : ℕ
validity_seconds = 86400

-- What a SigningKey gives besides its signer: its id, and its certificates, leaf first.
pub record SigningKey : Type 0 where
  pub kid : String
  pub x5c_chain : List (List ℕ)

-- A time.Time as the seconds since 1970 of a JWT's NumericDate.
abbrev pub numeric_date : Time → Json
numeric_date t = int (sub_ℕ (t / second) 62135596800)

abbrev pub prefixed : String → GoError → GoError
prefixed prefix e = plain (concat prefix (error_text e))

module _ {Key KeySet : Type 0} (p : Platform Key KeySet) where
  unfoldable pub compress_and_encode : List ℕ → Result String
  compress_and_encode raw = and_then (p.zlib raw) λ compressed. ok (p.base64url compressed)

  unfoldable pub build_x5c_chain : List (List ℕ) → Result (List String)
  build_x5c_chain [] = ok []
  build_x5c_chain (der ∷ chain) =
      let rest = build_x5c_chain chain in
      and_then (p.add_certificate (p.base64 der))
        λ _. and_then rest λ encoded. ok (p.base64 der ∷ encoded)

  list_claims : Time → String → String → Dict String Json
  list_claims now list_uri lst =
      put "status_list" (object (member "bits" (int width) (member "lst" (str lst) no_members))) (
        put "ttl" (int (pos ttl_seconds)) (
          put "exp" (numeric_date (now + validity_seconds * second))
            (put "iat" (numeric_date now) (put "sub" (str list_uri) []))))

  packed_or_panic : Option (List ℕ) → Result (List ℕ)
  packed_or_panic none = err (panic "index out of range")
  packed_or_panic (some out) = ok out

  -- `packed` is the bitstring.
  unfoldable pub signed_list : SigningKey → Time → String → List ℕ → Result String
  unfolding compress_and_encode build_x5c_chain list_claims
  signed_list key now list_uri packed =
      and_then
        (map_error (prefixed "statuslist: compressing bitstring: ") (compress_and_encode packed))
        λ lst.
          and_then
            (map_error (prefixed "statuslist: building claims: ")
              (p.build_jwt (list_claims now list_uri lst)))
            λ token. and_then (build_x5c_chain key.x5c_chain) λ x5c.
              map_error (prefixed "statuslist: signing: ")
                (p.sign_jwt (record { typ = "statuslist+jwt"; kid = key.kid; x5c = x5c }) token)

  unfoldable pub build : SigningKey → Time → Dict ℤ ℕ → ℤ → String → Result String
  unfolding signed_list packed_or_panic
  build key now entries size list_uri =
      and_then (packed_or_panic (pack_bitstring entries size)) (signed_list key now list_uri)

  -- A list that packs is signed.
  pub build-signed_list :
      (key : SigningKey) (now : Time) (entries : Dict ℤ ℕ) (size : ℤ) (list_uri : String)
      (out : List ℕ)
      → pack_bitstring entries size ≡ some out
      → build key now entries size list_uri ≡ signed_list key now list_uri out
  unfolding build and_then
  build-signed_list key now entries size list_uri out h = rw h refl
