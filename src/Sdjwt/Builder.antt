-- ===== src/Sdjwt/Builder.antt =====
-- internal/sdjwt/builder.go: the claims of an SD-JWT and its serialization.
use fikua_lab_issuer.Platform.{
  Items, Json, Members, Platform, Time, array, item, member, no_items, no_members, object, second,
  str,
}
use fikua_lab_issuer.Prelude.{
  List, Option, String, String-eq, [], concat, if◌then◌else◌, map, none, some, suc, ℕ, ◌*◌, ◌++◌,
  ◌+◌, ◌==◌, ◌∷◌,
}
use fikua_lab_issuer.Prelude.Dict.{Dict, put}
use fikua_lab_issuer.Result.Exec.{Result, and_then, err, map_error, ok, plain}
use fikua_lab_issuer.Sdjwt.Disclosure.{Disclosure, digest, new_disclosure}
use fikua_lab_issuer.Statuslist.Token.{SigningKey, build_x5c_chain, numeric_date, prefixed}

abbrev pub default_validity_seconds : ℕ
default_validity_seconds = 86400 * 365

-- `issuerKey` is an argument of `build_sd_jwt`.
pub record Builder (Key : Type 0) : Type 0 where
  pub vct : String
  pub issuer : String
  pub subject : String
  pub validity_seconds : ℕ
  pub plain_claims : List (String × Json)
  pub selective_claims : List (String × Json)
  pub holder_key : Option Key
  pub x5c_chain : List (List ℕ)

unfoldable pub new_builder : {Key : Type 0} → Builder Key
new_builder = record {
  vct = "";
  issuer = "";
  subject = "";
  validity_seconds = default_validity_seconds;
  plain_claims = [];
  selective_claims = [];
  holder_key = none;
  x5c_chain = [];
}

unfoldable pub plain_claim : {Key : Type 0} → String → Json → Builder Key → Builder Key
plain_claim name value b = record b { plain_claims = b.plain_claims ++ (name, value) ∷ [] }

unfoldable pub selective_claim : {Key : Type 0} → String → Json → Builder Key → Builder Key
selective_claim name value b = record b {
  selective_claims = b.selective_claims ++ (name, value) ∷ [];
}

unfoldable pub items : List String → Items
items [] = no_items
items (s ∷ ss) = item (str s) (items ss)

-- The claims after `builder.Claim(c.name, c.value)` for each of a list.
unfoldable pub put_all : List (String × Json) → Dict String Json → Dict String Json
put_all [] m = m
put_all ((name, value) ∷ claims) m = put_all claims (put name value m)

-- `if subject != ""`
unfoldable pub put_subject : String → Dict String Json → Dict String Json
put_subject subject m = if subject == "" then m else put "sub" (str subject) m

-- `if len(sdDigests) > 0`
unfoldable pub put_digests : List String → Dict String Json → Dict String Json
put_digests [] m = m
put_digests (d ∷ ds) m = put "_sd_alg" (str "sha-256") (put "_sd" (array (items (d ∷ ds))) m)

-- `if b.holderKey != nil`
unfoldable pub put_holder : Option Members → Dict String Json → Dict String Json
put_holder none m = m
put_holder (some jwk) m = put "cnf" (object (member "jwk" (object jwk) no_members)) m

unfoldable pub put_times : Time → ℕ → Dict String Json → Dict String Json
put_times now validity m =
    put "exp" (numeric_date (now + validity * second)) (put "iat" (numeric_date now) m)

unfoldable pub sd_jwt_claims :
    {Key : Type 0} → Builder Key → Time → List String → Option Members → Dict String Json
unfolding put_subject put_digests put_times
sd_jwt_claims b now digests jwk = put_holder jwk (
    put_all b.plain_claims (
      put_digests digests (
        put_subject b.subject (
          put "vct" (str b.vct) (put_times now b.validity_seconds (put "iss" (str b.issuer) []))))))

-- `~`, then each disclosure with another `~`
unfoldable pub disclosed : List Disclosure → String
disclosed [] = "~"
disclosed (d ∷ ds) = concat "~" (concat d.encoded (disclosed ds))

module _ {Key KeySet : Type 0} (p : Platform Key KeySet) where
  -- The loop over the selective claims: `random i` is the i-th draw of a salt.
  unfoldable pub disclose :
      (ℕ → Result (List ℕ)) → ℕ → List (String × Json) → Result (List Disclosure)
  disclose random i [] = ok []
  disclose random i ((name, value) ∷ claims) =
      let rest = disclose random (suc i) claims in
      and_then (new_disclosure p (random i) name value) λ d. and_then rest λ ds. ok (d ∷ ds)

  unfoldable pub jwk_to_map : Key → Result Members
  jwk_to_map key = and_then (p.marshal_key key) p.unmarshal_json

  unfoldable pub holder_jwk : Option Key → Result (Option Members)
  unfolding jwk_to_map
  holder_jwk none = ok none
  holder_jwk (some key) =
      and_then (map_error (prefixed "sdjwt: deriving holder public JWK: ") (p.public_key key))
        λ public.
          and_then (map_error (prefixed "sdjwt: encoding holder JWK: ") (jwk_to_map public))
            λ jwk. ok (some jwk)

  -- The `x5c` header is set if there is a chain; without one there is nothing to encode.
  unfoldable pub sign_sd_jwt : SigningKey → List (List ℕ) → String → Result String
  sign_sd_jwt key chain token = and_then (build_x5c_chain p chain) λ x5c.
      map_error (prefixed "sdjwt: signing: ")
        (p.sign_jwt (record { typ = "dc+sd-jwt"; kid = key.kid; x5c = x5c }) token)

  unfoldable pub build_sd_jwt :
      SigningKey → Time → (ℕ → Result (List ℕ)) → Builder Key → Result String
  unfolding disclose holder_jwk sign_sd_jwt
  build_sd_jwt key now random b =
      if b.vct == ""
      then err (plain "sdjwt: vct is required")
      else and_then (disclose random 0 b.selective_claims) λ ds.
        and_then (holder_jwk b.holder_key) λ jwk.
          and_then
            (map_error (prefixed "sdjwt: building claims: ")
              (p.build_jwt (sd_jwt_claims b now (map (digest p) ds) jwk)))
            λ token.
              and_then (sign_sd_jwt key b.x5c_chain token)
                λ signed. ok (concat signed (disclosed ds))
