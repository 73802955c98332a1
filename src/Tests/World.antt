-- ===== src/Tests/World.antt =====
-- A platform with three tokens in it: a DPoP proof by the key 7, an access token that is bound to
-- that key, and a key proof by the key 9.
use fikua_lab_issuer.Accesstoken.{Upstream}
use fikua_lab_issuer.Issuance.Record.{Record}
use fikua_lab_issuer.Issuance.State.{Setup}
use fikua_lab_issuer.Oauth2.Dpop.{Runtime}
use fikua_lab_issuer.Platform.{Headers, Platform, Time, Token, no_members, second, str}
use fikua_lab_issuer.Prelude.{
  Bool, List, Option, String, String-eq, [], false, if◌then◌else◌, none, some, true, ℕ, ◌*◌, ◌==◌,
  ◌∷◌,
}
use fikua_lab_issuer.Result.Exec.{err, ok, plain}
use fikua_lab_issuer.Prelude.{◌+◌}
use fikua_lab_issuer.Prelude.Int.{pos}
use fikua_lab_issuer.Platform.{member}

abbrev dpop_headers : Headers ℕ
dpop_headers = record {
  typ = some "dpop+jwt";
  algorithm = some "ES256";
  jwk = some 7;
  has_x5c = false;
  has_kid = false;
}

abbrev access_headers : Headers ℕ
access_headers = record {
  typ = some "at+jwt";
  algorithm = some "ES256";
  jwk = none;
  has_x5c = false;
  has_kid = true;
}

abbrev proof_headers : Headers ℕ
proof_headers = record {
  typ = some "openid4vci-proof+jwt";
  algorithm = some "ES256";
  jwk = some 9;
  has_x5c = false;
  has_kid = false;
}

abbrev issued : Time
issued = 1000 * second

abbrev dpop_claim : String → Option String
dpop_claim name =
    if name == "htm"
    then some "post"
    else if name == "htu"
    then some "https://issuer/oid4vci/v1/credential"
    else if name == "jti"
    then some "proof-1"
    else if name == "ath"
    then some "digest"
    else none

abbrev dpop_token : Token
dpop_token = record {
  claim = dpop_claim;
  issued_at = some issued;
  audience = [];
  jwt_id = some "proof-1";
  cnf = none;
}

abbrev access_claim : String → Option String
access_claim name =
    if name == "issuance_record_id"
    then some "record-1"
    else if name == "c_nonce"
    then some "nonce-1"
    else none

abbrev access_token : Token
access_token = record {
  claim = access_claim;
  issued_at = some issued;
  audience = [];
  jwt_id = some "token-1";
  cnf = some (("jkt", str "digest") ∷ []);
}

abbrev proof_claim : String → Option String
proof_claim name = if name == "nonce" then some "nonce-1" else none

abbrev proof_token : Token
proof_token = record {
  claim = proof_claim;
  issued_at = some issued;
  audience = "https://issuer" ∷ [];
  jwt_id = none;
  cnf = none;
}

abbrev digest : List ℕ → String
digest [] = ""
digest (b ∷ bs) = "digest"

abbrev pub world : Platform ℕ String
world = record {
  parse_jws = λ text.
      if text == "dpop"
      then ok (dpop_headers ∷ [])
      else if text == "access"
      then ok (access_headers ∷ [])
      else if text == "proof"
      then ok (proof_headers ∷ [])
      else err (plain "not a JWS");
  parse_with_key = λ key text.
      if text == "dpop"
      then some dpop_token
      else if text == "proof"
      then some proof_token
      else none;
  parse_with_key_set =
      λ keys issuer audience now text. if text == "access" then some access_token else none;
  parse_unverified = λ text. if text == "proof" then some proof_token else none;
  has_private = λ key. false;
  thumbprint = λ key. ok (key ∷ []);
  sha256 = λ text. text;
  base64url = digest;
  parse_url = λ text. none;
  url_string = λ url. url.others;
  base64 = digest;
  marshal_json = λ value. ok "{\"given_name\":\"Ada\"}";
  unmarshal_json = λ text. ok (member "given_name" (str "Ada") no_members);
  zlib = λ text. ok text;
  add_certificate = λ text. ok tt;
  build_jwt = λ claims. ok "claims";
  sign_jwt = λ headers claims. ok "signed";
  public_key = λ key. ok key;
  marshal_key = λ key. ok "key";
  ec_point = λ key. some (some (key ∷ []), some (key ∷ []));
  to_lower = λ text. text;
  to_upper = λ text. if text == "g" then "G" else text;
  upper_first_byte = λ text. text;
  type_name = λ key. "key";
  format_value = λ value. "value";
  add_days = λ days now. now + days * 86400 * second;
  format_tdate = λ now. "date";
  marshal_cbor = λ value. ok (1 ∷ []);
  sign_hash = λ hash. ok (2 ∷ []);
  parse_signature = λ der. ok (pos 258, pos 7);
}

-- An authorization server that answers.
abbrev pub upstream : Upstream String
upstream = record {
  fetch_keys = ok "keys";
  keys_at = 1010 * second;
  checked_at = 1010 * second;
  revoked_at = 1011 * second;
  fetch_revoked = ok (("token-9", tt) ∷ []);
}

abbrev pub runtime : Runtime
runtime = record {
  now = 1010 * second;
  order = λ ks. ks;
  range = λ claims. claims;
  random = λ i. ok (i ∷ []);
  subject = "subject";
}

abbrev pub setup : Setup
setup = record { base_url = "https://issuer"; issuer_key = record { kid = "kid"; x5c_chain = [] } }

abbrev pub in_order : List Record → List Record
in_order recs = recs

abbrev pub as_given : (Record → Record → Bool) → List Record → List Record
as_given less recs = recs
