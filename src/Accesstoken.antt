-- ===== src/Accesstoken.antt =====
-- internal/accesstoken/verifier.go: access tokens checked against the authorization server's keys
-- and its list of revoked tokens, both cached. The answer of a fetch over HTTP, with its decoding,
-- is an argument: `Upstream` holds what a request would get if it fetched, and what the clock reads
-- after it: a fetch may take as long as the client's timeout.
pub mod Caches
pub mod Soundness
use fikua_lab_issuer.Oauth2.Jti.{keys}
use fikua_lab_issuer.Platform.{Headers, Platform, Time, second, string_member}
use fikua_lab_issuer.Prelude.{
  Bool, List, Option, String, String-eq, [], concat, if◌then◌else◌, ltb, none, not, some, ℕ, ◌*◌,
  ◌+◌, ◌==◌, ◌||◌, ◌∷◌,
}
use fikua_lab_issuer.Prelude.Dict.{Dict, has}
use fikua_lab_issuer.Result.Exec.{
  Exec, GoError, Result, caught, err, from_option, gets, invalid_token, lift, ok, or_empty, pure,
  require, service_unavailable, unauthorized, ◌>>=◌, ◌>>◌,
}

pub record Claims : Type 0 where
  pub issuance_record_id : String
  pub c_nonce : String
  pub jkt : String
  pub jti : String

pub record Verifier (KeySet : Type 0) : Type 0 where
  pub issuer : String
  pub audience : String
  pub keys : Option KeySet
  pub keys_exp : Time
  pub revoked : Dict String (Unit {0})
  pub revoked_exp : Time

pub record Upstream (KeySet : Type 0) : Type 0 where
  pub fetch_keys : Result KeySet
  -- `time.Now()` of keySet after a fetch
  pub keys_at : Time
  -- What the clock reads once keySet has returned: for the parser, and at the start of isRevoked.
  pub checked_at : Time
  -- `time.Now()` of isRevoked after a fetch
  pub revoked_at : Time
  pub fetch_revoked : Result (Dict String (Unit {0}))

abbrev pub jwks_cache_ttl : ℕ
jwks_cache_ttl = 60 * second

abbrev pub revoked_cache_ttl : ℕ
revoked_cache_ttl = 2 * second

abbrev pub token_type : String
token_type = "at+jwt"

module _ {KeySet : Type 0} where
  -- New: the URLs serve only the fetches, which are arguments here.
  unfoldable pub new : (issuer audience : String) → Verifier KeySet
  new issuer audience = record {
    issuer = issuer;
    audience = audience;
    keys = none;
    keys_exp = 0;
    revoked = [];
    revoked_exp = 0;
  }

  -- After a fetch: new keys are cached; a failure leaves the keys that are there.
  -- `at` is the time after it.
  refreshed_keys : Time → Result KeySet → Option KeySet → Exec (Verifier KeySet) KeySet
  refreshed_keys at (ok keys) _ v =
      (ok keys, record v { keys = some keys; keys_exp = at + jwks_cache_ttl })
  refreshed_keys at (err e) (some keys) v = (ok keys, v)
  refreshed_keys at (err e) none v = (err e, v)

  cached_keys : Time → Option KeySet → Time → Option KeySet
  cached_keys now none exp = none
  cached_keys now (some keys) exp = if ltb now exp then some keys else none

  key_set_from : Option KeySet → Time → Upstream KeySet → Exec (Verifier KeySet) KeySet
  key_set_from (some keys) now up v = (ok keys, v)
  key_set_from none now up v = refreshed_keys up.keys_at up.fetch_keys v.keys v

  unfoldable pub key_set : Time → Upstream KeySet → Exec (Verifier KeySet) KeySet
  unfolding key_set_from refreshed_keys cached_keys
  key_set now up v = key_set_from (cached_keys now v.keys v.keys_exp) now up v

  refreshed_revoked : Time → String → Result (Dict String (Unit {0})) → Exec (Verifier KeySet) Bool
  refreshed_revoked at jti (ok revoked) v =
      (ok (has jti revoked), record v { revoked = revoked; revoked_exp = at + revoked_cache_ttl })
  refreshed_revoked at jti (err e) v = (err e, v)

  unfoldable pub is_revoked : Time → Upstream KeySet → String → Exec (Verifier KeySet) Bool
  unfolding refreshed_revoked
  is_revoked now up jti v =
      if ltb v.revoked_exp now
      then refreshed_revoked up.revoked_at jti up.fetch_revoked v
      else (ok (has jti v.revoked), v)

abbrev pub refused : String → GoError
refused description = unauthorized invalid_token description

abbrev pub unreachable : GoError
unreachable =
    service_unavailable invalid_token "Cannot verify access token: authorization server unreachable"

module _ {Key KeySet : Type 0} (p : Platform Key KeySet) where
  typ_of : Result (List (Headers Key)) → Result String
  typ_of (ok (headers ∷ [])) = ok (or_empty headers.typ)
  typ_of _ = err (refused "Invalid access token")

  check_typ : Result String → Result (Unit {0})
  check_typ (ok typ) =
      if typ == token_type || typ == concat "application/" token_type
      then ok tt
      else err (refused "Access token typ must be at+jwt")
  check_typ (err e) = err e

  unfoldable pub require_access_token_type : String → Result (Unit {0})
  unfolding typ_of check_typ
  require_access_token_type token = check_typ (typ_of (p.parse_jws token))

  unfoldable pub verify : Time → Upstream KeySet → String → Exec (Verifier KeySet) Claims
  verify now up token = do
    keys ← caught (λ _. unreachable) (key_set now up)
    lift (require_access_token_type token)
    v ← gets (λ v. v)
    parsed ← lift (
        from_option (p.parse_with_key_set keys v.issuer v.audience up.checked_at token)
          (refused "Invalid access token"))
    require (not (or_empty parsed.jwt_id == "")) (refused "Invalid access token")
    revoked ← caught (λ _. unreachable) (is_revoked up.checked_at up (or_empty parsed.jwt_id))
    require (not revoked) (refused "Access token has been revoked")
    cnf ← lift (from_option parsed.cnf (refused "Access token is not DPoP-bound"))
    require (not (string_member "jkt" cnf == "")) (refused "Access token is not DPoP-bound")
    pure (record {
      issuance_record_id = or_empty (parsed.claim "issuance_record_id");
      c_nonce = or_empty (parsed.claim "c_nonce");
      jkt = string_member "jkt" cnf;
      jti = or_empty parsed.jwt_id;
    })
