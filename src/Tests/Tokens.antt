-- ===== src/Tests/Tokens.antt =====
-- The theorems about tokens, proofs, nonces and the replay set, at concrete inputs.
use mathlib.Core.List.{Memᴰ}
use mathlib.Core.List
use mathlib.Core.List.Perm
use fikua_lab_issuer.Session.{new_store, register_nonce, validate_nonce}
use fikua_lab_issuer.Accesstoken.{
  Claims, Upstream, Verifier, is_revoked, key_set, new, revoked_cache_ttl, verify,
  require_access_token_type,
}
use fikua_lab_issuer.Accesstoken.Caches.{
  Answer, IsBacked, is_revoked-IsBacked, is_revoked_recent, recorded,
}
use fikua_lab_issuer.Accesstoken.Soundness.{
  IsAccepted, IsInvalidToken, verify-IsAccepted, verify_errors,
}
use fikua_lab_issuer.Oauth2.Dpop.{validate_dpop_proof, accept_jti, htu_matches, only, within}
use fikua_lab_issuer.Oauth2.Dpop.Errors.{validate_dpop_proof_errors}
use fikua_lab_issuer.Oauth2.Dpop.Replay.{replay_refused, validate_dpop_proof_iff}
use fikua_lab_issuer.Oauth2.Dpop.Validity.{IsValidProof}
use fikua_lab_issuer.Oauth2.Fold.{equal_fold_ascii, equal_fold_ascii_iff, AreSameLetters}
use fikua_lab_issuer.Oauth2.Jti.{JtiStore, accept, jti_store_max_size}
use fikua_lab_issuer.Oauth2.Jti.Laws.{IsRangeOrder, accept_bounded, accept_lem}
use fikua_lab_issuer.Oid4vci.Proof.{validate_proof_jwt}
use fikua_lab_issuer.Oid4vci.Proof.Validity.{IsKeyProof, validate_proof_jwt_iff}
use fikua_lab_issuer.Platform.{bytes, second, string_member}
use fikua_lab_issuer.Prelude.{
  List, String, String-eq, [], arith, false, if◌then◌else◌, inr, length, not, refl, some, true, ◌*◌,
  ◌+◌, ◌==◌, ◌↔◌, ◌∷◌, ◌≡◌, ◌≢◌, ◌≤◌, ◌⊎◌,
}
use fikua_lab_issuer.Prelude.Dict.{has}
use fikua_lab_issuer.Result.Exec.{
  err, invalid_request, ok, pair_of, plain, caught, from_option, gets, lift, map_error, pure,
  require, ◌>>=◌,
}
use fikua_lab_issuer.Result.Raises.{IsException, Raises}
use fikua_lab_issuer.Session.Nonces.{
  accepted, accepted-le-registered, register, registered, validate, validate-register,
}
use fikua_lab_issuer.Tests.World.{runtime, upstream, world}
use fikua_lab_issuer.Accesstoken.Caches.{IsFetched, KeyCall}

abbrev seen : JtiStore
seen =
    (validate_dpop_proof world runtime "dpop" "POST" "https://issuer/oid4vci/v1/credential" "digest"
      []).1

dpop_run :
    (validate_dpop_proof world runtime "dpop" "POST" "https://issuer/oid4vci/v1/credential" "digest"
      []).0
    ≡ ok 7
unfolding validate_dpop_proof ◌>>=◌ require lift map_error from_option only equal_fold_ascii bytes
    htu_matches within accept_jti accept has pure
dpop_run = refl

validate_dpop_proof_iff_example :
    ((validate_dpop_proof world runtime "dpop" "POST" "https://issuer/oid4vci/v1/credential"
        "digest" []).0
      ≡ ok 7)
    ↔ IsValidProof world runtime "dpop" "POST" "https://issuer/oid4vci/v1/credential" "digest" [] 7
validate_dpop_proof_iff_example =
    validate_dpop_proof_iff world runtime "dpop" "POST" "https://issuer/oid4vci/v1/credential"
      "digest" [] 7

replay_refused_example :
    (validate_dpop_proof world runtime "dpop" "POST" "https://issuer/oid4vci/v1/nonce" "digest"
      seen).0
    ≢ ok 7
replay_refused_example =
    replay_refused world runtime runtime "dpop" "POST" "POST" "https://issuer/oid4vci/v1/credential"
      "https://issuer/oid4vci/v1/nonce" "digest" "digest" [] seen 7 7 (pair_of _ (ok 7) dpop_run)

validate_dpop_proof_errors_example :
    Raises
      (IsException 400 invalid_request)
      (validate_dpop_proof world runtime "access" "POST" "https://issuer/oid4vci/v1/nonce" "digest")
validate_dpop_proof_errors_example =
    validate_dpop_proof_errors world runtime "access" "POST" "https://issuer/oid4vci/v1/nonce"
      "digest"

abbrev verifier : Verifier String
verifier = new "https://as" "https://issuer"

abbrev claims : Claims
claims = record {
  issuance_record_id = "record-1";
  c_nonce = "nonce-1";
  jkt = "digest";
  jti = "token-1";
}

verify_run : (verify world (1010 * second) upstream "access" verifier).0 ≡ ok claims
unfolding verify ◌>>=◌ caught map_error key_set new lift require_access_token_type gets from_option
    require is_revoked has string_member pure
verify_run = refl

verify-IsAccepted_example : IsAccepted world (1010 * second) upstream "access" verifier claims
verify-IsAccepted_example =
    verify-IsAccepted world (1010 * second) upstream "access" verifier claims
      (verify world (1010 * second) upstream "access" verifier).1 (pair_of _ (ok claims) verify_run)

verify_errors_example :
    Raises (IsInvalidToken world) (verify world (1010 * second) upstream "proof")
verify_errors_example = verify_errors world (1010 * second) upstream "proof"

-- A verifier that has fetched, and a server that has gone away since.
abbrev fetched : Verifier String
fetched = record verifier {
  keys = some "keys";
  keys_exp = 1060 * second;
  revoked = ("token-9", tt) ∷ [];
  revoked_exp = 1002 * second;
}

abbrev down : Upstream String
down = record {
  fetch_keys = err (plain "down");
  keys_at = 1110 * second;
  checked_at = 1110 * second;
  revoked_at = 1120 * second;
  fetch_revoked = err (plain "down");
}

-- Two requests in an outage
abbrev key_calls : List (KeyCall String)
key_calls =
    record { called_at = 1100 * second; upstream = down }
    ∷ record { called_at = 1200 * second; upstream = down }
    ∷ []

abbrev answer : Answer
answer = record { fetched_at = 1000 * second; listed = ("token-9", tt) ∷ [] }

is_revoked-IsBacked_example :
    IsBacked
      (recorded (1001 * second) upstream fetched (answer ∷ []))
      (is_revoked (1001 * second) upstream "token-9" fetched).1
is_revoked-IsBacked_example =
    is_revoked-IsBacked (1001 * second) upstream "token-9" fetched (answer ∷ [])
      (inr (answer, Memᴰ.head refl, refl, refl))

is_revoked_recent_example :
    (a : Answer) × (true ≡ has "token-9" a.listed)
    × (IsFetched (1001 * second) down "token-9" a
        ⊎ (Memᴰ a (answer ∷ []) × (1001 * second ≤ a.fetched_at + revoked_cache_ttl)))
unfolding is_revoked has
is_revoked_recent_example =
    is_revoked_recent (1001 * second) down "token-9" fetched fetched (answer ∷ []) true
      (omega arith) (inr (answer, Memᴰ.head refl, refl, refl)) revoked_run
  where
    revoked_run : is_revoked (1001 * second) down "token-9" fetched ≡ (ok true, fetched)
    revoked_run = refl

validate_proof_jwt_iff_example :
    ((validate_proof_jwt world (1010 * second) "proof" "https://issuer" seen).0 ≡ ok 9)
    ↔ IsKeyProof world (1010 * second) "proof" "https://issuer" 9
validate_proof_jwt_iff_example =
    validate_proof_jwt_iff world (1010 * second) "proof" "https://issuer" seen 9

accepted-le-registered_example :
    accepted "n" (register "n" ∷ validate "n" ∷ validate "n" ∷ []) new_store
    ≤ registered "n" (register "n" ∷ validate "n" ∷ validate "n" ∷ [])
accepted-le-registered_example =
    accepted-le-registered "n" (register "n" ∷ validate "n" ∷ validate "n" ∷ [])

validate-register_example :
    ((validate_nonce "n" (register_nonce "n" new_store)).0 ≡ true)
    × ((validate_nonce "n" (validate_nonce "n" (register_nonce "n" new_store)).1).0 ≡ false)
    × (has "m" (validate_nonce "n" (register_nonce "n" new_store)).1.nonces
        ≡ (if ◌==◌ {A = String} "n" "m" then false else has "m" new_store.nonces))
validate-register_example = validate-register "n" "m" new_store

same_order : List String → List String
same_order ks = ks

same_order-IsRangeOrder : IsRangeOrder same_order
unfolding same_order
same_order-IsRangeOrder ks = List.Perm.refl _

abbrev one_id : JtiStore
one_id = ("a", tt) ∷ []

accept_bounded_example :
    (length (accept same_order "b" one_id).1 ≤ jti_store_max_size)
    × (has "b" (accept same_order "b" one_id).1 ≡ true)
accept_bounded_example = accept_bounded same_order "b" one_id same_order-IsRangeOrder (omega arith)

accept_lem_example :
    ((accept same_order "a" one_id).0 ≡ not (has "a" one_id))
    × (has "b" (accept same_order "a" one_id).1
        ≡ (if ◌==◌ {A = String} "a" "b" then true else has "b" one_id))
accept_lem_example = accept_lem same_order "a" "b" one_id (omega arith)

equal_fold_ascii_iff_example :
    (equal_fold_ascii "Post" "POST" ≡ true) ↔ AreSameLetters (bytes "Post") (bytes "POST")
equal_fold_ascii_iff_example = equal_fold_ascii_iff "Post" "POST"
