-- ===== src/Accesstoken/Soundness.antt =====
-- Verify of internal/accesstoken/verifier.go: accepted tokens, and the answers to refused ones.
use mathlib.Core.Path.{ap₂}
use fikua_lab_issuer.Accesstoken.{
  Claims, Upstream, Verifier, is_revoked, key_set, refused, require_access_token_type, unreachable,
  verify, check_typ, typ_of, refreshed_revoked,
}
use fikua_lab_issuer.Platform.{Headers, Json, Platform, Time, Token, string_member}
use fikua_lab_issuer.Prelude.{
  String, String-eq, [], false, inl, inr, some, ◌∷◌, ◌≡◌, ◌≢◌, ◌⊎◌, List, arith, eq_iff, refl,
  Option, ap, none, not, sym, true, ◌==◌, ◌∙◌, Bool,
}
use fikua_lab_issuer.Prelude.Dict.{Dict, has}
use fikua_lab_issuer.Result.Exec.{GoError, invalid_token, ok, or_empty, Result, err}
use fikua_lab_issuer.Result.Raises.{
  IsException, OnError, Raises, raises_rules, service_unavailable-IsException,
  unauthorized-IsException, OnError-err, OnError-if, OnError-ok,
}
use fikua_lab_issuer.Result.Ensures.{
  Ensures-caught, Ensures-lift, Ensures-option, Ensures-pure, Ensures-require, Ensures-gets,
}

module _ {Key KeySet : Type 0} (p : Platform Key KeySet) where
  -- RFC 9068 §4 with the sender constraint: `claims` is what a token that has been signed by one of
  -- the keys carries, for a token that is typed, identified, not revoked and bound to a DPoP key.
  pub record IsAccepted (now : Time) (up : Upstream KeySet) (token : String) (v : Verifier KeySet)
      (claims : Claims) : Type 0 where
    pub keys : KeySet
    pub headers : Headers Key
    pub parsed : Token
    pub cnf : Dict String Json
    pub current_keys : (key_set now up v).0 ≡ ok keys
    pub one_signature : p.parse_jws token ≡ ok (headers ∷ [])
    pub typ : (or_empty headers.typ ≡ "at+jwt") ⊎ (or_empty headers.typ ≡ "application/at+jwt")
    pub signed : p.parse_with_key_set keys v.issuer v.audience up.checked_at token ≡ some parsed
    pub jti : parsed.jwt_id ≡ some claims.jti
    pub identified : claims.jti ≢ ""
    pub not_revoked : (is_revoked up.checked_at up claims.jti v).0 ≡ ok false
    pub confirmation : parsed.cnf ≡ some cnf
    pub jkt : string_member "jkt" cnf ≡ claims.jkt
    pub bound : claims.jkt ≢ ""
    pub record_id : or_empty (parsed.claim "issuance_record_id") ≡ claims.issuance_record_id
    pub c_nonce : or_empty (parsed.claim "c_nonce") ≡ claims.c_nonce

  -- The exceptions with code invalid_token, and status 401 or 503.
  abbrev pub IsInvalidToken : GoError → Type 0
  IsInvalidToken e = IsException 401 invalid_token e ⊎ IsException 503 invalid_token e

  refused-IsInvalidToken : (d : String) → IsInvalidToken (refused d)
  refused-IsInvalidToken d = inl (unauthorized-IsException invalid_token d)

  unreachable-IsInvalidToken : IsInvalidToken unreachable
  unreachable-IsInvalidToken = inr (service_unavailable-IsException invalid_token _)

  typ_of_errors : (r : Result (List (Headers Key))) → OnError IsInvalidToken (typ_of p r)
  unfolding typ_of
  typ_of_errors (ok (h ∷ [])) = OnError-ok _
  typ_of_errors (ok []) = OnError-err _ (refused-IsInvalidToken _)
  typ_of_errors (ok (_ ∷ _ ∷ _)) = OnError-err _ (refused-IsInvalidToken _)
  typ_of_errors (err e) = OnError-err _ (refused-IsInvalidToken _)

  check_typ_errors :
      (r : Result String) → OnError IsInvalidToken r → OnError IsInvalidToken (check_typ p r)
  unfolding check_typ
  check_typ_errors (ok typ) h =
      OnError-if _ _ _ (OnError-ok _) (OnError-err _ (refused-IsInvalidToken _))
  check_typ_errors (err e) h = OnError-err _ (h.at e refl)

  require_access_token_type_errors :
      (token : String) → OnError IsInvalidToken (require_access_token_type p token)
  unfolding require_access_token_type
  require_access_token_type_errors token =
      check_typ_errors (typ_of p (p.parse_jws token)) (typ_of_errors (p.parse_jws token))

  -- Whatever is wrong with a token, the error has the code invalid_token, with status 401, or 503
  -- where the authorization server does not answer.
  pub verify_errors :
      (now : Time) (up : Upstream KeySet) (token : String)
      → Raises IsInvalidToken (verify p now up token)
  unfolding verify
  verify_errors now up token =
      search
        (
          raises_rules, refused-IsInvalidToken, unreachable-IsInvalidToken,
          require_access_token_type_errors,
        )
        depth 40

  typ_of-ok :
      (r : Result (List (Headers Key))) (typ : String)
      → typ_of p r ≡ ok typ
      → (h : Headers Key) × (r ≡ ok (h ∷ [])) × (or_empty h.typ ≡ typ)
  unfolding typ_of
  typ_of-ok (ok (h ∷ [])) typ q = (h, refl, ground arith)
  typ_of-ok (ok []) typ q = cc
  typ_of-ok (ok (_ ∷ _ ∷ _)) typ q = cc
  typ_of-ok (err e) typ q = cc

  check_typ-ok :
      (r : Result String) (u : Unit {0})
      → check_typ p r ≡ ok u
      → (typ : String) × (r ≡ ok typ) × ((typ ≡ "at+jwt") ⊎ (typ ≡ "application/at+jwt"))
  unfolding check_typ
  check_typ-ok (ok typ) u q =
      (typ, refl, ground (arith, eq_iff typ "at+jwt", eq_iff typ "application/at+jwt"))
  check_typ-ok (err e) u q = cc

  require_access_token_type-ok :
      (token : String) (u : Unit {0})
      → require_access_token_type p token ≡ ok u
      → (h : Headers Key) × (p.parse_jws token ≡ ok (h ∷ []))
        × ((or_empty h.typ ≡ "at+jwt") ⊎ (or_empty h.typ ≡ "application/at+jwt"))
  unfolding require_access_token_type
  require_access_token_type-ok token u q =
      let (typ, read, allowed) = check_typ-ok (typ_of p (p.parse_jws token)) u q in
      let (h, single, same) = typ_of-ok (p.parse_jws token) typ read in (h, single, rw same allowed)

  -- Fetching keys touches nothing else.
  module _ (now : Time) (up : Upstream KeySet) (v : Verifier KeySet) where
    key_set_frame :
        ((key_set now up v).1.issuer ≡ v.issuer)
        × ((key_set now up v).1.audience ≡ v.audience)
        × ((key_set now up v).1.revoked ≡ v.revoked)
        × ((key_set now up v).1.revoked_exp ≡ v.revoked_exp)
    unfolding key_set
    key_set_frame = ground arith

    is_revoked-key_set :
        (jti : String)
        → (is_revoked up.checked_at up jti (key_set now up v).1).0
          ≡ (is_revoked up.checked_at up jti v).0
    unfolding is_revoked refreshed_revoked
    is_revoked-key_set jti =
        let (_, _, listed, exp) = key_set_frame in ground (arith, ap (has jti) listed, exp)

  revoked_false : (b : Bool) → not b ≡ true → b ≡ false
  revoked_false b h = ground arith

  jwt_id_present : (o : Option String) → not (or_empty o == "") ≡ true → o ≡ some (or_empty o)
  jwt_id_present none h = cc
  jwt_id_present (some s) h = refl

  module _ (now : Time) (up : Upstream KeySet) (token : String) (v : Verifier KeySet) where
    -- The claims of a verified token are those of an accepted one.
    pub verify-IsAccepted :
        (claims : Claims) (v' : Verifier KeySet)
        → verify p now up token v ≡ (ok claims, v')
        → IsAccepted now up token v claims
    unfolding verify
    verify-IsAccepted =
        (Ensures-caught _ _ _ _ λ keys found. Ensures-lift _ _ _ λ u typed. Ensures-gets _ _ _ (
          Ensures-option _ _ _ _ λ parsed signed. Ensures-require _ _ _ _ λ identified.
            Ensures-caught _ _ _ _ λ revoked listed. Ensures-require _ _ _ _ λ passed.
              Ensures-option _ _ _ _ λ cnf confirmed. Ensures-require _ _ _ _ λ bound.
                Ensures-pure _ _ (
                  let (h, single, typ) = require_access_token_type-ok token u typed in
                  let (issuer, audience, _, _) = key_set_frame now up v in
                  record {
                    keys = keys;
                    headers = h;
                    parsed = parsed;
                    cnf = cnf;
                    current_keys = found;
                    one_signature = single;
                    typ = typ;
                    signed =
                        ap₂ (λ i a. p.parse_with_key_set keys i a up.checked_at token) (sym issuer)
                          (sym audience)
                        ∙ signed;
                    jti = jwt_id_present parsed.jwt_id identified;
                    identified = ground (arith, eq_iff (or_empty parsed.jwt_id) "");
                    not_revoked =
                        sym (is_revoked-key_set now up v (or_empty parsed.jwt_id))
                        ∙ listed
                        ∙ ap ok (revoked_false revoked passed);
                    confirmation = confirmed;
                    jkt = refl;
                    bound = ground (arith, eq_iff (string_member "jkt" cnf) "");
                    record_id = refl;
                    c_nonce = refl;
                  }))).at
