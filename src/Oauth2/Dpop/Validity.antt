-- ===== src/Oauth2/Dpop/Validity.antt =====
-- ValidateDPoPProof of internal/oauth2/dpop.go: the valid proofs, apart from the order of the checks.
use fikua_lab_issuer.Oauth2.Dpop.{
  Runtime, dpop_iat_window, htu_matches, validate_dpop_proof, accept_jti, only, within,
}
use fikua_lab_issuer.Oauth2.Fold.{equal_fold_ascii}
use fikua_lab_issuer.Oauth2.Jti.{JtiStore, accept}
use fikua_lab_issuer.Platform.{Headers, Platform, Time, Token}
use fikua_lab_issuer.Prelude.{
  String, String-eq, [], false, some, true, ◌+◌, ◌∷◌, ◌≡◌, ◌≢◌, ◌≤◌, ◌⊎◌, Bool, List, ap, arith,
  eq_iff, if◌then◌else◌, ℕ, ◌==◌, ◌↔◌, ◌∙◌, refl,
}
use fikua_lab_issuer.Prelude.Dict.{has}
use fikua_lab_issuer.Result.Exec.{ok, or_empty, Exec, pure}
use fikua_lab_issuer.Result.Ensures.{
  Ensures-bind, Ensures-mapped, Ensures-option, Ensures-pure, Ensures-require, run-bind, run-mapped,
  run-option, run-require,
}
use fikua_lab_issuer.Oauth2.Jti.Laws.{accept-true}

pub only-eq-some : {A : Type 0} (as' : List A) (a : A) → only as' ≡ some a → as' ≡ a ∷ []
unfolding only
only-eq-some [] a h = cc
only-eq-some (x ∷ []) a h = ground arith
only-eq-some (x ∷ y ∷ r) a h = cc

pub within_iff :
    (window now iat : ℕ)
    → (within window now iat ≡ true) ↔ ((now ≤ iat + window) × (iat ≤ now + window))
unfolding within
within_iff window now iat = ground arith

abbrev jti_check : (List String → List String) → String → Exec JtiStore Bool
jti_check order jti = if jti == "" then pure false else accept_jti order jti

jti_check_sound :
    (order : List String → List String) (jti : String) (s : JtiStore)
    → (jti_check order jti s).0 ≡ ok true
    → (jti ≢ "") × (has jti s ≡ false) × (has jti (jti_check order jti s).1 ≡ true)
unfolding accept_jti pure
jti_check_sound order jti s h = ground (arith, eq_iff jti "", accept-true order jti s)

jti_check_complete :
    (order : List String → List String) (jti : String) (s : JtiStore)
    → jti ≢ ""
    → has jti s ≡ false
    → jti_check order jti s ≡ (ok true, (accept order jti s).1)
unfolding accept_jti accept
jti_check_complete order jti s h k = ground (arith, eq_iff jti "")

module _ {Key KeySet : Type 0} (p : Platform Key KeySet) where
  -- RFC 9449 §4.3, for a proof in the header, the request it is presented with, and the ids seen.
  pub record IsValidProof (rt : Runtime) (header htm htu ath : String) (seen : JtiStore) (key : Key)
      : Type 0 where
    pub headers : Headers Key
    pub token : Token
    pub iat : Time
    pub present : header ≢ ""
    pub one_signature : p.parse_jws header ≡ ok (headers ∷ [])
    pub typ : or_empty headers.typ ≡ "dpop+jwt"
    pub jwk : headers.jwk ≡ some key
    pub no_private : p.has_private key ≡ false
    pub algorithm : or_empty headers.algorithm ≡ "ES256"
    pub signed : p.parse_with_key key header ≡ some token
    pub method : equal_fold_ascii (or_empty (token.claim "htm")) htm ≡ true
    pub url : htu_matches p (or_empty (token.claim "htu")) htu ≡ true
    pub issued : token.issued_at ≡ some iat
    pub not_old : rt.now ≤ iat + dpop_iat_window
    pub not_ahead : iat ≤ rt.now + dpop_iat_window
    pub jti : or_empty (token.claim "jti") ≢ ""
    pub unseen : has (or_empty (token.claim "jti")) seen ≡ false
    pub token_hash : (ath ≡ "") ⊎ (or_empty (token.claim "ath") ≡ ath)

  module _ (rt : Runtime) (header htm htu ath : String) (s : JtiStore) where
    -- What a successful validation leaves: a valid proof, and its id in the set.
    abbrev pub Accepted : Key → JtiStore → Type 0
    Accepted key s' =
        (v : IsValidProof rt header htm htu ath s key) × (has (or_empty (v.token.claim "jti")) s'
          ≡ true)

    pub validate_dpop_proof-Accepted :
        (key : Key) (s' : JtiStore)
        → validate_dpop_proof p rt header htm htu ath s ≡ (ok key, s')
        → Accepted key s'
    unfolding validate_dpop_proof
    validate_dpop_proof-Accepted =
        (Ensures-require _ _ _ _ λ present. Ensures-mapped _ _ _ _ λ signatures parsed.
          Ensures-option _ _ _ _ λ headers single. Ensures-require _ _ _ _ λ typ.
            Ensures-option _ _ _ _ λ k jwk. Ensures-require _ _ _ _ λ public.
              Ensures-require _ _ _ _ λ alg. Ensures-option _ _ _ _ λ token signed.
                Ensures-require _ _ _ _ λ method. Ensures-require _ _ _ _ λ url.
                  Ensures-option _ _ _ _ λ iat issued. Ensures-require _ _ _ _ λ recent.
                    Ensures-bind (jti_check rt.order (or_empty (token.claim "jti"))) _ _
                      λ fresh found. Ensures-require _ _ _ _ λ replay.
                        Ensures-require _ _ _ _ λ hash. Ensures-pure _ _ (
                          let jti = or_empty (token.claim "jti") in
                          let (nonempty, unseen, seen) =
                            jti_check_sound rt.order jti s (rw (← replay) found) in
                          (
                            record {
                              headers = headers;
                              token = token;
                              iat = iat;
                              present = ground (arith, eq_iff header "");
                              one_signature =
                                  parsed ∙ ap ok (only-eq-some signatures headers single);
                              typ = (eq_iff _ _).0 typ;
                              jwk = jwk;
                              no_private = ground arith;
                              algorithm = (eq_iff _ _).0 alg;
                              signed = signed;
                              method = method;
                              url = url;
                              issued = issued;
                              not_old = ((within_iff _ _ _).0 recent).0;
                              not_ahead = ((within_iff _ _ _).0 recent).1;
                              jti = nonempty;
                              unseen = unseen;
                              token_hash =
                                  ground (
                                    arith,
                                    eq_iff ath "",
                                    eq_iff (or_empty (token.claim "ath")) ath,
                                  );
                            },
                            seen,
                          ))).at

    -- Conversely, a valid proof runs through every check.
    pub valid_proof :
        (key : Key) (v : IsValidProof rt header htm htu ath s key)
        → validate_dpop_proof p rt header htm htu ath s
          ≡ (ok key, (accept rt.order (or_empty (v.token.claim "jti")) s).1)
    unfolding validate_dpop_proof only pure
    valid_proof key v =
        run-require _ _ _ _ (ground (arith, eq_iff header ""))
        ∙ run-mapped _ _ (v.headers ∷ []) _ _ v.one_signature
        ∙ run-option _ v.headers _ _ _ refl
        ∙ run-require _ _ _ _ ((eq_iff _ _).1 v.typ)
        ∙ run-option _ key _ _ _ v.jwk
        ∙ run-require _ _ _ _ (rw v.no_private)
        ∙ run-require _ _ _ _ ((eq_iff _ _).1 v.algorithm)
        ∙ run-option _ v.token _ _ _ v.signed
        ∙ run-require _ _ _ _ v.method
        ∙ run-require _ _ _ _ v.url
        ∙ run-option _ v.iat _ _ _ v.issued
        ∙ run-require _ _ _ _ ((within_iff _ _ _).1 (v.not_old, v.not_ahead))
        ∙ run-bind (jti_check rt.order (or_empty (v.token.claim "jti"))) true _ _ _
            (jti_check_complete rt.order _ s v.jti v.unseen)
        ∙ run-require _ _ _ _ refl
        ∙ run-require _ _ _ _
            (ground (arith, eq_iff ath "", eq_iff (or_empty (v.token.claim "ath")) ath))
