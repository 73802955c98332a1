-- ===== src/Crypto/Keys.antt =====
-- internal/crypto/signingkey.go: the key with its public JWK. BuildX5CChain is in Statuslist/Token.
use fikua_lab_issuer.Platform.{Platform}
use fikua_lab_issuer.Prelude.{List, String, String-eq, [], ℕ, ◌∷◌, ◌≡◌}
use fikua_lab_issuer.Result.Exec.{Result, and_then, and_then-ok, ok}
use fikua_lab_issuer.Statuslist.Token.{SigningKey, build_x5c_chain}
use fikua_lab_issuer.Prelude.{ap, sym, ◌∙◌}
use fikua_lab_issuer.Result.Exec.{ok_injective}

-- A public JWK with the fields that the program sets on it
pub record PublicJwk (Key : Type 0) : Type 0 where
  pub key : Key
  pub kid : String
  pub alg : String
  pub use_for : String
  pub x5c : List String

pub record SigningKeyPair (Key Signer : Type 0) : Type 0 where
  pub kid : String
  pub signer : Signer
  pub public : PublicJwk Key
  pub x5c_chain : List (List ℕ)

-- What the credentials and the status list use of a key
unfoldable pub signing_key : {Key Signer : Type 0} → SigningKeyPair Key Signer → SigningKey
signing_key k = record { kid = k.kid; x5c_chain = k.x5c_chain }

module _ {Key KeySet Signer : Type 0} (p : Platform Key KeySet)
    (import_public : Signer → Result Key) where
  -- `import_public` is jwk.Import of the signer's public key. Setting a field does not fail.
  unfoldable pub build_public_jwk : Signer → List (List ℕ) → Result (PublicJwk Key)
  build_public_jwk signer cert_chain = and_then (import_public signer) λ key.
      and_then (p.thumbprint key) λ thumbprint. and_then (build_x5c_chain p cert_chain) λ x5c.
        ok (record {
          key = key;
          kid = p.base64url thumbprint;
          alg = "ES256";
          use_for = "sig";
          x5c = x5c;
        })

  unfoldable pub new_remote : Signer → List (List ℕ) → Result (SigningKeyPair Key Signer)
  unfolding build_public_jwk
  new_remote signer cert_chain =
      and_then (build_public_jwk signer cert_chain)
        λ jwk. ok (record { kid = jwk.kid; signer = signer; public = jwk; x5c_chain = cert_chain })

  -- `marshal` is json.Marshal of the set that holds a key alone.
  unfoldable pub jwk_set_json :
      (marshal : List (PublicJwk Key) → Result String) → SigningKeyPair Key Signer → Result String
  jwk_set_json marshal k = marshal (k.public ∷ [])

  -- The key that the JWK Set publishes has the id and the chain that the credentials name, and the id
  -- is the thumbprint of the key.
  pub new_remote-public :
      (signer : Signer) (cert_chain : List (List ℕ)) (k : SigningKeyPair Key Signer)
      → new_remote signer cert_chain ≡ ok k
      → (k.public.kid ≡ (signing_key k).kid)
        × (build_x5c_chain p (signing_key k).x5c_chain ≡ ok k.public.x5c)
        × (thumbprint : List ℕ) × (p.thumbprint k.public.key ≡ ok thumbprint)
        × ((signing_key k).kid ≡ p.base64url thumbprint)
  unfolding new_remote build_public_jwk signing_key
  new_remote-public signer cert_chain k h =
      let (jwk, built, e) = and_then-ok _ _ k h in
      let (key, imported, built') = and_then-ok _ _ jwk built in
      let (thumbprint, printed, built'') = and_then-ok _ _ jwk built' in
      let (x5c, chain, e') = and_then-ok _ _ jwk built'' in
      let ek = ok_injective _ _ e in
      let ej = ok_injective _ _ e' in
      (
        sym (ap (λ o. o.public.kid) ek) ∙ ap (λ o. o.kid) ek,
        sym (ap (λ o. build_x5c_chain p o.x5c_chain) ek)
            ∙ chain
            ∙ ap (λ x. ok x) (ap (λ o. o.x5c) ej ∙ ap (λ o. o.public.x5c) ek),
        thumbprint,
        sym (ap (λ o. p.thumbprint o.key) ej ∙ ap (λ o. p.thumbprint o.public.key) ek) ∙ printed,
        sym (ap (λ o. o.kid) ek) ∙ sym (ap (λ o. o.kid) ej),
      )
