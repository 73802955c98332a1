-- ===== src/Sdjwt/Presented.antt =====
-- internal/sdjwt: what a holder reads in a built SD-JWT.
use fikua_lab_issuer.Platform.{Json, Platform, SetHeaders, array, bytes, item, no_items, str}
use fikua_lab_issuer.Prelude.{
  List, String, String-eq, [], ap, map, refl, suc, sym, true, ℕ, ◌++◌, ◌∷◌, ◌≡◌,
}
use fikua_lab_issuer.Prelude.Texts.{lacks, split}
use fikua_lab_issuer.Result.Exec.{Result, and_then-ok, ok, ok_injective}
use fikua_lab_issuer.Sdjwt.Builder.{disclose, disclosed}
use fikua_lab_issuer.Sdjwt.Disclosure.{Disclosure, digest, digest_of, new_disclosure}
use fikua_lab_issuer.Prelude.{concat, ◌∙◌}
use fikua_lab_issuer.Prelude.Texts.{split-concat, split-separator}
use fikua_lab_issuer.Platform.{Members, Time}
use fikua_lab_issuer.Prelude.{Option}
use fikua_lab_issuer.Result.Exec.{map_error-ok, unless-ok}
use fikua_lab_issuer.Sdjwt.Builder.{Builder, build_sd_jwt, holder_jwk, sd_jwt_claims, sign_sd_jwt}
use fikua_lab_issuer.Statuslist.Token.{SigningKey, build_x5c_chain}

-- The code of `~`
abbrev pub tilde : ℕ
tilde = 126

-- `encoded` is the encoding of a salt, the claim's name and its value.
pub IsDisclosureOf : {Key KeySet : Type 0} → Platform Key KeySet → String × Json → String → Type 0
IsDisclosureOf p (name, value) encoded =
    (salt : List ℕ) × (json : String) × (p.marshal_json
        (array (item (str (p.base64url salt)) (item (str name) (item value no_items))))
      ≡ ok json)
    × (encoded ≡ p.base64url (bytes json))

-- One disclosure for each claim, in order.
abbrev pub AreDisclosuresOf :
    {Key KeySet : Type 0} → Platform Key KeySet → List (String × Json) → List String → Type 0
AreDisclosuresOf p [] [] = Unit {0}
AreDisclosuresOf p [] (e ∷ es) = ⊥
AreDisclosuresOf p (c ∷ cs) [] = ⊥
AreDisclosuresOf p (c ∷ cs) (e ∷ es) = IsDisclosureOf p c e × AreDisclosuresOf p cs es

abbrev encodings : List Disclosure → List String
encodings [] = []
encodings (d ∷ ds) = d.encoded ∷ encodings ds

-- Neither base64url nor a compact JWS has a `~`.
pub record IsTildeFree {Key KeySet : Type 0} (p : Platform Key KeySet) : Type 0 where
  pub base64url_lacks : (bs : List ℕ) → lacks tilde (p.base64url bs) ≡ true
  pub jws_lacks : (h : SetHeaders) (t s : String) → p.sign_jwt h t ≡ ok s → lacks tilde s ≡ true

module _ {Key KeySet : Type 0} (p : Platform Key KeySet) where
  new_disclosure-IsDisclosureOf :
      (drawn : Result (List ℕ)) (name : String) (value : Json) (d : Disclosure)
      → new_disclosure p drawn name value ≡ ok d
      → IsDisclosureOf p (name, value) d.encoded
  unfolding new_disclosure IsDisclosureOf
  new_disclosure-IsDisclosureOf drawn name value d h =
      let (salt, h1, h2) = and_then-ok _ _ d h in
      let (json, h3, h4) = and_then-ok _ _ d h2 in
      (salt, json, h3, ap (λ o. o.encoded) (sym (ok_injective _ _ h4)))

  disclose-AreDisclosuresOf :
      (random : ℕ → Result (List ℕ)) (i : ℕ) (claims : List (String × Json)) (ds : List Disclosure)
      → disclose p random i claims ≡ ok ds
      → AreDisclosuresOf p claims (encodings ds)
  unfolding disclose
  disclose-AreDisclosuresOf random i [] ds h = rw (sym (ok_injective _ _ h)) tt
  disclose-AreDisclosuresOf random i ((name, value) ∷ claims) ds h =
      let (d, h1, h2) = and_then-ok _ _ ds h in
      let (rest, h3, h4) = and_then-ok _ _ ds h2 in
      rw (sym (ok_injective _ _ h4)) (
        new_disclosure-IsDisclosureOf (random i) name value d h1,
        disclose-AreDisclosuresOf random (suc i) claims rest h3,
      )

  map-digest : (ds : List Disclosure) → map (digest p) ds ≡ map (digest_of p) (encodings ds)
  unfolding digest
  map-digest [] = refl
  map-digest (d ∷ ds) = ap (λ t. digest_of p d.encoded ∷ t) (map-digest ds)

  encoded_lacks :
      IsTildeFree p → (c : String × Json) (e : String) → IsDisclosureOf p c e → lacks tilde e ≡ true
  unfolding IsDisclosureOf
  encoded_lacks free (name, value) e (salt, json, h, k) = rw k (free.base64url_lacks (bytes json))

  split-disclosed :
      IsTildeFree p
      → (claims : List (String × Json)) (ds : List Disclosure)
      → AreDisclosuresOf p claims (encodings ds)
      → split tilde (disclosed ds) ≡ "" ∷ (encodings ds ++ "" ∷ [])
  unfolding disclosed split
  split-disclosed free [] [] h = split-separator "~" ""
  split-disclosed free [] (d ∷ ds) h = absurd h
  split-disclosed free (c ∷ cs) [] h = absurd h
  split-disclosed free (c ∷ cs) (d ∷ ds) (h, k) =
      split-separator "~" (concat d.encoded (disclosed ds))
      ∙ ap (λ t. "" ∷ t)
          (split-concat tilde d.encoded (disclosed ds) (encodings ds ++ "" ∷ [])
            (encoded_lacks free c d.encoded h) (split-disclosed free cs ds k))

  -- The parts of the text at `~` are a signed JWT, the encoded disclosures and an empty text, and the
  -- JWT is signed over claims made with the digests of those disclosures.
  pub record IsPresented (key : SigningKey) (now : Time) (b : Builder Key) (built : String)
      : Type 0 where
    pub jwt : String
    pub encoded : List String
    pub jwk : Option Members
    pub token : String
    pub x5c : List String
    pub parts : split tilde built ≡ jwt ∷ (encoded ++ "" ∷ [])
    pub disclosures : AreDisclosuresOf p b.selective_claims encoded
    pub holder : holder_jwk p b.holder_key ≡ ok jwk
    pub claims : p.build_jwt (sd_jwt_claims b now (map (digest_of p) encoded) jwk) ≡ ok token
    pub chain : build_x5c_chain p b.x5c_chain ≡ ok x5c
    pub signature :
        p.sign_jwt (record { typ = "dc+sd-jwt"; kid = key.kid; x5c = x5c }) token ≡ ok jwt

  pub build_sd_jwt-IsPresented :
      IsTildeFree p
      → (key : SigningKey) (now : Time) (random : ℕ → Result (List ℕ)) (b : Builder Key)
        (built : String)
      → build_sd_jwt p key now random b ≡ ok built
      → IsPresented key now b built
  unfolding build_sd_jwt sign_sd_jwt
  build_sd_jwt-IsPresented free key now random b built h =
      let (present, h0) = unless-ok _ _ _ built h in
      let (ds, made, h1) = and_then-ok _ _ built h0 in
      let (jwk, holder, h2) = and_then-ok _ _ built h1 in
      let (token, claims, h3) = and_then-ok _ _ built h2 in
      let (jwt, signing, h4) = and_then-ok _ _ built h3 in
      let (x5c, chain, signature) = and_then-ok _ _ jwt signing in
      record {
        jwt = jwt;
        encoded = encodings ds;
        jwk = jwk;
        token = token;
        x5c = x5c;
        parts =
            ap (split tilde) (sym (ok_injective _ _ h4))
            ∙ split-concat tilde jwt (disclosed ds) (encodings ds ++ "" ∷ [])
                (free.jws_lacks _ _ _ (map_error-ok _ _ _ signature))
                (split-disclosed free b.selective_claims ds
                  (disclose-AreDisclosuresOf random 0 b.selective_claims ds made));
        disclosures = disclose-AreDisclosuresOf random 0 b.selective_claims ds made;
        holder = holder;
        claims =
            ap (λ t. p.build_jwt (sd_jwt_claims b now t jwk)) (sym (map-digest ds))
            ∙ map_error-ok _ _ _ claims;
        chain = chain;
        signature = map_error-ok _ _ _ signature;
      }
