-- ===== src/Crypto/Loader.antt =====
-- internal/crypto/keyloader.go and walletprovider.go: keys and certificates from files.
use fikua_lab_issuer.Crypto.Keys.{SigningKeyPair, new_remote}
use fikua_lab_issuer.Platform.{Platform}
use fikua_lab_issuer.Prelude.{
  Bool, List, Option, String, String-eq, [], concat, if◌then◌else◌, none, not, some, ℕ, ◌||◌, ◌∷◌,
}
use fikua_lab_issuer.Result.Exec.{
  GoError, Result, and_then, err, error_text, from_option, map_error, ok, plain,
}
use fikua_lab_issuer.Statuslist.Token.{prefixed}

-- The files and the parsers of Go's crypto packages
pub record Files (Private Signer : Type 0) : Type 0 where
  pub join_path : (dir name : String) → String
  pub exists : String → Bool
  pub read_file : String → Result (List ℕ)
  pub is_not_exist : GoError → Bool
  -- pem.Decode: the bytes of the first block
  pub pem_decode : List ℕ → Option (List ℕ)
  -- x509.ParseCertificate: the raw bytes of the certificate
  pub parse_certificate : List ℕ → Result (List ℕ)
  pub parse_pkcs8 : List ℕ → Result Private
  -- the *ecdsa.PrivateKey, if the key is one
  pub ec_private : Private → Option Signer

module _ {Key KeySet Private Signer : Type 0} (p : Platform Key KeySet)
    (import_public : Signer → Result Key) (fs : Files Private Signer) where
  reading : String → GoError → GoError
  reading path e = plain (concat "crypto: reading " (concat path (concat ": " (error_text e))))

  unfoldable pub load_pair : (cert_path key_path : String) → Result (SigningKeyPair Key Signer)
  unfolding reading
  load_pair cert_path key_path =
      and_then (map_error (reading cert_path) (fs.read_file cert_path)) λ cert_pem.
        and_then (map_error (reading key_path) (fs.read_file key_path)) λ key_pem.
          and_then
            (from_option (fs.pem_decode cert_pem)
              (plain (concat "crypto: " (concat cert_path ": no PEM block found"))))
            λ cert_block.
              and_then
                (map_error (prefixed "crypto: parsing certificate: ")
                  (fs.parse_certificate cert_block))
                λ cert.
                  and_then
                    (from_option (fs.pem_decode key_pem)
                      (plain (concat "crypto: " (concat key_path ": no PEM block found"))))
                    λ key_block.
                      and_then
                        (map_error (prefixed "crypto: parsing PKCS8 private key: ")
                          (fs.parse_pkcs8 key_block))
                        λ private.
                          and_then
                            (from_option (fs.ec_private private) (
                              plain
                                (concat "crypto: " (concat key_path ": not an EC private key"))))
                            λ signer. new_remote p import_public signer (cert ∷ [])

  unfoldable pub load_from_pem : (certs_dir : String) → Result (SigningKeyPair Key Signer)
  unfolding load_pair
  load_from_pem certs_dir =
      let cert_path : String = fs.join_path certs_dir "issuer-cert.pem" in
      let key_path : String = fs.join_path certs_dir "issuer-key.pem" in
      if not (fs.exists cert_path) || not (fs.exists key_path)
      then err (
          plain (
            concat
              "crypto: no signing key configured — set FIKUA_DSS_URL for remote signing via the Fikua DSS, or place issuer-cert.pem + issuer-key.pem in "
              certs_dir))
      else load_pair cert_path key_path

  -- The bytes of the PEM block, or the data as they are
  unfoldable pub der_of : List ℕ → List ℕ
  der_of data' = elim (fs.pem_decode data') [ none ↦ data' | some block ↦ block ]

  unfoldable pub anchor_of : Result (List ℕ) → Result (Option (List ℕ))
  unfolding der_of
  anchor_of (err e) = if fs.is_not_exist e then ok none else err e
  anchor_of (ok data') = and_then (fs.parse_certificate (der_of data')) λ cert. ok (some cert)

  unfoldable pub load_wallet_provider_anchor : (certs_dir : String) → Result (Option (List ℕ))
  unfolding anchor_of
  load_wallet_provider_anchor certs_dir =
      anchor_of (fs.read_file (fs.join_path certs_dir "root-ca.crt"))
