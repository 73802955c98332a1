-- ===== src/Startup.antt =====
-- cmd/issuer/main.go: what the program starts with. Logging and the server's loop are left out.
use fikua_lab_issuer.Session
use fikua_lab_issuer.Config.{Config}
use fikua_lab_issuer.Accesstoken.{Verifier, new}
use fikua_lab_issuer.Crypto.Keys.{SigningKeyPair, new_remote, signing_key}
use fikua_lab_issuer.Crypto.Loader.{Files, load_from_pem}
use fikua_lab_issuer.Issuance.State.{Setup}
use fikua_lab_issuer.Platform.{Platform}
use fikua_lab_issuer.Prelude.{List, String, String-eq, [], concat, if◌then◌else◌, ℕ, ◌==◌, ◌∷◌}
use fikua_lab_issuer.Registryclient.Cache.{Cache, new_cache, start}
use fikua_lab_issuer.Registryclient.Types.{Definition}
use fikua_lab_issuer.Result.Exec.{GoError, Result, and_then, error_text, map_error, ok, plain}
use fikua_lab_issuer.Issuance.State.{Service}

pub data IssuanceStore : Type 0 where
  in_memory_store : IssuanceStore
  postgres_store : (db_url : String) → IssuanceStore

-- database/sql, as the program opens the database: each step for a URL
pub record DatabaseDriver : Type 0 where
  pub open_url : String → Result (Unit {0})
  pub ping : String → Result (Unit {0})
  pub exec_schema : String → Result (Unit {0})

-- The DSS client: a signer for the configuration, and the leaf certificate of its key
pub record Dss (Signer : Type 0) : Type 0 where
  pub new_signer : Config → Result Signer
  pub leaf_der : Signer → Result (List ℕ)

unfoldable pub load_issuance_store : DatabaseDriver → Config → Result IssuanceStore
load_issuance_store driver cfg =
    if cfg.db_url == ""
    then ok in_memory_store
    else and_then (driver.open_url cfg.db_url) λ _.
      and_then (driver.ping cfg.db_url)
        λ _. and_then (driver.exec_schema cfg.db_url) λ _. ok (postgres_store cfg.db_url)

-- NewService
unfoldable pub new_service :
    {S KeySet : Type 0} → Session.Store → S → Verifier KeySet → Service S KeySet
new_service sessions issuances tokens = record {
  sessions = sessions;
  issuances = issuances;
  jtis = [];
  tokens = tokens;
  status_cache_token = "";
  status_cache_exp = 0;
}

-- `log.Fatalf`, with the error that ends the program
abbrev fatal : String → GoError → GoError
fatal prefix e = plain (concat prefix (error_text e))

module _ {Key KeySet Private Signer : Type 0} (p : Platform Key KeySet)
    (import_public : Signer → Result Key) (fs : Files Private Signer) (dss : Dss Signer) where
  unfoldable pub load_signing_key : Config → Result (SigningKeyPair Key Signer)
  load_signing_key cfg =
      if cfg.dss_url == ""
      then load_from_pem p import_public fs cfg.certs_dir
      else and_then (dss.new_signer cfg) λ signer.
        and_then (dss.leaf_der signer) λ leaf. new_remote p import_public signer (leaf ∷ [])

  -- What the server is built from
  pub record Started : Type 0 where
    pub cache : Cache
    pub key : SigningKeyPair Key Signer
    pub store : IssuanceStore
    pub tokens : Verifier KeySet
    pub sessions : Session.Store
    pub setup : Setup

  -- `answer` is what the registry's first answer is.
  unfoldable pub boot : DatabaseDriver → Config → Result (List Definition) → Result Started
  unfolding load_signing_key
  boot driver cfg answer =
      and_then
        (map_error
          (fatal (
            concat "loading attestation catalogue from "
              (concat cfg.attestation_registry_url ": ")))
          (start answer new_cache).0)
        λ _. and_then (map_error (fatal "loading signing key: ") (load_signing_key cfg)) λ key.
          and_then
            (map_error (fatal "setting up issuance store: ") (load_issuance_store driver cfg))
            λ store. ok (record {
              cache = (start answer new_cache).1;
              key = key;
              store = store;
              tokens = new cfg.auth_server_url cfg.base_url;
              sessions = Session.new_store;
              setup = record { base_url = cfg.base_url; issuer_key = signing_key key };
            })
