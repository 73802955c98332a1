-- ===== src/Issuance/Record.antt =====
-- Record of internal/issuance/store.go, and the status values of statusstore.go.
use fikua_lab_issuer.Platform.{Time}
use fikua_lab_issuer.Prelude.{String, String-eq, ℕ}

pub record Record : Type 0 where
  pub id : String
  pub credential_type : String
  pub credential_data : String
  pub source_type : String
  pub source_ref : String
  pub status : String
  pub issuer_state : String
  pub created_at : Time
  pub updated_at : Time

abbrev pub status_valid : ℕ
status_valid = 0x00

abbrev pub status_invalid : ℕ
status_invalid = 0x01

abbrev pub status_suspended : ℕ
status_suspended = 0x02
