-- ===== src/Issuance/Interface.antt =====
-- RecordStore (recordstore.go) and StatusListStore (statusstore.go), which the service depends on.
-- Drawn ids and the time are arguments. `find_all` is `none` where the code panics.
use fikua_lab_issuer.Issuance.Record.{Record}
use fikua_lab_issuer.Platform.{Time}
use fikua_lab_issuer.Prelude.{List, Option, String, String-eq, ℕ}
use fikua_lab_issuer.Prelude.Dict.{Dict}
use fikua_lab_issuer.Prelude.Int.{ℤ, ℤ-eq}
use fikua_lab_issuer.Result.Exec.{Exec, Result}

pub record Stores (S : Type 0) : Type 0 where
  pub create :
      Time → (id credential_type credential_data source_type source_ref : String) → S → Record × S
  pub find_by_id : String → S → Option Record
  pub find_by_issuer_state : String → S → Option Record
  pub update_status : Time → (id status : String) → S → S
  pub update_issuer_state : Time → (id issuer_state : String) → S → S
  pub find_all :
      (offset limit : ℤ) → (sort_field sort_order : String) → S → Option (List Record × ℤ)
  pub allocate_idx : String → Exec S ℤ
  pub set_status : String → ℕ → S → Option ℤ × S
  pub find_by_record_id : String → S → Option (ℤ × ℕ)
  pub all_entries : S → Result (Dict ℤ ℕ)
