-- ===== src/Issuance/Listing.antt =====
-- internal/issuance/list.go: the paginated listing of the issuance records.
pub mod Pages
use fikua_lab_issuer.Issuance.Interface.{Stores}
use fikua_lab_issuer.Issuance.Record.{Record, status_invalid, status_suspended, status_valid}
use fikua_lab_issuer.Platform.{Platform, Time, members, string_member}
use fikua_lab_issuer.Prelude.{
  List, Option, String, String-eq, [], concat, if◌then◌else◌, nat_eq, none, not, some, ℕ, ◌&&◌,
  ◌==◌, ◌∷◌,
}
use fikua_lab_issuer.Prelude.Int.{pos, wrap64, ℤ, ℤ-eq, ◌*ℤ◌, ◌-ℤ◌, ◌<ℤ◌}
use fikua_lab_issuer.Result.Exec.{Result, err, ok, panic}

pub record IssuanceRecordView : Type 0 where
  pub id : String
  pub credential_type : String
  pub status : String
  pub source_type : String
  pub source_ref : String
  pub created_at : String
  pub updated_at : String
  pub subject_name : String
  pub credential_data : String
  pub credential_status : String

pub record ListIssuanceRecordsResult : Type 0 where
  pub records : List IssuanceRecordView
  pub total : ℤ
  pub page : ℤ
  pub size : ℤ

unfoldable pub credential_status_label : Option (ℤ × ℕ) → String
credential_status_label none = ""
credential_status_label (some (_, value)) =
    if nat_eq value status_valid
    then "valid"
    else if nat_eq value status_invalid
    then "revoked"
    else if nat_eq value status_suspended
    then "suspended"
    else ""

abbrev display_name : (given family : String) → String
display_name given family =
    if not (given == "") && not (family == "")
    then concat (concat given " ") family
    else if not (given == "")
    then given
    else if not (family == "")
    then family
    else ""

-- The defaults for a page or a size that is not positive.
abbrev pub page_or_default : ℤ → ℤ
page_or_default page = if page <ℤ pos 1 then pos 1 else page

abbrev pub size_or_default : ℤ → ℤ
size_or_default size = if size <ℤ pos 1 then pos 20 else size

-- `format` is the UTC timestamp of a time.
module _ {S Key KeySet : Type 0} (p : Platform Key KeySet) (st : Stores S)
    (format : Time → String) where
  unfoldable pub extract_subject_name : String → String
  extract_subject_name credential_data = elim (p.unmarshal_json credential_data) [
    | err e ↦ ""
    | ok data' ↦
        display_name (string_member "given_name" (members data'))
          (string_member "family_name" (members data'))
  ]

  unfoldable pub view_of : S → Record → IssuanceRecordView
  view_of s rec = record {
    id = rec.id;
    credential_type = rec.credential_type;
    status = rec.status;
    source_type = rec.source_type;
    source_ref = rec.source_ref;
    created_at = format rec.created_at;
    updated_at = format rec.updated_at;
    subject_name = extract_subject_name rec.credential_data;
    credential_data = rec.credential_data;
    credential_status = credential_status_label (st.find_by_record_id rec.id s);
  }

  unfoldable pub views : S → List Record → List IssuanceRecordView
  views s [] = []
  views s (rec ∷ recs) = view_of s rec ∷ views s recs

  listed_page : S → ℤ → ℤ → Option (List Record × ℤ) → Result ListIssuanceRecordsResult
  listed_page s page size none = err (panic "slice bounds out of range")
  listed_page s page size (some (recs, total)) =
      ok (record { records = views s recs; total = total; page = page; size = size })

  -- The records are only read.
  unfoldable pub list_issuance_records :
      (page size : ℤ) → (sort_field sort_order : String) → S → Result ListIssuanceRecordsResult
  unfolding listed_page
  list_issuance_records page size sort_field sort_order s =
      let page' = page_or_default page in
      let size' = size_or_default size in
      listed_page s page' size'
        (st.find_all (wrap64 (wrap64 (page' -ℤ pos 1) *ℤ size')) size' sort_field sort_order s)
