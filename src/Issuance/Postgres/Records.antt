-- ===== src/Issuance/Postgres/Records.antt =====
-- FindAll of internal/issuance/postgres_store.go, and the database as the stores of the service.
use fikua_lab_issuer.Issuance.Interface.{Stores}
use fikua_lab_issuer.Issuance.Postgres.{
  Database, Tables, attempt, count_records, insert_row, row_by_id, row_by_issuer_state,
  select_records, set_row_issuer_state, set_row_status,
}
use fikua_lab_issuer.Issuance.Postgres.Entries.{
  all_rows, allocate_row, entry_by_record, set_entry_status,
}
use fikua_lab_issuer.Issuance.Record.{Record}
use fikua_lab_issuer.Issuance.Store.{allowed_sort_field, records_of}
use fikua_lab_issuer.Prelude.{
  List, String, String-eq, [], drop, if◌then◌else◌, length, some, take, ◌==◌, ◌||◌,
}
use fikua_lab_issuer.Prelude.Int.{negsuc, pos, ℤ, ℤ-eq}
use fikua_lab_issuer.Result.Exec.{Result, and_then, err, ok, plain}

module _ (db : Database) where
  -- LIMIT and OFFSET, which are errors if they are negative
  unfoldable pub limited : ℤ → ℤ → List Record → Result (List Record)
  limited (pos offset) (pos limit) rows = ok (take limit (drop offset rows))
  limited (pos offset) (negsuc limit) rows = err (plain "ERROR: LIMIT must not be negative")
  limited (negsuc offset) limit rows = err (plain "ERROR: OFFSET must not be negative")

  -- `if err != nil { return nil, total }`
  unfoldable pub rows_or_none : ℤ → Result (List Record) → List Record × ℤ
  rows_or_none total (ok rows) = (rows, total)
  rows_or_none total (err e) = ([], total)

  unfoldable pub selected :
      (offset limit : ℤ) → (sort_field sort_order : String) → Tables → Result (List Record)
  unfolding attempt limited
  selected offset limit sort_field sort_order t = and_then (attempt db t select_records) λ _.
      limited offset limit (
        db.order_by (if allowed_sort_field sort_field then sort_field else "created_at")
          (if sort_order == "asc" || sort_order == "desc" then sort_order else "desc")
          (records_of t.records))

  unfoldable pub counted : Result (Unit {0}) → ℤ → Result (List Record) → List Record × ℤ
  unfolding rows_or_none
  counted (ok _) total rows = rows_or_none total rows
  counted (err e) total rows = ([], pos 0)

  unfoldable pub select_page :
      (offset limit : ℤ) → (sort_field sort_order : String) → Tables → List Record × ℤ
  unfolding attempt counted selected
  select_page offset limit sort_field sort_order t =
      counted (attempt db t count_records) (pos (length (records_of t.records)))
        (selected offset limit sort_field sort_order t)

  abbrev pub postgres : Stores Tables
  postgres = record {
    create = insert_row db;
    find_by_id = row_by_id db;
    find_by_issuer_state = row_by_issuer_state db;
    update_status = set_row_status db;
    update_issuer_state = set_row_issuer_state db;
    find_all = λ offset limit sort_field sort_order t.
        some (select_page offset limit sort_field sort_order t);
    allocate_idx = allocate_row db;
    set_status = set_entry_status db;
    find_by_record_id = entry_by_record db;
    all_entries = all_rows db;
  }
