-- ===== src/Issuance/Postgres.antt =====
-- internal/issuance/postgres_store.go over the tables of db/schema.sql. A statement is one step; what
-- the database does besides is a parameter: which statements fail, how it writes a JSON text, and how
-- it sorts.
pub mod Entries
pub mod Records
pub mod Rows
pub mod Same
pub mod Changing
pub mod Agrees
use fikua_lab_issuer.Issuance.Record.{Record}
use fikua_lab_issuer.Platform.{Time}
use fikua_lab_issuer.Prelude.{
  Bool, List, Option, String, String-eq, [], false, if◌then◌else◌, none, not, some, true, ℕ, ◌&&◌,
  ◌==◌, ◌∷◌,
}
use fikua_lab_issuer.Prelude.Dict.{Dict, get, has, put}
use fikua_lab_issuer.Prelude.Int.{ℤ, ℤ-eq}
use fikua_lab_issuer.Result.Exec.{GoError, Result, and_then, err, ok, plain}
use fikua_lab_issuer.Httpapi.Responses.{records}

-- A row of status_list_entries without its times, by its issuance_record_id, which is unique
abbrev pub EntryRow : Type 0
EntryRow = ℤ × ℕ

-- issuance_records by their primary key, status_list_entries and the counter of status_list_seq
pub record Tables : Type 0 where
  pub records : Dict String Record
  pub entries : Dict String EntryRow
  pub next_idx : ℤ

pub data Statement : Type 0 where
  insert_record : (id : String) → Statement
  select_record : (id : String) → Statement
  select_by_issuer_state : (issuer_state : String) → Statement
  update_record : (id : String) → Statement
  count_records : Statement
  select_records : Statement
  begin_transaction : Statement
  select_entry : (record_id : String) → Statement
  update_sequence : Statement
  insert_entry : (record_id : String) → Statement
  commit_transaction : Statement
  update_entry : (record_id : String) → Statement
  select_entries : Statement

pub record Database : Type 0 where
  pub fails : Tables → Statement → Option GoError
  -- a text cast to jsonb and read back
  pub jsonb : String → Result String
  -- ORDER BY a column, ascending or descending
  pub order_by : (sort_field sort_order : String) → List Record → List Record

abbrev pub no_rows : GoError
no_rows = plain "sql: no rows in result set"

abbrev pub constraint : GoError
constraint = plain "ERROR: a constraint is violated"

-- `Record{}`
abbrev pub zero_record : Record
zero_record = record {
  id = "";
  credential_type = "";
  credential_data = "";
  source_type = "";
  source_ref = "";
  status = "";
  issuer_state = "";
  created_at = 0;
  updated_at = 0;
}

-- The first row with an issuer_state
unfoldable pub first_with : String → Dict String Record → Option Record
first_with issuer_state [] = none
first_with issuer_state ((_, rec) ∷ rows) =
    let rest = first_with issuer_state rows in
    if rec.issuer_state == issuer_state then some rec else rest

-- Another row has this issuer_state, which is unique among those that are not empty.
unfoldable pub taken_by_other : String → String → Dict String Record → Bool
taken_by_other id issuer_state [] = false
taken_by_other id issuer_state ((key, rec) ∷ rows) =
    let rest = taken_by_other id issuer_state rows in
    if not (key == id) && rec.issuer_state == issuer_state then true else rest

module _ (db : Database) where
  unfoldable pub attempt : Tables → Statement → Result (Unit {0})
  attempt t stmt = elim (db.fails t stmt) [ none ↦ ok tt | some e ↦ err e ]

  -- The row that an INSERT returns
  unfoldable pub inserted :
      Time
      → (id credential_type credential_data source_type source_ref : String) → Tables
      → Result Record
  unfolding attempt
  inserted now id credential_type credential_data source_type source_ref t =
      and_then (attempt t (insert_record id)) λ _. and_then (db.jsonb credential_data) λ data'.
        if has id t.records
        then err constraint
        else ok (record {
          id = id;
          credential_type = credential_type;
          credential_data = data';
          source_type = source_type;
          source_ref = source_ref;
          status = "pending";
          issuer_state = "";
          created_at = now;
          updated_at = now;
        })

  unfoldable pub create_row : Result Record → Tables → Record × Tables
  create_row (ok rec) t = (rec, record t { records = put rec.id rec t.records })
  create_row (err e) t = (zero_record, t)

  unfoldable pub insert_row :
      Time
      → (id credential_type credential_data source_type source_ref : String) → Tables
      → Record × Tables
  unfolding inserted create_row
  insert_row now id credential_type credential_data source_type source_ref t =
      create_row
        (inserted now id credential_type (if credential_data == "" then "{}" else credential_data)
          source_type source_ref t)
        t

  -- `if err != nil { return Record{}, false }`
  unfoldable pub found_row : {A : Type 0} → Result (Unit {0}) → Option A → Option A
  found_row (ok _) o = o
  found_row (err e) o = none

  unfoldable pub row_by_id : String → Tables → Option Record
  unfolding attempt found_row
  row_by_id id t = found_row (attempt t (select_record id)) (get id t.records)

  unfoldable pub row_by_issuer_state : String → Tables → Option Record
  unfolding attempt found_row first_with
  row_by_issuer_state issuer_state t =
      found_row (attempt t (select_by_issuer_state issuer_state))
        (first_with issuer_state t.records)

  unfoldable pub changed_row : String → Option Record → (Record → Record) → Tables → Tables
  changed_row id none f t = t
  changed_row id (some rec) f t = record t { records = put id (f rec) t.records }

  -- The error of an UPDATE is dropped.
  unfoldable pub set_row_status : Time → (id status : String) → Tables → Tables
  unfolding attempt found_row changed_row
  set_row_status now id status t =
      changed_row id (found_row (attempt t (update_record id)) (get id t.records))
        (λ rec. record rec { status = status; updated_at = now }) t

  unfoldable pub set_row_issuer_state : Time → (id issuer_state : String) → Tables → Tables
  unfolding attempt found_row changed_row taken_by_other
  set_row_issuer_state now id issuer_state t =
      if not (issuer_state == "") && taken_by_other id issuer_state t.records
      then t
      else changed_row id (found_row (attempt t (update_record id)) (get id t.records))
          (λ rec. record rec { issuer_state = issuer_state; updated_at = now }) t
