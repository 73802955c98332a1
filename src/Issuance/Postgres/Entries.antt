-- ===== src/Issuance/Postgres/Entries.antt =====
-- AllocateIdx, SetStatus, FindByRecordID and AllEntries of internal/issuance/postgres_store.go: the
-- entries of the status list.
use fikua_lab_issuer.Issuance.Postgres.{
  Database, EntryRow, Tables, attempt, begin_transaction, commit_transaction, constraint, found_row,
  insert_entry, select_entries, select_entry, update_entry, update_sequence,
}
use fikua_lab_issuer.Issuance.Record.{status_valid}
use fikua_lab_issuer.Prelude.{
  Bool, Option, String, String-eq, [], false, if◌then◌else◌, none, not, some, true, ℕ, ◌==◌, ◌||◌,
  ◌∷◌,
}
use fikua_lab_issuer.Prelude.Dict.{Dict, get, has, put}
use fikua_lab_issuer.Prelude.Int.{half_range, pos, ℤ, ℤ-eq, ◌+ℤ◌, ◌<ℤ◌}
use fikua_lab_issuer.Result.Exec.{Exec, GoError, Result, and_then, err, ok, plain}

-- The primary key of status_list_entries
unfoldable pub used_idx : ℤ → Dict String EntryRow → Bool
used_idx idx [] = false
used_idx idx ((_, (i, _)) ∷ rows) = let rest = used_idx idx rows in if i == idx then true else rest

unfoldable pub entries_of : Dict String EntryRow → Dict ℤ ℕ
entries_of [] = []
entries_of ((_, (idx, status)) ∷ rows) = put idx status (entries_of rows)

-- `next_idx + 1` is out of the range of a BIGINT.
abbrev pub out_of_range : GoError
out_of_range = plain "ERROR: bigint out of range"

module _ (db : Database) where
  -- The row of the UPDATE of status_list_seq
  unfoldable pub drawn_idx : Tables → Result ℤ
  unfolding attempt
  drawn_idx t =
      and_then (attempt db t update_sequence)
        λ _. if not (t.next_idx +ℤ pos 1 <ℤ pos half_range) then err out_of_range else ok t.next_idx

  -- The INSERT with the constraints of the table: the record exists, and the index is not used.
  unfoldable pub inserted_entry : String → ℤ → Tables → Result Tables
  unfolding attempt used_idx
  inserted_entry id idx t = and_then (attempt db t (insert_entry id)) λ _.
      if not (has id t.records) || used_idx idx t.entries
      then err constraint
      else ok (record t {
        entries = put id (idx, status_valid) t.entries;
        next_idx = t.next_idx +ℤ pos 1;
      })

  -- `return idx, tx.Commit()`
  unfoldable pub committed : ℤ → Tables → Result (ℤ × Tables)
  unfolding attempt
  committed idx t = and_then (attempt db t commit_transaction) λ _. ok (idx, t)

  unfoldable pub allocated_in : String → Option EntryRow → Tables → Result (ℤ × Tables)
  unfolding committed drawn_idx inserted_entry
  allocated_in id (some (idx, _)) t = committed idx t
  allocated_in id none t =
      and_then (drawn_idx t) λ idx. and_then (inserted_entry id idx t) (committed idx)

  -- The transaction up to the commit, which changes nothing unless all of it succeeds.
  unfoldable pub transaction : String → Tables → Result (ℤ × Tables)
  unfolding attempt allocated_in
  transaction id t =
      and_then (attempt db t begin_transaction)
        λ _. and_then (attempt db t (select_entry id)) λ _. allocated_in id (get id t.entries) t

  unfoldable pub or_rollback : Result (ℤ × Tables) → Tables → Result ℤ × Tables
  or_rollback (ok (idx, t')) t = (ok idx, t')
  or_rollback (err e) t = (err e, t)

  unfoldable pub allocate_row : String → Exec Tables ℤ
  unfolding transaction or_rollback
  allocate_row id t = or_rollback (transaction id t) t

  unfoldable pub set_entry : String → ℕ → Option EntryRow → Tables → Option ℤ × Tables
  set_entry id value none t = (none, t)
  set_entry id value (some (idx, _)) t =
      (some idx, record t { entries = put id (idx, value) t.entries })

  unfoldable pub set_entry_status : String → ℕ → Tables → Option ℤ × Tables
  unfolding attempt found_row set_entry
  set_entry_status id value t =
      set_entry id value (found_row db (attempt db t (update_entry id)) (get id t.entries)) t

  unfoldable pub entry_by_record : String → Tables → Option EntryRow
  unfolding attempt found_row
  entry_by_record id t = found_row db (attempt db t (select_entry id)) (get id t.entries)

  unfoldable pub all_rows : Tables → Result (Dict ℤ ℕ)
  unfolding attempt entries_of
  all_rows t = and_then (attempt db t select_entries) λ _. ok (entries_of t.entries)
