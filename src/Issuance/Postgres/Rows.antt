-- ===== src/Issuance/Postgres/Rows.antt =====
-- AllocateIdx of internal/issuance/postgres_store.go where no statement fails.
use fikua_lab_issuer.Issuance.Postgres.{
  Database, EntryRow, Statement, Tables, attempt, begin_transaction, commit_transaction,
  select_entry,
}
use fikua_lab_issuer.Issuance.Postgres.Entries.{
  allocate_row, committed, drawn_idx, inserted_entry, transaction, used_idx,
}
use fikua_lab_issuer.Issuance.Record.{status_valid}
use fikua_lab_issuer.Prelude.{
  String, String-eq, [], arith, false, none, refl, some, true, ℕ, ◌+◌, ◌<◌, ◌==◌, ◌∷◌, ◌≡◌,
}
use fikua_lab_issuer.Prelude.Dict.{Dict, delete, get, has, put}
use fikua_lab_issuer.Prelude.Int.{half_range, pos, ℤ, ℤ-eq}
use fikua_lab_issuer.Result.Exec.{and_then, ok}
use fikua_lab_issuer.Issuance.Postgres.{insert_entry, update_sequence}
use fikua_lab_issuer.Prelude.Int.{+ℤ-pos, ◌+ℤ◌, ◌<ℤ◌}

used_idx-delete :
    (i : ℤ) (id : String) (rows : Dict String EntryRow)
    → used_idx i rows ≡ false
    → used_idx i (delete id rows) ≡ false
unfolding used_idx delete
used_idx-delete i id [] h = refl
used_idx-delete i id ((key, (j, v)) ∷ rows) h = ground (arith, used_idx-delete i id rows)

-- A row is replaced or added: an index is unused if it was and is not the row's.
pub used_idx-put :
    (i j : ℤ) (id : String) (v : ℕ) (rows : Dict String EntryRow)
    → used_idx i rows ≡ false
    → (j == i) ≡ false
    → used_idx i (put id (j, v) rows) ≡ false
unfolding used_idx put
used_idx-put i j id v rows h k = ground (arith, used_idx-delete i id rows h)

module _ (db : Database) (never : (t : Tables) (stmt : Statement) → db.fails t stmt ≡ none) where
  pub attempt-ok : (t : Tables) (stmt : Statement) → attempt db t stmt ≡ ok tt
  unfolding attempt
  attempt-ok t stmt = rw (attempt, never t stmt) refl

  pub allocate_row_again :
      (id : String) (t : Tables) (idx : ℤ) (v : ℕ)
      → get id t.entries ≡ some (idx, v)
      → allocate_row db id t ≡ (ok idx, t)
  unfolding allocate_row transaction and_then committed
  allocate_row_again id t idx v h =
      rw (attempt-ok t begin_transaction)
        (rw (attempt-ok t (select_entry id)) (rw h (rw (attempt-ok t commit_transaction) refl)))

  drawn_idx-ok :
      (t : Tables) (n : ℕ) → t.next_idx ≡ pos n → n + 1 < half_range → drawn_idx db t ≡ ok (pos n)
  unfolding drawn_idx and_then ◌+ℤ◌ ◌<ℤ◌
  drawn_idx-ok t n e room = rw (attempt-ok t update_sequence) (rw e (ground arith))

  abbrev with_entry : String → ℕ → Tables → Tables
  with_entry id n t = record t {
    entries = put id (pos n, status_valid) t.entries;
    next_idx = pos (n + 1);
  }

  inserted_entry-ok :
      (id : String) (t : Tables) (n : ℕ)
      → t.next_idx ≡ pos n
      → has id t.records ≡ true
      → used_idx (pos n) t.entries ≡ false
      → inserted_entry db id (pos n) t ≡ ok (with_entry id n t)
  unfolding inserted_entry and_then
  inserted_entry-ok id t n e known unused =
      rw (attempt-ok t (insert_entry id)) (rw known (rw unused (rw e (rw (+ℤ-pos n 1) refl))))

  pub allocate_row_fresh :
      (id : String) (t : Tables) (n : ℕ)
      → get id t.entries ≡ none
      → t.next_idx ≡ pos n
      → n + 1 < half_range
      → has id t.records ≡ true
      → used_idx (pos n) t.entries ≡ false
      → allocate_row db id t ≡ (ok (pos n), with_entry id n t)
  unfolding allocate_row transaction and_then committed
  allocate_row_fresh id t n h e room known unused = rw (attempt-ok t begin_transaction) (
      rw (attempt-ok t (select_entry id)) (
        rw h (
          rw (drawn_idx-ok t n e room) (
            rw (inserted_entry-ok id t n e known unused)
              (rw (attempt-ok (with_entry id n t) commit_transaction) refl)))))
