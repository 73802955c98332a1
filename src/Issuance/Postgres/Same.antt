-- ===== src/Issuance/Postgres/Same.antt =====
-- AllocateIdx and FindByRecordID of the two stores, side by side.
use mathlib.Core.Option
use fikua_lab_issuer.Issuance.Store.{Store, allocate_idx, find_by_record_id, value_at}
use fikua_lab_issuer.Issuance.Postgres.{Database, Statement, Tables, found_row, select_entry}
use fikua_lab_issuer.Issuance.Postgres.Entries.{allocate_row, entry_by_record, used_idx}
use fikua_lab_issuer.Issuance.Postgres.Rows.{
  allocate_row_again, allocate_row_fresh, attempt-ok, used_idx-put,
}
use fikua_lab_issuer.Issuance.Record.{Record, status_valid}
use fikua_lab_issuer.Issuance.Store.Lookup.{find-allocate_idx}
use fikua_lab_issuer.Issuance.Store.Status.{
  IsWellFormed, allocate_idx-IsWellFormed, allocate_idx_again, allocate_idx_fresh,
}
use fikua_lab_issuer.Prelude.{
  Option-cases, String, String-eq, ap, arith, false, inl, inr, none, refl, some, sym, true, ℕ, ◌+◌,
  ◌<◌, ◌==◌, ◌∙◌, ◌≡◌, ◌≤◌,
}
use fikua_lab_issuer.Prelude.Dict.{Dict, get, get-put, has, put}
use fikua_lab_issuer.Prelude.Int.{half_range, pos, ℤ, ℤ-eq}

-- The tables hold the entries of the in-memory store.
pub record IsSame (recs : Dict String Record) (s : Store) (t : Tables) : Type 0 where
  pub well : IsWellFormed s
  pub records : t.records ≡ recs
  pub next : t.next_idx ≡ pos well.next
  pub entry : (id : String) → get id t.entries ≡ find_by_record_id id s
  pub unused : (n : ℕ) → well.next ≤ n → used_idx (pos n) t.entries ≡ false

pub differs : (m n : ℕ) → m < n → (pos m == pos n) ≡ false
differs m n h = ground arith

below : (m k n : ℕ) → pos m ≡ pos (k + 1) → m ≤ n → k ≤ n
below m k n h le = ground arith

above : (m k n : ℕ) → pos m ≡ pos (k + 1) → m ≤ n → k < n
above m k n h le = ground arith

bounded : (m k : ℕ) → pos m ≡ pos (k + 1) → m ≤ k + 1
bounded m k h = ground arith

module _ (db : Database) (never : (t : Tables) (stmt : Statement) → db.fails t stmt ≡ none)
    (recs : Dict String Record) where
  module _ (s : Store) (t : Tables) (same : IsSame recs s t) where
    pub entry_by_record-same : (id : String) → find_by_record_id id s ≡ entry_by_record db id t
    unfolding entry_by_record found_row
    entry_by_record-same id = rw (attempt-ok db never t (select_entry id)) (sym (same.entry id))

    again-IsSame :
        (id : String) (idx : ℤ)
        → get id s.status_by_rec_id ≡ some idx
        → ((allocate_idx id s).0 ≡ (allocate_row db id t).0)
          × (after : IsSame recs (allocate_idx id s).1 (allocate_row db id t).1) × (after.well.next
              ≤ same.well.next + 1)
    unfolding find_by_record_id
    again-IsSame id idx h = rw (allocate_idx_again id s same.well idx h) (
        rw
          (allocate_row_again db never id t idx _
            (same.entry id ∙ ap (Option.map (λ i. (i, value_at i s.status_by_idx))) h))
          (refl, same, omega arith))

    fresh-entry :
        (id other : String)
        → get id s.status_by_rec_id ≡ none
        → same.well.next + 1 < half_range
        → get other (put id (pos same.well.next, status_valid) t.entries)
          ≡ find_by_record_id other (allocate_idx id s).1
    fresh-entry id other h room =
        let none_yet : find_by_record_id id s ≡ none =
          unfold find_by_record_id in ap (Option.map (λ i. (i, value_at i s.status_by_idx))) h in
        ground (
          arith,
          none_yet,
          same.entry other,
          get-put id other (pos same.well.next, status_valid) t.entries,
          (find-allocate_idx id other s same.well room).1,
        )

    fresh-IsSame :
        (id : String)
        → get id s.status_by_rec_id ≡ none
        → has id recs ≡ true
        → same.well.next + 1 < half_range
        → ((allocate_idx id s).0 ≡ (allocate_row db id t).0)
          × (after : IsSame recs (allocate_idx id s).1 (allocate_row db id t).1) × (after.well.next
              ≤ same.well.next + 1)
    fresh-IsSame id h known room =
        let well : IsWellFormed (allocate_idx id s).1 =
          allocate_idx-IsWellFormed id s same.well room in
        let moved : pos well.next ≡ pos (same.well.next + 1) =
          sym well.next_idx
          ∙ ap (λ r. r.1.status_next_idx) (allocate_idx_fresh id s same.well h room) in
        let none_yet : find_by_record_id id s ≡ none =
          unfold find_by_record_id in ap (Option.map (λ i. (i, value_at i s.status_by_idx))) h in
        rw
          (allocate_row_fresh db never id t same.well.next (same.entry id ∙ none_yet) same.next room
            (ap (has id) same.records ∙ known) (same.unused same.well.next (omega arith)))
          (
            ap (λ r. r.0) (allocate_idx_fresh id s same.well h room),
            record {
              well = well;
              records = same.records;
              next = sym moved;
              entry = λ other. fresh-entry id other h room;
              unused = λ n le.
                  used_idx-put (pos n) (pos same.well.next) id status_valid t.entries
                    (same.unused n (below _ _ _ moved le))
                    (differs same.well.next n (above _ _ _ moved le));
            },
            bounded _ _ moved,
          )

    pub allocating-IsSame :
        (id : String)
        → has id recs ≡ true
        → same.well.next + 1 < half_range
        → ((allocate_idx id s).0 ≡ (allocate_row db id t).0)
          × (after : IsSame recs (allocate_idx id s).1 (allocate_row db id t).1) × (after.well.next
              ≤ same.well.next + 1)
    allocating-IsSame id known room = elim (Option-cases (get id s.status_by_rec_id)) [
      | inl h ↦ fresh-IsSame id h known room
      | inr (idx, h) ↦ again-IsSame id idx h
    ]
