-- ===== src/Issuance/Postgres/Changing.antt =====
-- SetStatus of the two stores, side by side.
use mathlib.Core.Option
use fikua_lab_issuer.Issuance.Store.{Store, find_by_record_id, set_status, value_at}
use fikua_lab_issuer.Issuance.Postgres.{Database, Statement, Tables, found_row, update_entry}
use fikua_lab_issuer.Issuance.Postgres.Entries.{set_entry_status}
use fikua_lab_issuer.Issuance.Postgres.Rows.{attempt-ok, used_idx-put}
use fikua_lab_issuer.Issuance.Postgres.Same.{IsSame, differs}
use fikua_lab_issuer.Issuance.Record.{Record}
use fikua_lab_issuer.Issuance.Store.Counter.{set_status-next}
use fikua_lab_issuer.Issuance.Store.Lookup.{find-set_status}
use fikua_lab_issuer.Issuance.Store.Status.{IsWellFormed, set_status-IsWellFormed}
use fikua_lab_issuer.Prelude.{
  Option-cases, String, String-eq, ap, arith, eq_iff, inl, inr, none, refl, some, sym, ℕ, ◌+◌, ◌<◌,
  ◌==◌, ◌∙◌, ◌≡◌, ◌≤◌,
}
use fikua_lab_issuer.Prelude.Dict.{Dict, get, get-put, put}
use fikua_lab_issuer.Prelude.Int.{pos, ℤ, ℤ-eq}

trans_lt : (m k n : ℕ) → m < k → k ≤ n → m < n
trans_lt m k n h le = omega arith

from_equal : (m k n : ℕ) → m ≡ k → m ≤ n → k ≤ n
from_equal m k n h le = omega arith

up_to : (m k : ℕ) → m ≡ k → m ≤ k + 1
up_to m k h = omega arith

set_status_absent :
    (id : String) (value : ℕ) (s : Store)
    → get id s.status_by_rec_id ≡ none
    → (set_status id value s).0 ≡ none
unfolding set_status
set_status_absent id value s h = rw h refl

set_status_present :
    (id : String) (value : ℕ) (s : Store) (idx : ℤ)
    → get id s.status_by_rec_id ≡ some idx
    → (set_status id value s).0 ≡ some idx
unfolding set_status
set_status_present id value s idx h = rw h refl

module _ (db : Database) (never : (t : Tables) (stmt : Statement) → db.fails t stmt ≡ none)
    (recs : Dict String Record) where
  module _ (s : Store) (t : Tables) (same : IsSame recs s t) where
    unchanged-entry :
        (id other : String) (value : ℕ)
        → get id s.status_by_rec_id ≡ none
        → get other t.entries ≡ find_by_record_id other (set_status id value s).1
    unchanged-entry id other value h =
        let none_yet : find_by_record_id id s ≡ none =
          unfold find_by_record_id in ap (Option.map (λ i. (i, value_at i s.status_by_idx))) h in
        ground (
          arith,
          none_yet,
          same.entry other,
          eq_iff id other,
          find-set_status id other s same.well value,
        )

    changed-entry :
        (id other : String) (value v : ℕ) (idx : ℤ)
        → find_by_record_id id s ≡ some (idx, v)
        → get other (put id (idx, value) t.entries)
          ≡ find_by_record_id other (set_status id value s).1
    changed-entry id other value v idx h = ground (
      arith,
      h,
      same.entry other,
      get-put id other (idx, value) t.entries,
      find-set_status id other s same.well value,
    )

    changing-none :
        (id : String) (value : ℕ)
        → value < 256
        → get id s.status_by_rec_id ≡ none
        → ((set_status id value s).0 ≡ (set_entry_status db id value t).0)
          × (after : IsSame recs (set_status id value s).1 (set_entry_status db id value t).1)
          × (after.well.next ≤ same.well.next + 1)
    unfolding set_entry_status found_row
    changing-none id value small h =
        let well : IsWellFormed (set_status id value s).1 =
          set_status-IsWellFormed value s same.well small id in
        let still : well.next ≡ same.well.next = set_status-next id value s same.well well in
        let none_yet : find_by_record_id id s ≡ none =
          unfold find_by_record_id in ap (Option.map (λ i. (i, value_at i s.status_by_idx))) h in
        rw (attempt-ok db never t (update_entry id)) (
          rw (same.entry id ∙ none_yet) (
            set_status_absent id value s h,
            record {
              well = well;
              records = same.records;
              next = same.next ∙ ap pos (sym still);
              entry = λ other. unchanged-entry id other value h;
              unused = λ n le. same.unused n (from_equal _ _ _ still le);
            },
            up_to _ _ still,
          ))

    changing-some :
        (id : String) (value : ℕ) (idx : ℤ)
        → value < 256
        → get id s.status_by_rec_id ≡ some idx
        → ((set_status id value s).0 ≡ (set_entry_status db id value t).0)
          × (after : IsSame recs (set_status id value s).1 (set_entry_status db id value t).1)
          × (after.well.next ≤ same.well.next + 1)
    unfolding set_entry_status found_row
    changing-some id value idx small h =
        let well : IsWellFormed (set_status id value s).1 =
          set_status-IsWellFormed value s same.well small id in
        let still : well.next ≡ same.well.next = set_status-next id value s same.well well in
        let entry : find_by_record_id id s ≡ some (idx, value_at idx s.status_by_idx) =
          unfold find_by_record_id in ap (Option.map (λ i. (i, value_at i s.status_by_idx))) h in
        let (m, e, lt, _, _) = same.well.owned id idx h in
        rw (attempt-ok db never t (update_entry id)) (
          rw (same.entry id ∙ entry) (
            set_status_present id value s idx h,
            record {
              well = well;
              records = same.records;
              next = same.next ∙ ap pos (sym still);
              entry = λ other. changed-entry id other value _ idx entry;
              unused = λ n le.
                  used_idx-put (pos n) idx id value t.entries
                    (same.unused n (from_equal _ _ _ still le))
                    (ap (λ i. i == pos n) e
                      ∙ differs m n (trans_lt _ _ _ lt (from_equal _ _ _ still le)));
            },
            up_to _ _ still,
          ))

    pub changing-IsSame :
        (id : String) (value : ℕ)
        → value < 256
        → ((set_status id value s).0 ≡ (set_entry_status db id value t).0)
          × (after : IsSame recs (set_status id value s).1 (set_entry_status db id value t).1)
          × (after.well.next ≤ same.well.next + 1)
    changing-IsSame id value small = elim (Option-cases (get id s.status_by_rec_id)) [
      | inl h ↦ changing-none id value small h
      | inr (idx, h) ↦ changing-some id value idx small h
    ]
