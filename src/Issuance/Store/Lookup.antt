-- ===== src/Issuance/Store/Lookup.antt =====
-- AllocateIdx, SetStatus and FindByRecordID of internal/issuance/store.go, one after the other.
use fikua_lab_issuer.Issuance.Record.{status_valid}
use fikua_lab_issuer.Issuance.Store.{Store, allocate_idx, find_by_record_id, set_status}
use fikua_lab_issuer.Issuance.Store.Status.{
  IsWellFormed, allocate_idx_again, allocate_idx_fresh, extended, unowned_idx,
}
use fikua_lab_issuer.Prelude.{
  Bool-cases, Option, Option-cases, String, String-eq, arith, eq_iff, if◌then◌else◌, inl, inr, none,
  some, ℕ, ◌+◌, ◌<◌, ◌==◌, ◌∙◌, ◌≡◌,
}
use fikua_lab_issuer.Prelude.Dict.{get, get-put, get-put_self}
use fikua_lab_issuer.Prelude.Int.{half_range, pos, ℤ, ℤ-eq}
use fikua_lab_issuer.Result.Exec.{ok}

-- The entry that a record has, or the one that it is given.
abbrev pub entry_or : Option (ℤ × ℕ) → ℤ × ℕ → ℤ × ℕ
entry_or (some entry) new = entry
entry_or none new = new

abbrev pub with_status : ℕ → Option (ℤ × ℕ) → Option (ℤ × ℕ)
with_status value none = none
with_status value (some entry) = some (entry.0, value)

module _ (id other : String) (s : Store) (w : IsWellFormed s) where
  lookup-extended :
      get id s.status_by_rec_id ≡ none
      → find_by_record_id other (extended id s w)
        ≡ (if id == other then some (pos w.next, status_valid) else find_by_record_id other s)
  unfolding find_by_record_id
  lookup-extended new = elim (Bool-cases (id == other)) [
    | inl same ↦ ground (
      arith,
      get-put id other (pos w.next) s.status_by_rec_id,
      get-put_self (pos w.next) status_valid s.status_by_idx,
    )
    | inr diff ↦ elim (Option-cases (get other s.status_by_rec_id)) [
      | inl absent ↦ ground (arith, get-put id other (pos w.next) s.status_by_rec_id)
      | inr (idx, e) ↦ ground (
        arith,
        get-put id other (pos w.next) s.status_by_rec_id,
        unowned_idx s w other,
        get-put (pos w.next) idx status_valid s.status_by_idx,
        ℤ-eq.beq_iff (pos w.next) idx,
      )
    ]
  ]

  -- After an allocation that does not overflow the counter, the record has an entry: the one that
  -- it had, with its status, or a new valid one; every other record has the entry that it had.
  pub find-allocate_idx :
      w.next + 1 < half_range
      → ((allocate_idx id s).0
          ≡ ok (entry_or (find_by_record_id id s) (pos w.next, status_valid)).0)
        × (find_by_record_id other (allocate_idx id s).1 ≡ (
            if id == other
            then some (entry_or (find_by_record_id id s) (pos w.next, status_valid))
            else find_by_record_id other s))
  find-allocate_idx room = elim (Option-cases (get id s.status_by_rec_id)) [
    | inl new ↦ rw (allocate_idx_fresh id s w new room) (
      unfold find_by_record_id in ground (arith, new),
      lookup-extended new ∙ (unfold find_by_record_id in ground (arith, new)),
    )
    | inr (idx, old) ↦ rw (allocate_idx_again id s w idx old) (
      unfold find_by_record_id in ground (arith, old),
      unfold find_by_record_id in ground (arith, old, eq_iff id other),
    )
  ]

  -- After a change of status, the record has its index with the new status, if it has an index; every
  -- other record has the entry that it had.
  pub find-set_status :
      (value : ℕ)
      → find_by_record_id other (set_status id value s).1 ≡ (
          if id == other
          then with_status value (find_by_record_id id s)
          else find_by_record_id other s)
  unfolding find_by_record_id set_status
  find-set_status value = elim (Option-cases (get id s.status_by_rec_id)) [
    | inl absent ↦ ground (arith, eq_iff id other)
    | inr (idx, e) ↦ elim (Option-cases (get other s.status_by_rec_id)) [
      | inl absent ↦ ground (arith, eq_iff id other)
      | inr (idx', e') ↦ ground (
        arith,
        eq_iff id other,
        get-put idx idx' value s.status_by_idx,
        ℤ-eq.beq_iff idx idx',
        w.injective id other idx,
      )
    ]
  ]

-- The published entries hold each record's status at its index.
pub entry_of_lookup :
    (id : String) (s : Store) (idx : ℤ) (value : ℕ)
    → IsWellFormed s
    → find_by_record_id id s ≡ some (idx, value)
    → get idx s.status_by_idx ≡ some value
unfolding find_by_record_id
entry_of_lookup id s idx value w h = elim (Option-cases (get id s.status_by_rec_id)) [
  | inl absent ↦ ground (arith, absent)
  | inr (i, e) ↦ let (_, _, _, v, at) = w.owned id i e in ground (arith, e, at)
]
