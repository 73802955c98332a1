-- ===== src/Tests/StatusLists.antt =====
-- The theorems about the status list and the store, at concrete inputs.
use fikua_lab_issuer.Issuance.Store.{Store, allocate_idx, find_by_record_id, set_status}
use fikua_lab_issuer.Issuance.Record.{Record, status_valid}
use fikua_lab_issuer.Issuance.Store.Status.{IsWellFormed}
use fikua_lab_issuer.Prelude.{
  List, [], arith, get_or, length, refl, some, ℕ, ◌+◌, ◌/◌, ◌<◌, ◌∷◌, ◌≡◌, String, String-eq,
  eq_iff, if◌then◌else◌, ◌==◌,
}
use fikua_lab_issuer.Prelude.Dict.{Dict, get}
use fikua_lab_issuer.Prelude.Int.{pos, ℤ, ℤ-eq}
use fikua_lab_issuer.Statuslist.{pack_bitstring, read_status}
use fikua_lab_issuer.Statuslist.Readback.{read_status-pack_bitstring}
use fikua_lab_issuer.Statuslist.Slots.{status_or}
use fikua_lab_issuer.Issuance.Store.Lookup.{
  entry_or, find-allocate_idx, find-set_status, with_status,
}
use fikua_lab_issuer.Result.Exec.{ok}

abbrev statuses : Dict ℤ ℕ
statuses = (pos 5, 1) ∷ (pos 0, 2) ∷ []

read_status-pack_bitstring_example :
    (out : List ℕ) × (pack_bitstring statuses (pos 6) ≡ some out)
    × (length out ≡ (6 + 3) / 4)
    × ((k : ℕ) → get_or out k 0 < 256)
    × ((i : ℕ) → i < 6 → read_status out i ≡ status_or (get (pos i) statuses) 0)
unfolding get
read_status-pack_bitstring_example =
    read_status-pack_bitstring statuses 6 (omega arith) (refl, (refl, tt))
      (omega arith, (omega arith, tt))

-- A store with one issued record, which has an entry in the status list.
abbrev pub issued_record : Record
issued_record = record {
  id = "record-1";
  credential_type = "urn:eudi:pid:1";
  credential_data = "{\"given_name\":\"Ada\"}";
  source_type = "";
  source_ref = "";
  status = "credential_issued";
  issuer_state = "state-1";
  created_at = 0;
  updated_at = 0;
}

abbrev pub one_record : Store
one_record = record {
  records = ("record-1", issued_record) ∷ [];
  by_issuer_state = [];
  status_next_idx = pos 1;
  status_by_idx = (pos 0, 0) ∷ [];
  status_by_rec_id = ("record-1", pos 0) ∷ [];
}

pub one_record_owned :
    (id : String) (idx : ℤ)
    → get id one_record.status_by_rec_id ≡ some idx
    → (n : ℕ) × (idx ≡ pos n) × (n < 1) × (v : ℕ) × (get idx one_record.status_by_idx ≡ some v)
unfolding get
one_record_owned id idx h =
    (0, ground arith, omega arith, 0, ground (arith, ℤ-eq.beq_iff (pos 0) idx))

pub one_record_injective :
    (id id' : String) (idx : ℤ)
    → get id one_record.status_by_rec_id ≡ some idx
    → get id' one_record.status_by_rec_id ≡ some idx
    → id ≡ id'
unfolding get
one_record_injective id id' idx h k = ground (arith, eq_iff "record-1" id, eq_iff "record-1" id')

pub one_record_below :
    (idx : ℤ) (v : ℕ)
    → get idx one_record.status_by_idx ≡ some v
    → (n : ℕ) × (idx ≡ pos n) × (n < 1) × (v < 256)
unfolding get
one_record_below idx v h = (0, ground (arith, ℤ-eq.beq_iff (pos 0) idx), omega arith, ground arith)

unfoldable pub one_record-IsWellFormed : IsWellFormed one_record
unfolding get
one_record-IsWellFormed = record {
  next = 1;
  next_idx = refl;
  owned = one_record_owned;
  injective = one_record_injective;
  entries = (refl, tt);
  below = one_record_below;
}

find-allocate_idx_example :
    ((allocate_idx "record-1" one_record).0
      ≡ ok
          (entry_or
            (find_by_record_id "record-1" one_record)
            (pos one_record-IsWellFormed.next, status_valid)).0)
    × (find_by_record_id "record-2" (allocate_idx "record-1" one_record).1 ≡ (
        if ◌==◌ {A = String} "record-1" "record-2"
        then some (
            entry_or
              (find_by_record_id "record-1" one_record)
              (pos one_record-IsWellFormed.next, status_valid))
        else find_by_record_id "record-2" one_record))
unfolding one_record-IsWellFormed
find-allocate_idx_example =
    find-allocate_idx "record-1" "record-2" one_record one_record-IsWellFormed (omega arith)

find-set_status_example : find_by_record_id "record-1" (set_status "record-1" 1 one_record).1 ≡ (
    if ◌==◌ {A = String} "record-1" "record-1"
    then with_status 1 (find_by_record_id "record-1" one_record)
    else find_by_record_id "record-1" one_record)
find-set_status_example = find-set_status "record-1" "record-1" one_record one_record-IsWellFormed 1
