-- ===== src/Issuance/Store.antt =====
-- Store of internal/issuance/store.go: issuance records and the allocation of the status list, in
-- memory. Each operation holds a mutex, so it is one step. What Go leaves open is an argument: the
-- drawn id, the time, the order of a range over a map, and sort.Slice.
pub mod Status
pub mod Lookup
pub mod Records
pub mod Counter
use Prim.Native.String.{compare}
use mathlib.Core.Option
use text.Mathlib.Text.{is_lt}
use fikua_lab_issuer.Issuance.Record.{Record, status_valid}
use fikua_lab_issuer.Platform.{Time}
use fikua_lab_issuer.Prelude.{
  Bool, List, Option, String, String-eq, [], drop, if◌then◌else◌, leb, length, ltb, none, not, some,
  take, ℕ, ◌&&◌, ◌-◌, ◌==◌, ◌||◌, ◌∷◌,
}
use fikua_lab_issuer.Prelude.Dict.{Dict, get, put}
use fikua_lab_issuer.Prelude.Int.{pos, wrap64, ℤ, ℤ-eq, ◌+ℤ◌, ◌<ℤ◌}
use fikua_lab_issuer.Result.Exec.{Exec, Result, ok}

pub record Store : Type 0 where
  pub records : Dict String Record
  pub by_issuer_state : Dict String String
  pub status_next_idx : ℤ
  pub status_by_idx : Dict ℤ ℕ
  pub status_by_rec_id : Dict String ℤ

unfoldable pub new_store : Store
new_store = record {
  records = [];
  by_issuer_state = [];
  status_next_idx = pos 0;
  status_by_idx = [];
  status_by_rec_id = [];
}

unfoldable pub create :
    Time
    → (id credential_type credential_data source_type source_ref : String) → Store
    → Record × Store
create now id credential_type credential_data source_type source_ref s =
    let rec : Record = record {
      id = id;
      credential_type = credential_type;
      credential_data = if credential_data == "" then "{}" else credential_data;
      source_type = source_type;
      source_ref = source_ref;
      status = "pending";
      issuer_state = "";
      created_at = now;
      updated_at = now;
    } in
    (rec, record s { records = put id rec s.records })

unfoldable pub find_by_id : String → Store → Option Record
find_by_id id s = get id s.records

unfoldable pub find_by_issuer_state : String → Store → Option Record
find_by_issuer_state issuer_state s = elim (get issuer_state s.by_issuer_state) [
  | none ↦ none
  | some id ↦ get id s.records
]

mutate_found : Time → String → (Record → Record) → Option Record → Store → Store
mutate_found now id fn none s = s
mutate_found now id fn (some rec) s = record s {
  records = put id (record (fn rec) { updated_at = now }) s.records;
}

unfoldable pub mutate : Time → String → (Record → Record) → Store → Store
unfolding mutate_found
mutate now id fn s = mutate_found now id fn (get id s.records) s

unfoldable pub update_status : Time → (id status : String) → Store → Store
unfolding mutate
update_status now id status s = mutate now id (λ r. record r { status = status }) s

link_found : Time → (id issuer_state : String) → Option Record → Store → Store
link_found now id issuer_state none s = s
link_found now id issuer_state (some rec) s = record s {
  records = put id (record rec { issuer_state = issuer_state; updated_at = now }) s.records;
  by_issuer_state = put issuer_state id s.by_issuer_state;
}

unfoldable pub update_issuer_state : Time → (id issuer_state : String) → Store → Store
unfolding link_found
update_issuer_state now id issuer_state s = link_found now id issuer_state (get id s.records) s

-- Go's `<` on strings
abbrev string_lt : String → String → Bool
string_lt a b = is_lt (compare a b)

unfoldable pub sort_less : Record → Record → String → Bool
sort_less a b field =
    if field == "updated_at"
    then ltb a.updated_at b.updated_at
    else if field == "status"
    then string_lt a.status b.status
    else if field == "credential_type"
    then string_lt a.credential_type b.credential_type
    else ltb a.created_at b.created_at

unfoldable pub allowed_sort_field : String → Bool
allowed_sort_field field =
    field == "created_at"
    || field == "updated_at"
    || field == "status"
    || field == "credential_type"

unfoldable pub records_of : Dict String Record → List Record
records_of [] = []
records_of ((_, rec) ∷ m) = rec ∷ records_of m

-- Go's `all[from:to]`; `none` is the panic of bounds that are out of range.
unfoldable pub slice : List Record → ℤ → ℤ → Option (List Record)
slice all (pos from) (pos to) =
    if leb from to && leb to (length all) then some (take (to - from) (drop from all)) else none
slice all _ _ = none

-- What FindAll sorts by: the requested field and order, or the defaults.
unfoldable pub less_for : (sort_field sort_order : String) → Record → Record → Bool
unfolding sort_less allowed_sort_field
less_for sort_field sort_order a b =
    let field : String = if allowed_sort_field sort_field then sort_field else "created_at" in
    if sort_order == "asc" then sort_less a b field else not (sort_less a b field)

unfoldable pub page_of : List Record → ℤ → ℤ → Option (List Record × ℤ)
page_of all offset limit =
    let total = pos (length all) in
    if not (offset <ℤ total)
    then some ([], total)
    else let sum = wrap64 (offset +ℤ limit) in
      Option.map (λ rows. (rows, total)) (slice all offset (if total <ℤ sum then total else sum))

module _ (range : List Record → List Record)
    (sort_slice : (Record → Record → Bool) → List Record → List Record) where
  unfoldable pub sorted_records : (sort_field sort_order : String) → Store → List Record
  sorted_records sort_field sort_order s =
      sort_slice (less_for sort_field sort_order) (range (records_of s.records))

  unfoldable pub find_all :
      (offset limit : ℤ) → (sort_field sort_order : String) → Store → Option (List Record × ℤ)
  unfolding page_of
  find_all offset limit sort_field sort_order s =
      page_of (sorted_records sort_field sort_order s) offset limit

allocate_found : String → Option ℤ → Store → Result ℤ × Store
allocate_found id (some idx) s = (ok idx, s)
allocate_found id none s = (
  ok s.status_next_idx,
  record s {
    status_next_idx = wrap64 (s.status_next_idx +ℤ pos 1);
    status_by_idx = put s.status_next_idx status_valid s.status_by_idx;
    status_by_rec_id = put id s.status_next_idx s.status_by_rec_id;
  },
)

unfoldable pub allocate_idx : String → Exec Store ℤ
unfolding allocate_found
allocate_idx id s = allocate_found id (get id s.status_by_rec_id) s

set_found : ℕ → Option ℤ → Store → Option ℤ × Store
set_found value none s = (none, s)
set_found value (some idx) s =
    (some idx, record s { status_by_idx = put idx value s.status_by_idx })

unfoldable pub set_status : String → ℕ → Store → Option ℤ × Store
unfolding set_found
set_status id value s = set_found value (get id s.status_by_rec_id) s

-- `s.statusByIdx[idx]`, with the zero value where there is none
abbrev pub value_at : ℤ → Dict ℤ ℕ → ℕ
value_at idx m = elim (get idx m) [ none ↦ 0 | some v ↦ v ]

unfoldable pub find_by_record_id : String → Store → Option (ℤ × ℕ)
find_by_record_id id s =
    Option.map (λ idx. (idx, value_at idx s.status_by_idx)) (get id s.status_by_rec_id)

unfoldable pub all_entries : Store → Result (Dict ℤ ℕ)
all_entries s = ok s.status_by_idx
