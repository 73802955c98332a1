-- ===== src/Issuance/Memory.antt =====
-- The in-memory store as the stores that the service is built with.
use fikua_lab_issuer.Issuance.Store.{
  Store, all_entries, allocate_idx, create, find_all, find_by_id, find_by_issuer_state,
  find_by_record_id, set_status, update_issuer_state, update_status,
}
use fikua_lab_issuer.Issuance.Interface.{Stores}
use fikua_lab_issuer.Issuance.Record.{Record}
use fikua_lab_issuer.Prelude.{Bool, List}

-- The order of a range over the records, and sort.Slice, are arguments.
abbrev pub in_memory :
    (List Record → List Record)
    → ((Record → Record → Bool) → List Record → List Record)
    → Stores Store
in_memory range sort_slice = record {
  create = create;
  find_by_id = find_by_id;
  find_by_issuer_state = find_by_issuer_state;
  update_status = update_status;
  update_issuer_state = update_issuer_state;
  find_all = find_all range sort_slice;
  allocate_idx = allocate_idx;
  set_status = set_status;
  find_by_record_id = find_by_record_id;
  all_entries = all_entries;
}
