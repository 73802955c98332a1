-- ===== src/Issuance/Store/Records.antt =====
-- Create, UpdateIssuerState and UpdateStatus of internal/issuance/store.go, one after the other.
use fikua_lab_issuer.Issuance.Record.{Record}
use fikua_lab_issuer.Issuance.Store.{
  Store, create, find_by_id, find_by_issuer_state, link_found, mutate, mutate_found,
  update_issuer_state, update_status,
}
use fikua_lab_issuer.Platform.{Time}
use fikua_lab_issuer.Prelude.{
  String, String-eq, arith, if◌then◌else◌, some, ◌==◌, ◌≡◌, ap, refl, ◌∙◌,
}
use fikua_lab_issuer.Prelude.Dict.{get, get-put, get-put_self, put}

module _ (now : Time) (id : String) (s : Store) (r : Record) (h : get id s.records ≡ some r) where
  update_status_at :
      (status : String)
      → update_status now id status s
        ≡ record s { records = put id (record r { status = status; updated_at = now }) s.records }
  unfolding update_status mutate mutate_found
  update_status_at status = rw h refl

  update_issuer_state_at :
      (issuer_state : String)
      → update_issuer_state now id issuer_state s ≡ record s {
        records = put id (record r { issuer_state = issuer_state; updated_at = now }) s.records;
        by_issuer_state = put issuer_state id s.by_issuer_state;
      }
  unfolding update_issuer_state link_found
  update_issuer_state_at issuer_state = rw h refl

-- The record of a triggered issuance.
abbrev pub offered :
    Time
    → (id credential_type credential_data source_type source_ref issuer_state : String) → Record
offered now id credential_type credential_data source_type source_ref issuer_state = record {
  id = id;
  credential_type = credential_type;
  credential_data = if credential_data == "" then "{}" else credential_data;
  source_type = source_type;
  source_ref = source_ref;
  status = "offer_created";
  issuer_state = issuer_state;
  created_at = now;
  updated_at = now;
}

module _ (now : Time)
    (id credential_type credential_data source_type source_ref issuer_state : String)
    (s : Store) where
  -- The store after the three steps of a triggering.
  abbrev pub with_offered : Store
  with_offered = record s {
    records =
        put id (offered now id credential_type credential_data source_type source_ref issuer_state)
          (put id
            (record (offered now id credential_type credential_data source_type source_ref
              issuer_state) { status = "pending" })
            (create now id credential_type credential_data source_type source_ref s).1.records);
    by_issuer_state = put issuer_state id s.by_issuer_state;
  }

  pub create-offered :
      update_status now id "offer_created" (
        update_issuer_state now id issuer_state
          (create now id credential_type credential_data source_type source_ref s).1)
      ≡ with_offered
  unfolding create
  create-offered =
      ap (update_status now id "offer_created")
        (update_issuer_state_at now id _ _ (get-put_self id _ s.records) issuer_state)
      ∙ update_status_at now id _ _ (get-put_self id _ _) "offer_created"

  pub find-with_offered :
      (other : String)
      → find_by_id other with_offered ≡ (
          if id == other
          then some
              (offered now id credential_type credential_data source_type source_ref issuer_state)
          else find_by_id other s)
  unfolding find_by_id create
  find-with_offered other = ground (
    arith,
    get-put id other
        (offered now id credential_type credential_data source_type source_ref issuer_state)
        (put id
          (record (offered now id credential_type credential_data source_type source_ref
            issuer_state) { status = "pending" })
          (create now id credential_type credential_data source_type source_ref s).1.records),
    get-put id other
        (record (offered now id credential_type credential_data source_type source_ref
          issuer_state) { status = "pending" })
        (create now id credential_type credential_data source_type source_ref s).1.records,
    get-put id other (create now id credential_type credential_data source_type source_ref s).0
        s.records,
  )

  pub find_by_issuer_state-with_offered :
      find_by_issuer_state issuer_state with_offered
      ≡ some (offered now id credential_type credential_data source_type source_ref issuer_state)
  unfolding find_by_issuer_state
  find_by_issuer_state-with_offered =
      rw (find_by_issuer_state, get-put_self issuer_state id s.by_issuer_state)
        (get-put_self id _ _)
