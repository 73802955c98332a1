-- ===== src/Tests/Requests.antt =====
-- The theorems about triggered issuances, nonces, the listing and sequences of requests, at concrete
-- inputs.
use fikua_lab_issuer.Issuance.Store.{new_store, Store, sorted_records, create}
use fikua_lab_issuer.Issuance.Store.Status.{IsWellFormed}
use fikua_lab_issuer.Prelude.{
  [], arith, length, refl, ◌∷◌, ◌≡◌, String, String-eq, drop, none, take, ◌*◌, List, ◌≤◌,
}
use fikua_lab_issuer.Prelude.Int.{pos, ℤ-eq}
use fikua_lab_issuer.Issuance.Listing.{list_issuance_records, views}
use fikua_lab_issuer.Issuance.Listing.Pages.{
  list_issuance_records-overflow, list_issuance_records-page,
}
use fikua_lab_issuer.Issuance.Service.{issue_credential, revoke_credential, trigger_issuance}
use fikua_lab_issuer.Issuance.Service.Trigger.{IsOffered, trigger_issuance-IsOffered}
use fikua_lab_issuer.Issuance.State.{Draws, Service, TriggerIssuanceRequest, TriggerIssuanceResult}
use fikua_lab_issuer.Platform.{Time, second}
use fikua_lab_issuer.Result.Exec.{
  Result, panic, err, map_error, ok, pair_of, lift, modify, pure, zoom, ◌>>=◌,
}
use fikua_lab_issuer.Tests.World.{as_given, in_order, runtime, setup, upstream, world}
use fikua_lab_issuer.Session.{store_credential_offer}
use fikua_lab_issuer.Issuance.Service.Invariant.{Within, issue_credential-Within}
use fikua_lab_issuer.Tests.StatusLists.{one_record, one_record-IsWellFormed}
use fikua_lab_issuer.Issuance.Service.Requests.{
  Request, credential, nonce, revoke, serve_all, serve_all-IsWellFormed, status_list, trigger,
}
use fikua_lab_issuer.Issuance.Service.Revocable.{IsRevocable, revoke_credential_iff}
use fikua_lab_issuer.Prelude.{◌↔◌}
use fikua_lab_issuer.Issuance.Service.{generate_nonce}
use fikua_lab_issuer.Issuance.Service.Nonce.{IsNonceAnswer, generate_nonce-IsNonceAnswer}
use fikua_lab_issuer.Tests.Issuances.{decode, memory, service}

abbrev draws : Draws
draws = record { record_id = "record-2"; issuer_state = "state-2"; offer_id = "offer-2" }

abbrev triggering_request : TriggerIssuanceRequest
triggering_request = record {
  credential_type = "";
  credential_data = none;
  source_type = "ui";
  source_ref = "";
}

abbrev triggering : Result TriggerIssuanceResult × Service Store String
triggering = trigger_issuance world memory setup (1010 * second) draws triggering_request service

abbrev triggered : TriggerIssuanceResult
triggered = record {
  issuance_id = "record-2";
  credential_offer_uri = "https://issuer/oid4vci/v1/credential-offer/offer-2";
}

trigger_run : triggering.0 ≡ ok triggered
unfolding trigger_issuance ◌>>=◌ lift map_error zoom modify pure create store_credential_offer
trigger_run = refl

trigger_issuance-IsOffered_example :
    IsOffered world in_order as_given setup
      (1010 * second)
      draws
      triggering_request
      service
      triggered
      triggering.1
trigger_issuance-IsOffered_example =
    trigger_issuance-IsOffered world in_order as_given setup (1010 * second) draws
      triggering_request service triggered triggering.1 (pair_of _ (ok triggered) trigger_run)

abbrev format : Time → String
format t = "2026-01-01T00:00:00.000Z"

list_issuance_records-page_example :
    list_issuance_records world memory format (pos 1) (pos 20) "status" "asc" one_record
    ≡ ok (record {
      records =
          views world memory format one_record
            (take 20 (drop 0 (sorted_records in_order as_given "status" "asc" one_record)));
      total = pos (length (sorted_records in_order as_given "status" "asc" one_record));
      page = pos 1;
      size = pos 20;
    })
list_issuance_records-page_example =
    list_issuance_records-page 1 20 (omega arith) (omega arith) (omega arith) (omega arith) world
      in_order as_given format "status" "asc" one_record (omega arith)

list_issuance_records-overflow_example :
    (text : String) × (list_issuance_records world memory format
        (pos 4611686018427387905)
        (pos 2)
        "status"
        "asc"
        one_record
      ≡ err (panic text))
list_issuance_records-overflow_example =
    list_issuance_records-overflow 4611686018427387905 2 (omega arith) (omega arith) (omega arith)
      (omega arith) world in_order as_given format "status" "asc" one_record (omega arith)
      (omega arith)

issue_credential-Within_example :
    Within 2
      (issue_credential world memory setup decode runtime upstream "access" "dpop" "{}"
        service).1.issuances
unfolding one_record-IsWellFormed
issue_credential-Within_example =
    issue_credential-Within world in_order as_given setup 1 service decode runtime upstream "access"
      "dpop" "{}" (omega arith) (one_record-IsWellFormed, omega arith)

abbrev requests : List (Request String)
requests =
    trigger (1010 * second) draws triggering_request
    ∷ credential runtime upstream "access" "dpop" "{}"
    ∷ nonce runtime upstream "nonce-2" "" ""
    ∷ revoke "record-2"
    ∷ status_list (1020 * second) "pid"
    ∷ []

abbrev new_service : Service Store String
new_service = record service { issuances = new_store }

serve_all-IsWellFormed_example :
    (w : IsWellFormed
      (serve_all world in_order as_given setup decode requests new_service).issuances)
    × (w.next ≤ 5)
serve_all-IsWellFormed_example =
    serve_all-IsWellFormed world in_order as_given setup decode requests new_service (omega arith)
      refl

revoke_credential_iff_example :
    ((revoke_credential world memory setup "record-1" service).0 ≡ ok tt)
    ↔ IsRevocable world in_order as_given setup "record-1" service
revoke_credential_iff_example =
    revoke_credential_iff world in_order as_given setup "record-1" service

abbrev asking : Result String × Service Store String
asking = generate_nonce world memory setup runtime upstream "nonce-2" "" "" service

nonce_run : asking.0 ≡ ok "nonce-2"
unfolding generate_nonce ◌>>=◌ pure
nonce_run = refl

generate_nonce-IsNonceAnswer_example :
    IsNonceAnswer world memory setup runtime upstream "nonce-2" "" "" service "nonce-2" asking.1
generate_nonce-IsNonceAnswer_example =
    generate_nonce-IsNonceAnswer world memory setup runtime upstream "nonce-2" "" "" service
      "nonce-2" asking.1 (pair_of _ (ok "nonce-2") nonce_run)
