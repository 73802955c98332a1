-- ===== src/Issuance/Service/Trigger.antt =====
-- TriggerIssuance of internal/issuance/service.go: the record and the offer that it makes.
use fikua_lab_issuer.Issuance.Store.{Store, find_by_id, find_by_issuer_state, create}
use fikua_lab_issuer.Issuance.Memory.{in_memory}
use fikua_lab_issuer.Issuance.Record.{Record}
use fikua_lab_issuer.Issuance.Service.{trigger_issuance}
use fikua_lab_issuer.Issuance.State.{
  Draws, Service, Setup, TriggerIssuanceRequest, TriggerIssuanceResult, pid_config_id,
}
use fikua_lab_issuer.Oid4vci.Messages.{authorization_code_offer, offer_object}
use fikua_lab_issuer.Platform.{Platform, Time, Members, no_members}
use fikua_lab_issuer.Prelude.{
  Bool, List, String, String-eq, concat, if◌then◌else◌, some, ◌==◌, ◌≡◌, ap, none, refl, ◌∙◌,
}
use fikua_lab_issuer.Result.Ensures.{Ensures-mapped, Ensures-pure, Ensures-known}
use fikua_lab_issuer.Result.Exec.{modify, ok, zoom}
use fikua_lab_issuer.Session.{get_credential_offer, store_credential_offer}
use fikua_lab_issuer.Issuance.Store.Records.{
  create-offered, find-with_offered, find_by_issuer_state-with_offered, offered,
}
use fikua_lab_issuer.Prelude.Dict.{get-put_self}

-- The PID type where the request names none.
pub requested_type : TriggerIssuanceRequest → String
requested_type req = if req.credential_type == "" then pid_config_id else req.credential_type

-- The credential data of the request, empty where it has none.
pub requested_data : TriggerIssuanceRequest → Members
requested_data req = elim req.credential_data [ none ↦ no_members | some m ↦ m ]

module _ {Key KeySet : Type 0} (p : Platform Key KeySet) (range : List Record → List Record)
    (sort_slice : (Record → Record → Bool) → List Record → List Record) (setup : Setup) (now : Time)
    (draws : Draws) (req : TriggerIssuanceRequest) (s : Service Store KeySet) where
  -- The record of the issuance, linked to its issuer state, and the offer, under the id that the
  -- answer's URI ends with.
  pub record IsOffered (result : TriggerIssuanceResult) (s' : Service Store KeySet) : Type 0 where
    pub rec : Record
    pub offer_json : String
    pub record_id : rec.id ≡ result.issuance_id
    pub status : rec.status ≡ "offer_created"
    pub credential_type : rec.credential_type ≡ requested_type req
    pub issuer_state : rec.issuer_state ≡ draws.issuer_state
    pub offer :
        p.marshal_json (
          offer_object
            (authorization_code_offer setup.base_url (requested_type req) rec.issuer_state))
        ≡ ok offer_json
    pub by_id :
        (other : String)
        → find_by_id other s'.issuances
          ≡ (if result.issuance_id == other then some rec else find_by_id other s.issuances)
    pub by_issuer_state : find_by_issuer_state rec.issuer_state s'.issuances ≡ some rec
    pub uri :
        (offer_id : String) × (result.credential_offer_uri
          ≡ concat (concat setup.base_url "/oid4vci/v1/credential-offer/") offer_id)
        × (get_credential_offer offer_id s'.sessions ≡ some offer_json)

  -- Over the in-memory store a triggering that succeeds creates a record of the requested type, which is
  -- found by its id and by the issuer state that the offer names, and stores the offer under the id
  -- that the answer's URI ends with; every other record is as it was.
  pub trigger_issuance-IsOffered :
      (result : TriggerIssuanceResult) (s' : Service Store KeySet)
      → trigger_issuance p (in_memory range sort_slice) setup now draws req s ≡ (ok result, s')
      → IsOffered result s'
  unfolding trigger_issuance zoom modify requested_type create store_credential_offer
      get_credential_offer
  trigger_issuance-IsOffered =
      (Ensures-mapped _ _ _ _ λ data_json marshalled. Ensures-known _ _ _ _ _ refl (
        Ensures-known _ _ _ _ _ refl (
          Ensures-mapped _ _ _ _ λ offer_json offered_json. Ensures-known _ _ _ _ _ refl (
            Ensures-known _ _ _ _ _ refl (
              Ensures-pure _ _ (
                let same =
                  create-offered now draws.record_id (requested_type req) data_json req.source_type
                    req.source_ref draws.issuer_state s.issuances in
                record {
                  rec =
                      offered now draws.record_id (requested_type req) data_json req.source_type
                        req.source_ref draws.issuer_state;
                  offer_json = offer_json;
                  record_id = refl;
                  status = refl;
                  credential_type = refl;
                  issuer_state = refl;
                  offer = offered_json;
                  by_id = λ other.
                      ap (find_by_id other) same
                      ∙ find-with_offered now draws.record_id _ data_json _ _ _ s.issuances other;
                  by_issuer_state =
                      ap (find_by_issuer_state draws.issuer_state) same
                      ∙ find_by_issuer_state-with_offered now draws.record_id _ data_json _ _ _
                          s.issuances;
                  uri = (
                    draws.offer_id,
                    refl,
                    get-put_self draws.offer_id offer_json s.sessions.credential_offers,
                  );
                })))))).at
