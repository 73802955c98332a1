-- ===== src/Issuance/Service/Withdrawn.antt =====
-- IssueCredential, RevokeCredential and GetStatusListToken of internal/issuance/service.go over the
-- in-memory store, one after the other.
use mathlib.Core.Path.{subst}
use fikua_lab_issuer.Issuance.Store.{Store, find_by_record_id}
use fikua_lab_issuer.Issuance.Service.Bound.{entry_after, same_entry}
use fikua_lab_issuer.Issuance.Service.Revocation.{
  IsListed, revoke_credential-IsRevocation, revoke_credential-published,
}
use fikua_lab_issuer.Issuance.Service.Credential.{IsIssuance, issue_credential-IsIssuance}
use fikua_lab_issuer.Accesstoken.{Claims, Upstream, verify}
use fikua_lab_issuer.Issuance.Interface.{Stores}
use fikua_lab_issuer.Issuance.Memory.{in_memory}
use fikua_lab_issuer.Issuance.Record.{Record, status_invalid}
use fikua_lab_issuer.Issuance.Service.{get_status_list_token, issue_credential, revoke_credential}
use fikua_lab_issuer.Issuance.State.{Service, Setup, failed, list_size, status_list_id}
use fikua_lab_issuer.Issuance.Store.Lookup.{find-set_status}
use fikua_lab_issuer.Issuance.Store.Status.{IsWellFormed}
use fikua_lab_issuer.Oauth2.Dpop.{Runtime}
use fikua_lab_issuer.Oid4vci.Messages.{CredentialRequest, CredentialResponse}
use fikua_lab_issuer.Platform.{Platform, Time}
use fikua_lab_issuer.Prelude.{
  Bool, List, String, String-eq, ap, arith, beq_self, concat, some, sym, ◌*◌, ◌+◌, ◌<◌, ◌∙◌, ◌≡◌,
}
use fikua_lab_issuer.Prelude.Int.{half_range, pos}
use fikua_lab_issuer.Result.Exec.{Result, map_error, ok, ok_injective}
use fikua_lab_issuer.Statuslist.Token.{signed_list}

module _ {Key KeySet : Type 0} (p : Platform Key KeySet) (range : List Record → List Record)
    (sort_slice : (Record → Record → Bool) → List Record → List Record) (setup : Setup)
    (decode : String → Result CredentialRequest) (rt : Runtime) (up : Upstream KeySet)
    (access_token header body : String) (s : Service Store KeySet) where
  abbrev stores : Stores Store
  stores = in_memory range sort_slice

  -- A credential that was issued and is listed as invalid, in every list that is asked for next.
  pub record IsWithdrawn (s' s'' : Service Store KeySet) (response : CredentialResponse)
      : Type 0 where
    pub issuance : IsIssuance p stores setup decode rt up access_token header body s s' response
    pub listing :
        IsListed s''.issuances
          (list_size (pos 0) s''.issuances.status_by_idx)
          issuance.claims.issuance_record_id
          status_invalid
    pub same_idx : pos listing.idx ≡ issuance.idx
    pub published :
        (now : Time)
        → (get_status_list_token p stores setup now status_list_id s'').0
          ≡ map_error (failed "Failed to build status list token: ") (
              signed_list p setup.issuer_key now
                (concat setup.base_url "/oid4vci/v1/status-list/pid")
                listing.out)

  -- Over a well-formed in-memory store that has allocated at most 2^62 - 5 indices: if a credential is issued for
  -- a verified access token, and the record that the token names is revoked with success, then the
  -- status list that is asked for next, at any time, is built anew, from a packed list that carries
  -- the invalid status at the index that the credential was built with.
  pub revoke-issue_credential :
      (w : IsWellFormed s.issuances)
      → w.next * 2 + 9 < half_range
      → (claims : Claims) → (verify p rt.now up access_token s.tokens).0 ≡ ok claims
      → (response : CredentialResponse) (s' : Service Store KeySet)
      → issue_credential p stores setup decode rt up access_token header body s ≡ (ok response, s')
      → (u : Unit {0}) (s'' : Service Store KeySet)
      → revoke_credential p stores setup claims.issuance_record_id s' ≡ (ok u, s'')
      → IsWithdrawn s' s'' response
  revoke-issue_credential w room claims verified response s' h u s'' revoked =
      let i =
        issue_credential-IsIssuance p stores setup decode rt up access_token header body s response
          s' h in
      let id = i.claims.issuance_record_id in
      let same : claims ≡ i.claims = ok_injective _ _ (sym verified ∙ i.is_authorized.verified) in
      let h' : revoke_credential p stores setup id s' ≡ (ok u, s'') =
        subst
          (λ (c : Claims). revoke_credential p stores setup c.issuance_record_id s' ≡ (ok u, s''))
          same revoked in
      let ((w', le), value, found, _) =
        entry_after p range sort_slice setup decode rt up access_token header body s w room response
          s' h i in
      let (l, published) =
        revoke_credential-published p range sort_slice setup id s' w' (omega (arith, le)) u s''
          h' in
      let r = revoke_credential-IsRevocation p range sort_slice setup id s' u s'' h' in
      let at : find_by_record_id id s''.issuances ≡ some (i.idx, status_invalid) =
        ap (find_by_record_id id) r.stored
        ∙ find-set_status id id s'.issuances w' status_invalid
        ∙ ground (arith, beq_self id, found) in
      record {
        issuance = i;
        listing = l;
        same_idx = ap (λ e. e.0) (same_entry _ _ (sym l.entry ∙ at));
        published = published;
      }
