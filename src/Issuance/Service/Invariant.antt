-- ===== src/Issuance/Service/Invariant.antt =====
-- The handlers of internal/issuance/service.go over the in-memory store, whether they succeed or
-- fail: what they leave of the status list.
use mathlib.Core.Path.{subst}
use fikua_lab_issuer.Issuance.Store.{
  Store, mutate, update_status, allocate_idx, create, update_issuer_state, set_status,
}
use fikua_lab_issuer.Oid4vci.Proof.{validate_proof_jwt}
use fikua_lab_issuer.Platform.{Platform, Time}
use fikua_lab_issuer.Prelude.{
  String, String-eq, refl, ◌≡◌, Bool, List, ◌+◌, ◌<◌, Option-cases, ap, inl, inr, sym, ◌∙◌, arith,
  ℕ, ◌≤◌,
}
use fikua_lab_issuer.Result.Exec.{pure, Result, caught, gets, modify, zoom}
use fikua_lab_issuer.Result.Leaves.{leaves-lift, leaves-require, leaves-bind, require-leaves}
use fikua_lab_issuer.Accesstoken.{Upstream}
use fikua_lab_issuer.Issuance.Interface.{Stores}
use fikua_lab_issuer.Issuance.Memory.{in_memory}
use fikua_lab_issuer.Issuance.Record.{Record, status_invalid}
use fikua_lab_issuer.Issuance.Service.{
  authorize, issue_credential, validate_proof_nonce, revoke_credential, trigger_issuance,
}
use fikua_lab_issuer.Issuance.State.{Service, Setup, Draws, TriggerIssuanceRequest}
use fikua_lab_issuer.Issuance.Store.Status.{
  IsWellFormed, allocate_idx-IsWellFormed, set_status-IsWellFormed,
}
use fikua_lab_issuer.Oauth2.Dpop.{Runtime}
use fikua_lab_issuer.Oid4vci.Messages.{CredentialRequest, extract_proof_jwt}
use fikua_lab_issuer.Prelude.Int.{half_range}
use fikua_lab_issuer.Prelude.Dict.{Dict, get}
use fikua_lab_issuer.Issuance.Store.Counter.{allocate_idx-next-le, set_status-next}

-- Validating a key proof touches no state.
module _ {S Key KeySet : Type 0} (p : Platform Key KeySet) (s : S) where
  validate_proof_jwt_state :
      (now : Time) (proof_jwt issuer : String) → (validate_proof_jwt p now proof_jwt issuer s).1 ≡ s
  unfolding validate_proof_jwt pure
  validate_proof_jwt_state now proof_jwt issuer =
      let Q : S → Type 0 = λ t. t ≡ s in
      leaves-lift Q _ _ _ refl λ signatures _. leaves-lift Q _ _ _ refl λ headers _.
        leaves-require Q _ _ _ _ refl (
          leaves-require Q _ _ _ _ refl (
            leaves-lift Q _ _ _ refl λ key _. leaves-lift Q _ _ _ refl λ token _.
              leaves-require Q _ _ _ _ refl
                (leaves-lift Q _ _ _ refl λ iat _. leaves-require Q _ _ _ _ refl refl)))

module _ {S Key KeySet : Type 0} (p : Platform Key KeySet) (st : Stores S) (setup : Setup)
    (s : Service S KeySet) where
  -- What leaves the stored issuances as they are.
  abbrev Same : Service S KeySet → Type 0
  Same t = t.issuances ≡ s.issuances

  pub authorize_state :
      (rt : Runtime) (up : Upstream KeySet) (access_token header path mismatch : String)
      → Same (authorize p st setup rt up access_token header path mismatch s).1
  unfolding authorize zoom pure
  authorize_state rt up access_token header path mismatch =
      leaves-bind Same _ _ _ refl
        λ claims _. leaves-bind Same _ _ _ refl λ key _. leaves-lift Same _ _ _ refl λ u _. refl

  validate_proof_nonce_state :
      (proof_jwt token_c_nonce : String)
      → Same (validate_proof_nonce p st setup proof_jwt token_c_nonce s).1
  unfolding validate_proof_nonce
  validate_proof_nonce_state proof_jwt token_c_nonce = leaves-lift Same _ _ _ refl λ nonce _.
      leaves-require Same _ _ _ _ refl
        (leaves-bind Same _ _ _ refl λ registered _. require-leaves Same _ _ _ refl)

-- A well-formed status list with at most `n` indices.
abbrev pub Within : ℕ → Store → Type 0
Within n t = (w : IsWellFormed t) × (w.next ≤ n)

-- A change of the records and of their links touches no index and no status value.
with_links-Within :
    (n : ℕ) (records : Dict String Record) (links : Dict String String) (s : Store)
    → Within n s
    → Within n (record s { records = records; by_issuer_state = links })
with_links-Within n records links s (w, h) = (
  record {
    next = w.next;
    next_idx = w.next_idx;
    owned = w.owned;
    injective = w.injective;
    entries = w.entries;
    below = w.below;
  },
  h,
)

update_status-Within :
    (n : ℕ) (now : Time) (id status : String) (s : Store)
    → Within n s
    → Within n (update_status now id status s)
unfolding update_status mutate
update_status-Within n now id status s w = elim (Option-cases (get id s.records)) [
  | inl absent ↦ rw absent w
  | inr (r, e) ↦ rw e (with_links-Within n _ _ s w)
]

update_issuer_state-Within :
    (n : ℕ) (now : Time) (id issuer_state : String) (s : Store)
    → Within n s
    → Within n (update_issuer_state now id issuer_state s)
unfolding update_issuer_state
update_issuer_state-Within n now id issuer_state s w = elim (Option-cases (get id s.records)) [
  | inl absent ↦ rw absent w
  | inr (r, e) ↦ rw e (with_links-Within n _ _ s w)
]

set_status-Within :
    (n value : ℕ) (id : String) (s : Store)
    → value < 256
    → Within n s
    → Within n (set_status id value s).1
set_status-Within n value id s small (w, h) =
    let w' = set_status-IsWellFormed value s w small id in
    (w', subst (λ k. k ≤ n) (sym (set_status-next id value s w w')) h)

allocate_idx-Within :
    (n : ℕ) (id : String) (s : Store)
    → n + 1 < half_range
    → Within n s
    → Within (n + 1) (allocate_idx id s).1
allocate_idx-Within n id s room (w, h) =
    let w' = allocate_idx-IsWellFormed id s w (omega arith) in
    (w', omega (arith, allocate_idx-next-le id s w w' (omega arith)))

module _ {Key KeySet : Type 0} (p : Platform Key KeySet) (range : List Record → List Record)
    (sort_slice : (Record → Record → Bool) → List Record → List Record) (setup : Setup) (n : ℕ)
    (s : Service Store KeySet) where
  -- A credential request over the in-memory store, whether it succeeds or fails, keeps the status list
  -- well-formed and allocates at most one index, as long as the counter of indices does not overflow.
  pub issue_credential-Within :
      (decode : String → Result CredentialRequest) (rt : Runtime) (up : Upstream KeySet)
      (access_token header body : String)
      → n + 1 < half_range
      → Within n s.issuances
      → Within
          (n + 1)
          (issue_credential p
            (in_memory range sort_slice)
            setup
            decode
            rt
            up
            access_token
            header
            body
            s).1.issuances
  unfolding issue_credential zoom caught gets modify pure
  issue_credential-Within decode rt up access_token header body room (w, h) =
      let Kept : Service Store KeySet → Type 0 = λ t. Within (n + 1) t.issuances in
      let st = in_memory range sort_slice in
      let kept : (t : Store) → t ≡ s.issuances → Within (n + 1) t =
        λ t q. subst (Within (n + 1)) (sym q) (w, omega arith) in
      let first =
        authorize_state p st setup s rt up access_token header "/oid4vci/v1/credential"
          "DPoP key mismatch" in
      leaves-bind Kept _ _ _ (kept _ first) λ claims _.
        leaves-lift Kept _ _ _ (kept _ first) λ req _. leaves-lift Kept _ _ _ (kept _ first) λ u _.
          leaves-require Kept _ _ _ _ (kept _ first) (
            let second =
              ap (λ (t : Service Store KeySet). t.issuances)
                (validate_proof_jwt_state p _ rt.now (extract_proof_jwt req) setup.base_url)
              ∙ first in
            leaves-bind Kept _ _ _ (kept _ second) λ wallet_key _.
              let third =
                validate_proof_nonce_state p st setup _ (extract_proof_jwt req) claims.c_nonce
                ∙ second in
              leaves-bind Kept _ _ _ (kept _ third) λ v _.
                leaves-require Kept _ _ _ _ (kept _ third) (
                  leaves-bind Kept _ _ _ (kept _ third) λ found _.
                    leaves-lift Kept _ _ _ (kept _ third) λ rec _.
                      let fourth =
                        allocate_idx-Within n claims.issuance_record_id _ room
                          (subst (Within n) (sym third) (w, h)) in
                      leaves-bind Kept _ _ _ fourth λ idx _.
                        leaves-lift Kept _ _ _ fourth λ credential _.
                          let fifth =
                            update_status-Within (n + 1) rt.now claims.issuance_record_id
                              "credential_issued" _ fourth in
                          leaves-bind Kept _ _ _ fifth
                            λ x _. leaves-bind Kept _ _ _ fifth λ y _. fifth))

  -- A revocation over the in-memory store, whether it succeeds or fails, keeps the status list
  -- well-formed and allocates no index.
  pub revoke_credential-Within :
      (id : String)
      → Within n s.issuances
      → Within n (revoke_credential p (in_memory range sort_slice) setup id s).1.issuances
  unfolding revoke_credential zoom gets modify
  revoke_credential-Within id w =
      let Kept : Service Store KeySet → Type 0 = λ t. Within n t.issuances in
      let changed = set_status-Within n status_invalid id s.issuances (omega arith) w in
      leaves-bind Kept _ _ _ w λ found _. leaves-lift Kept _ _ _ w λ rec _.
        leaves-require Kept _ _ _ _ w (
          leaves-bind Kept _ _ _ w λ entry _. leaves-lift Kept _ _ _ w λ slot _.
            leaves-bind Kept _ _ _ changed
              λ done _. leaves-lift Kept _ _ _ changed λ idx _. changed)

  -- A triggering over the in-memory store, whether it succeeds or fails, keeps the status list
  -- well-formed and allocates no index.
  pub trigger_issuance-Within :
      (now : Time) (draws : Draws) (req : TriggerIssuanceRequest)
      → Within n s.issuances
      → Within n (trigger_issuance p (in_memory range sort_slice) setup now draws req s).1.issuances
  unfolding trigger_issuance zoom modify pure create
  trigger_issuance-Within now draws req w =
      let Kept : Service Store KeySet → Type 0 = λ t. Within n t.issuances in
      leaves-lift Kept _ _ _ w λ data_json _.
        let created = with_links-Within n _ s.issuances.by_issuer_state s.issuances w in
        leaves-bind Kept _ _ _ created λ rec _.
          let linked = update_issuer_state-Within n now rec.id draws.issuer_state _ created in
          leaves-bind Kept _ _ _ linked λ u _. leaves-lift Kept _ _ _ linked λ offer_json _.
            leaves-bind Kept _ _ _ linked λ offer_id _.
              let listed = update_status-Within n now rec.id "offer_created" _ linked in
              leaves-bind Kept _ _ _ listed λ v _. listed
