-- ===== src/Issuance/Service/Requests.antt =====
-- The requests that internal/issuance/service.go serves, one after the other, over the in-memory
-- store: each with the clock, the drawn tokens and the answers of the authorization server.
use mathlib.Core.Path.{subst}
use fikua_lab_issuer.Issuance.Store.{Store, new_store}
use fikua_lab_issuer.Accesstoken.{Upstream, Claims}
use fikua_lab_issuer.Issuance.Memory.{in_memory}
use fikua_lab_issuer.Issuance.Record.{Record}
use fikua_lab_issuer.Issuance.Service.{
  generate_nonce, get_status_list_token, issue_credential, revoke_credential, trigger_issuance,
  build_list, list_or_build, authorize,
}
use fikua_lab_issuer.Issuance.Service.Invariant.{
  Within, issue_credential-Within, revoke_credential-Within, trigger_issuance-Within,
  authorize_state,
}
use fikua_lab_issuer.Issuance.State.{Draws, Service, Setup, TriggerIssuanceRequest}
use fikua_lab_issuer.Oauth2.Dpop.{Runtime}
use fikua_lab_issuer.Oid4vci.Messages.{CredentialRequest}
use fikua_lab_issuer.Platform.{Platform, Time}
use fikua_lab_issuer.Prelude.{
  Bool, List, String, String-eq, [], refl, ℕ, ◌+◌, ◌<◌, ◌∷◌, ◌≡◌, Option, arith, length, none, some,
  sym, ◌≤◌, ◌==◌,
}
use fikua_lab_issuer.Prelude.Int.{half_range}
use fikua_lab_issuer.Result.Exec.{Result, gets, pure, modify, zoom, Exec, ◌>>=◌}
use fikua_lab_issuer.Result.Leaves.{leaves-bind, leaves-require, leaves-if, leaves-lift}
use fikua_lab_issuer.Issuance.Store.Status.{IsWellFormed, new_store-IsWellFormed}
use fikua_lab_issuer.Session.{register_nonce}

pub data Request (KeySet : Type 0) : Type 0 where
  trigger : Time → Draws → TriggerIssuanceRequest → Request KeySet
  nonce : Runtime → Upstream KeySet → (drawn access_token header : String) → Request KeySet
  credential : Runtime → Upstream KeySet → (access_token header body : String) → Request KeySet
  status_list : Time → (list_id : String) → Request KeySet
  revoke : (id : String) → Request KeySet

module _ {Key KeySet : Type 0} (p : Platform Key KeySet) (range : List Record → List Record)
    (sort_slice : (Record → Record → Bool) → List Record → List Record) (setup : Setup)
    (decode : String → Result CredentialRequest) where
  -- The service after a request, whatever is answered.
  unfoldable pub serve : Request KeySet → Service Store KeySet → Service Store KeySet
  serve (trigger now draws req) s =
      (trigger_issuance p (in_memory range sort_slice) setup now draws req s).1
  serve (nonce rt up drawn access_token header) s =
      (generate_nonce p (in_memory range sort_slice) setup rt up drawn access_token header s).1
  serve (credential rt up access_token header body) s =
      (issue_credential p (in_memory range sort_slice) setup decode rt up access_token header body
        s).1
  serve (status_list now list_id) s =
      (get_status_list_token p (in_memory range sort_slice) setup now list_id s).1
  serve (revoke id) s = (revoke_credential p (in_memory range sort_slice) setup id s).1

  unfoldable pub serve_all : List (Request KeySet) → Service Store KeySet → Service Store KeySet
  serve_all [] s = s
  serve_all (r ∷ rs) s = serve_all rs (serve r s)

  generate_nonce_state :
      (rt : Runtime) (up : Upstream KeySet) (drawn access_token header : String)
      (s : Service Store KeySet)
      → (generate_nonce p
          (in_memory range sort_slice)
          setup
          rt
          up
          drawn
          access_token
          header
          s).1.issuances
        ≡ s.issuances
  unfolding generate_nonce pure
  generate_nonce_state rt up drawn access_token header s =
      let Same : Service Store KeySet → Type 0 = λ t. t.issuances ≡ s.issuances in
      let t : Service Store KeySet = record s { sessions = register_nonce drawn s.sessions } in
      let check : Exec (Service Store KeySet) Claims =
        authorize p (in_memory range sort_slice) setup rt up access_token header "/oid4vci/v1/nonce"
          "DPoP key mismatch at nonce endpoint" in
      let checked : Same (check t).1 =
        authorize_state p (in_memory range sort_slice) setup t rt up access_token header
          "/oid4vci/v1/nonce" "DPoP key mismatch at nonce endpoint" in
      leaves-bind Same _ _ _ refl λ u _.
        leaves-if Same (access_token == "") (pure drawn) (check >>= λ _. pure drawn) t refl
          (leaves-bind Same check (λ _. pure drawn) t checked λ claims _. checked)

  list_or_build_state :
      (now : Time) (cached : Option String) (s : Service Store KeySet)
      → (list_or_build p (in_memory range sort_slice) setup now cached s).1.issuances ≡ s.issuances
  unfolding list_or_build build_list modify pure zoom
  list_or_build_state now (some token) s = refl
  list_or_build_state now none s =
      let Same : Service Store KeySet → Type 0 = λ t. t.issuances ≡ s.issuances in
      leaves-bind Same _ _ _ refl
        λ entries _. leaves-lift Same _ _ _ refl λ token _. leaves-bind Same _ _ _ refl λ u _. refl

  get_status_list_token_state :
      (now : Time) (list_id : String) (s : Service Store KeySet)
      → (get_status_list_token p (in_memory range sort_slice) setup now list_id s).1.issuances
        ≡ s.issuances
  unfolding get_status_list_token gets
  get_status_list_token_state now list_id s =
      let Same : Service Store KeySet → Type 0 = λ t. t.issuances ≡ s.issuances in
      leaves-require Same _ _ _ _ refl
        (leaves-bind Same _ _ _ refl λ cached _. list_or_build_state now cached s)

  serve-Within :
      (n : ℕ) (r : Request KeySet) (s : Service Store KeySet)
      → n + 1 < half_range
      → Within n s.issuances
      → Within (n + 1) (serve r s).issuances
  unfolding serve
  serve-Within n (trigger now draws req) s room w =
      let (w', h) = trigger_issuance-Within p range sort_slice setup n s now draws req w in
      (w', omega arith)
  serve-Within n (nonce rt up drawn access_token header) s room (w, h) =
      subst (Within (n + 1)) (sym (generate_nonce_state rt up drawn access_token header s))
        (w, omega arith)
  serve-Within n (credential rt up access_token header body) s room w =
      issue_credential-Within p range sort_slice setup n s decode rt up access_token header body
        room w
  serve-Within n (status_list now list_id) s room (w, h) =
      subst (Within (n + 1)) (sym (get_status_list_token_state now list_id s)) (w, omega arith)
  serve-Within n (revoke id) s room w =
      let (w', h) = revoke_credential-Within p range sort_slice setup n s id w in (w', omega arith)

  serve_all-Within :
      (n : ℕ) (rs : List (Request KeySet)) (s : Service Store KeySet)
      → n + length rs < half_range
      → Within n s.issuances
      → Within (n + length rs) (serve_all rs s).issuances
  unfolding serve_all
  serve_all-Within n [] s room (w, h) = (w, omega arith)
  serve_all-Within n (r ∷ rs) s room w =
      subst (λ k. Within k (serve_all rs (serve r s)).issuances) (omega arith)
        (serve_all-Within (n + 1) rs (serve r s) (omega arith) (serve-Within n r s (omega arith) w))

  -- From a service whose in-memory store is new, after fewer than 2^63 requests in any order, whatever
  -- each of them is answered, the status list is well-formed: every record that has an index has its
  -- own, the index has a status value, and no more indices have been given than requests served.
  pub serve_all-IsWellFormed :
      (rs : List (Request KeySet)) (s : Service Store KeySet)
      → length rs < half_range
      → s.issuances ≡ new_store
      → (w : IsWellFormed (serve_all rs s).issuances) × (w.next ≤ length rs)
  unfolding new_store-IsWellFormed
  serve_all-IsWellFormed rs s room fresh =
      let (w, h) =
        serve_all-Within 0 rs s (omega arith)
          (subst (Within 0) (sym fresh) (new_store-IsWellFormed, omega arith)) in
      (w, omega arith)
