-- ===== src/Issuance/Service/Revocable.antt =====
-- RevokeCredential of internal/issuance/service.go: the credentials that can be revoked.
use fikua_lab_issuer.Issuance.Store.{Store}
use fikua_lab_issuer.Issuance.Memory.{in_memory}
use fikua_lab_issuer.Issuance.Record.{Record, status_invalid}
use fikua_lab_issuer.Issuance.Service.{revoke_credential}
use fikua_lab_issuer.Issuance.Service.Revocation.{revoke_credential-IsRevocation}
use fikua_lab_issuer.Issuance.State.{Service, Setup}
use fikua_lab_issuer.Issuance.Store.{find_by_id, find_by_record_id, set_status}
use fikua_lab_issuer.Platform.{Platform}
use fikua_lab_issuer.Prelude.{
  Bool, List, Option-cases, String, String-eq, ap, arith, eq_iff, inl, inr, refl, some, ℕ, ◌↔◌, ◌∙◌,
  ◌≡◌,
}
use fikua_lab_issuer.Prelude.Dict.{get}
use fikua_lab_issuer.Prelude.Int.{ℤ, ℤ-eq}
use fikua_lab_issuer.Result.Ensures.{run-bind, run-option, run-require}
use fikua_lab_issuer.Result.Exec.{Result, gets, modify, ok, pair_of, zoom}

set_status-some :
    (id : String) (value : ℕ) (s : Store) (e : ℤ × ℕ)
    → find_by_record_id id s ≡ some e
    → (set_status id value s).0 ≡ some e.0
unfolding find_by_record_id set_status
set_status-some id value s e h = elim (Option-cases (get id s.status_by_rec_id)) [
  | inl absent ↦ absurd (ground (arith, absent))
  | inr (idx, at) ↦ ground (arith, at)
]

module _ {Key KeySet : Type 0} (p : Platform Key KeySet) (range : List Record → List Record)
    (sort_slice : (Record → Record → Bool) → List Record → List Record) (setup : Setup)
    (id : String) (s : Service Store KeySet) where
  -- The record has been issued, and has an entry in the status list.
  pub record IsRevocable : Type 0 where
    pub rec : Record
    pub entry : ℤ × ℕ
    pub found : find_by_id id s.issuances ≡ some rec
    pub issued : rec.status ≡ "credential_issued"
    pub listed : find_by_record_id id s.issuances ≡ some entry

  revocable_run :
      IsRevocable → (revoke_credential p (in_memory range sort_slice) setup id s).0 ≡ ok tt
  unfolding revoke_credential zoom gets modify
  revocable_run r =
      ap (λ (run : Result (Unit {0}) × Service Store KeySet). run.0)
        (run-bind _ _ _ _ _ refl
          ∙ run-option _ r.rec _ _ _ r.found
          ∙ run-require _ _ _ _ ((eq_iff _ _).1 r.issued)
          ∙ run-bind _ _ _ _ _ refl
          ∙ run-option _ r.entry _ _ _ r.listed
          ∙ run-bind _ _ _ _ _ refl
          ∙ run-option _ r.entry.0 _ _ _
              (set_status-some id status_invalid s.issuances r.entry r.listed))

  -- Over the in-memory store a revocation succeeds exactly if the record has been issued and has an
  -- entry in the status list, whatever status the entry has: a credential that is revoked already can
  -- be revoked again.
  pub revoke_credential_iff :
      ((revoke_credential p (in_memory range sort_slice) setup id s).0 ≡ ok tt) ↔ IsRevocable
  revoke_credential_iff = (
    λ h.
        let r =
          revoke_credential-IsRevocation p range sort_slice setup id s tt _ (pair_of _ (ok tt) h) in
        record {
          rec = r.rec;
          entry = (r.idx, r.value);
          found = r.found;
          issued = r.issued;
          listed = r.entry;
        },
    revocable_run,
  )
