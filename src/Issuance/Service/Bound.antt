-- ===== src/Issuance/Service/Bound.antt =====
-- IssueCredential of internal/issuance/service.go over the in-memory store: the SD-JWT credential
-- that it answers with, and the entry of the status list that this credential refers to.
use mathlib.Core.Path.{subst}
use fikua_lab_issuer.Issuance.Store.{Store, find_by_record_id, mutate, update_status, allocate_idx}
use fikua_lab_issuer.Issuance.Service.Revocation.{IsListed, listed}
use fikua_lab_issuer.Issuance.Service.Credential.{
  IsIssuance, sd_jwt_of, issue_credential-IsIssuance,
}
use fikua_lab_issuer.Issuance.Service.Invariant.{Within, issue_credential-Within}
use fikua_lab_issuer.Issuance.Formats.Readable.{IsReadable, build_sd_jwt_credential-IsReadable}
use fikua_lab_issuer.Accesstoken.{Upstream}
use fikua_lab_issuer.Issuance.Memory.{in_memory}
use fikua_lab_issuer.Issuance.Record.{Record, status_valid}
use fikua_lab_issuer.Issuance.Service.{issue_credential}
use fikua_lab_issuer.Issuance.State.{Service, Setup, list_size, pid_mdoc_config_id}
use fikua_lab_issuer.Issuance.Store.Lookup.{entry_or, find-allocate_idx}
use fikua_lab_issuer.Issuance.Store.Status.{IsWellFormed}
use fikua_lab_issuer.Oauth2.Dpop.{Runtime}
use fikua_lab_issuer.Oid4vci.Messages.{CredentialRequest, CredentialResponse}
use fikua_lab_issuer.Platform.{Platform, Time}
use fikua_lab_issuer.Prelude.{
  Bool, List, Option-cases, String, String-eq, ap, arith, beq_self, concat, false, inl, inr, refl,
  some, sym, ℕ, ◌%◌, ◌*◌, ◌+◌, ◌<◌, ◌==◌, ◌∙◌, ◌≡◌,
}
use fikua_lab_issuer.Prelude.Dict.{get}
use fikua_lab_issuer.Prelude.Int.{half_range, pos, ℤ, ℤ-eq}
use fikua_lab_issuer.Result.Exec.{Result, ok, ok_injective}
use fikua_lab_issuer.Sdjwt.Presented.{IsTildeFree}
use fikua_lab_issuer.Prelude.{Option, none, ◌⊎◌}

pub update_status-keeps :
    (now : Time) (id status other : String) (s : Store)
    → find_by_record_id other (update_status now id status s) ≡ find_by_record_id other s
unfolding update_status mutate find_by_record_id
update_status-keeps now id status other s = elim (Option-cases (get id s.records)) [
  | inl absent ↦ rw absent refl
  | inr (r, e) ↦ rw e refl
]

pub same_entry : (a b : ℤ × ℕ) → some a ≡ some b → a ≡ b
same_entry a b h = ground arith

-- The index and the status that a record has, or that it is given with a new entry.
abbrev pub IsEntryAfter : Option (ℤ × ℕ) → ℤ → ℕ → Type 0
IsEntryAfter before idx value =
    ((before ≡ none) × (value ≡ status_valid)) ⊎ (before ≡ some (idx, value))

entry_or-IsEntryAfter :
    (before : Option (ℤ × ℕ)) (new idx : ℤ)
    → (entry_or before (new, status_valid)).0 ≡ idx
    → IsEntryAfter before idx (entry_or before (new, status_valid)).1
entry_or-IsEntryAfter none new idx h = inl (refl, refl)
entry_or-IsEntryAfter (some (i, value)) new idx h = inr (ap (λ j. some (j, value)) h)

-- The allocated index is that of the record's entry, with the status that the record had, if any.
indexed :
    (id : String) (s : Store) (w : IsWellFormed s) (idx : ℤ)
    → w.next + 1 < half_range
    → (allocate_idx id s).0 ≡ ok idx
    → (value : ℕ) × (find_by_record_id id (allocate_idx id s).1 ≡ some (idx, value))
      × IsEntryAfter (find_by_record_id id s) idx value
indexed id s w idx room h =
    let entry = entry_or (find_by_record_id id s) (pos w.next, status_valid) in
    let (given, found) = find-allocate_idx id id s w room in
    let same : entry.0 ≡ idx = ok_injective _ _ (sym given ∙ h) in
    (
      entry.1,
      found ∙ (rw (beq_self id) refl) ∙ ap (λ i. some (i, entry.1)) same,
      entry_or-IsEntryAfter (find_by_record_id id s) (pos w.next) idx same,
    )

module _ {Key KeySet : Type 0} (p : Platform Key KeySet) (range : List Record → List Record)
    (sort_slice : (Record → Record → Bool) → List Record → List Record) (setup : Setup)
    (decode : String → Result CredentialRequest) (rt : Runtime) (up : Upstream KeySet)
    (access_token header body : String) (s : Service Store KeySet) where
  -- An issuance whose credential is readable and refers to the entry of its record.
  pub record IsBound (s' : Service Store KeySet) (response : CredentialResponse) : Type 0 where
    pub issuance :
        IsIssuance p
          (in_memory range sort_slice)
          setup
          decode
          rt
          up
          access_token
          header
          body
          s
          s'
          response
    pub readable :
        IsReadable p setup rt issuance.wallet_key issuance.idx
          (concat setup.base_url "/oid4vci/v1/status-list/pid")
          issuance.rec
          issuance.credential
    pub value : ℕ
    pub entry :
        find_by_record_id issuance.claims.issuance_record_id s'.issuances
        ≡ some (issuance.idx, value)
    pub value_kept :
        IsEntryAfter
          (find_by_record_id issuance.claims.issuance_record_id s.issuances)
          issuance.idx
          value
    pub listing :
        IsListed s'.issuances
          (list_size (pos 0) s'.issuances.status_by_idx)
          issuance.claims.issuance_record_id
          (value % 4)
    pub same_idx : pos listing.idx ≡ issuance.idx

  -- What an issuance leaves: a well-formed list with at most one index more, and the record's entry.
  pub entry_after :
      (w : IsWellFormed s.issuances)
      → w.next * 2 + 9 < half_range
      → (response : CredentialResponse) (s' : Service Store KeySet)
      → issue_credential p
          (in_memory range sort_slice)
          setup
          decode
          rt
          up
          access_token
          header
          body
          s
        ≡ (ok response, s')
      → (i : IsIssuance p
          (in_memory range sort_slice)
          setup
          decode
          rt
          up
          access_token
          header
          body
          s
          s'
          response)
      → Within (w.next + 1) s'.issuances
        × (value : ℕ) × (find_by_record_id i.claims.issuance_record_id s'.issuances
            ≡ some (i.idx, value))
        × IsEntryAfter (find_by_record_id i.claims.issuance_record_id s.issuances) i.idx value
  entry_after w room response s' h i =
      let id = i.claims.issuance_record_id in
      let (value, entry, kept) = indexed id s.issuances w i.idx (omega arith) i.allocated in
      (
        subst
            (λ (t : Result CredentialResponse × Service Store KeySet).
              Within (w.next + 1) t.1.issuances)
            h
            (issue_credential-Within p range sort_slice setup w.next s decode rt up access_token
              header body (omega arith) (w, omega arith)),
        value,
        ap (find_by_record_id id) i.stored
            ∙ update_status-keeps rt.now id "credential_issued" id (allocate_idx id s.issuances).1
            ∙ entry,
        kept,
      )

  -- For a JWS and a base64url alphabet without `~`, and a well-formed in-memory store that has
  -- allocated at most 2^62 - 5 indices: if a request for a configuration other than the mdoc one is
  -- answered with a credential, everything stands behind it that stands behind an issuance; the
  -- credential is readable, its `cnf` is the public key of the wallet's proven key, and its `status`
  -- is the index of the record's entry in the status list, at which the list, when it is packed next,
  -- carries the status of this entry: the one that the record had before, or valid for a new entry.
  pub issue_credential-IsBound :
      IsTildeFree p
      → (w : IsWellFormed s.issuances) → w.next * 2 + 9 < half_range
      → (req : CredentialRequest) → decode body ≡ ok req
      → (req.credential_configuration_id == pid_mdoc_config_id) ≡ false
      → (response : CredentialResponse) (s' : Service Store KeySet)
      → issue_credential p
          (in_memory range sort_slice)
          setup
          decode
          rt
          up
          access_token
          header
          body
          s
        ≡ (ok response, s')
      → IsBound s' response
  issue_credential-IsBound free w room req decoded other response s' h =
      let i =
        issue_credential-IsIssuance p (in_memory range sort_slice) setup decode rt up access_token
          header body s response s' h in
      let same : req ≡ i.req = ok_injective _ _ (sym decoded ∙ i.decoded) in
      let readable =
        build_sd_jwt_credential-IsReadable p setup rt i.wallet_key i.idx
          (concat setup.base_url "/oid4vci/v1/status-list/pid") free i.rec i.credential
          (sd_jwt_of p (in_memory range sort_slice) setup rt i.req i.wallet_key i.rec i.idx
            i.credential
            (subst (λ r. (r.credential_configuration_id == pid_mdoc_config_id) ≡ false) same other)
            i.built) in
      let id = i.claims.issuance_record_id in
      let ((w', le), value, found, kept) = entry_after w room response s' h i in
      let l = listed s'.issuances w' (omega (arith, le)) id i.idx value found in
      record {
        issuance = i;
        readable = readable;
        value = value;
        entry = found;
        value_kept = kept;
        listing = l;
        same_idx = ap (λ e. e.0) (same_entry _ _ (sym l.entry ∙ found));
      }
