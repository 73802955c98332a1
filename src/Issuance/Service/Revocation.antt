-- ===== src/Issuance/Service/Revocation.antt =====
-- RevokeCredential of internal/issuance/service.go, and the status list that GetStatusListToken
-- builds after it.
use mathlib.Core.Path.{subst}
use fikua_lab_issuer.Issuance.Store.{Store, find_by_id, find_by_record_id, set_status, all_entries}
use fikua_lab_issuer.Issuance.ListSize.{All-get, list_size_lem}
use fikua_lab_issuer.Issuance.Memory.{in_memory}
use fikua_lab_issuer.Issuance.Record.{Record, status_invalid}
use fikua_lab_issuer.Issuance.Service.{
  revoke_credential, get_status_list_token, build_list, cached_list, list_or_build,
}
use fikua_lab_issuer.Issuance.State.{Service, Setup, list_size, failed, status_list_id}
use fikua_lab_issuer.Issuance.Store.Lookup.{entry_of_lookup, find-set_status}
use fikua_lab_issuer.Issuance.Store.Status.{IsWellFormed, set_status-IsWellFormed}
use fikua_lab_issuer.Platform.{Platform, Time}
use fikua_lab_issuer.Prelude.{
  All, Bool, List, String, String-eq, ap, arith, eq_iff, refl, some, sym, ℕ, ◌%◌, ◌*◌, ◌+◌, ◌<◌,
  ◌∙◌, ◌≡◌, concat, beq_self, if◌then◌else◌, ltb, none, not, ◌&&◌, ◌==◌,
}
use fikua_lab_issuer.Prelude.Dict.{get}
use fikua_lab_issuer.Prelude.Int.{half_range, pos, ℤ, ℤ-eq}
use fikua_lab_issuer.Result.Ensures.{Ensures-bind, Ensures-modify, Ensures-option, Ensures-require}
use fikua_lab_issuer.Result.Exec.{
  gets, modify, ok, ok_injective, zoom, map_error, Result, err, lift, pure, require, ◌>>=◌, ◌>>◌,
}
use fikua_lab_issuer.Statuslist.{pack_bitstring, read_status}
use fikua_lab_issuer.Statuslist.Readback.{read_status-pack_bitstring}
use fikua_lab_issuer.Statuslist.Slots.{status_or}
use fikua_lab_issuer.Statuslist.Token.{signed_list, build-signed_list}
use fikua_lab_issuer.Issuance.Interface.{Stores}
use fikua_lab_issuer.Issuance.Store.Counter.{set_status-next}

-- The published bits at the index of a record.
pub record IsListed (s : Store) (size : ℤ) (id : String) (status : ℕ) : Type 0 where
  pub idx : ℕ
  pub value : ℕ
  pub out : List ℕ
  pub entry : find_by_record_id id s ≡ some (pos idx, value)
  pub packed : pack_bitstring s.status_by_idx size ≡ some out
  pub bits : read_status out idx ≡ status

-- In a well-formed store whose list fits, every record with an entry is listed with its status.
pub listed :
    (s : Store) (w : IsWellFormed s)
    → w.next * 2 + 7 < half_range
    → (id : String) (idx : ℤ) (value : ℕ) → find_by_record_id id s ≡ some (idx, value)
    → IsListed s (list_size (pos 0) s.status_by_idx) id (value % 4)
listed s w room id idx value h =
    let below : All (λ (e : ℤ × ℕ). (n : ℕ) × (e.0 ≡ pos n) × (n < w.next)) s.status_by_idx =
      All-get _ s.status_by_idx w.entries
        (λ k v e. let (n, at, lt, _) = w.below k v e in (n, at, lt)) in
    let small : All (λ (e : ℤ × ℕ). e.1 < 256) s.status_by_idx =
      All-get _ s.status_by_idx w.entries (λ k v e. let (_, _, _, lt) = w.below k v e in lt) in
    let at = entry_of_lookup id s idx value w h in
    let (i, same, _, _) = w.below idx value at in
    let (n, sized, fits, covers) = list_size_lem w.next (omega arith) s.status_by_idx below in
    let (out, packed, _, _, slots) =
      read_status-pack_bitstring s.status_by_idx n (omega arith) w.entries small in
    let at_i : get (pos i) s.status_by_idx ≡ some value =
      ap (λ k. get k s.status_by_idx) (sym same) ∙ at in
    record {
      idx = i;
      value = value;
      out = out;
      entry = h ∙ ap (λ k. some (k, value)) same;
      packed = ap (pack_bitstring s.status_by_idx) sized ∙ packed;
      bits = slots i (covers i value at_i) ∙ ap (λ o. status_or o 0) at_i;
    }

module _ {Key KeySet : Type 0} (p : Platform Key KeySet) (range : List Record → List Record)
    (sort_slice : (Record → Record → Bool) → List Record → List Record) (setup : Setup)
    (id : String) (s : Service Store KeySet) where
  abbrev stores : Stores Store
  stores = in_memory range sort_slice

  -- What a successful revocation has found and changed.
  pub record IsRevocation (s' : Service Store KeySet) : Type 0 where
    pub rec : Record
    pub idx : ℤ
    pub value : ℕ
    pub found : find_by_id id s.issuances ≡ some rec
    pub issued : rec.status ≡ "credential_issued"
    pub entry : find_by_record_id id s.issuances ≡ some (idx, value)
    pub stored : s'.issuances ≡ (set_status id status_invalid s.issuances).1
    pub uncached : s'.status_cache_token ≡ ""

  pub revoke_credential-IsRevocation :
      (u : Unit {0}) (s' : Service Store KeySet)
      → revoke_credential p stores setup id s ≡ (ok u, s')
      → IsRevocation s'
  unfolding revoke_credential zoom gets
  revoke_credential-IsRevocation =
      (Ensures-bind _ _ _ λ found looked_up. Ensures-option _ _ _ _ λ rec some_rec.
        Ensures-require _ _ _ _ λ issued. Ensures-bind _ _ _ λ entry looked_up'.
          Ensures-option _ _ _ _ λ slot some_slot. Ensures-bind _ _ _ λ done changed.
            Ensures-option _ _ _ _ λ idx some_idx. Ensures-modify _ _ (record {
              rec = rec;
              idx = slot.0;
              value = slot.1;
              found = ok_injective _ _ looked_up ∙ some_rec;
              issued = (eq_iff _ _).0 issued;
              entry = ok_injective _ _ looked_up' ∙ some_slot;
              stored = refl;
              uncached = refl;
            })).at

  invalidated :
      (w : IsWellFormed s.issuances) (idx : ℤ) (value : ℕ)
      → w.next * 2 + 7 < half_range
      → find_by_record_id id s.issuances ≡ some (idx, value)
      → (t : Store) → t ≡ (set_status id status_invalid s.issuances).1
      → IsListed t (list_size (pos 0) t.status_by_idx) id status_invalid
  invalidated w idx value room entry t same =
      let w' = set_status-IsWellFormed status_invalid s.issuances w (omega arith) id in
      let next = set_status-next id status_invalid s.issuances w w' in
      let lookup : find_by_record_id id (set_status id status_invalid s.issuances).1
          ≡ some (idx, status_invalid) =
        find-set_status id id s.issuances w status_invalid ∙ ground (arith, beq_self id, entry) in
      subst (λ (t : Store). IsListed t (list_size (pos 0) t.status_by_idx) id status_invalid)
        (sym same) (listed _ w' (rw next room) id idx status_invalid lookup)

  if_empty :
      (token : String) (b : Bool)
      → token ≡ ""
      → (if not (token == "") && b then some token else none) ≡ none
  if_empty token b h = rw h refl

  stored_result :
      (r : Result String) (f : String → Service Store KeySet → Service Store KeySet)
      (t : Service Store KeySet)
      → ((lift r >>= λ token. modify (f token) >> pure token) t).0 ≡ r
  unfolding lift ◌>>=◌ modify pure
  stored_result (ok token) f t = refl
  stored_result (err e) f t = refl

  published :
      (t : Service Store KeySet) (out : List ℕ)
      → t.status_cache_token ≡ ""
      → pack_bitstring t.issuances.status_by_idx (list_size (pos 0) t.issuances.status_by_idx)
        ≡ some out
      → (now : Time)
      → (get_status_list_token p stores setup now status_list_id t).0
        ≡ map_error (failed "Failed to build status list token: ") (
            signed_list p setup.issuer_key now
              (concat setup.base_url "/oid4vci/v1/status-list/pid")
              out)
  unfolding get_status_list_token cached_list list_or_build build_list require gets map_error
      all_entries lift ◌>>=◌ zoom
  published t out uncached packed now =
      ap (λ o. (list_or_build p stores setup now o t).0)
        (if_empty t.status_cache_token (ltb now t.status_cache_exp) uncached)
      ∙ stored_result _ _ t
      ∙ ap (map_error (failed "Failed to build status list token: "))
          (build-signed_list p setup.issuer_key now _ _ _ out packed)

  -- In a well-formed in-memory store that has allocated at most 2^62 - 4 indices, after a revocation that succeeds, the
  -- status list that is asked for next, at any time, is built anew, from a packed list that carries
  -- the invalid status at the index of the credential.
  pub revoke_credential-published :
      (w : IsWellFormed s.issuances)
      → w.next * 2 + 7 < half_range
      → (u : Unit {0}) (s' : Service Store KeySet)
      → revoke_credential p stores setup id s ≡ (ok u, s')
      → (l : IsListed s'.issuances (list_size (pos 0) s'.issuances.status_by_idx) id status_invalid)
        × ((now : Time)
            → (get_status_list_token p stores setup now status_list_id s').0
              ≡ map_error (failed "Failed to build status list token: ") (
                  signed_list p setup.issuer_key now
                    (concat setup.base_url "/oid4vci/v1/status-list/pid")
                    l.out))
  revoke_credential-published w room u s' h =
      let r = revoke_credential-IsRevocation u s' h in
      let l = invalidated w r.idx r.value room r.entry s'.issuances r.stored in
      (l, published s' l.out r.uncached l.packed)
