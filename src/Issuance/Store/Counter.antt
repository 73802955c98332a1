-- ===== src/Issuance/Store/Counter.antt =====
-- AllocateIdx and SetStatus of internal/issuance/store.go: the counter of the indices.
use fikua_lab_issuer.Issuance.Store.{Store, allocate_idx, set_status}
use fikua_lab_issuer.Issuance.Store.Status.{IsWellFormed, allocate_idx_again, allocate_idx_fresh}
use fikua_lab_issuer.Prelude.{
  Option-cases, String, String-eq, ap, arith, inl, inr, refl, sym, ℕ, ◌+◌, ◌<◌, ◌∙◌, ◌≡◌, ◌≤◌,
}
use fikua_lab_issuer.Prelude.Dict.{get}
use fikua_lab_issuer.Prelude.Int.{half_range, pos}

set_status-next_idx :
    (id : String) (value : ℕ) (s : Store)
    → (set_status id value s).1.status_next_idx ≡ s.status_next_idx
unfolding set_status
set_status-next_idx id value s = elim (Option-cases (get id s.status_by_rec_id)) [
  | inl absent ↦ rw absent refl
  | inr (idx, e) ↦ rw e refl
]

pub set_status-next :
    (id : String) (value : ℕ) (s : Store) (w : IsWellFormed s)
    (w' : IsWellFormed (set_status id value s).1)
    → w'.next ≡ w.next
set_status-next id value s w w' =
    let same : pos w'.next ≡ pos w.next =
      sym w'.next_idx ∙ set_status-next_idx id value s ∙ w.next_idx in
    ground arith

-- An allocation moves the counter by at most one.
pub allocate_idx-next-le :
    (id : String) (s : Store) (w : IsWellFormed s) (w' : IsWellFormed (allocate_idx id s).1)
    → w.next + 1 < half_range
    → w'.next ≤ w.next + 1
allocate_idx-next-le id s w w' room = elim (Option-cases (get id s.status_by_rec_id)) [
  | inl absent ↦
      let same : pos w'.next ≡ pos (w.next + 1) =
        sym w'.next_idx ∙ ap (λ r. r.1.status_next_idx) (allocate_idx_fresh id s w absent room) in
      ground arith
  | inr (idx, e) ↦
      let same : pos w'.next ≡ pos w.next =
        sym w'.next_idx
        ∙ ap (λ r. r.1.status_next_idx) (allocate_idx_again id s w idx e)
        ∙ w.next_idx in
      ground arith
]
