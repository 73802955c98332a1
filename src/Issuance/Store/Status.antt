-- ===== src/Issuance/Store/Status.antt =====
-- AllocateIdx and SetStatus of internal/issuance/store.go: who owns which index of the status list.
use fikua_lab_issuer.Issuance.Record.{status_valid}
use fikua_lab_issuer.Issuance.Store.{allocate_idx, Store, new_store, set_status}
use fikua_lab_issuer.Prelude.{
  Option-cases, String, String-eq, arith, inl, inr, none, refl, some, ℕ, ◌+◌, ◌<◌, ◌≡◌, Bool-cases,
  ap, ◌==◌, ◌∙◌, eq_iff, sym, ◌≢◌,
}
use fikua_lab_issuer.Prelude.Dict.{IsMap, get, put, put-IsMap, get-put, get-put_ne, get-put_self}
use fikua_lab_issuer.Prelude.Int.{+ℤ-pos, half_range, pos, wrap64_small, ℤ, ℤ-eq}
use fikua_lab_issuer.Result.Exec.{ok}

-- Every index that a record owns lies below the next one and has a status value, and no two records
-- own one index.
pub record IsWellFormed (s : Store) : Type 0 where
  pub next : ℕ
  pub next_idx : s.status_next_idx ≡ pos next
  pub owned :
      (id : String) (idx : ℤ)
      → get id s.status_by_rec_id ≡ some idx
      → (n : ℕ) × (idx ≡ pos n) × (n < next) × (v : ℕ) × (get idx s.status_by_idx ≡ some v)
  pub injective :
      (id id' : String) (idx : ℤ)
      → get id s.status_by_rec_id ≡ some idx
      → get id' s.status_by_rec_id ≡ some idx
      → id ≡ id'
  pub entries : IsMap s.status_by_idx
  pub below :
      (idx : ℤ) (v : ℕ)
      → get idx s.status_by_idx ≡ some v
      → (n : ℕ) × (idx ≡ pos n) × (n < next) × (v < 256)

unfoldable pub new_store-IsWellFormed : IsWellFormed new_store
unfolding new_store get
new_store-IsWellFormed = record {
  next = 0;
  next_idx = refl;
  owned = λ id idx h. cc;
  injective = λ id id' idx h h'. cc;
  entries = tt;
  below = λ idx v h. cc;
}

-- The index that the next allocation takes has no entry yet.
fresh_idx : (s : Store) (w : IsWellFormed s) → get (pos w.next) s.status_by_idx ≡ none
fresh_idx s w = elim (Option-cases (get (pos w.next) s.status_by_idx)) [
  | inl absent ↦ absent
  | inr (v, e) ↦ let (n, same, lt, _) = w.below (pos w.next) v e in absurd (ground arith)
]

-- And no record owns it.
pub unowned_idx :
    (s : Store) (w : IsWellFormed s) (id : String) → get id s.status_by_rec_id ≢ some (pos w.next)
unowned_idx s w id h = let (n, same, lt, _, _) = w.owned id (pos w.next) h in absurd (ground arith)

module _ (id : String) (s : Store) (w : IsWellFormed s) where
  -- A record that has an index keeps it, and nothing changes.
  pub allocate_idx_again :
      (idx : ℤ) → get id s.status_by_rec_id ≡ some idx → allocate_idx id s ≡ (ok idx, s)
  unfolding allocate_idx
  allocate_idx_again idx h = rw h

  abbrev pub extended : Store
  extended = record s {
    status_next_idx = pos (w.next + 1);
    status_by_idx = put (pos w.next) status_valid s.status_by_idx;
    status_by_rec_id = put id (pos w.next) s.status_by_rec_id;
  }

  -- A record that has none gets the next index, as long as the counter does not overflow.
  pub allocate_idx_fresh :
      get id s.status_by_rec_id ≡ none
      → w.next + 1 < half_range
      → allocate_idx id s ≡ (ok (pos w.next), extended)
  unfolding allocate_idx
  allocate_idx_fresh h room =
      rw h (ground (arith, w.next_idx, +ℤ-pos w.next 1, wrap64_small (w.next + 1)))

  extended-owned :
      get id s.status_by_rec_id ≡ none
      → (id' : String) (idx : ℤ) → get id' extended.status_by_rec_id ≡ some idx
      → (n : ℕ) × (idx ≡ pos n)
        × (n < w.next + 1)
        × (v : ℕ) × (get idx extended.status_by_idx ≡ some v)
  extended-owned new id' idx h = elim (Bool-cases (id == id')) [
    | inl same ↦ (
      w.next,
      ground (arith, get-put id id' (pos w.next) s.status_by_rec_id),
      omega arith,
      status_valid,
      ground (
        arith,
        get-put id id' (pos w.next) s.status_by_rec_id,
        get-put_self (pos w.next) status_valid s.status_by_idx,
      ),
    )
    | inr other ↦
        let (n, at, lt, v, e) =
          w.owned id' idx (ground (arith, get-put id id' (pos w.next) s.status_by_rec_id)) in
        (
          n,
          at,
          omega arith,
          v,
          get-put_ne (pos w.next) idx status_valid s.status_by_idx
                (λ q. ground (arith, fresh_idx s w, ap (λ i. get i s.status_by_idx) q))
              ∙ e,
        )
  ]

  extended-injective :
      get id s.status_by_rec_id ≡ none
      → (a b : String) (idx : ℤ) → get a extended.status_by_rec_id ≡ some idx
      → get b extended.status_by_rec_id ≡ some idx
      → a ≡ b
  extended-injective new a b idx h k = ground (
    arith,
    get-put id a (pos w.next) s.status_by_rec_id,
    get-put id b (pos w.next) s.status_by_rec_id,
    eq_iff id a,
    eq_iff id b,
    w.injective a b idx,
    unowned_idx s w a,
    unowned_idx s w b,
  )

  extended-below :
      (idx : ℤ) (v : ℕ)
      → get idx extended.status_by_idx ≡ some v
      → (n : ℕ) × (idx ≡ pos n) × (n < w.next + 1) × (v < 256)
  extended-below idx v h = elim (Bool-cases (pos w.next == idx)) [
    | inl same ↦ (
      w.next,
      sym ((ℤ-eq.beq_iff (pos w.next) idx).0 same),
      omega arith,
      ground (arith, get-put (pos w.next) idx status_valid s.status_by_idx),
    )
    | inr other ↦
        let (n, at, lt, small) =
          w.below idx v (ground (arith, get-put (pos w.next) idx status_valid s.status_by_idx)) in
        (n, at, omega arith, small)
  ]

  extended-IsWellFormed : get id s.status_by_rec_id ≡ none → IsWellFormed extended
  extended-IsWellFormed new = record {
    next = w.next + 1;
    next_idx = refl;
    owned = extended-owned new;
    injective = extended-injective new;
    entries = put-IsMap (pos w.next) status_valid s.status_by_idx w.entries;
    below = extended-below;
  }

  -- An allocation keeps the list well-formed, as long as the counter does not overflow.
  pub allocate_idx-IsWellFormed : w.next + 1 < half_range → IsWellFormed (allocate_idx id s).1
  allocate_idx-IsWellFormed room = elim (Option-cases (get id s.status_by_rec_id)) [
    | inl new ↦ rw (allocate_idx_fresh new room) (extended-IsWellFormed new)
    | inr (idx, old) ↦ rw (allocate_idx_again idx old) w
  ]

module _ (value : ℕ) (s : Store) (w : IsWellFormed s) (small : value < 256) where
  changed-IsWellFormed :
      (id : String) (idx : ℤ)
      → get id s.status_by_rec_id ≡ some idx
      → IsWellFormed (record s { status_by_idx = put idx value s.status_by_idx })
  changed-IsWellFormed id idx h = record {
    next = w.next;
    next_idx = w.next_idx;
    owned = λ id' idx' h'. elim (Bool-cases (idx == idx')) [
      | inl same ↦
          let (n, at, lt, _, _) = w.owned id' idx' h' in
          (n, at, lt, value, ground (arith, get-put idx idx' value s.status_by_idx))
      | inr other ↦
          let (n, at, lt, v, e) = w.owned id' idx' h' in
          (n, at, lt, v, ground (arith, e, get-put idx idx' value s.status_by_idx))
    ];
    injective = w.injective;
    entries = put-IsMap idx value s.status_by_idx w.entries;
    below = λ idx' v h'. elim (Bool-cases (idx == idx')) [
      | inl same ↦
          let (n, at, lt, _, _) = w.owned id idx h in
          (
            n,
            sym ((ℤ-eq.beq_iff idx idx').0 same) ∙ at,
            lt,
            ground (arith, get-put idx idx' value s.status_by_idx),
          )
      | inr other ↦ w.below idx' v (ground (arith, get-put idx idx' value s.status_by_idx))
    ];
  }

  -- A change to a status that is a byte keeps the list well-formed.
  pub set_status-IsWellFormed : (id : String) → IsWellFormed (set_status id value s).1
  unfolding set_status
  set_status-IsWellFormed id = elim (Option-cases (get id s.status_by_rec_id)) [
    | inl absent ↦ rw absent w
    | inr (idx, e) ↦ rw e (changed-IsWellFormed id idx e)
  ]
