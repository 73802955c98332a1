-- ===== src/Issuance/ListSize.antt =====
-- The size that GetStatusListToken of internal/issuance/service.go gives the status list.
use fikua_lab_issuer.Issuance.State.{list_size}
use fikua_lab_issuer.Prelude.{
  All, Bool-cases, [], ap, arith, beq_self, if◌then◌else◌, inl, inr, leb, refl, some, ℕ, ◌+◌, ◌<◌,
  ◌∙◌, ◌∷◌, ◌≡◌, ◌≤◌,
}
use fikua_lab_issuer.Prelude.Dict.{Dict, IsMap, get}
use fikua_lab_issuer.Prelude.Int.{
  +ℤ-pos, half_range, negsuc, pos, wrap64, wrap64_small, ℤ, ℤ-eq, ◌+ℤ◌, ◌<ℤ◌,
}

-- The highest of a size and the numbers after the indices.
size_from : ℕ → Dict ℤ ℕ → ℕ
size_from size [] = size
size_from size ((pos n, _) ∷ entries) = size_from (if leb size n then n + 1 else size) entries
size_from size ((negsuc n, _) ∷ entries) = size_from size entries

size_from-lower : (size : ℕ) (entries : Dict ℤ ℕ) → size ≤ size_from size entries
unfolding size_from
size_from-lower size [] = omega arith
size_from-lower size ((pos n, _) ∷ entries) =
    ground (arith, size_from-lower (if leb size n then n + 1 else size) entries)
size_from-lower size ((negsuc n, _) ∷ entries) = size_from-lower size entries

-- Every index below `bound`.
abbrev pub Below : ℕ → Dict ℤ ℕ → Type 0
Below bound entries = All (λ (e : ℤ × ℕ). (n : ℕ) × (e.0 ≡ pos n) × (n < bound)) entries

size_from-upper :
    (size bound : ℕ) (entries : Dict ℤ ℕ)
    → size ≤ bound
    → Below bound entries
    → size_from size entries ≤ bound
unfolding size_from
size_from-upper size bound [] h k = h
size_from-upper size bound ((pos n, _) ∷ entries) h ((m, same, lt), k) =
    size_from-upper (if leb size n then n + 1 else size) bound entries (ground arith) k
size_from-upper size bound ((negsuc n, _) ∷ entries) h ((m, same, lt), k) = absurd (ground arith)

size_from-covers :
    (size i v : ℕ) (entries : Dict ℤ ℕ) → get (pos i) entries ≡ some v → i < size_from size entries
unfolding size_from get
size_from-covers size i v [] h = cc
size_from-covers size i v ((pos n, x) ∷ entries) h = ground (
  arith,
  size_from-lower (if leb size n then n + 1 else size) entries,
  size_from-covers (if leb size n then n + 1 else size) i v entries,
  ℤ-eq.beq_iff (pos n) (pos i),
)
size_from-covers size i v ((negsuc n, x) ∷ entries) h =
    ground (arith, size_from-covers size i v entries, ℤ-eq.beq_iff (negsuc n) (pos i))

module _ (bound : ℕ) (room : bound < half_range) where
  list_size-size_from :
      (size : ℕ) (entries : Dict ℤ ℕ)
      → Below bound entries
      → list_size (pos size) entries ≡ pos (size_from size entries)
  unfolding size_from list_size ◌<ℤ◌
  list_size-size_from size [] h = refl
  list_size-size_from size ((pos n, _) ∷ entries) ((m, same, lt), h) =
      let next : wrap64 (pos n +ℤ pos 1) ≡ pos (n + 1) =
        ap wrap64 (+ℤ-pos n 1) ∙ wrap64_small (n + 1) (ground arith) in
      elim (Bool-cases (leb size n)) [
        | inl grows ↦ ground (arith, next, list_size-size_from (n + 1) entries h)
        | inr stays ↦ ground (arith, next, list_size-size_from size entries h)
      ]
  list_size-size_from size ((negsuc n, _) ∷ entries) ((m, same, lt), h) = absurd (ground arith)

  -- A list whose indices lie below a bound has a slot for each of them and at most that many slots.
  pub list_size_lem :
      (entries : Dict ℤ ℕ)
      → Below bound entries
      → (n : ℕ) × (list_size (pos 0) entries ≡ pos n)
        × (n ≤ bound)
        × ((i v : ℕ) → get (pos i) entries ≡ some v → i < n)
  list_size_lem entries h = (
    size_from 0 entries,
    list_size-size_from 0 entries h,
    size_from-upper 0 bound entries (omega arith) h,
    λ i v e. size_from-covers 0 i v entries e,
  )

-- What holds of every lookup holds of every entry.
pub All-get :
    (P : ℤ × ℕ → Type 0) (m : Dict ℤ ℕ)
    → IsMap m
    → ((k : ℤ) (v : ℕ) → get k m ≡ some v → P (k, v))
    → All P m
unfolding get
All-get P [] h f = tt
All-get P ((k, v) ∷ m) (new, h) f = (
  f k v (rw (beq_self k) refl),
  All-get P m h (λ j w e. f j w (ground (arith, ℤ-eq.beq_iff k j, ap (λ i. get i m)))),
)
