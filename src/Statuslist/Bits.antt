-- ===== src/Statuslist/Bits.antt =====
-- The bytes of the status list: what an OR of two bits at an even offset does to each pair of bits.
use Prim.Native.Nat.{bit_and, bit_or}
use fikua_lab_issuer.Prelude.{
  Bool, arith, if◌then◌else◌, ltb, ltb→lt, nat_eq, nat_eq_iff, refl, suc, true, zero, ℕ, ◌%◌, ◌*◌,
  ◌/◌, ◌<◌, ◌^◌, ◌≡◌, Bool-cases, ap, false, inl, inr,
}

-- A test of every number from 0 up to a bound.
table : ℕ → (ℕ → Bool) → Bool
table zero test = true
table (suc last) test = if test last then table last test else false

row : (bound : ℕ) (test : ℕ → Bool) (i : ℕ) → table bound test ≡ true → i < bound → test i ≡ true
unfolding table
row zero test i passed inside = absurd (omega arith)
row (suc last) test i passed inside = elim (Bool-cases (nat_eq i last)) [
  | inl same ↦ ground (arith, nat_eq_iff i last, ap test)
  | inr other ↦ ground (arith, nat_eq_iff i last, row last test i)
]

abbrev pub pair_at : ℕ → ℕ → ℕ
pair_at b k = b / 2 ^ (k * 2) % 4

abbrev pub or_expected : ℕ → ℕ → ℕ → ℕ → ℕ
or_expected b v k j = if nat_eq k j then bit_or (pair_at b k) v else pair_at b j

abbrev or_test : ℕ → ℕ → ℕ → ℕ → Bool
or_test b v k j = nat_eq (pair_at (bit_or b (v * 2 ^ (k * 2))) j) (or_expected b v k j)

or_table : table 256 (λ b. table 4 (λ v. table 4 (λ k. table 4 (λ j. or_test b v k j)))) ≡ true
unfolding table
or_table = refl

size_table :
    table 256 (λ b. table 4 (λ v. table 4 (λ k. ltb (bit_or b (v * 2 ^ (k * 2))) 256))) ≡ true
unfolding table
size_table = refl

mask_table : table 256 (λ v. nat_eq (bit_and v 3) (v % 4)) ≡ true
unfolding table
mask_table = refl

pub bit_and_three : (v : ℕ) → v < 256 → bit_and v 3 ≡ v % 4
bit_and_three v h = (nat_eq_iff _ _).0 (row 256 _ v mask_table h)

module _ (b v k : ℕ) (hb : b < 256) (hv : v < 4) (hk : k < 4) where
  pub or_pair-lt : bit_or b (v * 2 ^ (k * 2)) < 256
  or_pair-lt = ltb→lt _ _ (row 4 _ k (row 4 _ v (row 256 _ b size_table hb) hv) hk)

  pub or_pair : (j : ℕ) → j < 4 → pair_at (bit_or b (v * 2 ^ (k * 2))) j ≡ or_expected b v k j
  or_pair j hj =
      (nat_eq_iff _ _).0 (row 4 _ j (row 4 _ k (row 4 _ v (row 256 _ b or_table hb) hv) hk) hj)

pub zero-or : (v : ℕ) → v < 4 → bit_or 0 v ≡ v
zero-or v h = (nat_eq_iff _ _).0 (row 4 _ v zero_table h)
  where
    zero_table : table 4 (λ v'. nat_eq (bit_or 0 v') v') ≡ true
    zero_table = unfold table in refl

shift_table : table 4 (λ v. table 4 (λ k. nat_eq (v * 2 ^ (k * 2) % 256) (v * 2 ^ (k * 2)))) ≡ true
unfolding table
shift_table = refl

pub shift_pair : (v k : ℕ) → v < 4 → k < 4 → v * 2 ^ (k * 2) % 256 ≡ v * 2 ^ (k * 2)
shift_pair v k hv hk = (nat_eq_iff _ _).0 (row 4 _ k (row 4 _ v shift_table hv) hk)
