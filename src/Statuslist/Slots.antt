-- ===== src/Statuslist/Slots.antt =====
-- One entry of the status list: what writing it does to every slot.
use mathlib.Core.Path.{subst}
use Prim.Native.Nat.{bit_or}
use fikua_lab_issuer.Prelude.{
  Bool-cases, List, arith, get_or, if◌then◌else◌, inl, inr, length, nat_eq, set, some, ℕ, ◌%◌, ◌*◌,
  ◌/◌, ◌<◌, ◌^◌, ◌≡◌, ap, false, get_or-set_ne, get_or-set_self, nat_eq_iff, sym, true, ◌∙◌, ◌⊎◌,
  Option, none, String-eq,
}
use fikua_lab_issuer.Statuslist.{read_status}
use fikua_lab_issuer.Statuslist.Bits.{pair_at, or_expected, or_pair, or_pair-lt, zero-or}
use fikua_lab_issuer.Prelude.Int.{ℤ-eq}

abbrev pub AreBytes : List ℕ → Type 0
AreBytes out = (k : ℕ) → get_or out k 0 < 256

abbrev pub status_or : Option ℕ → ℕ → ℕ
status_or none absent = absent
status_or (some status) absent = status % 4

-- The list that one entry leaves.
abbrev pub written : ℕ → ℕ → List ℕ → List ℕ
written j v out = set out (j / 4) (bit_or (get_or out (j / 4) 0) (v * 2 ^ (j % 4 * 2)))

read_status-pair :
    (out : List ℕ) (i : ℕ) → read_status out i ≡ pair_at (get_or out (i / 4) 0) (i % 4)
unfolding read_status
read_status-pair out i =
    let byte : i * 2 / 8 ≡ i / 4 = omega arith in
    let offset : i * 2 % 8 ≡ i % 4 * 2 = omega arith in rw (byte, offset)

module _ (j v : ℕ) (out : List ℕ) (hv : v < 4) (hj : j / 4 < length out)
    (bytes_ok : AreBytes out) where
  byte_of : ℕ
  byte_of = bit_or (get_or out (j / 4) 0) (v * 2 ^ (j % 4 * 2))

  pub written-AreBytes : AreBytes (written j v out)
  unfolding byte_of
  written-AreBytes k = elim (Bool-cases (nat_eq (j / 4) k)) [
    | inl same ↦
        subst (λ t. get_or (written j v out) t 0 < 256) ((nat_eq_iff _ _).0 same)
          (subst (λ t. t < 256) (sym (get_or-set_self out (j / 4) byte_of 0 hj))
            (or_pair-lt (get_or out (j / 4) 0) v (j % 4) (bytes_ok (j / 4)) hv (omega arith)))
    | inr other ↦
        subst (λ t. t < 256)
          (sym (get_or-set_ne out (j / 4) k byte_of 0 (λ q. ground (arith, other)))) (bytes_ok k)
  ]

  pair_of_written :
      (i : ℕ)
      → read_status (written j v out) i ≡ (
          if nat_eq (j / 4) (i / 4)
          then or_expected (get_or out (j / 4) 0) v (j % 4) (i % 4)
          else read_status out i)
  unfolding byte_of
  pair_of_written i = elim (Bool-cases (nat_eq (j / 4) (i / 4))) [
    | inl same ↦ rw same (
        read_status-pair (written j v out) i
        ∙ ap (λ t. pair_at (get_or (written j v out) t 0) (i % 4)) (sym ((nat_eq_iff _ _).0 same))
        ∙ ap (λ t. pair_at t (i % 4)) (get_or-set_self out (j / 4) byte_of 0 hj)
        ∙ or_pair (get_or out (j / 4) 0) v (j % 4) (bytes_ok (j / 4)) hv (omega arith) (i % 4)
            (omega arith))
    | inr other ↦ rw other (
        read_status-pair (written j v out) i
        ∙ ap (λ t. pair_at t (i % 4))
            (get_or-set_ne out (j / 4) (i / 4) byte_of 0 (λ q. ground (arith, other)))
        ∙ sym (read_status-pair out i))
  ]

  pub read-written :
      (i : ℕ)
      → read_status out j ≡ 0
      → read_status (written j v out) i ≡ (if nat_eq j i then v else read_status out i)
  read-written i empty = pair_of_written i ∙ cases (Bool-cases (nat_eq (j / 4) (i / 4)))
    where
      same_byte :
          j / 4 ≡ i / 4
          → or_expected (get_or out (j / 4) 0) v (j % 4) (i % 4)
            ≡ (if nat_eq j i then v else read_status out i)
      same_byte q = elim (Bool-cases (nat_eq (j % 4) (i % 4))) [
        | inl e ↦
            let whole : nat_eq j i ≡ true = ground arith in
            rw (e, whole)
              (ap (λ t. bit_or t v) (sym (read_status-pair out j) ∙ empty) ∙ zero-or v hv)
        | inr e ↦
            let part : nat_eq j i ≡ false = ground arith in
            rw (e, part)
              (ap (λ t. pair_at (get_or out t 0) (i % 4)) q ∙ sym (read_status-pair out i))
      ]

      cases :
          (nat_eq (j / 4) (i / 4) ≡ true) ⊎ (nat_eq (j / 4) (i / 4) ≡ false)
          → (if nat_eq (j / 4) (i / 4)
              then or_expected (get_or out (j / 4) 0) v (j % 4) (i % 4)
              else read_status out i)
            ≡ (if nat_eq j i then v else read_status out i)
      cases (inl e) = rw e (same_byte ((nat_eq_iff _ _).0 e))
      cases (inr e) = let part : nat_eq j i ≡ false = ground arith in rw (e, part)
