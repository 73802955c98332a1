-- ===== src/Mdoc/Signature.antt =====
-- signRawP1363 of internal/mdoc/cose.go: the signature has 64 bytes, from which the two numbers can be
-- read back.
use mathlib.Core.Path.{subst}
use Prim.Native.Nat.pow
use fikua_lab_issuer.Mdoc.Cose.{big_endian}
use fikua_lab_issuer.Prelude.{
  List, [], arith, length, length-append, refl, suc, zero, ℕ, ◌%◌, ◌*◌, ◌++◌, ◌+◌, ◌/◌, ◌<◌, ◌^◌,
  ◌∙◌, ◌∷◌, ◌≡◌,
}
use fikua_lab_issuer.Mdoc.Cose.{abs, fill_bytes, parse_ecdsa_der, sign_raw_p1363}
use fikua_lab_issuer.Platform.{Platform}
use fikua_lab_issuer.Prelude.{drop, ltb→lt, lt→ltb, take}
use fikua_lab_issuer.Prelude.Int.{pos, ℤ, ℤ-eq}
use fikua_lab_issuer.Result.Exec.{and_then, and_then-ok, map_error, ok}
use fikua_lab_issuer.Prelude.{ap, drop-append, sym, take-append}
use fikua_lab_issuer.Result.Exec.{map_error-ok, ok_injective}

-- The number that a buffer holds, the highest byte first.
pub from_big_endian : ℕ → List ℕ → ℕ
from_big_endian acc [] = acc
from_big_endian acc (b ∷ bs) = from_big_endian (acc * 256 + b) bs

from_big_endian-append :
    (acc b : ℕ) (bs : List ℕ)
    → from_big_endian acc (bs ++ b ∷ []) ≡ from_big_endian acc bs * 256 + b
unfolding from_big_endian
from_big_endian-append acc b [] = refl
from_big_endian-append acc b (c ∷ cs) = from_big_endian-append (acc * 256 + c) b cs

pub length-big_endian : (n x : ℕ) → length (big_endian n x) ≡ n
unfolding big_endian
length-big_endian zero x = refl
length-big_endian (suc n) x =
    omega
      (arith, length-append (big_endian n (x / 256)) (x % 256 ∷ []), length-big_endian n (x / 256))

pow_suc : (n : ℕ) → 256 ^ suc n ≡ 256 ^ n * 256
pow_suc n = pow.suc 256 n

from_big_endian-big_endian : (n x : ℕ) → x < 256 ^ n → from_big_endian 0 (big_endian n x) ≡ x
unfolding big_endian from_big_endian
from_big_endian-big_endian zero x h = omega arith
from_big_endian-big_endian (suc n) x h =
    from_big_endian-append 0 (x % 256) (big_endian n (x / 256))
    ∙ rw (from_big_endian-big_endian n (x / 256) (omega (arith, pow_suc n))) (omega arith)

fill_bytes-ok :
    (n : ℕ) (x : ℤ) (out : List ℕ)
    → fill_bytes n x ≡ ok out
    → (abs x < 256 ^ n) × (out ≡ big_endian n (abs x))
unfolding fill_bytes
fill_bytes-ok n x out h = ground (arith, ltb→lt (abs x) (256 ^ n))

fill_bytes_fits : (n : ℕ) (x : ℤ) → abs x < 256 ^ n → fill_bytes n x ≡ ok (big_endian n (abs x))
unfolding fill_bytes
fill_bytes_fits n x h = rw (lt→ltb (abs x) (256 ^ n) h) refl

module _ {Key KeySet : Type 0} (p : Platform Key KeySet) where
  -- What stands in a signature of fixed width: the two numbers that the signer made.
  pub record IsRawSignature (message out : List ℕ) : Type 0 where
    pub der : List ℕ
    pub r : ℤ
    pub s : ℤ
    pub signed : p.sign_hash (p.sha256 message) ≡ ok der
    pub read_der : p.parse_signature der ≡ ok (r, s)
    pub size : length out ≡ 64
    pub first : from_big_endian 0 (take 32 out) ≡ abs r
    pub second : from_big_endian 0 (drop 32 out) ≡ abs s

  raw_halves :
      (r s : ℤ)
      → abs r < 256 ^ 32
      → abs s < 256 ^ 32
      → (length (big_endian 32 (abs r) ++ big_endian 32 (abs s)) ≡ 64)
        × (from_big_endian 0 (take 32 (big_endian 32 (abs r) ++ big_endian 32 (abs s))) ≡ abs r)
        × (from_big_endian 0 (drop 32 (big_endian 32 (abs r) ++ big_endian 32 (abs s))) ≡ abs s)
  raw_halves r s h k = (
    omega (
      arith,
      length-append (big_endian 32 (abs r)) (big_endian 32 (abs s)),
      length-big_endian 32 (abs r),
      length-big_endian 32 (abs s),
    ),
    ap (from_big_endian 0) (
          take-append 32 (big_endian 32 (abs r)) (big_endian 32 (abs s))
            (length-big_endian 32 (abs r)))
        ∙ from_big_endian-big_endian 32 (abs r) h,
    ap (from_big_endian 0) (
          drop-append 32 (big_endian 32 (abs r)) (big_endian 32 (abs s))
            (length-big_endian 32 (abs r)))
        ∙ from_big_endian-big_endian 32 (abs s) k,
  )

  -- A signature that is returned has 64 bytes; the first 32 are a number that the signer made for the
  -- hash of the data, and the last 32 are the other, both without their signs.
  pub sign_raw_p1363-IsRawSignature :
      (message out : List ℕ) → sign_raw_p1363 p message ≡ ok out → IsRawSignature message out
  unfolding sign_raw_p1363 parse_ecdsa_der
  sign_raw_p1363-IsRawSignature message out h =
      let (der, signed, h1) = and_then-ok _ _ out h in
      let ((r, s), parsing, h2) = and_then-ok _ _ out h1 in
      let (first, fits, h3) = and_then-ok _ _ out h2 in
      let (second, fits', h4) = and_then-ok _ _ out h3 in
      let (below, e) = fill_bytes-ok 32 r first fits in
      let (below', e') = fill_bytes-ok 32 s second fits' in
      let (size, one, two) =
        subst
          (λ o.
            (length o ≡ 64)
            × (from_big_endian 0 (take 32 o) ≡ abs r)
            × (from_big_endian 0 (drop 32 o) ≡ abs s))
          (sym (ap (λ t. t ++ second) e ∙ ap (λ t. big_endian 32 (abs r) ++ t) e')
            ∙ ok_injective _ _ h4)
          (raw_halves r s below below') in
      record {
        der = der;
        r = r;
        s = s;
        signed = signed;
        read_der = map_error-ok _ _ _ parsing;
        size = size;
        first = one;
        second = two;
      }

  -- For a signer that makes two numbers of at most 32 bytes for the hash of the data, there is a
  -- signature; it has 64 bytes, its first half is read as the one number and its second as the other.
  pub sign_raw_p1363_readable :
      (message der : List ℕ) (r s : ℕ)
      → p.sign_hash (p.sha256 message) ≡ ok der
      → p.parse_signature der ≡ ok (pos r, pos s)
      → r < 256 ^ 32
      → s < 256 ^ 32
      → (out : List ℕ) × (sign_raw_p1363 p message ≡ ok out)
        × (length out ≡ 64)
        × (from_big_endian 0 (take 32 out) ≡ r)
        × (from_big_endian 0 (drop 32 out) ≡ s)
  unfolding sign_raw_p1363 parse_ecdsa_der and_then map_error abs
  sign_raw_p1363_readable message der r s signed parsing h k = (
    big_endian 32 r ++ big_endian 32 s,
    rw signed
        (rw parsing (rw (fill_bytes_fits 32 (pos r) h) (rw (fill_bytes_fits 32 (pos s) k) refl))),
    (raw_halves (pos r) (pos s) h k).0,
    (raw_halves (pos r) (pos s) h k).1,
    (raw_halves (pos r) (pos s) h k).2,
  )
