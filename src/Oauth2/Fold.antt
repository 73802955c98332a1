-- ===== src/Oauth2/Fold.antt =====
-- equalFoldASCII of internal/oauth2/dpop.go
use fikua_lab_issuer.Platform.{bytes}
use fikua_lab_issuer.Prelude.{
  Bool, List, String, String-eq, [], ap, arith, ◌⊎◌, ◌≤◌, false, if◌then◌else◌, leb, length, nat_eq,
  refl, suc, true, ℕ, ◌&&◌, ◌+◌, ◌-◌, ◌↔◌, ◌∷◌, ◌≡◌,
}

unfoldable pub fold_byte : ℕ → ℕ
fold_byte c = if leb b'A' c && leb c b'Z' then c + (b'a' - b'A') else c

-- The loop over the bytes of two strings of one length.
unfoldable pub equal_fold_bytes : List ℕ → List ℕ → Bool
unfolding fold_byte
equal_fold_bytes [] [] = true
equal_fold_bytes (a ∷ as') (b ∷ bs) =
    if nat_eq (fold_byte a) (fold_byte b) then equal_fold_bytes as' bs else false
equal_fold_bytes _ _ = false

unfoldable pub equal_fold_ascii : String → String → Bool
unfolding equal_fold_bytes
equal_fold_ascii a b =
    if nat_eq (length (bytes a)) (length (bytes b))
    then equal_fold_bytes (bytes a) (bytes b)
    else false

-- One letter from A to Z, and the same letter from a to z.
pub IsUpperOf : ℕ → ℕ → Type 0
IsUpperOf a b = (65 ≤ a) × (a ≤ 90) × (b ≡ a + 32)

-- Two bytes that are the same, or the same letter of ASCII.
pub IsSameLetter : ℕ → ℕ → Type 0
IsSameLetter a b = (a ≡ b) ⊎ IsUpperOf a b ⊎ IsUpperOf b a

-- As many bytes, each the same as the other's at its place but for the case of letters.
abbrev pub AreSameLetters : List ℕ → List ℕ → Type 0
AreSameLetters [] [] = Unit {0}
AreSameLetters [] (b ∷ bs) = ⊥
AreSameLetters (a ∷ as') [] = ⊥
AreSameLetters (a ∷ as') (b ∷ bs) = IsSameLetter a b × AreSameLetters as' bs

fold_byte_iff : (a b : ℕ) → (nat_eq (fold_byte a) (fold_byte b) ≡ true) ↔ IsSameLetter a b
unfolding fold_byte IsSameLetter IsUpperOf
fold_byte_iff a b = ground arith

equal_fold_bytes_iff : (a b : List ℕ) → (equal_fold_bytes a b ≡ true) ↔ AreSameLetters a b
unfolding equal_fold_bytes
equal_fold_bytes_iff [] [] = ground arith
equal_fold_bytes_iff [] (b ∷ bs) = ((λ h. cc), λ h. absurd h)
equal_fold_bytes_iff (a ∷ as') [] = ((λ h. cc), λ h. absurd h)
equal_fold_bytes_iff (a ∷ as') (b ∷ bs) =
    ground (arith, fold_byte_iff a b, equal_fold_bytes_iff as' bs)

length-AreSameLetters : (a b : List ℕ) → AreSameLetters a b → length a ≡ length b
length-AreSameLetters [] [] h = refl
length-AreSameLetters [] (b ∷ bs) h = absurd h
length-AreSameLetters (a ∷ as') [] h = absurd h
length-AreSameLetters (a ∷ as') (b ∷ bs) (_, h) = ap suc (length-AreSameLetters as' bs h)

-- Two strings are equal for the comparison exactly if they have as many bytes and, at each place, the
-- same byte, or the same letter, one from A to Z (65 to 90) and one from a to z (32 above).
pub equal_fold_ascii_iff :
    (a b : String) → (equal_fold_ascii a b ≡ true) ↔ AreSameLetters (bytes a) (bytes b)
unfolding equal_fold_ascii
equal_fold_ascii_iff a b =
    ground
      (arith, equal_fold_bytes_iff (bytes a) (bytes b), length-AreSameLetters (bytes a) (bytes b))
