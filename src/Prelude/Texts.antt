-- ===== src/Prelude/Texts.antt =====
-- Texts by their characters: strings.Split at a one-character separator, and strings.Join.
use Prim.Native.Char.{Char, code}
use Prim.Native.String.{String}
use Prim.Native.String.append
use Prim.Native.Nat.{ℕ}
use mathlib.Core.Path.{◌≡◌}
use mathlib.Core.Bool.{Bool, true, false}
use mathlib.Core.List.{List, [], ◌∷◌}
use native.Mathlib.Omega.{arith}
use fikua_lab_issuer.Prelude.Tests.{if◌then◌else◌, nat_eq, concat}
use fikua_lab_issuer.Prelude.{String-eq}

abbrev add_char : Char → List String → List String
add_char c [] = (String.◌∷◌ c String.[]) ∷ []
add_char c (w ∷ ws) = String.◌∷◌ c w ∷ ws

-- strings.Split(s, sep), where `sep` is the code of the separator
unfoldable pub split : ℕ → String → List String
split sep String.[] = "" ∷ []
split sep (String.◌∷◌ c s) =
    let rest = split sep s in if nat_eq (code c) sep then "" ∷ rest else add_char c rest

-- `!strings.ContainsRune(s, sep)`
unfoldable pub lacks : ℕ → String → Bool
lacks sep String.[] = true
lacks sep (String.◌∷◌ c s) = let rest = lacks sep s in if nat_eq (code c) sep then false else rest

-- A text up to its first separator is the first part.
pub split-concat :
    (sep : ℕ) (s t : String) (ws : List String)
    → lacks sep s ≡ true
    → split sep t ≡ "" ∷ ws
    → split sep (concat s t) ≡ s ∷ ws
unfolding split lacks
split-concat sep String.[] t ws h k = rw (append.nil t) k
split-concat sep (String.◌∷◌ c s) t ws h k =
    rw (append.cons c s t) (ground (arith, split-concat sep s t ws))

-- A separator in front makes an empty first part.
pub split-separator :
    (c : Char) (t : String)
    → split (code c) (concat (String.◌∷◌ c String.[]) t) ≡ "" ∷ split (code c) t
unfolding split
split-separator c t = rw (append.cons c String.[] t) (rw (append.nil t) (ground arith))

-- strings.Join
unfoldable pub join : String → List String → String
join sep [] = ""
join sep (w ∷ []) = w
join sep (w ∷ v ∷ ws) = concat w (concat sep (join sep (v ∷ ws)))

-- strings.HasPrefix(s, prefix)
unfoldable pub has_prefix : String → String → Bool
has_prefix s String.[] = true
has_prefix String.[] (String.◌∷◌ d t) = false
has_prefix (String.◌∷◌ c s) (String.◌∷◌ d t) =
    let rest = has_prefix s t in if nat_eq (code c) (code d) then rest else false

-- strings.Contains(s, part)
unfoldable pub contains_text : String → String → Bool
unfolding has_prefix
contains_text String.[] part = has_prefix "" part
contains_text (String.◌∷◌ c s) part =
    let rest = contains_text s part in if has_prefix (String.◌∷◌ c s) part then true else rest
