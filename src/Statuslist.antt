-- ===== src/Statuslist.antt =====
-- internal/statuslist/bitstring.go: two bits for each entry of the status list, packed in bytes. The
-- order of the range over the entries is the order of the list; `none` is a Go panic.
pub mod Bits
pub mod Slots
pub mod Readback
pub mod Token
use Prim.Native.Nat.{bit_and, bit_or}
use fikua_lab_issuer.Prelude.{
  List, Option, [], get_or, if◌then◌else◌, length, ltb, none, not, replicate, set, some, suc, ℕ,
  ◌%◌, ◌*◌, ◌-◌, ◌/◌, ◌^◌, ◌||◌, ◌∷◌,
}
use fikua_lab_issuer.Prelude.Dict.{Dict}
use fikua_lab_issuer.Prelude.Int.{negsuc, pos, sub_ℕ, wrap64, ℤ, ℤ-eq, ◌*ℤ◌, ◌+ℤ◌, ◌<ℤ◌}

-- `Bits`
abbrev pub width : ℤ
width = pos 2

-- Go's `/ 8` and `% 8`, which round towards zero, and `uint(...)`
abbrev div_8 : ℤ → ℤ
div_8 (pos n) = pos (n / 8)
div_8 (negsuc n) = sub_ℕ 0 (suc n / 8)

abbrev mod_8 : ℤ → ℤ
mod_8 (pos n) = pos (n % 8)
mod_8 (negsuc n) = sub_ℕ 0 (suc n % 8)

abbrev to_uint : ℤ → ℕ
to_uint (pos n) = n
to_uint (negsuc n) = 2 ^ 64 - suc n

-- `<<` on a uint8
abbrev shift_byte : ℕ → ℕ → ℕ
shift_byte x k = if ltb k 8 then x * 2 ^ k % 256 else 0

-- make([]byte, n)
abbrev make_bytes : ℤ → Option (List ℕ)
make_bytes (pos n) = some (replicate n 0)
make_bytes (negsuc n) = none

-- `out[i] |= mask`
abbrev or_byte : ℤ → ℕ → List ℕ → Option (List ℕ)
or_byte (pos i) mask out =
    if ltb i (length out) then some (set out i (bit_or (get_or out i 0) mask)) else none
or_byte (negsuc i) mask out = none

pack_entry : ℤ → ℤ → ℕ → List ℕ → Option (List ℕ)
pack_entry size idx status out =
    if idx <ℤ pos 0 || not (idx <ℤ size)
    then some out
    else or_byte (div_8 (wrap64 (idx *ℤ width)))
        (shift_byte (bit_and status 3) (to_uint (mod_8 (wrap64 (idx *ℤ width))))) out

pack_loop : ℤ → Dict ℤ ℕ → List ℕ → Option (List ℕ)
pack_loop size [] out = some out
pack_loop size ((idx, status) ∷ entries) out = elim (pack_entry size idx status out) [
  | none ↦ none
  | some out' ↦ pack_loop size entries out'
]

pack_into : ℤ → Dict ℤ ℕ → Option (List ℕ) → Option (List ℕ)
pack_into size entries none = none
pack_into size entries (some out) = pack_loop size entries out

unfoldable pub pack_bitstring : Dict ℤ ℕ → ℤ → Option (List ℕ)
unfolding pack_into pack_loop pack_entry
pack_bitstring entries size =
    let size' : ℤ = if size <ℤ pos 0 then pos 0 else size in
    pack_into size' entries (make_bytes (div_8 (wrap64 (wrap64 (size' *ℤ width) +ℤ pos 7))))

-- What a relying party reads at an index (§4.1): bits 2i and 2i + 1, the lowest first.
unfoldable pub read_status : List ℕ → ℕ → ℕ
read_status out i = get_or out (i * 2 / 8) 0 / 2 ^ (i * 2 % 8) % 4
